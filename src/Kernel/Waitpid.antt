-- ===== src/Kernel/Waitpid.antt =====
-- `waitpid` of kernel/scheduler.c.
pub mod Laws
use calm_os.Base.{
  ℕ, suc, zero, ◌+◌, ℤ, pos, negsuc, Bool, true, false, ◌&&◌, ◌||◌, Option, none, some, not,
  if◌then◌else◌, leb_ℤ,
}
use calm_os.Kernel.State.{
  ProcessState, Pending, Sys, nbproc, nopid, is_zombie, is_dead, set_process, check, store,
}
use calm_os.Kernel.Runnable.{remove_runnable, push_dead}
use calm_os.Kernel.Tick.{tick_scheduler}
use calm_os.Kernel.Stop.{valid_pid, is_parent}

-- A call that comes back with a value, or that suspends its process.
pub data Outcome : Type 0 where
  returned : ℤ → Outcome
  suspended : Outcome

abbrev pub is_child : ℕ → ℕ → Sys → Bool
is_child p i s = is_parent p (s.processes i).parent && not (is_dead (s.processes i).state)

-- The search of the table for a child, a zombie if there is one, with the rounds that are left
unfoldable pub find_child : ℕ → ℕ → ℕ → Bool → Sys → Option ℕ × Bool
find_child p zero i has_child s = (none, has_child)
find_child p (suc n) i has_child s =
    let rest = find_child p n (i + 1) (has_child || is_child p i s) s in
    if is_child p i s && is_zombie (s.processes i).state then (some i, true) else rest

-- The zombie's value is handed over and its pid freed.
unfoldable pub reap : ℕ → Option ℕ → Sys → Sys
reap c to s = push_dead c (store to (s.processes c).retval s)

-- The caller is suspended until a child of its ends.
unfoldable pub wait_for_child : ℕ → ℤ → Option ℕ → Sys → Sys
wait_for_child p pid to s =
    let t = remove_runnable p s in
    set_process p
      (record (t.processes p) {
        state = ProcessState.wait_child;
        child = pid;
        pending = Pending.waiting to;
      })
      t

abbrev conclude : ℤ → Option ℕ → Option ℕ → Sys → Outcome × Sys
conclude pid to none s = (suspended, tick_scheduler (wait_for_child s.active_process pid to s))
conclude pid to (some c) s = (returned (pos c), reap c to s)

-- A pid is given.
wait_one : Option ℕ → ℤ → Option ℕ → Sys → Outcome × Sys
unfolding wait_for_child reap
wait_one none pid to s = (returned nopid, s)
wait_one (some c) pid to s =
    if is_parent s.active_process (s.processes c).parent
    then conclude pid to (if is_zombie (s.processes c).state then some c else none) s
    else (returned (negsuc 1), s)

-- Any child will do.
wait_any : Option ℕ × Bool → ℤ → Option ℕ → Sys → Outcome × Sys
unfolding wait_for_child reap
wait_any (none, false) pid to s = (returned (negsuc 1), s)
wait_any (none, true) pid to s = conclude pid to none s
wait_any (some c, has_child) pid to s = conclude pid to (some c) s

unfoldable pub waitpid : ℤ → Option ℕ → Sys → Outcome × Sys
unfolding wait_one wait_any find_child
waitpid pid to s =
    if leb_ℤ (pos 0) pid
    then wait_one (valid_pid pid s) pid to s
    else wait_any (find_child s.active_process nbproc 0 false s) pid to s

resume_child : Option ℕ → Option ℕ → Sys → ℤ × Sys
unfolding reap
resume_child none to s = (nopid, check false s)
resume_child (some c) to s = (pos c, reap c to (check (is_zombie (s.processes c).state) s))

abbrev set_pending : ℕ → Pending → Sys → Sys
set_pending p k s = set_process p (record (s.processes p) { pending = k }) s

-- The rest of `waitpid`, when a child has written its pid and the caller runs again
unfoldable pub resume_waitpid : Option ℕ → Sys → ℤ × Sys
unfolding resume_child
resume_waitpid to s =
    let p = s.active_process in
    let (r, t) = resume_child (valid_pid (s.processes p).child s) to s in
    (r, set_pending p Pending.in_user t)
