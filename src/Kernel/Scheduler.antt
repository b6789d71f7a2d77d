-- ===== src/Kernel/Scheduler.antt =====
-- The process calls of kernel/scheduler.c for priorities, creation and sleep. What stands behind a
-- call of the scheduler in the C text is the result here, since it changes no state.
pub mod Prio
pub mod Start
pub mod Sleep
use calm_os.Base.{
  ℕ, ◌+◌, ◌*◌, ◌/◌, ◌%◌, ◌^◌, ◌-◌, ℤ, pos, negsuc, Bool, ◌&&◌, ◌||◌, ◌==◌, ◌==ℤ◌, Option, none,
  some, List, [], ◌∷◌, if◌then◌else◌, ltb, leb, ltb_ℤ, leb_ℤ, insert_before,
}
use calm_os.Kernel.State.{
  ProcessState, Process, value, code, proc_end, proc_end_user, jmp_usermode, kernel_stack_at,
  user_stack_at, Sys, nbstack, nopid, maxprio, is_dead, set_process, set_state, check, update,
}
use calm_os.Kernel.Runnable.{push_runnable, remove_runnable}
use calm_os.Kernel.Tick.{fix_scheduler, tick_scheduler}
use calm_os.Kernel.Waiting.{Side, queue_reorder_process}
use calm_os.Kernel.Stop.{alive_pid, valid_pid}

-- The process of a changed priority goes where it belongs.
unfoldable pub replace : ProcessState → ℕ → Sys → Sys
replace ProcessState.runnable p s =
    push_runnable p (set_state p ProcessState.zombie (remove_runnable p s))
replace ProcessState.wait_queue_empty p s = queue_reorder_process Side.empty p s
replace ProcessState.wait_queue_full p s = queue_reorder_process Side.full p s
replace _ p s = s

abbrev pub set_prio : ℕ → ℤ → Sys → Sys
set_prio p prio s = set_process p (record (s.processes p) { prio = prio }) s

-- `chprio` behind its guards, up to the call of the scheduler
unfoldable pub change_prio : ℕ → ℤ → Sys → Sys
unfolding replace
change_prio p prio s = replace (s.processes p).state p (set_prio p prio s)

chprio_checked : Option ℕ → ℤ → Sys → ℤ × Sys
unfolding change_prio
chprio_checked none prio s = (nopid, s)
chprio_checked (some p) prio s =
    if leb_ℤ prio (pos 0) || ltb_ℤ (pos maxprio) prio
    then (negsuc 1, s)
    else if (s.processes p).prio ==ℤ prio
    then (prio, s)
    else ((s.processes p).prio, fix_scheduler (change_prio p prio s))

unfoldable pub chprio : ℤ → ℤ → Sys → ℤ × Sys
unfolding chprio_checked
chprio pid prio s = chprio_checked (alive_pid pid s) prio s

unfoldable pub getprio : ℤ → Sys → ℤ
getprio pid s = elim (alive_pid pid s) [ none ↦ nopid | some p ↦ (s.processes p).prio ]

-- 0 is the null pointer.
unfoldable pub getpname : ℤ → Sys → ℕ
getpname pid s = elim (valid_pid pid s) [ none ↦ 0 | some p ↦ (s.processes p).name ]

-- What a new process is given: its code, size of stack, priority, name and argument.
pub record Program : Type 0 where
  pub pt_func : ℕ
  pub ssize : ℕ
  pub prio : ℤ
  pub name : ℕ
  pub arg : ℕ

abbrev pub kernel_process : ℕ → Program → Process → Sys → Process
kernel_process p g r s = record r {
  name = g.name;
  prio = g.prio;
  parent = some s.active_process;
  ssize = 0;
  user_stack = none;
  kernel_stack =
      update (update (update r.kernel_stack (nbstack - 3) (code g.pt_func)) (nbstack - 2) proc_end)
        (nbstack - 1) (value g.arg);
  esp = kernel_stack_at p (nbstack - 3);
}

start_head : List ℕ → Program → Sys → ℤ × Sys
start_head [] g s = (nopid, s)
start_head (p ∷ rest) g s =
    let t = check (is_dead (s.processes p).state) (record s { dead_process = rest }) in
    (pos p, push_runnable p (set_process p (kernel_process p g (t.processes p) t) t))

unfoldable pub start_background : Program → Sys → ℤ × Sys
unfolding start_head
start_background g s =
    if ltb nbstack (g.ssize / 4) then (negsuc 1, s) else start_head s.dead_process g s

unfoldable pub start : Program → Sys → ℤ × Sys
unfolding start_background
start g s = let (pid, t) = start_background g s in (pid, fix_scheduler t)

-- MAXSTACK
abbrev pub maxstack : ℕ
maxstack = 2 ^ 30

-- The size of a user stack: room for the first frames, then what is meant to align it
unfoldable pub user_stack_size : ℕ → ℕ
user_stack_size ssize = let n = ssize + 20 * 4 in n + n % 4

abbrev pub user_process : ℕ → Program → ℕ → Option ℕ → Process → Sys → Process
user_process p g size stack r s = record r {
  name = g.name;
  prio = g.prio;
  parent = some s.active_process;
  ssize = size;
  user_stack = stack;
}

abbrev pub user_frames : ℕ → Program → ℕ → Process → Process
user_frames p g n r = record r {
  user_words = update (update r.user_words (n - 2) proc_end_user) (n - 1) (value g.arg);
  kernel_stack =
      update
        (update
          (update
            (update
              (update (update r.kernel_stack (nbstack - 6) jmp_usermode) (nbstack - 5)
                (code g.pt_func))
              (nbstack - 4) (value 0x43))
            (nbstack - 3) (value 0x202))
          (nbstack - 2) (user_stack_at p (n - 2)))
        (nbstack - 1) (value 0x4b);
  esp = kernel_stack_at p (nbstack - 6);
}

-- `alloc` answers user_stack_alloc; when it fails the process taken off the stack is not put back.
start_user_head : (alloc : ℕ → Option ℕ) → List ℕ → Program → Sys → ℤ × Sys
unfolding user_stack_size
start_user_head alloc [] g s = (nopid, s)
start_user_head alloc (p ∷ rest) g s =
    let t = check (is_dead (s.processes p).state) (record s { dead_process = rest }) in
    let size = user_stack_size g.ssize in
    let r = user_process p g size (alloc size) (t.processes p) t in
    elim (alloc size) [
      | none ↦ (negsuc 0, set_process p r t)
      | some a ↦ (pos p, push_runnable p (set_process p (user_frames p g (size / 4) r) t))
    ]

unfoldable pub start_user_background : (alloc : ℕ → Option ℕ) → Program → Sys → ℤ × Sys
unfolding start_user_head
start_user_background alloc g s =
    if ltb maxstack g.ssize then (negsuc 1, s) else start_user_head alloc s.dead_process g s

unfoldable pub start_user : (alloc : ℕ → Option ℕ) → Program → Sys → ℤ × Sys
unfolding start_user_background
start_user alloc g s = let (pid, t) = start_user_background alloc g s in (pid, fix_scheduler t)

-- The sleepers stand by rising time; a new one goes before the first that is not earlier.
abbrev pub not_earlier : Sys → ℕ → ℕ → Bool
not_earlier s p q = leb (s.processes p).wake (s.processes q).wake

unfoldable pub fall_asleep : ℕ → ℕ → Sys → Sys
fall_asleep p clock s =
    let t = remove_runnable p s in
    let u =
      set_process p (record (t.processes p) { state = ProcessState.asleep; wake = clock }) t in
    record u { asleep_process = insert_before (not_earlier u p) p u.asleep_process }

unfoldable pub wait_clock : ℕ → Sys → Sys
unfolding fall_asleep
wait_clock clock s = tick_scheduler (fall_asleep s.active_process clock s)
