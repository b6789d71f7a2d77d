-- ===== src/Kernel/Stop.antt =====
-- `stop`, `exit` and `kill` of kernel/scheduler.c.
pub mod Ready
pub mod Laws
use calm_os.Base.{
  ℕ, suc, zero, ◌+◌, ℤ, pos, Bool, false, ◌&&◌, ◌||◌, ◌==◌, ◌==ℤ◌, Option, none, some, not,
  if◌then◌else◌, ltb, leb_ℤ, unlink,
}
use calm_os.Kernel.State.{
  ProcessState, Sys, nbproc, nopid, is_zombie, is_dead, is_alive, is_wait_child, set_process, check,
}
use calm_os.Kernel.Runnable.{push_runnable, remove_runnable, push_dead}
use calm_os.Kernel.Tick.{fix_scheduler}
use calm_os.Kernel.Waiting.{Side, queue_remove_process, is_cons}

-- The index of a pid for which `test` holds of the state: VALID_PID and ALIVE_PID
abbrev pub checked_pid : (ProcessState → Bool) → ℤ → Sys → Option ℕ
checked_pid test (pos p) s = if ltb p nbproc && test (s.processes p).state then some p else none
checked_pid test (ℤ.negsuc p) s = none

abbrev pub alive_pid : ℤ → Sys → Option ℕ
alive_pid = checked_pid is_alive

abbrev pub valid_pid : ℤ → Sys → Option ℕ
valid_pid = checked_pid (λ st. not (is_dead st))

abbrev pub is_parent : ℕ → Option ℕ → Bool
is_parent p none = false
is_parent p (some q) = q == p

-- One round of the loop that unbinds the children
unfoldable pub unbind : ℕ → ℕ → Sys → Sys
unbind p i s =
    if is_parent p (s.processes i).parent
    then if is_zombie (s.processes i).state
      then push_dead i s
      else set_process i (record (s.processes i) { parent = none }) s
    else s

-- The loop over the table, with the rounds that are left
unfoldable pub unbind_children : ℕ → ℕ → ℕ → Sys → Sys
unfolding unbind
unbind_children p zero i s = s
unbind_children p (suc n) i s = unbind_children p n (i + 1) (unbind p i s)

-- Remove from wait clock queue
unfoldable pub remove_asleep : ℕ → Sys → Sys
remove_asleep p s = record (check (is_cons s.asleep_process) s) {
  asleep_process = unlink p s.asleep_process;
}

-- The switch on the state of the stopped process
unfoldable pub detach : ProcessState → ℕ → Sys → Sys
unfolding remove_asleep
detach ProcessState.asleep p s = remove_asleep p s
detach ProcessState.wait_queue_empty p s = queue_remove_process Side.empty p s
detach ProcessState.wait_queue_full p s = queue_remove_process Side.full p s
detach _ p s = s

abbrev pub waits_for : ℕ → ℕ → Sys → Bool
waits_for q p s =
    is_wait_child (s.processes q).state
    && ((s.processes q).child ==ℤ nopid || (s.processes q).child ==ℤ pos p)

-- Trigger waiting parent
unfoldable pub trigger_parent : ℕ → ℕ → Sys → Sys
trigger_parent q p s =
    if waits_for q p s
    then push_runnable q (set_process q (record (s.processes q) { child = pos p }) s)
    else s

abbrev pub make_zombie : ℕ → ℤ → Sys → Sys
make_zombie p v s =
    set_process p (record (s.processes p) { state = ProcessState.zombie; retval = v }) s

-- The end of the stopped process: reusable at once, or a zombie for its parent
unfoldable pub bury : Option ℕ → ℕ → ℤ → Sys → Sys
unfolding trigger_parent
bury none p v s = push_dead p s
bury (some q) p v s = trigger_parent q p (make_zombie p v s)

-- `stop` behind its guard, up to the call of the scheduler
unfoldable pub terminate : ℕ → ℤ → Sys → Sys
unfolding unbind_children detach bury
terminate p v s =
    let t = unbind_children p nbproc 0 s in
    let u = remove_runnable p (detach (t.processes p).state p t) in
    bury (u.processes p).parent p v u

stop_checked : Option ℕ → ℤ → Sys → ℤ × Sys
unfolding terminate
stop_checked none v s = (nopid, s)
stop_checked (some p) v s = (v, fix_scheduler (terminate p v s))

-- Any process termination (kill, exit, return)
unfoldable pub stop : ℤ → ℤ → Sys → ℤ × Sys
unfolding stop_checked
stop pid v s = stop_checked (alive_pid pid s) v s

-- The caller never returns.
unfoldable pub exit : ℤ → Sys → Sys
exit v s = (stop (pos s.active_process) v s).1

unfoldable pub kill : ℤ → Sys → ℤ × Sys
kill pid s = if leb_ℤ pid (pos 0) then (nopid, s) else stop pid (pos 0) s
