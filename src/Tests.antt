-- ===== src/Tests.antt =====
-- Concrete states of the kernel, reached by its own operations, to which the theorems are applied.
pub mod Kernel
pub mod Console
pub mod Keyboard
pub mod Fat16
pub mod Mouse
pub mod Typing
pub mod Shell
pub mod Floppy
pub mod User
pub mod Interrupt
pub mod Play
use calm_os.Base.{
  ◌+◌, ◌≡◌, ◌≢◌, ◌<◌, ◌≤◌, ℤ, pos, negsuc, true, false, ◌&&◌, ◌==◌, none, some, [], ◌∷◌, ◌++◌, refl,
  arith, if◌then◌else◌,
}
use calm_os.Base.{insert_before, unlink}
use calm_os.Kernel.State.{ProcessState, Pending, Process, Queue, Sys, Word, is_zombie}
use calm_os.Kernel.Runnable.{push_runnable, remove_runnable, push_dead}
use calm_os.Kernel.Tick.{wake, wake_up, dispatch, elect, tick_scheduler, fix_scheduler}
use calm_os.Kernel.Tick.Laws.{Elects}
use calm_os.Kernel.Scheduler.{Program, start, start_background}
use calm_os.Kernel.Scheduler.Start.{start-Elects}
use calm_os.Kernel.Waitpid.{waitpid, wait_for_child, find_child}
use calm_os.Kernel.Waitpid.Laws.{waitpid-Elects}
use calm_os.Kernel.Stop.{
  valid_pid, exit, stop, terminate, unbind, unbind_children, detach, remove_asleep, trigger_parent,
  bury,
}
use calm_os.Kernel.Stop.Laws.{exit-Elects}
use calm_os.Kernel.Messages.{
  is_queue_empty, is_queue_full, ring_push, push_message, find_free, new_queue, pcreate, suspend,
  psend, send, receive, preceive,
}
use calm_os.Kernel.Messages.Ring.{IsRing, fresh-IsRing}
use calm_os.Kernel.Messages.Laws.{pcreate-Elects}
use calm_os.Kernel.Messages.Passing.{psend-Elects}
use calm_os.Kernel.Waiting.{push_waiting_process}
use calm_os.Kernel.Boot.{IsZeroed, setup_scheduler, pids, setup_scheduler-Elects}

abbrev pub blank : Process
blank = record {
  parent = none;
  name = 0;
  prio = pos 0;
  state = ProcessState.dead;
  wake = 0;
  retval = pos 0;
  child = pos 0;
  fid = 0;
  wait_retval = pos 0;
  message = pos 0;
  message_to = none;
  pending = Pending.in_user;
  esp = Word.value 0;
  kernel_stack = λ i. Word.value 0;
  user_stack = none;
  user_words = λ i. Word.value 0;
  ssize = 0;
}

abbrev pub unused : Queue
unused = record {
  front = 0;
  rear = 0;
  size = 0;
  capacity = 0;
  allocated = false;
  messages = λ i. pos 0;
  empty_process = [];
  full_process = [];
}

abbrev pub zeroed : Sys
zeroed = record {
  processes = λ p. blank;
  active_process = 0;
  runnable_process = [];
  dead_process = [];
  asleep_process = [];
  queues = λ f. unused;
  clock = 0;
  esp0 = 0;
  memory = λ a. pos 0;
  panicked = false;
}

pub zeroed-IsZeroed : IsZeroed zeroed
zeroed-IsZeroed = record {
  runnable = refl;
  asleep = refl;
  empty = λ f. refl;
  full = λ f. refl;
  sound = refl;
}

abbrev pub booted : Sys
booted = setup_scheduler zeroed

pub booted-Elects : Elects booted
booted-Elects = setup_scheduler-Elects zeroed zeroed-IsZeroed

-- A program of priority 2
abbrev pub program : ℤ → Program
program prio = record { pt_func = 64; ssize = 512; prio = prio; name = 7; arg = 0 }

-- Process 1 runs.
abbrev pub running : Sys
running = (start (program (pos 2)) booted).1

pub running-Elects : Elects running
running-Elects = start-Elects (program (pos 2)) booted booted-Elects.valid.ready

pub running-active : running.active_process ≡ 1
unfolding start start_background setup_scheduler pids fix_scheduler tick_scheduler wake_up wake
    elect dispatch push_runnable insert_before
running-active = refl

pub running-not_idle : running.active_process ≢ 0
running-not_idle e = ground (arith, running-active)

-- Process 1 starts a process of a lower priority, with pid 2.
abbrev pub parent : Sys
parent = (start (program (pos 1)) running).1

pub parent-Elects : Elects parent
parent-Elects = start-Elects (program (pos 1)) running running-Elects.valid.ready

pub parent-not_idle : parent.active_process ≢ 0
unfolding start start_background setup_scheduler pids fix_scheduler tick_scheduler wake_up wake
    elect dispatch push_runnable insert_before
parent-not_idle e = ground (arith)

-- It waits for any child, and the child runs and exits with 5.
abbrev pub waits : Sys
waits = (waitpid (negsuc 0) none parent).1

pub waits-Elects : Elects waits
waits-Elects = waitpid-Elects parent parent-Elects parent-not_idle (negsuc 0) none

pub waits-active : waits.active_process ≡ 2
unfolding start start_background setup_scheduler pids fix_scheduler tick_scheduler wake_up wake
    elect dispatch push_runnable insert_before waitpid wait_for_child remove_runnable find_child
    unlink
waits-active = refl

pub waits-not_idle : waits.active_process ≢ 0
waits-not_idle e = ground (arith, waits-active)

abbrev pub ended : Sys
ended = exit (pos 5) waits

pub ended-Elects : Elects ended
ended-Elects = exit-Elects (pos 5) waits waits-Elects waits-not_idle

pub ended-active :
    (ended.active_process ≡ 1)
    × (valid_pid (ended.processes 1).child ended ≡ some 2)
    × (is_zombie (ended.processes 2).state ≡ true)
unfolding start start_background setup_scheduler pids fix_scheduler tick_scheduler wake_up wake
    elect dispatch push_runnable insert_before waitpid wait_for_child remove_runnable find_child
    unlink exit stop terminate unbind unbind_children detach remove_asleep trigger_parent bury
    push_dead
ended-active = (refl, refl, refl)

pub ended-not_idle : ended.active_process ≢ 0
ended-not_idle e = ground (arith, ended-active.0)

-- It creates a queue of one place and sends 5 and 6. The second message has no place, and process 1
-- is suspended.
abbrev pub created : Sys
created = (pcreate (λ n. true) (pos 1) parent).1

abbrev pub sent : Sys
sent = (psend (pos 0) (pos 5) created).1

abbrev pub blocked : Sys
blocked = (psend (pos 0) (pos 6) sent).1

pub created-Elects : Elects created
created-Elects = pcreate-Elects (λ n. true) (pos 1) parent parent-Elects

pub created-not_idle : created.active_process ≢ 0
unfolding start start_background setup_scheduler pids fix_scheduler tick_scheduler wake_up wake
    elect dispatch push_runnable insert_before pcreate find_free new_queue psend send push_message
    ring_push suspend remove_runnable push_waiting_process unlink
created-not_idle e = ground arith

pub sent-Elects : Elects sent
sent-Elects = psend-Elects created created-Elects created-not_idle (pos 0) (pos 5)

pub sent-not_idle : sent.active_process ≢ 0
unfolding start start_background setup_scheduler pids fix_scheduler tick_scheduler wake_up wake
    elect dispatch push_runnable insert_before pcreate find_free new_queue psend send push_message
    ring_push suspend remove_runnable push_waiting_process unlink
sent-not_idle e = ground arith

pub blocked-Elects : Elects blocked
blocked-Elects = psend-Elects sent sent-Elects sent-not_idle (pos 0) (pos 6)

pub blocked-state :
    (blocked.active_process ≡ 2)
    × ((blocked.queues 0).full_process ≡ 1 ∷ [])
    × (is_queue_empty (blocked.queues 0) ≡ false)
unfolding start start_background setup_scheduler pids fix_scheduler tick_scheduler wake_up wake
    elect dispatch push_runnable insert_before pcreate find_free new_queue psend send push_message
    ring_push suspend remove_runnable push_waiting_process unlink
blocked-state = (refl, refl, refl)

pub blocked-not_idle : blocked.active_process ≢ 0
blocked-not_idle e = ground (arith, blocked-state.0)

pub created-queue :
    ((created.queues 0).size ≡ 0)
    × ((created.queues 0).front ≡ 0)
    × ((created.queues 0).rear ≡ 0)
    × ((created.queues 0).capacity ≡ 1)
    × ((created.queues 0).empty_process ≡ [])
unfolding start start_background setup_scheduler pids fix_scheduler tick_scheduler wake_up wake
    elect dispatch push_runnable insert_before pcreate find_free new_queue psend send push_message
    ring_push suspend remove_runnable push_waiting_process unlink
created-queue = (refl, refl, refl, refl, refl)

pub created-IsRing : IsRing (created.queues 0)
unfolding start start_background setup_scheduler pids fix_scheduler tick_scheduler wake_up wake
    elect dispatch push_runnable insert_before pcreate find_free new_queue psend send push_message
    ring_push suspend remove_runnable push_waiting_process unlink
created-IsRing = fresh-IsRing (created.queues 0) refl refl (omega arith) refl

pub blocked-IsRing : IsRing (blocked.queues 0)
unfolding start start_background setup_scheduler pids fix_scheduler tick_scheduler wake_up wake
    elect dispatch push_runnable insert_before pcreate find_free new_queue psend send push_message
    ring_push suspend remove_runnable push_waiting_process unlink
blocked-IsRing = record {
  bounded = omega arith;
  front_in = omega arith;
  rear_in = omega arith;
  meets = refl;
}

-- Process 1 of another kernel waits for a message on the empty queue.
abbrev pub hungry : Sys
hungry = (preceive (pos 0) (some 9) created).1

pub hungry-state :
    (hungry.active_process ≡ 2)
    × ((hungry.queues 0).empty_process ≡ 1 ∷ [])
    × (is_queue_empty (hungry.queues 0) ≡ true)
    × (is_queue_full (hungry.queues 0) ≡ false)
    × ((hungry.processes 1).message_to ≡ some 9)
unfolding start start_background setup_scheduler pids fix_scheduler tick_scheduler wake_up wake
    elect dispatch push_runnable insert_before pcreate find_free new_queue psend send push_message
    ring_push suspend remove_runnable push_waiting_process unlink preceive receive
hungry-state = (refl, refl, refl, refl, refl)
