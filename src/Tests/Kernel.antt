-- ===== src/Tests/Kernel.antt =====
-- The theorems on the kernel, applied to concrete states.
use calm_os.Base.{◌*◌, ◌≡◌, pos, length, map, take, true, some, [], ◌∷◌, ◌++◌, refl, arith}
use calm_os.Base.{insert_before, unlink}
use calm_os.Kernel.Machine.Turns.{Turns, interrupts, interrupts-Turns}
use calm_os.Kernel.State.{Sys, store, update}
use calm_os.Kernel.Runnable.{push_runnable, remove_runnable}
use calm_os.Kernel.Tick.{wake, wake_up, dispatch, elect, tick_scheduler, fix_scheduler}
use calm_os.Kernel.Ready.{IsAwake, IsValid}
use calm_os.Kernel.Tick.Keeps.{may_run}
use calm_os.Kernel.Tick.Laws.{Elects, tick_scheduler-Elects}
use calm_os.Kernel.Scheduler.{start, start_background}
use calm_os.Kernel.Waitpid.{returned}
use calm_os.Kernel.Messages.{
  is_queue_full, ring_push, push_message, find_free, new_queue, pcreate, suspend, psend, send,
  receive,
}
use calm_os.Kernel.Messages.Ring.{contents}
use calm_os.Kernel.Messages.Fifo.{send-append, send-hands_over, receive-oldest, moves_up}
use calm_os.Kernel.Waiting.{push_waiting_process}
use calm_os.Kernel.Scheduler.Start.{start-Elects}
use calm_os.Kernel.Boot.{setup_scheduler, pids}
use calm_os.Kernel.Machine.{Reach, Step, perform, kernel_start, tic_clock, Runs, calls_pcreate}
use calm_os.Kernel.Machine.Laws.{kernel_start-Reach, Reach-Elects}
use calm_os.Kernel.State.{nbproc, is_dead}
use calm_os.Kernel.Status.{process_status, processes_status}
use calm_os.Kernel.Status.Laws.{used, processes_status_lem}
use calm_os.Kernel.Syscall.{Env, Reply, user_it}
use calm_os.Kernel.Syscall.Laws.{user_it-Elects}
use calm_os.Base.{leb}
use calm_os.Tests.{
  running, running-Elects, created-Elects, created-not_idle, zeroed, zeroed-IsZeroed, program,
  parent, parent-Elects, parent-not_idle, created, blocked, blocked-state, created-IsRing,
  blocked-IsRing, hungry, hungry-state,
}

kernel_start-Reach_example :
    Runs (tic_clock (kernel_start (λ n. true) (λ n. some n) (program (pos 1)) zeroed))
kernel_start-Reach_example =
    kernel_start-Reach (λ n. true) (λ n. some n) (program (pos 1)) zeroed
      (tic_clock (kernel_start (λ n. true) (λ n. some n) (program (pos 1)) zeroed)) zeroed-IsZeroed
      (Reach.next Reach.here Step.interrupt)

Reach-Elects_example : Elects (tic_clock (perform (calls_pcreate (λ n. true) (pos 1)) parent))
Reach-Elects_example =
    Reach-Elects parent (tic_clock (perform (calls_pcreate (λ n. true) (pos 1)) parent))
      parent-Elects
      (Reach.next
        (Reach.next Reach.here (Step.call (calls_pcreate (λ n. true) (pos 1)) parent-not_idle))
        Step.interrupt)

tick_scheduler-Elects_example : Elects (tick_scheduler parent) × IsAwake (tick_scheduler parent)
tick_scheduler-Elects_example = tick_scheduler-Elects parent parent-Elects.valid.ready

receive-oldest_example :
    ((receive 0 (some 9) blocked).0 ≡ returned (pos 0))
    × (((receive 0 (some 9) blocked).1).memory
        ≡ (store (some 9) ((blocked.queues 0).messages (blocked.queues 0).front) blocked).memory)
    × (contents (blocked.queues 0)
          ++ moves_up (is_queue_full (blocked.queues 0)) (blocked.queues 0) blocked.processes
        ≡ (blocked.queues 0).messages (blocked.queues 0).front
          ∷ contents (((receive 0 (some 9) blocked).1).queues 0))
receive-oldest_example = receive-oldest 0 (some 9) blocked blocked-IsRing blocked-state.2

send-append_example :
    ((send 0 (pos 5) created).0 ≡ returned (pos 0))
    × (contents (((send 0 (pos 5) created).1).queues 0) ≡ contents (created.queues 0) ++ pos 5 ∷ [])
unfolding start start_background setup_scheduler pids fix_scheduler tick_scheduler wake_up wake
    elect dispatch push_runnable insert_before pcreate find_free new_queue psend send push_message
    ring_push suspend remove_runnable push_waiting_process unlink
send-append_example = send-append 0 created (pos 5) created-IsRing refl refl

send-hands_over_example :
    ((send 0 (pos 5) hungry).0 ≡ returned (pos 0))
    × (((send 0 (pos 5) hungry).1).memory ≡ update hungry.memory 9 (pos 5))
    × (may_run 1 (send 0 (pos 5) hungry).1 ≡ true)
    × ((((send 0 (pos 5) hungry).1).queues 0).empty_process ≡ [])
    × (contents (((send 0 (pos 5) hungry).1).queues 0) ≡ contents (hungry.queues 0))
send-hands_over_example =
    send-hands_over 0 hungry (pos 5) 1 9 [] hungry-state.3 hungry-state.2 hungry-state.1
      hungry-state.4

abbrev env : Env
env = record { is_user = λ p. leb 4096 p; mem_alloc = λ n. true; user_stack_alloc = λ n. some n }

user_it-Elects_example : (r : Reply) × (user_it env 45 0 5 0 0 0 created ≡ some r) × Elects r.sys
user_it-Elects_example =
    user_it-Elects env 45 0 5 0 0 0 created refl created-Elects created-not_idle

-- An array of two entries, and three processes that are not dead
processes_status_lem_example :
    ((processes_status (pos 2) parent).0
      ≡ pos (length (used (λ p. is_dead (parent.processes p).state) nbproc 0)))
    × ((processes_status (pos 2) parent).1
        ≡ map
            (process_status parent)
            (take 2 (used (λ p. is_dead (parent.processes p).state) nbproc 0)))
processes_status_lem_example = processes_status_lem 2 parent

-- Processes 1 and 2 have the priority 2.
abbrev shared : Sys
shared = (start (program (pos 2)) running).1

shared-Elects : Elects shared
shared-Elects = start-Elects (program (pos 2)) running running-Elects.valid.ready

shared-Turns : Turns (pos 2) (2 ∷ []) (0 ∷ []) 100 shared
unfolding start start_background setup_scheduler pids fix_scheduler tick_scheduler wake_up wake
    elect dispatch push_runnable insert_before
shared-Turns = record {
  valid = shared-Elects.valid;
  runnable = refl;
  active = refl;
  same = (refl, tt);
  below = (refl, tt);
  asleep = tt;
}

shared-active : (shared.active_process ≡ 1) × (shared.clock ≡ 0)
unfolding start start_background setup_scheduler pids fix_scheduler tick_scheduler wake_up wake
    elect dispatch push_runnable insert_before
shared-active = (refl, refl)

interrupts-Turns_example :
    ((interrupts (4 * 1) shared).active_process ≡ 2) × IsValid (interrupts (4 * 1) shared)
interrupts-Turns_example =
    interrupts-Turns 1 (pos 2) (2 ∷ []) (0 ∷ []) 100 2 shared shared-Turns
      (omega (arith, shared-active.1)) (omega (arith, shared-active.1)) (omega arith) refl
