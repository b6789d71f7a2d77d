-- ===== src/Kernel/Waiting.antt =====
-- The lists of processes that wait on a message queue, of kernel/queues.c. The C functions take the
-- address of a list's head; here it is given by the queue and the side.
pub mod Shape
pub mod Wakeup
use calm_os.Base.{
  ℕ, suc, zero, Bool, true, false, ◌||◌, List, [], ◌∷◌, negsuc, if◌then◌else◌, insert_before,
  unlink,
}
use calm_os.Kernel.State.{
  ProcessState, Queue, Sys, is_wait_empty, is_wait_full, set_process, set_queue, check,
}
use calm_os.Kernel.Runnable.{push_runnable, higher_prio}
use calm_os.Kernel.Tick.{fix_scheduler}

pub data Side : Type 0 where
  empty full : Side

abbrev pub list_of : Side → Queue → List ℕ
list_of Side.empty q = q.empty_process
list_of Side.full q = q.full_process

-- *head
abbrev pub waiting : Side → ℕ → Sys → List ℕ
waiting side f s = list_of side (s.queues f)

abbrev pub with_waiting : Side → List ℕ → Queue → Queue
with_waiting Side.empty xs q = record q { empty_process = xs }
with_waiting Side.full xs q = record q { full_process = xs }

-- *head = xs
abbrev pub set_waiting : Side → ℕ → List ℕ → Sys → Sys
set_waiting side f xs s = set_queue f (with_waiting side xs (s.queues f)) s

abbrev pub is_waiting : ProcessState → Bool
is_waiting st = is_wait_empty st || is_wait_full st

abbrev pub is_cons : List ℕ → Bool
is_cons [] = false
is_cons (x ∷ xs) = true

-- Add process to waiting queue by priority
unfoldable pub push_waiting_process : Side → ℕ → ℕ → Sys → Sys
push_waiting_process side f p s =
    let t = check (is_waiting (s.processes p).state) s in
    set_waiting side f (insert_before (higher_prio s p) p (waiting side f s)) t

-- Remove waiting process from queue
unfoldable pub pop_waiting_process : Side → ℕ → ℕ → Sys → Sys
pop_waiting_process side f p s =
    let t = check (is_cons (waiting side f s)) (check (is_waiting (s.processes p).state) s) in
    set_waiting side f (unlink p (waiting side f s)) t

-- The head of the list goes to the runnable ones.
unfoldable pub wake_head : Side → ℕ → ℕ → List ℕ → Sys → Sys
wake_head side f p ps s = set_waiting side f ps (push_runnable p s)

unfoldable pub wakeup_first : Side → ℕ → List ℕ → Sys → Sys
wakeup_first side f [] s = check false s
wakeup_first side f (p ∷ ps) s =
    fix_scheduler (wake_head side f p ps (check (is_waiting (s.processes p).state) s))

-- Wakeup first process in list
unfoldable pub wakeup_first_process : Side → ℕ → Sys → Sys
unfolding wakeup_first
wakeup_first_process side f s = wakeup_first side f (waiting side f s) s

-- *ps->state_attr.wait_queue.retval = -1
abbrev pub fail_wait : ℕ → Sys → Sys
fail_wait p s = set_process p (record (s.processes p) { wait_retval = negsuc 0 }) s

unfoldable pub wakeup_all : Side → ℕ → List ℕ → Sys → Sys
wakeup_all side f [] s = s
wakeup_all side f (p ∷ ps) s = wakeup_all side f ps (wake_head side f p ps (fail_wait p s))

-- Wakeup all processes in list (on error)
unfoldable pub wakeup_all_processes : Side → ℕ → Sys → Sys
unfolding wakeup_all
wakeup_all_processes side f s = wakeup_all side f (waiting side f s) s

abbrev pub reorder : Side → ℕ → ℕ → Sys → Sys
reorder side f p s = push_waiting_process side f p (pop_waiting_process side f p s)

-- queue_reorder_empty_process and queue_reorder_full_process
unfoldable pub queue_reorder_process : Side → ℕ → Sys → Sys
unfolding push_waiting_process pop_waiting_process
queue_reorder_process side p s =
    reorder side (s.processes p).fid p (check (is_waiting (s.processes p).state) s)

-- queue_remove_empty_process and queue_remove_full_process
unfoldable pub queue_remove_process : Side → ℕ → Sys → Sys
unfolding pop_waiting_process
queue_remove_process side p s = pop_waiting_process side (s.processes p).fid p s

-- count_processes: the length of a list, counted by its walk
unfoldable pub count_processes : List ℕ → ℕ
count_processes [] = zero
count_processes (p ∷ ps) = suc (count_processes ps)
