-- ===== src/Kernel/Messages.antt =====
-- The message queues of kernel/queues.c. A call that blocks is cut in two: `psend` or `preceive`
-- suspends the process, and `resume_wait` returns its value when it runs again. mem_alloc is given
-- by its answer, and memory that is freed is not looked at again.
pub mod Ring
pub mod Fifo
pub mod Laws
pub mod Passing
use calm_os.Base.{
  ℕ, suc, zero, ◌+◌, ◌-◌, ◌%◌, ℤ, pos, negsuc, Bool, true, false, ◌&&◌, ◌||◌, ◌==◌, Option, none,
  some, List, [], ◌∷◌, not, if◌then◌else◌, ltb, sub_ℕ,
}
use calm_os.Kernel.State.{
  ProcessState, Queue, Pending, Sys, nbqueue, set_process, set_queue, check, store, update,
}
use calm_os.Kernel.Runnable.{remove_runnable}
use calm_os.Kernel.Tick.{fix_scheduler, tick_scheduler}
use calm_os.Kernel.Waiting.{
  Side, push_waiting_process, wakeup_first_process, wakeup_all_processes, count_processes, is_cons,
}
use calm_os.Kernel.Waitpid.{Outcome, returned, suspended}

abbrev pub is_queue_full : Queue → Bool
is_queue_full q = q.size == q.capacity

abbrev pub is_queue_empty : Queue → Bool
is_queue_empty q = q.size == 0

abbrev pub is_queue_free : Queue → Bool
is_queue_free q = q.capacity == 0

-- VALID_FID
abbrev pub valid_fid : ℤ → Sys → Option ℕ
valid_fid (pos f) s = if ltb f nbqueue && not (is_queue_free (s.queues f)) then some f else none
valid_fid (negsuc f) s = none

-- The ring behind `push_message`
unfoldable pub ring_push : ℤ → Queue → Queue
ring_push v q =
    let rear = (q.rear + 1) % q.capacity in
    record q { rear = rear; messages = update q.messages rear v; size = q.size + 1 }

-- The ring behind `pop_message`
unfoldable pub ring_pop : Queue → Queue
ring_pop q = record q { front = (q.front + 1) % q.capacity; size = q.size - 1 }

-- Add message in queue
unfoldable pub push_message : ℕ → ℤ → Sys → Sys
unfolding ring_push
push_message f v s =
    set_queue f (ring_push v (s.queues f)) (check (not (is_queue_full (s.queues f))) s)

-- Extract message from queue
unfoldable pub pop_message : ℕ → Sys → ℤ × Sys
unfolding ring_pop
pop_message f s = (
  (s.queues f).messages (s.queues f).front,
  set_queue f (ring_pop (s.queues f)) (check (not (is_queue_empty (s.queues f))) s),
)

unfoldable pub queue_count : Queue → ℤ
unfolding count_processes
queue_count q =
    if is_queue_empty q
    then sub_ℕ 0 (count_processes q.empty_process)
    else pos (q.size + count_processes q.full_process)

unfoldable pub pcount : ℤ → Option ℕ → Sys → ℤ × Sys
unfolding queue_count
pcount fid to s = elim (valid_fid fid s) [
  | none ↦ (negsuc 0, s)
  | some f ↦ (pos 0, store to (queue_count (s.queues f)) s)
]

-- The search for a free queue, with the rounds that are left
unfoldable pub find_free : ℕ → ℕ → Sys → Option ℕ
find_free zero f s = none
find_free (suc n) f s =
    let rest = find_free n (f + 1) s in if is_queue_free (s.queues f) then some f else rest

-- When the allocation fails the capacity has been written already.
unfoldable pub new_queue : ℕ → Bool → Queue → Queue
new_queue count allocated q =
    if allocated
    then record q { capacity = count; allocated = true; rear = count - 1; front = 0; size = 0 }
    else record q { capacity = count; allocated = false }

create : Option ℕ → ℕ → Bool → Sys → ℤ × Sys
unfolding new_queue
create none count allocated s = (negsuc 0, s)
create (some f) count allocated s =
    (if allocated then pos f else negsuc 1, set_queue f (new_queue count allocated (s.queues f)) s)

unfoldable pub pcreate : (alloc : ℕ → Bool) → ℤ → Sys → ℤ × Sys
unfolding create find_free
pcreate alloc (negsuc n) s = (negsuc 2, s)
pcreate alloc (pos n) s =
    if n == 0 || ltb 10000 n
    then (negsuc 2, s)
    else create (find_free nbqueue 0 s) n (alloc (n + n + n + n)) s

-- Both lists are woken with an error.
unfoldable pub fail_all : ℕ → Sys → Sys
fail_all f s =
    fix_scheduler (wakeup_all_processes Side.full f (wakeup_all_processes Side.empty f s))

unfoldable pub pdelete : ℤ → Sys → ℤ × Sys
unfolding fail_all
pdelete fid s = elim (valid_fid fid s) [
  | none ↦ (negsuc 0, s)
  | some f ↦ (pos 0, fail_all f (set_queue f (record (s.queues f) { capacity = 0 }) s))
]

abbrev pub reset_ring : Queue → Queue
reset_ring q = record q { front = 0; rear = q.capacity - 1; size = 0 }

unfoldable pub preset : ℤ → Sys → ℤ × Sys
unfolding fail_all
preset fid s = elim (valid_fid fid s) [
  | none ↦ (negsuc 0, s)
  | some f ↦ (pos 0, fail_all f (set_queue f (reset_ring (s.queues f)) s))
]

abbrev pub wait_state : Side → ProcessState
wait_state Side.empty = ProcessState.wait_queue_empty
wait_state Side.full = ProcessState.wait_queue_full

abbrev pub wait_pending : Side → Pending
wait_pending Side.empty = Pending.receiving
wait_pending Side.full = Pending.sending

-- The caller is suspended on a side of a queue, with its message or the address for one.
unfoldable pub suspend : Side → ℕ → ℤ → Option ℕ → Sys → Sys
suspend side f message to s =
    let p = s.active_process in
    let t = remove_runnable p s in
    let u =
      set_process p
        (record (t.processes p) {
          state = wait_state side;
          fid = f;
          wait_retval = pos 0;
          message = message;
          message_to = to;
          pending = wait_pending side;
        })
        t in
    push_waiting_process side f p u

-- The address or the message of the first process of a list
abbrev pub head_address : List ℕ → Sys → Option ℕ
head_address [] s = none
head_address (p ∷ ps) s = (s.processes p).message_to

abbrev pub head_message : List ℕ → Sys → ℤ
head_message [] s = pos 0
head_message (p ∷ ps) s = (s.processes p).message

unfoldable pub send : ℕ → ℤ → Sys → Outcome × Sys
send f message s =
    let q = s.queues f in
    if is_queue_full q
    then (suspended, tick_scheduler (suspend Side.full f message none s))
    else if is_queue_empty q && is_cons q.empty_process
    then (
      returned (pos 0),
      wakeup_first_process Side.empty f (store (head_address q.empty_process s) message s),
    )
    else (returned (pos 0), push_message f message s)

unfoldable pub psend : ℤ → ℤ → Sys → Outcome × Sys
psend fid message s = elim (valid_fid fid s) [
  | none ↦ (returned (negsuc 0), s)
  | some f ↦ send f message s
]

-- The place that a message has left goes to the first sender that waits.
unfoldable pub refill : ℕ → Sys → Sys
refill f s =
    let q = s.queues f in
    if q.size == q.capacity - 1 && is_cons q.full_process
    then wakeup_first_process Side.full f (push_message f (head_message q.full_process s) s)
    else s

unfoldable pub receive : ℕ → Option ℕ → Sys → Outcome × Sys
receive f to s =
    if is_queue_empty (s.queues f)
    then (suspended, tick_scheduler (suspend Side.empty f (pos 0) to s))
    else (let (v, t) = pop_message f s in (returned (pos 0), refill f (store to v t)))

unfoldable pub preceive : ℤ → Option ℕ → Sys → Outcome × Sys
preceive fid to s = elim (valid_fid fid s) [
  | none ↦ (returned (negsuc 0), s)
  | some f ↦ receive f to s
]

-- The rest of `psend` and of `preceive`, when the caller runs again
unfoldable pub resume_wait : Sys → ℤ × Sys
resume_wait s =
    let p = s.active_process in
    (
      (s.processes p).wait_retval,
      set_process p (record (s.processes p) { pending = Pending.in_user }) s,
    )
