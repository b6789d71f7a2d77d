-- ===== src/Kernel/Messages/Fifo.antt =====
-- What `psend` and `preceive` do to the messages of a queue.
use calm_os.Base.{
  append_nil, ℕ, ◌-◌, ◌≡◌, ℤ, pos, Bool, true, false, ◌==◌, ◌&&◌, Option, none, some, List, [], ◌∷◌,
  ◌++◌, refl, inl, inr, arith, ap, if◌then◌else◌, ◌∙◌, sym, subst, Bool-cases,
}
use calm_os.Kernel.State.{Queue, Process, Sys, check, store, update}
use calm_os.Kernel.Runnable.{push_runnable}
use calm_os.Kernel.Tick.Keeps.{SameData-fix_scheduler, may_run, may_run-fix_scheduler}
use calm_os.Kernel.Waiting.{
  Side, waiting, list_of, wake_head, wakeup_first, wakeup_first_process, is_cons, is_waiting,
}
use calm_os.Kernel.Waitpid.{returned}
use calm_os.Kernel.Messages.{
  is_queue_full, is_queue_empty, ring_pop, push_message, pop_message, head_message, send, refill,
  receive,
}
use calm_os.Kernel.Messages.Ring.{
  IsRing, contents, ring_list, contents-ring_push, contents-ring_pop, ring_pop-IsRing,
}

-- Two queues with the same ring.
pub record SameRing (q r : Queue) : Type 0 where
  pub front : r.front ≡ q.front
  pub size : r.size ≡ q.size
  pub capacity : r.capacity ≡ q.capacity
  pub messages : r.messages ≡ q.messages

SameRing-contents : (q r : Queue) → SameRing q r → contents r ≡ contents q
SameRing-contents q r e = λ i. ring_list (e.size i) (e.front i) (e.capacity i) (e.messages i)

wake_head-SameRing :
    (side : Side) (f g p : ℕ) (ps : List ℕ) (s : Sys)
    → SameRing (s.queues g) ((wake_head side f p ps s).queues g)
unfolding wake_head push_runnable
wake_head-SameRing Side.empty f g p ps s = record {
  front = ground arith;
  size = ground arith;
  capacity = ground arith;
  messages = ground arith;
}
wake_head-SameRing Side.full f g p ps s = record {
  front = ground arith;
  size = ground arith;
  capacity = ground arith;
  messages = ground arith;
}

wakeup_first-SameRing :
    (side : Side) (f g : ℕ) (xs : List ℕ) (s : Sys)
    → SameRing (s.queues g) ((wakeup_first side f xs s).queues g)
unfolding wakeup_first
wakeup_first-SameRing side f g [] s = record {
  front = refl;
  size = refl;
  capacity = refl;
  messages = refl;
}
wakeup_first-SameRing side f g (p ∷ ps) s =
    let t = wake_head side f p ps (check (is_waiting (s.processes p).state) s) in
    let w = wake_head-SameRing side f g p ps (check (is_waiting (s.processes p).state) s) in
    let d = SameData-fix_scheduler t in
    record {
      front = ap (λ qs. (qs g).front) d.queues ∙ w.front;
      size = ap (λ qs. (qs g).size) d.queues ∙ w.size;
      capacity = ap (λ qs. (qs g).capacity) d.queues ∙ w.capacity;
      messages = ap (λ qs. (qs g).messages) d.queues ∙ w.messages;
    }

memory-wakeup_first :
    (side : Side) (f : ℕ) (xs : List ℕ) (s : Sys) → (wakeup_first side f xs s).memory ≡ s.memory
unfolding wakeup_first wake_head push_runnable
memory-wakeup_first side f [] s = refl
memory-wakeup_first side f (p ∷ ps) s =
    (SameData-fix_scheduler
      (wake_head side f p ps (check (is_waiting (s.processes p).state) s))).memory

memory-wakeup_first_process :
    (side : Side) (f : ℕ) (s : Sys) → (wakeup_first_process side f s).memory ≡ s.memory
unfolding wakeup_first_process
memory-wakeup_first_process side f s = memory-wakeup_first side f _ s

pub wakeup_first_process-SameRing :
    (side : Side) (f : ℕ) (s : Sys)
    → SameRing (s.queues f) ((wakeup_first_process side f s).queues f)
unfolding wakeup_first_process
wakeup_first_process-SameRing side f s = wakeup_first-SameRing side f f _ s

-- The process at the head of the list leaves it and may run.
woken_head :
    (side : Side) (f p : ℕ) (ps : List ℕ) (s : Sys)
    → (may_run p (wake_head side f p ps s) ≡ true) × (waiting side f (wake_head side f p ps s) ≡ ps)
unfolding wake_head push_runnable
woken_head Side.empty f p ps s = (ground arith, ground arith)
woken_head Side.full f p ps s = (ground arith, ground arith)

woken :
    (side : Side) (f p : ℕ) (ps : List ℕ) (s : Sys)
    → waiting side f s ≡ p ∷ ps
    → (may_run p (wakeup_first_process side f s) ≡ true)
      × (waiting side f (wakeup_first_process side f s) ≡ ps)
unfolding wakeup_first_process wakeup_first
woken side f p ps s at =
    let t = wake_head side f p ps (check (is_waiting (s.processes p).state) s) in
    let (runs, list) = woken_head side f p ps (check (is_waiting (s.processes p).state) s) in
    rw at (
      may_run-fix_scheduler p t runs,
      ap (λ qs. list_of side (qs f)) (SameData-fix_scheduler t).queues ∙ list,
    )

module _ (f : ℕ) (s : Sys) where
  abbrev queue : Queue
  queue = s.queues f

  push_message-contents :
      (v : ℤ)
      → IsRing queue
      → is_queue_full queue ≡ false
      → contents ((push_message f v s).queues f) ≡ contents queue ++ v ∷ []
  unfolding push_message
  push_message-contents v r n =
      let own : (f == f) ≡ true = ground arith in rw own (contents-ring_push v queue r n)

  -- On a queue whose indices fit its size, with a free place for which nobody waits, `send` returns 0, and its message is the
  -- last one of the queue afterwards.
  pub send-append :
      (m : ℤ)
      → IsRing queue
      → is_queue_full queue ≡ false
      → (is_queue_empty queue && is_cons queue.empty_process) ≡ false
      → ((send f m s).0 ≡ returned (pos 0))
        × (contents (((send f m s).1).queues f) ≡ contents queue ++ m ∷ [])
  unfolding send
  send-append m r nf nw = rw (nf, nw) (refl, push_message-contents m r nf)

  -- On an empty queue on which a process waits, `send` returns 0 and writes its message at the
  -- address that the first such process gave; that process no longer waits and may run (it is
  -- runnable or runs), the ones behind it wait on in their order, and the messages in the queue stay
  -- as they are.
  pub send-hands_over :
      (m : ℤ) (p a : ℕ) (ps : List ℕ)
      → is_queue_full queue ≡ false
      → is_queue_empty queue ≡ true
      → queue.empty_process ≡ p ∷ ps
      → (s.processes p).message_to ≡ some a
      → ((send f m s).0 ≡ returned (pos 0))
        × (((send f m s).1).memory ≡ update s.memory a m)
        × (may_run p (send f m s).1 ≡ true)
        × ((((send f m s).1).queues f).empty_process ≡ ps)
        × (contents (((send f m s).1).queues f) ≡ contents queue)
  unfolding send
  send-hands_over m p a ps nf em at to =
      rw (nf, em, at, to)
        (
          refl,
          memory-wakeup_first_process Side.empty f (store (some a) m s),
          (woken Side.empty f p ps (store (some a) m s) at).0,
          (woken Side.empty f p ps (store (some a) m s) at).1,
          SameRing-contents queue _
              (wakeup_first_process-SameRing Side.empty f (store (some a) m s)),
        )

-- The message of the first process of a list, if there is one
abbrev first_message : List ℕ → (ℕ → Process) → List ℤ
first_message [] ps = []
first_message (p ∷ xs) ps = (ps p).message ∷ []

-- The message that moves up when the oldest one leaves: the first waiting sender's, if the queue is
-- full
abbrev pub moves_up : Bool → Queue → (ℕ → Process) → List ℤ
moves_up full q ps = if full then first_message q.full_process ps else []

first_message-head :
    (xs : List ℕ) (s : Sys)
    → is_cons xs ≡ true
    → first_message xs s.processes ≡ head_message xs s ∷ []
first_message-head [] s h = cc
first_message-head (p ∷ xs) s h = refl

first_message-none :
    (xs : List ℕ) (ps : ℕ → Process) → is_cons xs ≡ false → first_message xs ps ≡ []
first_message-none [] ps h = refl
first_message-none (p ∷ xs) ps h = cc

refill-contents :
    (f : ℕ) (s : Sys) (b : Bool)
    → IsRing (s.queues f)
    → ((s.queues f).size == (s.queues f).capacity - 1) ≡ b
    → contents ((refill f s).queues f)
      ≡ contents (s.queues f) ++ moves_up b (s.queues f) s.processes
unfolding refill
refill-contents f s false r e = rw e (sym (append_nil (contents (s.queues f))))
refill-contents f s true r e =
    let q = s.queues f in
    let m = head_message q.full_process s in
    elim (Bool-cases (is_cons q.full_process)) [
      | inl h ↦
          rw (e, h, first_message-head q.full_process s h)
            (SameRing-contents _ _ (wakeup_first_process-SameRing Side.full f (push_message f m s))
              ∙ push_message-contents f s m r (ground (arith, r.front_in)))
      | inr h ↦
          rw (e, h, first_message-none q.full_process s.processes h) (sym (append_nil (contents q)))
    ]

refill-popped :
    (f : ℕ) (s t : Sys)
    → t.queues f ≡ ring_pop (s.queues f)
    → t.processes ≡ s.processes
    → IsRing (s.queues f)
    → is_queue_empty (s.queues f) ≡ false
    → contents (s.queues f) ++ moves_up (is_queue_full (s.queues f)) (s.queues f) s.processes
      ≡ (s.queues f).messages (s.queues f).front ∷ contents ((refill f t).queues f)
unfolding ring_pop
refill-popped f s t e d r ne =
    let q = s.queues f in
    let last : ((t.queues f).size == (t.queues f).capacity - 1) ≡ is_queue_full q =
      subst (λ w. (w.size == w.capacity - 1) ≡ is_queue_full q) (sym e)
        (ground (arith, r.bounded)) in
    let after =
      refill-contents f t (is_queue_full q) (subst IsRing (sym e) (ring_pop-IsRing q r ne)) last in
    ap (λ xs. xs ++ moves_up (is_queue_full q) q s.processes) (contents-ring_pop q ne)
    ∙ ap (λ xs. q.messages q.front ∷ xs)
        (sym (after ∙ λ i. contents (e i) ++ moves_up (is_queue_full q) (e i) (d i)))

memory-refill : (f : ℕ) (s : Sys) → (refill f s).memory ≡ s.memory
unfolding refill push_message
memory-refill f s =
    let m = head_message (s.queues f).full_process s in
    elim (Bool-cases
      (((s.queues f).size == (s.queues f).capacity - 1) && is_cons (s.queues f).full_process)) [
        | inl h ↦ rw h (memory-wakeup_first_process Side.full f (push_message f m s))
        | inr h ↦ rw h refl
      ]

-- On a queue with messages, whose indices fit its size, `receive` returns 0 and stores the oldest message at the address given.
-- The messages behind it stay in their order, and where the queue was full the message of the first
-- sender that waits comes last.
pub receive-oldest :
    (f : ℕ) (to : Option ℕ) (s : Sys)
    → IsRing (s.queues f)
    → is_queue_empty (s.queues f) ≡ false
    → ((receive f to s).0 ≡ returned (pos 0))
      × (((receive f to s).1).memory
          ≡ (store to ((s.queues f).messages (s.queues f).front) s).memory)
      × (contents (s.queues f) ++ moves_up (is_queue_full (s.queues f)) (s.queues f) s.processes
          ≡ (s.queues f).messages (s.queues f).front ∷ contents (((receive f to s).1).queues f))
unfolding receive pop_message
receive-oldest f none s r ne =
    rw ne (refl, memory-refill f _, refill-popped f s _ (ground arith) refl r ne)
receive-oldest f (some a) s r ne =
    rw ne (refl, memory-refill f _, refill-popped f s _ (ground arith) refl r ne)
