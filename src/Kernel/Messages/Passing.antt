-- ===== src/Kernel/Messages/Passing.antt =====
-- The calls of kernel/queues.c that pass messages, and the invariant of the kernel.
use calm_os.Base.{
  ℕ, ◌-◌, ◌≡◌, ◌≢◌, ℤ, pos, negsuc, true, false, ◌==◌, ◌&&◌, not, Option, none, some, List, [], ◌∷◌,
  refl, inl, inr, ◌⊎◌, arith, sym, subst, Bool-cases, Option-cases,
}
use calm_os.Kernel.State.{Sys, store}
use calm_os.Kernel.Invariant.{at_home}
use calm_os.Kernel.Ready.{IsValid}
use calm_os.Kernel.Tick.Laws.{Elects}
use calm_os.Kernel.Waiting.{Side, waiting, wakeup_first_process, is_cons}
use calm_os.Kernel.Waiting.Wakeup.{wakeup_first_process-Elects}
use calm_os.Kernel.Elects.{store-Elects, store-Ready, touch-Elects, check-Ready}
use calm_os.Kernel.Messages.{
  is_queue_full, is_queue_empty, is_queue_free, valid_fid, ring_push, push_message, pop_message,
  pcount, head_address, head_message, send, psend, refill, receive, preceive, resume_wait,
}
use calm_os.Kernel.Messages.Laws.{
  ring-Ready, push_message-Elects, pop_message-Elects, suspended-Elects,
}

ne_nil : (xs : List ℕ) → is_cons xs ≡ true → xs ≢ []
ne_nil [] h e = cc
ne_nil (x ∷ xs) h e = cc

pub queues-store : (to : Option ℕ) (x : ℤ) (s : Sys) → (store to x s).queues ≡ s.queues
queues-store none x s = refl
queues-store (some a) x s = refl

wake_after-Elects :
    (side : Side) (f : ℕ) (s : Sys)
    → Elects s
    → is_cons (waiting side f s) ≡ true
    → Elects (wakeup_first_process side f s)
wake_after-Elects side f s e h =
    wakeup_first_process-Elects side f s e.valid.ready (ne_nil (waiting side f s) h)

hand_over-Elects :
    (f : ℕ) (m : ℤ) (s : Sys)
    → Elects s
    → is_cons (s.queues f).empty_process ≡ true
    → Elects
        (wakeup_first_process Side.empty f (store (head_address (s.queues f).empty_process s) m s))
hand_over-Elects f m s e h =
    wake_after-Elects Side.empty f _ (store-Elects _ m s e)
      (subst (λ qs. is_cons (qs f).empty_process ≡ true) (sym (queues-store _ m s)) h)

full-push_message :
    (f : ℕ) (v : ℤ) (s : Sys)
    → ((push_message f v s).queues f).full_process ≡ (s.queues f).full_process
unfolding push_message
full-push_message f v s = ground arith

refill-Elects :
    (f : ℕ) (s : Sys) → Elects s → is_queue_free (s.queues f) ≡ false → Elects (refill f s)
unfolding refill
refill-Elects f s e h =
    let m = head_message (s.queues f).full_process s in
    elim (Bool-cases
      ((s.queues f).size == (s.queues f).capacity - 1 && is_cons (s.queues f).full_process)) [
        | inl w ↦ rw w (
            wake_after-Elects Side.full f _ (push_message-Elects f m s e (ground arith))
              (rw (full-push_message f m s) (ground arith)))
        | inr n ↦ rw n e
      ]

capacity-pop :
    (f : ℕ) (to : Option ℕ) (x : ℤ) (s : Sys)
    → ((store to x (pop_message f s).1).queues f).capacity ≡ (s.queues f).capacity
unfolding pop_message
capacity-pop f none x s = ground arith
capacity-pop f (some a) x s = ground arith

-- A message for which there is room suspends nobody, not even the idle process.
pub send_room-Elects :
    (s : Sys) (f : ℕ) (m : ℤ)
    → Elects s
    → is_queue_full (s.queues f) ≡ false
    → Elects (send f m s).1
unfolding send
send_room-Elects s f m e nf =
    elim (Bool-cases (is_queue_empty (s.queues f) && is_cons (s.queues f).empty_process)) [
      | inl w ↦ rw (nf, w, send) (hand_over-Elects f m s e (ground arith))
      | inr n ↦ rw (nf, n, send) (push_message-Elects f m s e nf)
    ]

push_message-IsValid :
    (f : ℕ) (m : ℤ) (s : Sys)
    → IsValid s
    → is_queue_full (s.queues f) ≡ false
    → IsValid (push_message f m s) × ((push_message f m s).active_process ≡ s.active_process)
unfolding push_message
push_message-IsValid f m s v n = (
  record {
    ready =
        ring-Ready f (ring_push m (s.queues f)) _ refl refl
          (check-Ready at_home (not (is_queue_full (s.queues f))) s (rw n) v.ready);
    active = v.active;
  },
  refl,
)

-- Without the election: the scheduler, if it is called, makes it good.
pub send_room-IsValid :
    (s : Sys) (f : ℕ) (m : ℤ)
    → IsValid s
    → is_queue_full (s.queues f) ≡ false
    → Elects (send f m s).1
      ⊎ (IsValid (send f m s).1 × ((send f m s).1.active_process ≡ s.active_process))
unfolding send
send_room-IsValid s f m v nf =
    let q = s.queues f in
    let to = head_address q.empty_process s in
    elim (Bool-cases (is_queue_empty q && is_cons q.empty_process)) [
      | inl w ↦
          rw (nf, w, send)
            (inl (
              wakeup_first_process-Elects Side.empty f (store to m s) (store-Ready to m s v.ready) (
                ne_nil (waiting Side.empty f (store to m s)) (
                  subst (λ qs. is_cons (qs f).empty_process ≡ true) (sym (queues-store to m s))
                    (ground arith)))))
      | inr n ↦ rw (nf, n, send) (inr (push_message-IsValid f m s v nf))
    ]

module _ (s : Sys) (e : Elects s) (nz : s.active_process ≢ 0) where
  send-Elects : (f : ℕ) (m : ℤ) → Elects (send f m s).1
  unfolding send
  send-Elects f m = elim (Bool-cases (is_queue_full (s.queues f))) [
    | inl fl ↦ rw (fl, send) (suspended-Elects s e nz Side.full f m none)
    | inr nf ↦ send_room-Elects s f m e nf
  ]

  -- From a valid kernel whose active process is not the idle one and has the highest priority of
  -- the runnable ones, `psend` leads on every branch to a valid kernel whose active process has the
  -- highest priority of the runnable ones.
  pub psend-Elects : (fid m : ℤ) → Elects (psend fid m s).1
  unfolding psend
  psend-Elects fid m = elim (Option-cases (valid_fid fid s)) [
    | inl n ↦ rw (n, psend) e
    | inr (f, h) ↦ rw (h, psend) (send-Elects f m)
  ]

  receive-Elects :
      (f : ℕ) (to : Option ℕ) → is_queue_free (s.queues f) ≡ false → Elects (receive f to s).1
  unfolding receive
  receive-Elects f to h = elim (Bool-cases (is_queue_empty (s.queues f))) [
    | inl em ↦ rw (em, receive) (suspended-Elects s e nz Side.empty f (pos 0) to)
    | inr n ↦
        rw (n, receive)
          (refill-Elects f _ (store-Elects to _ _ (pop_message-Elects f s e n))
            (rw (capacity-pop f to (pop_message f s).0 s) h))
  ]

  valid_fid_used : (fid : ℤ) (f : ℕ) → valid_fid fid s ≡ some f → is_queue_free (s.queues f) ≡ false
  valid_fid_used (pos n) f h = ground arith
  valid_fid_used (negsuc n) f h = cc

  -- From a valid kernel whose active process is not the idle one and has the highest priority of
  -- the runnable ones, `preceive` leads on every branch to a valid kernel whose active process has
  -- the highest priority of the runnable ones.
  pub preceive-Elects : (fid : ℤ) (to : Option ℕ) → Elects (preceive fid to s).1
  unfolding preceive
  preceive-Elects fid to = elim (Option-cases (valid_fid fid s)) [
    | inl n ↦ rw (n, preceive) e
    | inr (f, h) ↦ rw (h, preceive) (receive-Elects f to (valid_fid_used fid f h))
  ]

pub pcount-Elects : (fid : ℤ) (to : Option ℕ) (s : Sys) → Elects s → Elects (pcount fid to s).1
unfolding pcount
pcount-Elects fid to s e = elim (Option-cases (valid_fid fid s)) [
  | inl n ↦ rw (n, pcount) e
  | inr (f, h) ↦ rw (h, pcount) (store-Elects to _ s e)
]

pub resume_wait-Elects : (s : Sys) → Elects s → Elects (resume_wait s).1
unfolding resume_wait
resume_wait-Elects s e = touch-Elects s.active_process _ s refl refl refl refl e
