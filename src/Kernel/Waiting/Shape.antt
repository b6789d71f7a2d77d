-- ===== src/Kernel/Waiting/Shape.antt =====
-- Lemmas on the lists of waiting processes of kernel/queues.c and the invariant.
use calm_os.Base.{
  ℕ, ◌+◌, ◌≡◌, ◌<◌, Bool, true, false, ◌&&◌, ◌==◌, List, [], ◌∷◌, refl, bit, count, arith,
  insert_before, unlink, count-insert_before, count-unlink, ap, Bool-cases, inl, inr,
}
use calm_os.Base.Sorted.{Sorted, Sorted-insert_before, Sorted-unlink}
use calm_os.Kernel.State.{
  ProcessState, Queue, Sys, is_wait_empty, is_wait_full, is_runnable, update,
}
use calm_os.Kernel.Invariant.{Lists, Ordered, Shape, at_home, also, ByPrio, Shape-frame}
use calm_os.Kernel.Ready.{Ready}
use calm_os.Kernel.Runnable.{push_runnable, higher_prio}
use calm_os.Kernel.Runnable.Effects.{Ready-push_runnable}
use calm_os.Kernel.Waiting.{
  Side, waiting, set_waiting, is_waiting, is_cons, push_waiting_process, pop_waiting_process,
  wake_head,
}

-- A property of a queue and of the one that replaces it.
pub at_queue :
    (P : Queue → Type 0) (f g : ℕ) (qs : ℕ → Queue) (q : Queue)
    → P q
    → P (qs g)
    → P (update qs f q g)
at_queue P f g qs q new old = elim (Bool-cases (f == g)) [
  | inl here ↦ rw here new
  | inr there ↦ rw there old
]

Ordered-set_waiting :
    (side : Side) (f : ℕ) (xs : List ℕ) (s : Sys)
    → Ordered s
    → Sorted (ByPrio s) xs
    → Ordered (set_waiting side f xs s)
Ordered-set_waiting Side.empty f xs s v o = record {
  runnable = v.runnable;
  asleep = v.asleep;
  empty = λ g. at_queue (λ k. Sorted (ByPrio s) k.empty_process) f g s.queues _ o (v.empty g);
  full = λ g.
      at_queue (λ k. Sorted (ByPrio s) k.full_process) f g s.queues
        (record (s.queues f) { empty_process = xs }) (v.full f) (v.full g);
}
Ordered-set_waiting Side.full f xs s v o = record {
  runnable = v.runnable;
  asleep = v.asleep;
  full = λ g. at_queue (λ k. Sorted (ByPrio s) k.full_process) f g s.queues _ o (v.full g);
  empty = λ g.
      at_queue (λ k. Sorted (ByPrio s) k.empty_process) f g s.queues
        (record (s.queues f) { full_process = xs }) (v.empty f) (v.empty g);
}

-- The state in which a process waits on a side of a queue.
abbrev pub is_on : Side → ProcessState → Bool
is_on Side.empty = is_wait_empty
is_on Side.full = is_wait_full

pub is_waiting_of_on :
    (side : Side) (st : ProcessState) → is_on side st ≡ true → is_waiting st ≡ true
is_waiting_of_on Side.empty st h = ground arith
is_waiting_of_on Side.full st h = ground arith

pub not_runnable_of_on :
    (side : Side) (st : ProcessState) → is_on side st ≡ true → is_runnable st ≡ false
not_runnable_of_on Side.empty st h = ground arith
not_runnable_of_on Side.full st h = ground arith

pub is_cons_of_count : (p : ℕ) (xs : List ℕ) → 0 < count p xs → is_cons xs ≡ true
is_cons_of_count p [] h = elim h [ ]
is_cons_of_count p (x ∷ xs) h = refl

abbrev pub waits : Side → ℕ → ℕ → Sys → Bool
waits side f p s = is_on side (s.processes p).state && (s.processes p).fid == f

-- A list is replaced by one without the process `p`.
leave_waiting :
    (side : Side) (f p : ℕ) (ps : List ℕ) (s : Sys)
    → Shape at_home s
    → ((q : ℕ) → count q (waiting side f s) ≡ bit (p == q) + count q ps)
    → Sorted (ByPrio s) ps
    → Shape (also p at_home) (set_waiting side f ps s)
leave_waiting Side.empty f p ps s v c o = record {
  lists = record {
    runnable = λ q. ground (arith, v.lists.runnable q, c p, v.lists.empty f p);
    asleep = λ q. ground (arith, v.lists.asleep q, c p, v.lists.empty f p);
    dead = λ q. ground (arith, v.lists.dead q, c p, v.lists.empty f p);
    empty =
        λ g q. ground (arith, v.lists.empty g q, c p, c q, v.lists.empty f p, v.lists.empty f q);
    full = λ g q. ground (arith, v.lists.full g q, v.lists.full f q, c p, v.lists.empty f p);
  };
  order = Ordered-set_waiting Side.empty f ps s v.order o;
}
leave_waiting Side.full f p ps s v c o = record {
  lists = record {
    runnable = λ q. ground (arith, v.lists.runnable q, c p, v.lists.full f p);
    asleep = λ q. ground (arith, v.lists.asleep q, c p, v.lists.full f p);
    dead = λ q. ground (arith, v.lists.dead q, c p, v.lists.full f p);
    full = λ g q. ground (arith, v.lists.full g q, c p, c q, v.lists.full f p, v.lists.full f q);
    empty = λ g q. ground (arith, v.lists.empty g q, v.lists.empty f q, c p, v.lists.full f p);
  };
  order = Ordered-set_waiting Side.full f ps s v.order o;
}

-- A list is replaced by one with the process `p`, whose state and queue are those of the list.
Lists-join_waiting :
    (side : Side) (f p : ℕ) (xs : List ℕ) (s : Sys)
    → Lists (also p at_home) s
    → ((q : ℕ) → count q xs ≡ bit (p == q) + count q (waiting side f s))
    → is_on side (s.processes p).state ≡ true
    → (s.processes p).fid ≡ f
    → Lists at_home (set_waiting side f xs s)
Lists-join_waiting Side.empty f p xs s v c st fd = record {
  runnable = λ q. ground (arith, v.runnable q);
  asleep = λ q. ground (arith, v.asleep q);
  dead = λ q. ground (arith, v.dead q);
  empty = λ g q. ground (arith, v.empty g q, v.empty f q, c q);
  full = λ g q. ground (arith, v.full g q, v.full f q);
}
Lists-join_waiting Side.full f p xs s v c st fd = record {
  runnable = λ q. ground (arith, v.runnable q);
  asleep = λ q. ground (arith, v.asleep q);
  dead = λ q. ground (arith, v.dead q);
  full = λ g q. ground (arith, v.full g q, v.full f q, c q);
  empty = λ g q. ground (arith, v.empty g q, v.empty f q);
}

module _ (side : Side) (f p : ℕ) (s : Sys) where
  abbrev inserted : List ℕ
  inserted = insert_before (higher_prio s p) p (waiting side f s)

  inserted-Sorted : Sorted (ByPrio s) (waiting side f s) → Sorted (ByPrio s) inserted
  inserted-Sorted =
      Sorted-insert_before (ByPrio s) (higher_prio s p) p (waiting side f s)
        (λ x y z a b. omega arith) (λ x a. ground arith) (λ x a. ground arith)

  pub waiting-Sorted : Ordered s → Sorted (ByPrio s) (waiting side f s)
  waiting-Sorted = on_side side
    where
      on_side : (side : Side) → Ordered s → Sorted (ByPrio s) (waiting side f s)
      on_side Side.empty o = o.empty f
      on_side Side.full o = o.full f

  pub count-waiting :
      Lists at_home s → (q : ℕ) → count q (waiting side f s) ≡ bit (waits side f q s)
  count-waiting = on_side side
    where
      on_side :
          (side : Side)
          → Lists at_home s
          → (q : ℕ) → count q (waiting side f s) ≡ bit (waits side f q s)
      on_side Side.empty v q = v.empty f q
      on_side Side.full v q = v.full f q

  -- A process in the state of the list, and on no list, is inserted by its priority.
  pub Shape-push_waiting_process :
      Shape (also p at_home) s
      → is_on side (s.processes p).state ≡ true
      → (s.processes p).fid ≡ f
      → Shape at_home (push_waiting_process side f p s)
  unfolding push_waiting_process
  Shape-push_waiting_process v st fd =
      Shape-frame at_home (set_waiting side f inserted s) _ _ _ _ _ (record {
        lists =
            Lists-join_waiting side f p inserted s v.lists
              (λ q. count-insert_before (higher_prio s p) p q (waiting side f s)) st fd;
        order =
            Ordered-set_waiting side f inserted s v.order
              (inserted-Sorted (waiting-Sorted v.order));
      })

  -- A process that waits there is taken off.
  pub Shape-pop_waiting_process :
      Shape at_home s
      → waits side f p s ≡ true
      → Shape (also p at_home) (pop_waiting_process side f p s)
  unfolding pop_waiting_process
  Shape-pop_waiting_process v w =
      Shape-frame (also p at_home) (set_waiting side f (unlink p (waiting side f s)) s) _ _ _ _ _ (
        leave_waiting side f p (unlink p (waiting side f s)) s v
          (λ q. rw count-unlink (ground (arith, count-waiting v.lists q, count-waiting v.lists p)))
          (Sorted-unlink (ByPrio s) p (waiting side f s) (waiting-Sorted v.order)))

  pub panicked-push_waiting_process :
      is_on side (s.processes p).state ≡ true
      → (push_waiting_process side f p s).panicked ≡ s.panicked
  unfolding push_waiting_process
  panicked-push_waiting_process h = ground (arith, is_waiting_of_on side (s.processes p).state)

  pub panicked-pop_waiting_process :
      Lists at_home s
      → waits side f p s ≡ true
      → (pop_waiting_process side f p s).panicked ≡ s.panicked
  unfolding pop_waiting_process
  panicked-pop_waiting_process v w = ground (
    arith,
    is_waiting_of_on side (s.processes p).state,
    is_cons_of_count p (waiting side f s),
    count-waiting v p,
  )

  -- The head of a list is woken.
  pub Ready-wake_head :
      (ps : List ℕ)
      → Ready at_home s
      → waiting side f s ≡ p ∷ ps
      → Ready at_home (wake_head side f p ps s)
  unfolding wake_head push_runnable
  Ready-wake_head ps v at =
      Ready-push_runnable at_home p (set_waiting side f ps s)
        (record {
          shape =
              leave_waiting side f p ps s v.shape (λ q. ground (arith, ap (count q) at))
                (rw at at (waiting-Sorted v.shape.order)).1;
          only_active = v.only_active;
          idle = v.idle;
          sound = v.sound;
        })
        refl
        (not_runnable_of_on side (s.processes p).state
          (ground (arith, ap (count p) at, count-waiting v.shape.lists p)))
