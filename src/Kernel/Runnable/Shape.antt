-- ===== src/Kernel/Runnable/Shape.antt =====
-- `push_runnable`, `remove_runnable` and `push_dead` of kernel/scheduler.c and the lists.
use calm_os.Base.{
  ℕ, ◌≡◌, Bool, true, false, ◌||◌, inl, inr, arith, Bool-cases, not, none, unlink,
  count-insert_before, count-unlink,
}
use calm_os.Base.Sorted.{Sorted-insert_before, Sorted-unlink}
use calm_os.Kernel.State.{ProcessState, Sys, is_runnable, set_state, check}
use calm_os.Kernel.Invariant.{
  Lists, Ordered, Shape, ByPrio, also, is_unlisted, leave, Shape-set_process, Shape-frame,
}
use calm_os.Kernel.Runnable.{push_runnable, remove_runnable, push_dead, higher_prio}

module _ (away : ℕ → Bool) (p : ℕ) (s : Sys) where
  Lists-push_runnable : Lists (also p away) s → away p ≡ false → Lists away (push_runnable p s)
  unfolding push_runnable
  Lists-push_runnable v h = record {
    runnable = λ q. rw count-insert_before (ground (arith, v.runnable q));
    asleep = λ q. ground (arith, v.asleep q);
    dead = λ q. ground (arith, v.dead q);
    empty = λ f q. ground (arith, v.empty f q);
    full = λ f q. ground (arith, v.full f q);
  }

  Ordered-push_runnable : Shape (also p away) s → Ordered (push_runnable p s)
  unfolding push_runnable
  Ordered-push_runnable v = record {
    runnable =
        Sorted-insert_before (ByPrio t) (higher_prio t p) p s.runnable_process
          (λ x y z a b. omega arith) (λ x a. ground arith) (λ x a. ground arith) o.runnable;
    asleep = o.asleep;
    empty = o.empty;
    full = o.full;
  }
    where
      t : Sys
      t = set_state p ProcessState.runnable (check (not (is_runnable (s.processes p).state)) s)

      u : Sys
      u = check (not (is_runnable (s.processes p).state)) s

      o : Ordered t
      o = (Shape-set_process away p _ u (Shape-frame (also p away) s _ _ _ _ _ v)).order

  pub Shape-push_runnable : Shape (also p away) s → away p ≡ false → Shape away (push_runnable p s)
  Shape-push_runnable v h = record {
    lists = Lists-push_runnable v.lists h;
    order = Ordered-push_runnable v;
  }

  Lists-push_dead : Lists (also p away) s → away p ≡ false → Lists away (push_dead p s)
  unfolding push_dead
  Lists-push_dead v h = record {
    runnable = λ q. ground (arith, v.runnable q);
    asleep = λ q. ground (arith, v.asleep q);
    dead = λ q. ground (arith, v.dead q);
    empty = λ f q. ground (arith, v.empty f q);
    full = λ f q. ground (arith, v.full f q);
  }

  pub Shape-push_dead : Shape (also p away) s → away p ≡ false → Shape away (push_dead p s)
  unfolding push_dead
  Shape-push_dead v h =
      let o =
        (Shape-set_process away p
          (record (s.processes p) { user_stack = none; state = ProcessState.dead }) s v).order in
      record {
        lists = Lists-push_dead v.lists h;
        order = record { runnable = o.runnable; asleep = o.asleep; empty = o.empty; full = o.full };
      }

  unlink_runnable-Shape :
      Shape away s
      → is_runnable (s.processes p).state ≡ true
      → Shape (also p away) (record s { runnable_process = unlink p s.runnable_process })
  unlink_runnable-Shape v h = record {
    lists = record {
      runnable = λ q. rw count-unlink (ground (arith, v.lists.runnable q));
      asleep = λ q. ground (arith, v.lists.asleep q);
      dead = λ q. ground (arith, v.lists.dead q);
      empty = λ f q. ground (arith, v.lists.empty f q);
      full = λ f q. ground (arith, v.lists.full f q);
    };
    order = record {
      runnable = Sorted-unlink (ByPrio s) p s.runnable_process v.order.runnable;
      asleep = v.order.asleep;
      empty = v.order.empty;
      full = v.order.full;
    };
  }

  -- A runnable process, or one that is on no list, is on no list afterwards.
  pub Shape-remove_runnable :
      Shape away s
      → (is_runnable (s.processes p).state || is_unlisted (s.processes p).state) ≡ true
      → Shape (also p away) (remove_runnable p s)
  unfolding remove_runnable
  Shape-remove_runnable v h = elim (Bool-cases (is_runnable (s.processes p).state)) [
    | inl listed ↦ rw listed (unlink_runnable-Shape v listed)
    | inr other ↦ rw other (leave away p s v (ground arith))
  ]
