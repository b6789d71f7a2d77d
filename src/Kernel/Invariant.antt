-- ===== src/Kernel/Invariant.antt =====
-- The invariant of the process table and the linked lists of kernel/scheduler.c and
-- kernel/queues.c: which list a process stands on, and in what order.
use calm_os.Base.{
  ℕ, ℤ, ◌≢◌, ◌≤◌, ◌≡◌, ◌≤ℤ◌, Bool, true, false, ◌&&◌, ◌||◌, ◌==◌, not, bit, count, arith,
}
use calm_os.Base.Sorted.{Sorted, Sorted-away, Sorted-map}
use calm_os.Kernel.State.{
  Process, ProcessState, Sys, is_runnable, is_dead, is_asleep, is_wait_empty, is_wait_full,
  set_process,
}

-- Every process but those that are `away` stands, once, on the list of its state and on no other;
-- those that are away stand on none.
pub record Lists (away : ℕ → Bool) (s : Sys) : Type 0 where
  pub runnable :
      (p : ℕ) → count p s.runnable_process ≡ bit (not (away p) && is_runnable (s.processes p).state)
  pub asleep :
      (p : ℕ) → count p s.asleep_process ≡ bit (not (away p) && is_asleep (s.processes p).state)
  -- a process whose creation failed is dead, and no longer on the stack of free processes
  pub dead : (p : ℕ) → count p s.dead_process ≤ bit (not (away p) && is_dead (s.processes p).state)
  pub empty :
      (f p : ℕ)
      → count p (s.queues f).empty_process
        ≡ bit (not (away p) && (is_wait_empty (s.processes p).state && (s.processes p).fid == f))
  pub full :
      (f p : ℕ)
      → count p (s.queues f).full_process
        ≡ bit (not (away p) && (is_wait_full (s.processes p).state && (s.processes p).fid == f))

abbrev pub ByPrio : Sys → ℕ → ℕ → Type 0
ByPrio s x y = (s.processes y).prio ≤ℤ (s.processes x).prio

abbrev pub ByWake : Sys → ℕ → ℕ → Type 0
ByWake s x y = (s.processes x).wake ≤ (s.processes y).wake

-- The runnable processes and those that wait on a queue stand by falling priority, the sleepers by
-- rising time.
pub record Ordered (s : Sys) : Type 0 where
  pub runnable : Sorted (ByPrio s) s.runnable_process
  pub asleep : Sorted (ByWake s) s.asleep_process
  pub empty : (f : ℕ) → Sorted (ByPrio s) (s.queues f).empty_process
  pub full : (f : ℕ) → Sorted (ByPrio s) (s.queues f).full_process

pub record Shape (away : ℕ → Bool) (s : Sys) : Type 0 where
  pub lists : Lists away s
  pub order : Ordered s

abbrev pub at_home : ℕ → Bool
at_home _ = false

abbrev pub also : ℕ → (ℕ → Bool) → ℕ → Bool
also p away q = p == q || away q

-- Processes of these states stand on no list.
abbrev pub is_unlisted : ProcessState → Bool
is_unlisted ProcessState.running = true
is_unlisted ProcessState.zombie = true
is_unlisted ProcessState.wait_child = true
is_unlisted _ = false

module _ (p : ℕ) (r : Process) (s : Sys) where
  prio_away : (x y : ℕ) → x ≢ p → y ≢ p → ByPrio s x y → ByPrio (set_process p r s) x y
  prio_away x y hx hy h = ground arith

  wake_away : (x y : ℕ) → x ≢ p → y ≢ p → ByWake s x y → ByWake (set_process p r s) x y
  wake_away x y hx hy h = ground arith

module _ (away : ℕ → Bool) (p : ℕ) where
  Lists-set_process :
      (r : Process) (s : Sys) → Lists (also p away) s → Lists (also p away) (set_process p r s)
  Lists-set_process r s v = record {
    runnable = λ q. ground (arith, v.runnable q);
    asleep = λ q. ground (arith, v.asleep q);
    dead = λ q. ground (arith, v.dead q);
    empty = λ f q. ground (arith, v.empty f q);
    full = λ f q. ground (arith, v.full f q);
  }

  Ordered-set_process :
      (r : Process) (s : Sys) → Lists (also p away) s → Ordered s → Ordered (set_process p r s)
  Ordered-set_process r s v o = record {
    runnable =
        Sorted-away p s.runnable_process (ground (arith, v.runnable p)) (prio_away p r s)
          o.runnable;
    asleep = Sorted-away p s.asleep_process (ground (arith, v.asleep p)) (wake_away p r s) o.asleep;
    empty = λ f.
        Sorted-away p (s.queues f).empty_process (ground (arith, v.empty f p)) (prio_away p r s)
          (o.empty f);
    full = λ f.
        Sorted-away p (s.queues f).full_process (ground (arith, v.full f p)) (prio_away p r s)
          (o.full f);
  }

  -- A process that stands on no list may be changed at will.
  pub Shape-set_process :
      (r : Process) (s : Sys) → Shape (also p away) s → Shape (also p away) (set_process p r s)
  Shape-set_process r s v = record {
    lists = Lists-set_process r s v.lists;
    order = Ordered-set_process r s v.lists v.order;
  }

  -- A process that is not to be listed may be counted as away, and the other way round.
  pub leave :
      (s : Sys) → Shape away s → is_unlisted (s.processes p).state ≡ true → Shape (also p away) s
  leave s v h = record { order = v.order; lists = lists }
    where
      lists : Lists (also p away) s
      lists = record {
        runnable = λ q. ground (arith, v.lists.runnable q);
        asleep = λ q. ground (arith, v.lists.asleep q);
        dead = λ q. ground (arith, v.lists.dead q);
        empty = λ f q. ground (arith, v.lists.empty f q);
        full = λ f q. ground (arith, v.lists.full f q);
      }

  pub come_home :
      (s : Sys) → Shape (also p away) s → is_unlisted (s.processes p).state ≡ true → Shape away s
  come_home s v h = record { order = v.order; lists = lists }
    where
      lists : Lists away s
      lists = record {
        runnable = λ q. ground (arith, v.lists.runnable q);
        asleep = λ q. ground (arith, v.lists.asleep q);
        dead = λ q. ground (arith, v.lists.dead q);
        empty = λ f q. ground (arith, v.lists.empty f q);
        full = λ f q. ground (arith, v.lists.full f q);
      }

-- The invariant does not read the fields that are given anew here.
pub Shape-frame :
    (away : ℕ → Bool) (s : Sys) (active clock esp0 : ℕ) (memory : ℕ → ℤ) (panicked : Bool)
    → Shape away s
    → Shape away (record s {
      active_process = active;
      clock = clock;
      esp0 = esp0;
      memory = memory;
      panicked = panicked;
    })
Shape-frame away s a c e m b v = record {
  lists = record {
    runnable = v.lists.runnable;
    asleep = v.lists.asleep;
    dead = v.lists.dead;
    empty = v.lists.empty;
    full = v.lists.full;
  };
  order = record {
    runnable = v.order.runnable;
    asleep = v.order.asleep;
    empty = v.order.empty;
    full = v.order.full;
  };
}

-- Nor does it read the fields of a process other than its state, queue, priority and time.
pub Shape-touch :
    (away : ℕ → Bool) (p : ℕ) (r : Process) (s : Sys)
    → r.state ≡ (s.processes p).state
    → r.fid ≡ (s.processes p).fid
    → r.prio ≡ (s.processes p).prio
    → r.wake ≡ (s.processes p).wake
    → Shape away s
    → Shape away (set_process p r s)
Shape-touch away p r s st fd pr wk v = record {
  lists = record {
    runnable = λ q. ground (arith, v.lists.runnable q);
    asleep = λ q. ground (arith, v.lists.asleep q);
    dead = λ q. ground (arith, v.lists.dead q);
    empty = λ f q. ground (arith, v.lists.empty f q);
    full = λ f q. ground (arith, v.lists.full f q);
  };
  order = record {
    runnable = Sorted-map s.runnable_process by_prio_kept v.order.runnable;
    asleep = Sorted-map s.asleep_process by_wake_kept v.order.asleep;
    empty = λ f. Sorted-map (s.queues f).empty_process by_prio_kept (v.order.empty f);
    full = λ f. Sorted-map (s.queues f).full_process by_prio_kept (v.order.full f);
  };
}
  where
    by_prio_kept : (x y : ℕ) → ByPrio s x y → ByPrio (set_process p r s) x y
    by_prio_kept x y h = ground arith

    by_wake_kept : (x y : ℕ) → ByWake s x y → ByWake (set_process p r s) x y
    by_wake_kept x y h = ground arith
