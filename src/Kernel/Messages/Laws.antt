-- ===== src/Kernel/Messages/Laws.antt =====
-- The calls of kernel/queues.c that make and delete queues, or suspend their caller, and the invariant of
-- the kernel.
use calm_os.Base.{
  ℕ, ◌+◌, ◌≡◌, ◌≢◌, ℤ, pos, negsuc, Bool, true, false, ◌==◌, ◌||◌, not, Option, none, some, refl,
  inl, inr, arith, ◌∙◌, Bool-cases, Option-cases, ltb,
}
use calm_os.Base.Sorted.{Sorted}
use calm_os.Kernel.State.{Queue, Sys, nbqueue, is_running, set_queue}
use calm_os.Kernel.Invariant.{Shape, at_home, also, ByPrio}
use calm_os.Kernel.Ready.{Ready, Ready-set_process}
use calm_os.Kernel.Runnable.{remove_runnable}
use calm_os.Kernel.Runnable.Effects.{Ready-remove_runnable}
use calm_os.Kernel.Tick.{tick_scheduler}
use calm_os.Kernel.Tick.Laws.{Elects, fix_scheduler-Elects, tick_scheduler-Elects}
use calm_os.Kernel.Waiting.{Side, push_waiting_process}
use calm_os.Kernel.Waiting.Shape.{
  is_on, at_queue, Shape-push_waiting_process, panicked-push_waiting_process,
}
use calm_os.Kernel.Waiting.Wakeup.{wakeup_all_processes-Ready}
use calm_os.Kernel.Elects.{check-Elects}
use calm_os.Kernel.Messages.{
  is_queue_full, is_queue_empty, valid_fid, ring_push, ring_pop, push_message, pop_message,
  find_free, new_queue, create, pcreate, fail_all, pdelete, preset, wait_state, suspend,
}

-- The invariants of the lists do not read the ring of a queue.
module _ (f : ℕ) (q : Queue) (s : Sys) (em : q.empty_process ≡ (s.queues f).empty_process)
    (fu : q.full_process ≡ (s.queues f).full_process) where
  ring-Shape : Shape at_home s → Shape at_home (set_queue f q s)
  ring-Shape v = record {
    lists = record {
      runnable = v.lists.runnable;
      asleep = v.lists.asleep;
      dead = v.lists.dead;
      empty = λ g p. ground (arith, v.lists.empty g p, v.lists.empty f p);
      full = λ g p. ground (arith, v.lists.full g p, v.lists.full f p);
    };
    order = record {
      runnable = v.order.runnable;
      asleep = v.order.asleep;
      empty = λ g.
          at_queue (λ k. Sorted (ByPrio s) k.empty_process) f g s.queues q (rw em (v.order.empty f))
            (v.order.empty g);
      full = λ g.
          at_queue (λ k. Sorted (ByPrio s) k.full_process) f g s.queues q (rw fu (v.order.full f))
            (v.order.full g);
    };
  }

  pub ring-Ready : Ready at_home s → Ready at_home (set_queue f q s)
  ring-Ready v = record {
    shape = ring-Shape v.shape;
    only_active = v.only_active;
    idle = v.idle;
    sound = v.sound;
  }

  ring-Elects : Elects s → Elects (set_queue f q s)
  ring-Elects e = record {
    valid = record { ready = ring-Ready e.valid.ready; active = e.valid.active };
    elected = e.elected;
  }

pub push_message-Elects :
    (f : ℕ) (v : ℤ) (s : Sys)
    → Elects s
    → is_queue_full (s.queues f) ≡ false
    → Elects (push_message f v s)
unfolding push_message
push_message-Elects f v s e n =
    ring-Elects f (ring_push v (s.queues f)) _ refl refl
      (check-Elects (not (is_queue_full (s.queues f))) s (rw n) e)

pub pop_message-Elects :
    (f : ℕ) (s : Sys) → Elects s → is_queue_empty (s.queues f) ≡ false → Elects (pop_message f s).1
unfolding pop_message
pop_message-Elects f s e n =
    ring-Elects f (ring_pop (s.queues f)) _ refl refl
      (check-Elects (not (is_queue_empty (s.queues f))) s (rw n) e)

fail_all-Elects : (f : ℕ) (s : Sys) → Ready at_home s → Elects (fail_all f s)
unfolding fail_all
fail_all-Elects f s v =
    fix_scheduler-Elects _
      (wakeup_all_processes-Ready Side.full f _ (wakeup_all_processes-Ready Side.empty f s v))

lists-new_queue :
    (n : ℕ) (b : Bool) (q : Queue)
    → ((new_queue n b q).empty_process ≡ q.empty_process)
      × ((new_queue n b q).full_process ≡ q.full_process)
unfolding new_queue
lists-new_queue n b q = ground arith

create-Elects : (o : Option ℕ) (n : ℕ) (b : Bool) (s : Sys) → Elects s → Elects (create o n b s).1
unfolding create
create-Elects none n b s e = e
create-Elects (some f) n b s e =
    let same = lists-new_queue n b (s.queues f) in
    ring-Elects f (new_queue n b (s.queues f)) s same.0 same.1 e

-- From a valid kernel whose active process has the highest priority of the runnable ones, `pcreate`
-- leads to such a kernel on every branch, whatever the allocator answers.
pub pcreate-Elects : (alloc : ℕ → Bool) (n : ℤ) (s : Sys) → Elects s → Elects (pcreate alloc n s).1
unfolding pcreate
pcreate-Elects alloc (negsuc n) s e = e
pcreate-Elects alloc (pos n) s e =
    let made = create-Elects (find_free nbqueue 0 s) n (alloc (n + n + n + n)) s e in
    elim (Bool-cases (n == 0 || ltb 10000 n)) [
      | inl bad ↦ rw (bad, pcreate) e
      | inr good ↦ rw (good, pcreate) made
    ]

-- `pcreate` concerns the queues alone.
pub only_queues :
    (alloc : ℕ → Bool) (n : ℤ) (s : Sys)
    → (pcreate alloc n s).1 ≡ record s { queues = (pcreate alloc n s).1.queues }
unfolding pcreate create
only_queues alloc (negsuc n) s = refl
only_queues alloc (pos n) s = elim (Bool-cases (n == 0 || ltb 10000 n)) [
  | inl bad ↦ rw (bad, pcreate) refl
  | inr good ↦ rw (good, pcreate) (made (find_free nbqueue 0 s))
]
  where
    made :
        (o : Option ℕ)
        → (create o n (alloc (n + n + n + n)) s).1
          ≡ record s { queues = (create o n (alloc (n + n + n + n)) s).1.queues }
    made none = refl
    made (some f) = refl

-- From a valid kernel whose active process has the highest priority of the runnable ones, `pdelete`
-- leads to such a kernel on every branch.
pub pdelete-Elects : (fid : ℤ) (s : Sys) → Elects s → Elects (pdelete fid s).1
unfolding pdelete
pdelete-Elects fid s e = elim (Option-cases (valid_fid fid s)) [
  | inl n ↦ rw (n, pdelete) e
  | inr (f, h) ↦ rw (h, pdelete) (fail_all-Elects f _ (ring-Ready f _ s refl refl e.valid.ready))
]

-- From a valid kernel whose active process has the highest priority of the runnable ones, `preset`
-- leads to such a kernel on every branch.
pub preset-Elects : (fid : ℤ) (s : Sys) → Elects s → Elects (preset fid s).1
unfolding preset
preset-Elects fid s e = elim (Option-cases (valid_fid fid s)) [
  | inl n ↦ rw (n, preset) e
  | inr (f, h) ↦ rw (h, preset) (fail_all-Elects f _ (ring-Ready f _ s refl refl e.valid.ready))
]

not_running : (side : Side) → is_running (wait_state side) ≡ false
not_running Side.empty = refl
not_running Side.full = refl

on_side : (side : Side) → is_on side (wait_state side) ≡ true
on_side Side.empty = refl
on_side Side.full = refl

push_waiting_process-Ready :
    (side : Side) (f p : ℕ) (u : Sys)
    → Ready (also p at_home) u
    → is_on side (u.processes p).state ≡ true
    → (u.processes p).fid ≡ f
    → Ready at_home (push_waiting_process side f p u)
unfolding push_waiting_process
push_waiting_process-Ready side f p u v st fd = record {
  shape = Shape-push_waiting_process side f p u v.shape st fd;
  only_active = v.only_active;
  idle = v.idle;
  sound = panicked-push_waiting_process side f p u st ∙ v.sound;
}

module _ (s : Sys) (e : Elects s) (nz : s.active_process ≢ 0) where
  abbrev self : ℕ
  self = s.active_process

  suspend-Ready :
      (side : Side) (f : ℕ) (m : ℤ) (to : Option ℕ) → Ready at_home (suspend side f m to s)
  unfolding suspend
  suspend-Ready side f m to =
      push_waiting_process-Ready side f self _
        (Ready-set_process at_home self (remove_runnable self s) _
          (Ready-remove_runnable at_home self s e.valid.ready (ground (arith, e.valid.active))) nz
          (inl (not_running side)))
        (ground (arith, on_side side)) (ground arith)

  pub suspended-Elects :
      (side : Side) (f : ℕ) (m : ℤ) (to : Option ℕ)
      → Elects (tick_scheduler (suspend side f m to s))
  suspended-Elects side f m to = (tick_scheduler-Elects _ (suspend-Ready side f m to)).0
