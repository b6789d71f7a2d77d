-- ===== src/Kernel/Scheduler/Prio.antt =====
-- `chprio` of kernel/scheduler.c, the priorities and the invariant of the kernel.
use calm_os.Base.{
  ℕ, ◌≡◌, ◌≢◌, ℤ, pos, negsuc, true, false, ◌==◌, ◌==ℤ◌, ==ℤ_eq, Option, none, some, refl, inl, inr,
  arith, Bool-cases, if◌then◌else◌, unlink, ◌∙◌, sym, ap, leb_ℤ, ltb_ℤ,
}
use calm_os.Base.Sorted.{Sorted-away, Sorted-map}
use calm_os.Kernel.State.{
  ProcessState, Process, Sys, is_alive, is_asleep, is_runnable, set_state, maxprio,
}
use calm_os.Kernel.Invariant.{
  Shape, at_home, also, ByPrio, ByWake, Shape-set_process, leave, come_home, is_unlisted,
}
use calm_os.Kernel.Ready.{Ready}
use calm_os.Kernel.Runnable.{push_runnable, remove_runnable}
use calm_os.Kernel.Runnable.Effects.{
  state-push_runnable, active-push_runnable, panicked-push_runnable, remove_runnable_listed,
}
use calm_os.Kernel.Runnable.Shape.{Shape-push_runnable, Shape-remove_runnable}
use calm_os.Kernel.Tick.{fix_scheduler}
use calm_os.Kernel.Tick.Keeps.{prio-fix_scheduler}
use calm_os.Kernel.Tick.Laws.{Elects, fix_scheduler-Elects}
use calm_os.Kernel.Waiting.{Side, queue_reorder_process}
use calm_os.Kernel.Waiting.Wakeup.{queue_reorder_process-Ready}
use calm_os.Kernel.Stop.{alive_pid}
use calm_os.Kernel.Scheduler.{replace, set_prio, change_prio, chprio_checked, chprio}

module _ (p : ℕ) (prio : ℤ) (s : Sys) (v : Ready at_home s) where
  abbrev changed : Process
  changed = record (s.processes p) { prio = prio }

  -- The rest of the invariant reads states only.
  same_states : Shape at_home (set_prio p prio s) → Ready at_home (set_prio p prio s)
  same_states shape = record {
    shape = shape;
    only_active = λ q. ground (arith, v.only_active q);
    idle = ground (arith, v.idle);
    sound = v.sound;
  }

  unlisted-Shape : is_unlisted (s.processes p).state ≡ true → Shape at_home (set_prio p prio s)
  unlisted-Shape h =
      come_home at_home p (set_prio p prio s)
        (Shape-set_process at_home p changed s (leave at_home p s v.shape h)) (ground arith)

  prio_away : (x y : ℕ) → x ≢ p → y ≢ p → ByPrio s x y → ByPrio (set_prio p prio s) x y
  prio_away x y hx hy h = ground arith

  wake_kept : (x y : ℕ) → ByWake s x y → ByWake (set_prio p prio s) x y
  wake_kept x y h = ground arith

  asleep-Shape : is_asleep (s.processes p).state ≡ true → Shape at_home (set_prio p prio s)
  asleep-Shape h = record {
    lists = record {
      runnable = λ q. ground (arith, v.shape.lists.runnable q);
      asleep = λ q. ground (arith, v.shape.lists.asleep q);
      dead = λ q. ground (arith, v.shape.lists.dead q);
      empty = λ f q. ground (arith, v.shape.lists.empty f q);
      full = λ f q. ground (arith, v.shape.lists.full f q);
    };
    order = record {
      runnable =
          Sorted-away p s.runnable_process (ground (arith, v.shape.lists.runnable p)) prio_away
            v.shape.order.runnable;
      asleep = Sorted-map s.asleep_process wake_kept v.shape.order.asleep;
      empty = λ f.
          Sorted-away p (s.queues f).empty_process (ground (arith, v.shape.lists.empty f p))
            prio_away (v.shape.order.empty f);
      full = λ f.
          Sorted-away p (s.queues f).full_process (ground (arith, v.shape.lists.full f p)) prio_away
            (v.shape.order.full f);
    };
  }

  module _ (h : is_runnable (s.processes p).state ≡ true) where
    abbrev removed : Sys
    removed = remove_runnable p (set_prio p prio s)

    removed-Shape : Shape (also p at_home) removed
    removed-Shape = rw (remove_runnable_listed p (set_prio p prio s) (ground arith)) (
        Shape-set_process at_home p changed
          (record s { runnable_process = unlink p s.runnable_process })
          (rw (← remove_runnable_listed p s h)
            (Shape-remove_runnable at_home p s v.shape (ground arith))))

    removed_parts :
        (removed.processes ≡ (set_prio p prio s).processes)
        × (removed.active_process ≡ s.active_process)
        × (removed.panicked ≡ s.panicked)
    removed_parts =
        rw (remove_runnable_listed p (set_prio p prio s) (ground arith)) (refl, refl, refl)

    abbrev undecided : Sys
    undecided = set_state p ProcessState.zombie removed

    undecided_state :
        (q : ℕ) → (p == q) ≡ false → (undecided.processes q).state ≡ (s.processes q).state
    undecided_state q n = ground (arith, ap (λ ps. ps q) removed_parts.0)

    replaced-Ready : Ready at_home (push_runnable p undecided)
    replaced-Ready = record {
      shape =
          Shape-push_runnable at_home p undecided
            (Shape-set_process at_home p _ removed removed-Shape) refl;
      only_active = λ q. ground (
        arith,
        state-push_runnable p undecided q,
        undecided_state q,
        v.only_active q,
        active-push_runnable p undecided,
        removed_parts.1,
      );
      idle = ground (arith, state-push_runnable p undecided 0, undecided_state 0, v.idle);
      sound = ground (arith, panicked-push_runnable p undecided, removed_parts.2, v.sound);
    }

  replace-Ready :
      (st : ProcessState)
      → (s.processes p).state ≡ st
      → is_alive st ≡ true
      → Ready at_home (replace st p (set_prio p prio s))
  unfolding replace
  replace-Ready ProcessState.runnable e a = replaced-Ready (rw e)
  replace-Ready ProcessState.wait_queue_empty e a =
      queue_reorder_process-Ready Side.empty p s v (rw e) changed refl refl
  replace-Ready ProcessState.wait_queue_full e a =
      queue_reorder_process-Ready Side.full p s v (rw e) changed refl refl
  replace-Ready ProcessState.asleep e a = same_states (asleep-Shape (rw e))
  replace-Ready ProcessState.running e a = same_states (unlisted-Shape (rw e))
  replace-Ready ProcessState.wait_child e a = same_states (unlisted-Shape (rw e))
  replace-Ready ProcessState.dead e a = cc
  replace-Ready ProcessState.zombie e a = cc

-- The new priority is in force, and no other is changed.
prio-replace :
    (p : ℕ) (prio : ℤ) (s : Sys) (st : ProcessState) (q : ℕ)
    → ((replace st p (set_prio p prio s)).processes q).prio
      ≡ (if p == q then prio else (s.processes q).prio)
unfolding replace queue_reorder_process push_runnable remove_runnable
prio-replace p prio s ProcessState.runnable q = ground arith
prio-replace p prio s ProcessState.wait_queue_empty q = ground arith
prio-replace p prio s ProcessState.wait_queue_full q = ground arith
prio-replace p prio s _ q = ground arith

alive_pid-IsAlive :
    (pid : ℤ) (p : ℕ) (s : Sys)
    → alive_pid pid s ≡ some p
    → (pid ≡ pos p) × (is_alive (s.processes p).state ≡ true)
alive_pid-IsAlive (pos n) p s e = ground arith
alive_pid-IsAlive (negsuc n) p s e = cc

-- From a valid kernel whose active process has the highest priority of the runnable ones, `chprio`
-- leads to such a kernel on every branch, errors included.
pub chprio-Elects : (pid prio : ℤ) (s : Sys) → Elects s → Elects (chprio pid prio s).1
unfolding chprio change_prio
chprio-Elects pid prio s v = on_pid (alive_pid pid s) refl
  where
    changes : (p : ℕ) → alive_pid pid s ≡ some p → Elects (fix_scheduler (change_prio p prio s))
    changes p e = fix_scheduler-Elects _ (
        replace-Ready p prio s v.valid.ready (s.processes p).state refl
          (alive_pid-IsAlive pid p s e).1)

    on_pid : (o : Option ℕ) → alive_pid pid s ≡ o → Elects (chprio_checked o prio s).1
    on_pid none e = v
    on_pid (some p) e = ground (arith, changes p e)

-- `chprio` of an alive process to a legal priority returns the old priority, and then the process
-- has the new one and every other process its own.
pub chprio_lem :
    (p : ℕ) (prio : ℤ) (s : Sys)
    → alive_pid (pos p) s ≡ some p
    → leb_ℤ prio (pos 0) ≡ false
    → ltb_ℤ (pos maxprio) prio ≡ false
    → ((chprio (pos p) prio s).0 ≡ (s.processes p).prio)
      × ((q : ℕ)
          → (((chprio (pos p) prio s).1).processes q).prio
            ≡ (if p == q then prio else (s.processes q).prio))
unfolding chprio change_prio
chprio_lem p prio s e lo hi = elim (Bool-cases ((s.processes p).prio ==ℤ prio)) [
  | inl same ↦
      rw (e, lo, hi, same)
        (
          sym (==ℤ_eq (s.processes p).prio prio same),
          λ q. ground (arith, ==ℤ_eq (s.processes p).prio prio same),
        )
  | inr new ↦
      rw (e, lo, hi, new)
        (
          refl,
          λ q.
              prio-fix_scheduler q (change_prio p prio s)
              ∙ prio-replace p prio s (s.processes p).state q,
        )
]
