-- ===== src/Kernel/Waiting/Wakeup.antt =====
-- Lemmas on the wakeups of kernel/queues.c, and on a process that leaves its list or changes its
-- priority on it.
use calm_os.Base.{ℕ, ◌≡◌, ◌≢◌, Bool, true, List, [], ◌∷◌, refl, count, arith, ap, ◌∙◌, sym, subst}
use calm_os.Kernel.State.{Process, Sys, set_process, check}
use calm_os.Kernel.Invariant.{at_home, also, Shape-frame, Shape-touch, Shape-set_process}
use calm_os.Kernel.Ready.{Ready}
use calm_os.Kernel.Runnable.{push_runnable}
use calm_os.Kernel.Tick.Laws.{Elects, fix_scheduler-Elects}
use calm_os.Kernel.Waiting.{
  Side, waiting, is_waiting, push_waiting_process, pop_waiting_process, wake_head, wakeup_first,
  wakeup_first_process, wakeup_all, wakeup_all_processes, fail_wait, reorder, queue_reorder_process,
  queue_remove_process,
}
use calm_os.Kernel.Waiting.Shape.{
  is_on, waits, is_cons_of_count, count-waiting, Ready-wake_head, is_waiting_of_on,
  Shape-pop_waiting_process, Shape-push_waiting_process, panicked-pop_waiting_process,
  panicked-push_waiting_process,
}

pub Ready-touch :
    (away : ℕ → Bool) (p : ℕ) (r : Process) (s : Sys)
    → r.state ≡ (s.processes p).state
    → r.fid ≡ (s.processes p).fid
    → r.prio ≡ (s.processes p).prio
    → r.wake ≡ (s.processes p).wake
    → Ready away s
    → Ready away (set_process p r s)
Ready-touch away p r s st fd pr wk v = record {
  shape = Shape-touch away p r s st fd pr wk v.shape;
  only_active = λ q. ground (arith, v.only_active q);
  idle = ground (arith, v.idle);
  sound = v.sound;
}

waiting-wake_head :
    (side : Side) (f p : ℕ) (ps : List ℕ) (s : Sys) → waiting side f (wake_head side f p ps s) ≡ ps
unfolding wake_head push_runnable
waiting-wake_head Side.empty f p ps s = ground arith
waiting-wake_head Side.full f p ps s = ground arith

module _ (side : Side) (f : ℕ) where
  wakeup_all-Ready :
      (ps : List ℕ) (s : Sys)
      → waiting side f s ≡ ps
      → Ready at_home s
      → Ready at_home (wakeup_all side f ps s)
  unfolding wakeup_all
  wakeup_all-Ready [] s at v = v
  wakeup_all-Ready (p ∷ ps) s at v =
      wakeup_all-Ready ps (wake_head side f p ps (fail_wait p s))
        (waiting-wake_head side f p ps (fail_wait p s))
        (Ready-wake_head side f p (fail_wait p s) ps
          (Ready-touch at_home p _ s refl refl refl refl v) at)

  wakeup_all-empties :
      (ps : List ℕ) (s : Sys) → waiting side f s ≡ ps → waiting side f (wakeup_all side f ps s) ≡ []
  unfolding wakeup_all
  wakeup_all-empties [] s at = at
  wakeup_all-empties (p ∷ ps) s at =
      wakeup_all-empties ps (wake_head side f p ps (fail_wait p s))
        (waiting-wake_head side f p ps (fail_wait p s))

  module _ (s : Sys) (v : Ready at_home s) where
    pub wakeup_all_processes-Ready : Ready at_home (wakeup_all_processes side f s)
    unfolding wakeup_all_processes
    wakeup_all_processes-Ready = wakeup_all-Ready (waiting side f s) s refl v

    -- With every process on its list, `wakeup_all_processes` leaves the list empty.
    pub wakeup_all_processes-empties : waiting side f (wakeup_all_processes side f s) ≡ []
    unfolding wakeup_all_processes
    wakeup_all_processes-empties = wakeup_all-empties (waiting side f s) s refl

    head_waits :
        (p : ℕ) (ps : List ℕ) → waiting side f s ≡ p ∷ ps → is_on side (s.processes p).state ≡ true
    head_waits p ps at = ground (arith, ap (count p) at, count-waiting side f p s v.shape.lists p)

    wakeup_first-Elects :
        (xs : List ℕ) → waiting side f s ≡ xs → xs ≢ [] → Elects (wakeup_first side f xs s)
    unfolding wakeup_first
    wakeup_first-Elects [] at ne = absurd (ne refl)
    wakeup_first-Elects (p ∷ ps) at ne =
        fix_scheduler-Elects _ (
          Ready-wake_head side f p _ ps (checked (is_waiting_of_on side _ (head_waits p ps at))) at)
      where
        checked :
            is_waiting (s.processes p).state ≡ true
            → Ready at_home (check (is_waiting (s.processes p).state) s)
        checked h = record {
          shape = Shape-frame at_home s _ _ _ _ _ v.shape;
          only_active = v.only_active;
          idle = v.idle;
          sound = ground (arith, v.sound);
        }

    -- With a process in the list, its head becomes runnable and the scheduler is triggered.
    pub wakeup_first_process-Elects : waiting side f s ≢ [] → Elects (wakeup_first_process side f s)
    unfolding wakeup_first_process
    wakeup_first_process-Elects = wakeup_first-Elects (waiting side f s) refl

module _ (side : Side) (p : ℕ) (s : Sys) (v : Ready at_home s)
    (w : is_on side (s.processes p).state ≡ true) where
  here : waits side (s.processes p).fid p s ≡ true
  here = ground arith

  -- A waiting process that is stopped leaves its list.
  pub queue_remove_process-Ready : Ready (also p at_home) (queue_remove_process side p s)
  unfolding queue_remove_process
  queue_remove_process-Ready = record {
    shape = Shape-pop_waiting_process side (s.processes p).fid p s v.shape here;
    only_active = v.only_active;
    idle = v.idle;
    sound = panicked-pop_waiting_process side (s.processes p).fid p s v.shape.lists here ∙ v.sound;
  }

  -- A process whose priority changes while it waits is put back where its new priority belongs.
  module _ (r : Process) (st : r.state ≡ (s.processes p).state)
      (fd : r.fid ≡ (s.processes p).fid) where
    abbrev changed : Sys
    changed = check (is_waiting r.state) (set_process p r s)

    popped-Ready : Ready (also p at_home) (pop_waiting_process side (s.processes p).fid p changed)
    unfolding pop_waiting_process
    popped-Ready = record {
      shape =
          Shape-frame (also p at_home)
            (set_process p r (pop_waiting_process side (s.processes p).fid p s)) _ _ _ _ _
            (Shape-set_process at_home p r _
              (Shape-pop_waiting_process side (s.processes p).fid p s v.shape here));
      only_active = λ q. ground (arith, v.only_active q);
      idle = ground (arith, v.idle);
      sound = ground (
        arith,
        v.sound,
        is_waiting_of_on side (s.processes p).state w,
        is_cons_of_count p (waiting side (s.processes p).fid s),
        count-waiting side (s.processes p).fid p s v.shape.lists p,
      );
    }

    popped_process : (pop_waiting_process side (s.processes p).fid p changed).processes p ≡ r
    unfolding pop_waiting_process
    popped_process = ground arith

    abbrev popped : Sys
    popped = pop_waiting_process side (s.processes p).fid p changed

    popped_on : is_on side (popped.processes p).state ≡ true
    popped_on =
        subst (λ r'. is_on side r'.state ≡ true) (sym popped_process)
          (subst (λ st'. is_on side st' ≡ true) (sym st) w)

    reorder-Ready : Ready at_home (reorder side (s.processes p).fid p changed)
    unfolding push_waiting_process
    reorder-Ready = record {
      shape =
          Shape-push_waiting_process side (s.processes p).fid p popped popped-Ready.shape popped_on
            (ap (λ (r' : Process). r'.fid) popped_process ∙ fd);
      only_active = popped-Ready.only_active;
      idle = popped-Ready.idle;
      sound =
          panicked-push_waiting_process side (s.processes p).fid p popped popped_on
          ∙ popped-Ready.sound;
    }

    pub queue_reorder_process-Ready :
        Ready at_home (queue_reorder_process side p (set_process p r s))
    unfolding queue_reorder_process
    queue_reorder_process-Ready =
        subst
          (λ (r' : Process).
            Ready at_home (reorder side r'.fid p (check (is_waiting r'.state) (set_process p r s))))
          own (subst (λ g. Ready at_home (reorder side g p changed)) (sym fd) reorder-Ready)
      where
        own : r ≡ (set_process p r s).processes p
        own = ground arith
