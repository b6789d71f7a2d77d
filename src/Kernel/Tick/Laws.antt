-- ===== src/Kernel/Tick/Laws.antt =====
-- `tick_scheduler` and `fix_scheduler` of kernel/scheduler.c, and what they leave behind.
use calm_os.Base.{
  ℕ, ◌≡◌, Bool, true, false, List, [], ◌∷◌, ◌||◌, refl, inl, inr, arith, Bool-cases, ap, not, count,
}
use calm_os.Base.Sorted.{All-map}
use calm_os.Kernel.State.{Sys, is_running}
use calm_os.Kernel.Invariant.{at_home, ByPrio}
use calm_os.Kernel.Ready.{Ready, IsValid, IsAwake, IsElected}
use calm_os.Kernel.Tick.{
  wake_up, dispatch, elect, tick_scheduler, fix_scheduler, head_test, prio_ge_active,
  prio_gt_active,
}
use calm_os.Kernel.Tick.Wake.{wake_up-Ready, wake_up-IsAwake}
use calm_os.Kernel.Tick.Dispatch.{chosen-IsValid, chosen-IsElected, chosen-IsAwake, dispatch-chosen}

-- What the scheduler leaves behind.
pub record Elects (s : Sys) : Type 0 where
  pub valid : IsValid s
  pub elected : IsElected s

abbrev must_switch : Sys → Bool
must_switch s =
    not (is_running (s.processes s.active_process).state)
    || head_test prio_ge_active s.runnable_process s

module _ (s : Sys) (v : Ready at_home s) where
  dispatch-Elects :
      (xs : List ℕ)
      → s.runnable_process ≡ xs
      → must_switch s ≡ true
      → Elects (dispatch xs s) × (IsAwake s → IsAwake (dispatch xs s))
  dispatch-Elects [] at m = absurd (
      ground (
        arith,
        ap (count 0) at,
        ap (λ l. head_test prio_ge_active l s) at,
        v.shape.lists.runnable 0,
        v.idle,
        v.only_active 0,
      ))
  dispatch-Elects (h ∷ rest) at m = rw (dispatch-chosen h rest s at v) (
    record { valid = chosen-IsValid h rest s at v; elected = chosen-IsElected h rest s at v fair },
    chosen-IsAwake h rest s at v fair,
  )
    where
      fair : is_running (s.processes s.active_process).state ≡ true → ByPrio s h s.active_process
      fair r = ground (arith, ap (λ l. head_test prio_ge_active l s) at)

  stay-IsElected :
      (xs : List ℕ) → s.runnable_process ≡ xs → head_test prio_gt_active xs s ≡ false → IsElected s
  stay-IsElected [] at h = rw at tt
  stay-IsElected (x ∷ xs) at h =
      let sorted = (rw at at v.shape.order.runnable) in
      rw at (ground arith, All-map xs (λ q le. ground arith) sorted.0)

  stay-Elects :
      is_running (s.processes s.active_process).state ≡ true
      → head_test prio_gt_active s.runnable_process s ≡ false
      → Elects s
  stay-Elects r h = record {
    valid = record { ready = v; active = r };
    elected = stay-IsElected s.runnable_process refl h;
  }

  gt_of_ge :
      (xs : List ℕ) → head_test prio_ge_active xs s ≡ false → head_test prio_gt_active xs s ≡ false
  gt_of_ge [] h = refl
  gt_of_ge (x ∷ xs) h = ground arith

  elect-Elects : Elects (elect s) × (IsAwake s → IsAwake (elect s))
  unfolding elect
  elect-Elects = elim (Bool-cases (must_switch s)) [
    | inl m ↦ rw m (dispatch-Elects s.runnable_process refl m)
    | inr k ↦ rw k (stay-Elects (ground arith) (gt_of_ge s.runnable_process (ground arith)), λ a. a)
  ]

module _ (s : Sys) (v : Ready at_home s) where
  -- From any state in which every process is on its list and the idle process can be chosen,
  -- `tick_scheduler` fails no assertion, follows no null pointer and keeps the lists; afterwards the
  -- active process is the one that runs, no runnable process has a higher priority, and no sleeper
  -- is left whose time has come.
  pub tick_scheduler-Elects : Elects (tick_scheduler s) × IsAwake (tick_scheduler s)
  unfolding tick_scheduler
  tick_scheduler-Elects =
      let w = wake_up-Ready s.asleep_process s refl v in
      let (e, a) = elect-Elects (wake_up s.asleep_process s) w in
      (e, a (wake_up-IsAwake s.asleep_process s refl v))

  -- From such a state `fix_scheduler` too leaves the kernel valid, with no runnable process of a
  -- higher priority than the active one.
  pub fix_scheduler-Elects : Elects (fix_scheduler s)
  unfolding fix_scheduler
  fix_scheduler-Elects =
      elim (Bool-cases (
        not (is_running (s.processes s.active_process).state)
        || head_test prio_gt_active s.runnable_process s)) [
          | inl m ↦ rw m tick_scheduler-Elects.0
          | inr k ↦ rw k (stay-Elects s v (ground arith) (ground arith))
        ]
