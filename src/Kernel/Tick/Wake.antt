-- ===== src/Kernel/Tick/Wake.antt =====
-- The loop of `tick_scheduler` that wakes sleepers up.
use calm_os.Base.{
  ℕ, suc, ◌≡◌, true, List, [], ◌∷◌, refl, inl, inr, count, arith, Bool-cases, leb, ap,
}
use calm_os.Base.Sorted.{All-map}
use calm_os.Kernel.State.{Sys, is_asleep, check}
use calm_os.Kernel.Invariant.{Lists, Ordered, at_home, also, Shape-frame}
use calm_os.Kernel.Ready.{Ready, IsAwake}
use calm_os.Kernel.Runnable.{push_runnable}
use calm_os.Kernel.Runnable.Effects.{Ready-push_runnable}
use calm_os.Kernel.Tick.{wake, wake_up}

module _ (p : ℕ) (ps : List ℕ) (s : Sys) (at : s.asleep_process ≡ p ∷ ps)
    (v : Ready at_home s) where
  head_count : count p s.asleep_process ≡ suc (count p ps)
  head_count = rw at (ground arith)

  head-IsAsleep : is_asleep (s.processes p).state ≡ true
  head-IsAsleep = ground (arith, head_count, v.shape.lists.asleep p)

  pop-Lists : Lists (also p at_home) (record s { asleep_process = ps })
  pop-Lists = record {
    runnable = λ q. ground (arith, head-IsAsleep, v.shape.lists.runnable q);
    asleep = λ q. ground (arith, head-IsAsleep, ap (count q) at, v.shape.lists.asleep q);
    dead = λ q. ground (arith, head-IsAsleep, v.shape.lists.dead q);
    empty = λ f q. ground (arith, head-IsAsleep, v.shape.lists.empty f q);
    full = λ f q. ground (arith, head-IsAsleep, v.shape.lists.full f q);
  }

  pop-Ordered : Ordered (record s { asleep_process = ps })
  pop-Ordered = record {
    runnable = v.shape.order.runnable;
    asleep = (rw at at v.shape.order.asleep).1;
    empty = v.shape.order.empty;
    full = v.shape.order.full;
  }

  pop-Ready :
      Ready
        (also p at_home)
        (record (check (is_asleep (s.processes p).state) s) { asleep_process = ps })
  pop-Ready = record {
    shape =
        Shape-frame (also p at_home) (record s { asleep_process = ps }) _ _ _ _ _
          (record { lists = pop-Lists; order = pop-Ordered });
    only_active = v.only_active;
    idle = v.idle;
    sound = ground (arith, head-IsAsleep, v.sound);
  }

  pub wake-Ready : Ready at_home (wake p ps s)
  unfolding wake
  wake-Ready = Ready-push_runnable at_home p _ pop-Ready refl (ground (arith, head-IsAsleep))

asleep-wake : (p : ℕ) (ps : List ℕ) (s : Sys) → (wake p ps s).asleep_process ≡ ps
unfolding wake push_runnable
asleep-wake p ps s = refl

pub wake_up-Ready :
    (ps : List ℕ) (s : Sys) → s.asleep_process ≡ ps → Ready at_home s → Ready at_home (wake_up ps s)
unfolding wake_up
wake_up-Ready [] s at v = v
wake_up-Ready (p ∷ ps) s at v = elim (Bool-cases (leb (s.processes p).wake s.clock)) [
  | inl due ↦ rw due (wake_up-Ready ps (wake p ps s) (asleep-wake p ps s) (wake-Ready p ps s at v))
  | inr later ↦ rw later v
]

-- What is left of the sleepers has to wait on.
pub wake_up-IsAwake :
    (ps : List ℕ) (s : Sys) → s.asleep_process ≡ ps → Ready at_home s → IsAwake (wake_up ps s)
unfolding wake_up
wake_up-IsAwake [] s at v = rw at tt
wake_up-IsAwake (p ∷ ps) s at v = elim (Bool-cases (leb (s.processes p).wake s.clock)) [
  | inl due ↦
      rw due (wake_up-IsAwake ps (wake p ps s) (asleep-wake p ps s) (wake-Ready p ps s at v))
  | inr later ↦
      let sorted = (rw at at v.shape.order.asleep) in
      rw (later, at) (ground arith, All-map ps (λ q h. ground arith) sorted.0)
]
