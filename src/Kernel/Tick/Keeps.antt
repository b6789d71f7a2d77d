-- ===== src/Kernel/Tick/Keeps.antt =====
-- The data that `tick_scheduler` and `fix_scheduler` of kernel/scheduler.c do not touch.
use calm_os.Base.{
  ℕ, ◌≡◌, Bool, true, ◌||◌, List, [], ◌∷◌, refl, inl, inr, ◌∙◌, arith, Bool-cases, leb,
}
use calm_os.Kernel.State.{Sys, is_runnable, is_running, is_asleep, check}
use calm_os.Kernel.Runnable.{push_runnable}
use calm_os.Kernel.Runnable.Effects.{prio-push_runnable}
use calm_os.Kernel.Tick.{wake, wake_up, dispatch, elect, tick_scheduler, fix_scheduler}

module _ (q : ℕ) where
  prio-wake :
      (p : ℕ) (ps : List ℕ) (s : Sys) → ((wake p ps s).processes q).prio ≡ (s.processes q).prio
  unfolding wake
  prio-wake p ps s = prio-push_runnable p _ q

  prio-wake_up : (ps : List ℕ) (s : Sys) → ((wake_up ps s).processes q).prio ≡ (s.processes q).prio
  unfolding wake_up
  prio-wake_up [] s = refl
  prio-wake_up (p ∷ ps) s = ground (arith, prio-wake_up ps (wake p ps s), prio-wake p ps s)

  prio-dispatch :
      (xs : List ℕ) (s : Sys) → ((dispatch xs s).processes q).prio ≡ (s.processes q).prio
  unfolding dispatch
  prio-dispatch [] s = refl
  prio-dispatch (h ∷ rest) s = ground (
    arith,
    prio-push_runnable s.active_process (record s { active_process = h; runnable_process = rest })
        q,
    prio-push_runnable s.active_process (record s { active_process = h; runnable_process = rest })
        h,
  )

  prio-elect : (s : Sys) → ((elect s).processes q).prio ≡ (s.processes q).prio
  unfolding elect
  prio-elect s = ground (arith, prio-dispatch s.runnable_process s)

  pub prio-tick_scheduler : (s : Sys) → ((tick_scheduler s).processes q).prio ≡ (s.processes q).prio
  unfolding tick_scheduler
  prio-tick_scheduler s = prio-elect (wake_up s.asleep_process s) ∙ prio-wake_up s.asleep_process s

  pub prio-fix_scheduler : (s : Sys) → ((fix_scheduler s).processes q).prio ≡ (s.processes q).prio
  unfolding fix_scheduler
  prio-fix_scheduler s = ground (arith, prio-tick_scheduler s)

-- A process that may run goes on so, whatever the scheduler does.
abbrev pub may_run : ℕ → Sys → Bool
may_run q s = is_runnable (s.processes q).state || is_running (s.processes q).state

module _ (q : ℕ) where
  may_run-push_runnable :
      (p : ℕ) (s : Sys) → may_run q s ≡ true → may_run q (push_runnable p s) ≡ true
  unfolding push_runnable
  may_run-push_runnable p s h = ground arith

  may_run-wake_up : (ps : List ℕ) (s : Sys) → may_run q s ≡ true → may_run q (wake_up ps s) ≡ true
  unfolding wake_up wake
  may_run-wake_up [] s h = h
  may_run-wake_up (p ∷ ps) s h = elim (Bool-cases (leb (s.processes p).wake s.clock)) [
    | inl due ↦ rw due (
        may_run-wake_up ps (wake p ps s) (
          may_run-push_runnable p
            (record (check (is_asleep (s.processes p).state) s) { asleep_process = ps }) h))
    | inr later ↦ rw later h
  ]

  may_run-dispatch : (xs : List ℕ) (s : Sys) → may_run q s ≡ true → may_run q (dispatch xs s) ≡ true
  unfolding dispatch
  may_run-dispatch [] s e = e
  may_run-dispatch (h ∷ rest) s e =
      let t = record s { active_process = h; runnable_process = rest } in
      ground (arith, may_run-push_runnable s.active_process t e)

  may_run-elect : (s : Sys) → may_run q s ≡ true → may_run q (elect s) ≡ true
  unfolding elect
  may_run-elect s e = ground (arith, may_run-dispatch s.runnable_process s e)

  may_run-tick_scheduler : (s : Sys) → may_run q s ≡ true → may_run q (tick_scheduler s) ≡ true
  unfolding tick_scheduler
  may_run-tick_scheduler s e =
      may_run-elect (wake_up s.asleep_process s) (may_run-wake_up s.asleep_process s e)

  pub may_run-fix_scheduler : (s : Sys) → may_run q s ≡ true → may_run q (fix_scheduler s) ≡ true
  unfolding fix_scheduler
  may_run-fix_scheduler s e = ground (arith, may_run-tick_scheduler s e)

-- The parts of the kernel that the scheduler does not touch.
pub record SameData (s t : Sys) : Type 0 where
  pub queues : t.queues ≡ s.queues
  pub memory : t.memory ≡ s.memory

trans : {s t u : Sys} → SameData s t → SameData t u → SameData s u
trans a b = record { queues = b.queues ∙ a.queues; memory = b.memory ∙ a.memory }

SameData-wake : (p : ℕ) (ps : List ℕ) (s : Sys) → SameData s (wake p ps s)
unfolding wake push_runnable
SameData-wake p ps s = record { queues = refl; memory = refl }

SameData-wake_up : (ps : List ℕ) (s : Sys) → SameData s (wake_up ps s)
unfolding wake_up
SameData-wake_up [] s = record { queues = refl; memory = refl }
SameData-wake_up (p ∷ ps) s = elim (Bool-cases (leb (s.processes p).wake s.clock)) [
  | inl due ↦ rw due (trans (SameData-wake p ps s) (SameData-wake_up ps (wake p ps s)))
  | inr later ↦ rw later (record { queues = refl; memory = refl })
]

SameData-dispatch : (xs : List ℕ) (s : Sys) → SameData s (dispatch xs s)
unfolding dispatch push_runnable
SameData-dispatch [] s = record { queues = refl; memory = refl }
SameData-dispatch (h ∷ rest) s = record { queues = ground arith; memory = ground arith }

SameData-elect : (s : Sys) → SameData s (elect s)
unfolding elect
SameData-elect s =
    let d = SameData-dispatch s.runnable_process s in
    record { queues = ground (arith, d.queues); memory = ground (arith, d.memory) }

SameData-tick_scheduler : (s : Sys) → SameData s (tick_scheduler s)
unfolding tick_scheduler
SameData-tick_scheduler s =
    trans (SameData-wake_up s.asleep_process s) (SameData-elect (wake_up s.asleep_process s))

pub SameData-fix_scheduler : (s : Sys) → SameData s (fix_scheduler s)
unfolding fix_scheduler
SameData-fix_scheduler s =
    let d = SameData-tick_scheduler s in
    record { queues = ground (arith, d.queues); memory = ground (arith, d.memory) }
