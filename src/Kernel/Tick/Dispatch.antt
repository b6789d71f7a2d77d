-- ===== src/Kernel/Tick/Dispatch.antt =====
-- The choice of `tick_scheduler` of kernel/scheduler.c.
use calm_os.Base.{
  ℕ, ◌≡◌, ◌≢◌, Bool, true, false, List, ◌∷◌, ◌==◌, refl, inl, inr, count, arith, Bool-cases, ap,
  if◌then◌else◌,
}
use calm_os.Base.Sorted.{All, All-map, All-insert_before}
use calm_os.Kernel.State.{ProcessState, Sys, is_running, is_runnable, set_state}
use calm_os.Kernel.Invariant.{
  Shape, at_home, also, ByPrio, Shape-frame, Shape-set_process, leave, come_home,
}
use calm_os.Kernel.Ready.{Ready, IsValid, IsAwake, IsElected}
use calm_os.Kernel.Runnable.{push_runnable}
use calm_os.Kernel.Runnable.Effects.{
  state-push_runnable, prio-push_runnable, wake-push_runnable, active-push_runnable,
  panicked-push_runnable,
}
use calm_os.Kernel.Runnable.Shape.{Shape-push_runnable}
use calm_os.Kernel.Tick.{dispatch}

module _ (h : ℕ) (rest : List ℕ) (s : Sys) (at : s.runnable_process ≡ h ∷ rest)
    (v : Ready at_home s) where
  head-IsRunnable : is_runnable (s.processes h).state ≡ true
  head-IsRunnable = ground (arith, ap (count h) at, v.shape.lists.runnable h)

  abbrev pub popped : Sys
  popped = record s { active_process = h; runnable_process = rest }

  pop-Shape : Shape (also h at_home) popped
  pop-Shape = record {
    lists = record {
      runnable = λ q. ground (arith, head-IsRunnable, ap (count q) at, v.shape.lists.runnable q);
      asleep = λ q. ground (arith, head-IsRunnable, v.shape.lists.asleep q);
      dead = λ q. ground (arith, head-IsRunnable, v.shape.lists.dead q);
      empty = λ f q. ground (arith, head-IsRunnable, v.shape.lists.empty f q);
      full = λ f q. ground (arith, head-IsRunnable, v.shape.lists.full f q);
    };
    order = record {
      runnable = (rw at at v.shape.order.runnable).1;
      asleep = v.shape.order.asleep;
      empty = v.shape.order.empty;
      full = v.shape.order.full;
    };
  }

  abbrev pub prev : ℕ
  prev = s.active_process

  head_ne_prev : is_running (s.processes prev).state ≡ true → (h == prev) ≡ false
  head_ne_prev r = ground (arith, head-IsRunnable)

  -- the kernel when the previous process has been put back
  abbrev put_back : Sys
  put_back = if is_running (s.processes prev).state then push_runnable prev popped else popped

  put_back-Shape : Shape (also h at_home) put_back
  put_back-Shape = elim (Bool-cases (is_running (s.processes prev).state)) [
    | inl r ↦ rw r (
        Shape-push_runnable (also h at_home) prev popped
          (leave (also h at_home) prev popped pop-Shape (ground arith))
          (ground (arith, head_ne_prev)))
    | inr n ↦ rw n pop-Shape
  ]

  put_back-state : (q : ℕ) → is_running (put_back.processes q).state ≡ true → ⊥
  put_back-state q r = ground (arith, state-push_runnable prev popped q, v.only_active q)

  put_back-prio : (q : ℕ) → (put_back.processes q).prio ≡ (s.processes q).prio
  put_back-prio q = ground (arith, prio-push_runnable prev popped q)

  put_back-runnable : (put_back.processes h).state ≡ (s.processes h).state
  put_back-runnable =
      ground (arith, state-push_runnable prev popped h, head_ne_prev, head-IsRunnable)

  put_back_sound : put_back.panicked ≡ false
  put_back_sound = ground (arith, panicked-push_runnable prev popped, v.sound)

  put_back-active : put_back.active_process ≡ h
  put_back-active = ground (arith, active-push_runnable prev popped)

  put_back-asleep : (put_back.asleep_process ≡ s.asleep_process) × (put_back.clock ≡ s.clock)
  unfolding push_runnable
  put_back-asleep = ground arith

  put_back-wake : (q : ℕ) → (put_back.processes q).wake ≡ (s.processes q).wake
  put_back-wake q = ground (arith, wake-push_runnable prev popped q)

  idle_kept : h ≢ 0 → (is_runnable (put_back.processes 0).state) ≡ true
  idle_kept nz = ground (arith, v.idle, state-push_runnable prev popped 0, v.only_active 0)

  pub chosen : Sys
  chosen = record (set_state h ProcessState.running put_back) { esp0 = h }

  chosen-Ready : Ready at_home chosen
  unfolding chosen
  chosen-Ready = record {
    shape =
        come_home at_home h chosen
          (Shape-frame (also h at_home) (set_state h ProcessState.running put_back) _ _ _ _ _
            (Shape-set_process at_home h _ put_back put_back-Shape))
          (ground arith);
    only_active = λ q. ground (arith, put_back-state q, put_back-active);
    idle = ground (arith, idle_kept);
    sound = put_back_sound;
  }

  pub chosen-IsValid : IsValid chosen
  unfolding chosen
  chosen-IsValid = record { ready = chosen-Ready; active = ground (arith, put_back-active) }

  pub chosen_prio : (q : ℕ) → (chosen.processes q).prio ≡ (s.processes q).prio
  unfolding chosen
  chosen_prio q = ground (arith, put_back-prio q)

  pub chosen-wake : (q : ℕ) → (chosen.processes q).wake ≡ (s.processes q).wake
  unfolding chosen
  chosen-wake q = ground (arith, put_back-wake q)

  pub chosen-asleep : (chosen.asleep_process ≡ s.asleep_process) × (chosen.clock ≡ s.clock)
  unfolding chosen
  chosen-asleep = put_back-asleep

  pub chosen-active : chosen.active_process ≡ h
  unfolding chosen
  chosen-active = put_back-active

  -- The previous process, which runs, goes where `push_runnable` puts it.
  pub chosen-runnable :
      is_running (s.processes prev).state ≡ true
      → chosen.runnable_process ≡ (push_runnable prev popped).runnable_process
  unfolding chosen
  chosen-runnable r = ground (
    arith,
    ap (λ (b : Bool). (if b then push_runnable prev popped else popped).runnable_process) r,
  )

  head_highest : All (ByPrio s h) rest
  head_highest = (rw at at v.shape.order.runnable).0

  module _ (fair : is_running (s.processes prev).state ≡ true → ByPrio s h prev) where
    put_back_highest : All (ByPrio s h) put_back.runnable_process
    unfolding push_runnable
    put_back_highest = elim (Bool-cases (is_running (s.processes prev).state)) [
      | inl r ↦ rw r (All-insert_before (ByPrio s h) _ prev rest (fair r) head_highest)
      | inr n ↦ rw n head_highest
    ]

    pub chosen-IsElected : IsElected chosen
    unfolding chosen
    chosen-IsElected =
        All-map put_back.runnable_process
          (λ q le. rw (chosen_prio q, put_back-active, chosen_prio h) le) put_back_highest

    pub chosen-IsAwake : IsAwake s → IsAwake chosen
    unfolding chosen
    chosen-IsAwake a =
        rw put_back-asleep.0 (
          All-map s.asleep_process (λ q lt. ground (arith, put_back-asleep, put_back-wake q, lt)) a)

  pub dispatch-chosen : dispatch (h ∷ rest) s ≡ chosen
  unfolding dispatch chosen
  dispatch-chosen = refl
