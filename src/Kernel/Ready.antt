-- ===== src/Kernel/Ready.antt =====
-- The states of the kernel in which the scheduler may be called, and those in which it leaves it.
use calm_os.Base.{ℕ, ◌≡◌, ◌≢◌, ◌<◌, ◌≤ℤ◌, Bool, true, false, ◌||◌, arith, ℤ, ◌⊎◌}
use calm_os.Base.Sorted.{All}
use calm_os.Kernel.State.{Process, Sys, is_runnable, is_running, set_process}
use calm_os.Kernel.Invariant.{
  Shape, at_home, also, is_unlisted, Shape-frame, Shape-set_process, leave, come_home,
}

-- No process but the active one runs, the idle process can be chosen, no assertion has failed.
pub record Ready (away : ℕ → Bool) (s : Sys) : Type 0 where
  pub shape : Shape away s
  pub only_active : (p : ℕ) → is_running (s.processes p).state ≡ true → p ≡ s.active_process
  pub idle : (is_runnable (s.processes 0).state || is_running (s.processes 0).state) ≡ true
  pub sound : s.panicked ≡ false

-- Moreover every process is on its list, and the active process runs.
pub record IsValid (s : Sys) : Type 0 where
  pub ready : Ready at_home s
  pub active : is_running (s.processes s.active_process).state ≡ true

-- No runnable process has a higher priority than the active one.
abbrev pub IsElected : Sys → Type 0
IsElected s =
    All (λ q. (s.processes q).prio ≤ℤ (s.processes s.active_process).prio) s.runnable_process

-- No sleeper's time has come.
abbrev pub IsAwake : Sys → Type 0
IsAwake s = All (λ q. s.clock < (s.processes q).wake) s.asleep_process

module _ (away : ℕ → Bool) (p : ℕ) (s : Sys) where
  pub Ready-leave : Ready away s → is_unlisted (s.processes p).state ≡ true → Ready (also p away) s
  Ready-leave v h = record {
    shape = leave away p s v.shape h;
    only_active = v.only_active;
    idle = v.idle;
    sound = v.sound;
  }

  pub Ready-come_home :
      Ready (also p away) s → is_unlisted (s.processes p).state ≡ true → Ready away s
  Ready-come_home v h = record {
    shape = come_home away p s v.shape h;
    only_active = v.only_active;
    idle = v.idle;
    sound = v.sound;
  }

  -- A process on no list may be changed, if it does not begin to run beside the active one and is
  -- not the idle process.
  pub Ready-set_process :
      (r : Process)
      → Ready (also p away) s
      → p ≢ 0
      → (is_running r.state ≡ false) ⊎ (p ≡ s.active_process)
      → Ready (also p away) (set_process p r s)
  Ready-set_process r v nz h = record {
    shape = Shape-set_process away p r s v.shape;
    only_active = λ q. ground (arith, v.only_active q);
    idle = ground (arith, v.idle);
    sound = v.sound;
  }

pub Ready-frame :
    (away : ℕ → Bool) (s : Sys) (clock esp0 : ℕ) (memory : ℕ → ℤ)
    → Ready away s
    → Ready away (record s { clock = clock; esp0 = esp0; memory = memory })
Ready-frame away s c e m v = record {
  shape = Shape-frame away s _ _ _ _ _ v.shape;
  only_active = v.only_active;
  idle = v.idle;
  sound = v.sound;
}
