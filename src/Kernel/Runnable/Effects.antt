-- ===== src/Kernel/Runnable/Effects.antt =====
-- What `push_runnable`, `remove_runnable` and `push_dead` of kernel/scheduler.c change.
use calm_os.Base.{
  ℕ, ◌≡◌, ◌≢◌, Bool, true, false, ◌||◌, ◌==◌, if◌then◌else◌, arith, unlink, refl, ◌∙◌,
}
use calm_os.Kernel.State.{ProcessState, Sys, is_runnable, is_dead}
use calm_os.Kernel.Invariant.{also, is_unlisted}
use calm_os.Kernel.Ready.{Ready}
use calm_os.Kernel.Runnable.{push_runnable, remove_runnable, push_dead}
use calm_os.Kernel.Runnable.Shape.{Shape-push_runnable, Shape-remove_runnable, Shape-push_dead}

module _ (p : ℕ) (s : Sys) where
  pub state-push_runnable :
      (q : ℕ)
      → ((push_runnable p s).processes q).state
        ≡ (if p == q then ProcessState.runnable else (s.processes q).state)
  unfolding push_runnable
  state-push_runnable q = ground arith

  pub prio-push_runnable : (q : ℕ) → ((push_runnable p s).processes q).prio ≡ (s.processes q).prio
  unfolding push_runnable
  prio-push_runnable q = ground arith

  pub wake-push_runnable : (q : ℕ) → ((push_runnable p s).processes q).wake ≡ (s.processes q).wake
  unfolding push_runnable
  wake-push_runnable q = ground arith

  pub state-push_dead :
      (q : ℕ)
      → ((push_dead p s).processes q).state
        ≡ (if p == q then ProcessState.dead else (s.processes q).state)
  unfolding push_dead
  state-push_dead q = ground arith

  pub panicked-push_runnable :
      is_runnable (s.processes p).state ≡ false → (push_runnable p s).panicked ≡ s.panicked
  unfolding push_runnable
  panicked-push_runnable h = ground arith

  pub panicked-push_dead :
      is_dead (s.processes p).state ≡ false → (push_dead p s).panicked ≡ s.panicked
  unfolding push_dead
  panicked-push_dead h = ground arith

  pub processes-remove_runnable : (remove_runnable p s).processes ≡ s.processes
  unfolding remove_runnable
  processes-remove_runnable = ground arith

  pub remove_runnable_other : is_runnable (s.processes p).state ≡ false → remove_runnable p s ≡ s
  unfolding remove_runnable
  remove_runnable_other h = rw h

  pub remove_runnable_listed :
      is_runnable (s.processes p).state ≡ true
      → remove_runnable p s ≡ record s { runnable_process = unlink p s.runnable_process }
  unfolding remove_runnable
  remove_runnable_listed h = rw h

  pub active-push_runnable : (push_runnable p s).active_process ≡ s.active_process
  unfolding push_runnable
  active-push_runnable = refl

  pub active-remove_runnable : (remove_runnable p s).active_process ≡ s.active_process
  unfolding remove_runnable
  active-remove_runnable = ground arith

  pub panicked-remove_runnable : (remove_runnable p s).panicked ≡ s.panicked
  unfolding remove_runnable
  panicked-remove_runnable = ground arith

  pub active-push_dead : (push_dead p s).active_process ≡ s.active_process
  unfolding push_dead
  active-push_dead = refl

module _ (away : ℕ → Bool) (p : ℕ) (s : Sys) where
  pub Ready-push_runnable :
      Ready (also p away) s
      → away p ≡ false
      → is_runnable (s.processes p).state ≡ false
      → Ready away (push_runnable p s)
  Ready-push_runnable v h n = record {
    shape = Shape-push_runnable away p s v.shape h;
    only_active =
        λ q. ground (arith, v.only_active q, state-push_runnable p s q, active-push_runnable p s);
    idle = ground (arith, v.idle, state-push_runnable p s 0);
    sound = ground (arith, v.sound, panicked-push_runnable p s);
  }

  pub Ready-push_dead :
      Ready (also p away) s
      → away p ≡ false
      → p ≢ 0
      → is_dead (s.processes p).state ≡ false
      → Ready away (push_dead p s)
  Ready-push_dead v h nz n = record {
    shape = Shape-push_dead away p s v.shape h;
    only_active = λ q. ground (arith, v.only_active q, state-push_dead p s q, active-push_dead p s);
    idle = ground (arith, v.idle, state-push_dead p s 0);
    sound = ground (arith, v.sound, panicked-push_dead p s);
  }

  pub Ready-remove_runnable :
      Ready away s
      → (is_runnable (s.processes p).state || is_unlisted (s.processes p).state) ≡ true
      → Ready (also p away) (remove_runnable p s)
  Ready-remove_runnable v h = record {
    shape = Shape-remove_runnable away p s v.shape h;
    only_active =
        λ q. rw (processes-remove_runnable p s, active-remove_runnable p s) (v.only_active q);
    idle = rw (processes-remove_runnable p s) v.idle;
    sound = panicked-remove_runnable p s ∙ v.sound;
  }
