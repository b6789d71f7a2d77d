-- ===== src/Kernel/Elects.antt =====
-- Small changes of a valid kernel after which it is valid, with the same process elected.
use calm_os.Base.{ℕ, ◌≡◌, ℤ, Bool, true, Option, none, some, refl, arith}
use calm_os.Base.Sorted.{All-map}
use calm_os.Kernel.State.{Process, Sys, is_zombie, set_process, check, store}
use calm_os.Kernel.Invariant.{at_home, Shape-frame}
use calm_os.Kernel.Ready.{Ready, Ready-leave, Ready-frame}
use calm_os.Kernel.Runnable.{push_dead}
use calm_os.Kernel.Runnable.Effects.{Ready-push_dead, state-push_dead}
use calm_os.Kernel.Tick.Laws.{Elects}
use calm_os.Kernel.Waiting.Wakeup.{Ready-touch}

pub store-Elects : (to : Option ℕ) (x : ℤ) (s : Sys) → Elects s → Elects (store to x s)
store-Elects none x s e = e
store-Elects (some a) x s e = record {
  valid = record { ready = Ready-frame at_home s _ _ _ e.valid.ready; active = e.valid.active };
  elected = e.elected;
}

pub store-Ready : (to : Option ℕ) (x : ℤ) (s : Sys) → Ready at_home s → Ready at_home (store to x s)
store-Ready none x s v = v
store-Ready (some a) x s v = Ready-frame at_home s _ _ _ v

pub processes-store : (to : Option ℕ) (x : ℤ) (s : Sys) → (store to x s).processes ≡ s.processes
processes-store none x s = refl
processes-store (some a) x s = refl

prio-push_dead :
    (c : ℕ) (s : Sys) (q : ℕ) → ((push_dead c s).processes q).prio ≡ (s.processes q).prio
unfolding push_dead
prio-push_dead c s q = ground arith

-- Freeing a zombie disturbs nobody.
pub push_dead-Elects :
    (c : ℕ) (s : Sys) → Elects s → is_zombie (s.processes c).state ≡ true → Elects (push_dead c s)
unfolding push_dead
push_dead-Elects c s e z = record {
  valid = record {
    ready =
        Ready-push_dead at_home c s (Ready-leave at_home c s e.valid.ready (ground arith)) refl
          (λ i. ground (arith, e.valid.ready.idle)) (ground arith);
    active = ground (arith, state-push_dead c s s.active_process, e.valid.active);
  };
  elected =
      All-map s.runnable_process
        (λ q le. ground (arith, prio-push_dead c s q, prio-push_dead c s s.active_process, le))
        e.elected;
}

pub check-Ready :
    (away : ℕ → Bool) (b : Bool) (s : Sys) → b ≡ true → Ready away s → Ready away (check b s)
check-Ready away b s h v = record {
  shape = Shape-frame away s _ _ _ _ _ v.shape;
  only_active = v.only_active;
  idle = v.idle;
  sound = ground (arith, v.sound);
}

pub check-Elects : (b : Bool) (s : Sys) → b ≡ true → Elects s → Elects (check b s)
check-Elects b s h e = record {
  valid = record { ready = check-Ready at_home b s h e.valid.ready; active = e.valid.active };
  elected = e.elected;
}

pub touch-Elects :
    (p : ℕ) (r : Process) (s : Sys)
    → r.state ≡ (s.processes p).state
    → r.fid ≡ (s.processes p).fid
    → r.prio ≡ (s.processes p).prio
    → r.wake ≡ (s.processes p).wake
    → Elects s
    → Elects (set_process p r s)
touch-Elects p r s st fd pr wk e = record {
  valid = record {
    ready = Ready-touch at_home p r s st fd pr wk e.valid.ready;
    active = ground (arith, e.valid.active);
  };
  elected = All-map s.runnable_process (λ q le. ground (arith, le)) e.elected;
}
