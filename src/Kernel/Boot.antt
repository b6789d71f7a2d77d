-- ===== src/Kernel/Boot.antt =====
-- `setup_scheduler` of kernel/scheduler.c.
use calm_os.Base.{
  ℕ, suc, zero, ◌+◌, ◌≡◌, ◌-◌, false, ◌&&◌, none, List, [], ◌∷◌, refl, arith, bit, count, pos, leb,
  ltb, ap, subst, sym,
}
use calm_os.Base.Sorted.{Sorted, All}
use calm_os.Kernel.State.{ProcessState, Process, Sys, set_process, nbproc}
use calm_os.Kernel.Tick.Laws.{Elects}

-- The pids from one on: the chain of the table's entries
unfoldable pub pids : ℕ → ℕ → List ℕ
pids zero i = []
pids (suc n) i = i ∷ pids n (i + 1)

abbrev pub idle_process : Process → Process
idle_process r = record r { prio = pos 0; parent = none; state = ProcessState.running }

abbrev pub dead_table : (ℕ → Process) → ℕ → Process
dead_table ps i = record (ps i) { state = ProcessState.dead }

-- Initialize process table
unfoldable pub setup_scheduler : Sys → Sys
unfolding pids
setup_scheduler s = set_process 0 (idle_process (dead_table s.processes 0)) (record s {
  processes = dead_table s.processes;
  dead_process = pids (nbproc - 1) 1;
  active_process = 0;
})

count-pids : (p n i : ℕ) → count p (pids n i) ≡ bit (leb i p && ltb p (i + n))
unfolding pids
count-pids p zero i = ground arith
count-pids p (suc n) i = ground (arith, count-pids p n (i + 1))

-- The variables of the kernel before it starts: no list has a member.
pub record IsZeroed (s : Sys) : Type 0 where
  pub runnable : s.runnable_process ≡ []
  pub asleep : s.asleep_process ≡ []
  pub empty : (f : ℕ) → (s.queues f).empty_process ≡ []
  pub full : (f : ℕ) → (s.queues f).full_process ≡ []
  pub sound : s.panicked ≡ false

-- From empty lists `setup_scheduler` makes a valid kernel in which no runnable process has a higher
-- priority than the active one.
pub setup_scheduler-Elects : (s : Sys) → IsZeroed s → Elects (setup_scheduler s)
unfolding setup_scheduler
setup_scheduler-Elects s z = record {
  valid = record {
    ready = record {
      shape = record {
        lists = record {
          runnable = λ p. ground (arith, ap (count p) z.runnable);
          asleep = λ p. ground (arith, ap (count p) z.asleep);
          dead = λ p. rw count-pids (ground arith);
          empty = λ f p. ground (arith, ap (count p) (z.empty f));
          full = λ f p. ground (arith, ap (count p) (z.full f));
        };
        order = record {
          runnable = subst (Sorted _) (sym z.runnable) tt;
          asleep = subst (Sorted _) (sym z.asleep) tt;
          empty = λ f. subst (Sorted _) (sym (z.empty f)) tt;
          full = λ f. subst (Sorted _) (sym (z.full f)) tt;
        };
      };
      only_active = λ p. ground arith;
      idle = refl;
      sound = z.sound;
    };
    active = refl;
  };
  elected = subst (All _) (sym z.runnable) tt;
}
