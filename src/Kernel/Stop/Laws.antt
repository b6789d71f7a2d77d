-- ===== src/Kernel/Stop/Laws.antt =====
-- What `stop`, `exit` and `kill` leave behind.
use calm_os.Base.{
  ℕ, ◌≡◌, ◌≢◌, ℤ, pos, negsuc, true, false, Option, none, some, refl, inl, inr, arith, Bool-cases,
  leb_ℤ, ◌∙◌, ap,
}
use calm_os.Kernel.State.{Sys, is_alive}
use calm_os.Kernel.Tick.Laws.{Elects, fix_scheduler-Elects}
use calm_os.Kernel.Stop.{alive_pid, stop_checked, stop, exit, kill}
use calm_os.Kernel.Stop.Ready.{terminate-Ready}

alive_pid-IsAlive :
    (pid : ℤ) (p : ℕ) (s : Sys)
    → alive_pid pid s ≡ some p
    → (pid ≡ pos p) × (is_alive (s.processes p).state ≡ true)
alive_pid-IsAlive (pos n) p s e = ground arith
alive_pid-IsAlive (negsuc n) p s e = cc

-- From a valid kernel whose active process has the highest priority of the runnable ones, `stop` of
-- a pid other than the idle process's leads to such a kernel on every branch.
pub stop-Elects : (pid v : ℤ) (s : Sys) → Elects s → pid ≢ pos 0 → Elects (stop pid v s).1
unfolding stop
stop-Elects pid v s e nz = on_pid (alive_pid pid s) refl
  where
    ne_idle : (p : ℕ) → pid ≡ pos p → p ≢ 0
    ne_idle p h z = nz (h ∙ ap pos z)

    on_pid : (o : Option ℕ) → alive_pid pid s ≡ o → Elects (stop_checked o v s).1
    on_pid none h = e
    on_pid (some p) h =
        let (i, a) = alive_pid-IsAlive pid p s h in
        fix_scheduler-Elects _ (terminate-Ready p v s e.valid.ready (ne_idle p i) a)

-- From a valid kernel whose active process has the highest priority of the runnable ones, `kill` of
-- any pid leads to such a kernel.
pub kill-Elects : (pid : ℤ) (s : Sys) → Elects s → Elects (kill pid s).1
unfolding kill
kill-Elects pid s e = elim (Bool-cases (leb_ℤ pid (pos 0))) [
  | inl low ↦ rw (low, kill) e
  | inr high ↦ rw (high, kill) (stop-Elects pid (pos 0) s e (positive pid high))
]
  where
    positive : (pid : ℤ) → leb_ℤ pid (pos 0) ≡ false → pid ≢ pos 0
    positive (pos n) h z = ground arith
    positive (negsuc n) h z = cc

-- From a valid kernel whose active process is not the idle one and has the highest priority of the
-- runnable ones, `exit` leads to a valid kernel whose active process has the highest priority of the
-- runnable ones.
pub exit-Elects : (v : ℤ) (s : Sys) → Elects s → s.active_process ≢ 0 → Elects (exit v s)
unfolding exit
exit-Elects v s e nz = stop-Elects (pos s.active_process) v s e (λ z. ground arith)
