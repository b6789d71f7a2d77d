-- ===== src/Kernel/Syscall/Laws.antt =====
-- Lemmas on `user_IT` of kernel/syscall.c.
use calm_os.Base.{ℕ, ◌≡◌, ◌≢◌, Bool, true, false, some, refl, arith}
use calm_os.Kernel.State.{Sys}
use calm_os.Kernel.Tick.Laws.{Elects}
use calm_os.Kernel.Elects.{store-Elects}
use calm_os.Kernel.Machine.Laws.{perform-Elects}
use calm_os.Kernel.Syscall.{
  Decoded, faults, elsewhere, does, answers, reports_processes, reports_queues, asks_clock, Env,
  is_elsewhere, decode, Reply, execute, user_it,
}

abbrev is_modelled : Decoded → Bool
is_modelled elsewhere = false
is_modelled _ = true

execute-Elects :
    (d : Decoded) (s : Sys)
    → Elects s
    → s.active_process ≢ 0
    → is_modelled d ≡ true
    → (r : Reply) × (execute d s ≡ some r) × Elects r.sys
unfolding execute
execute-Elects faults s e nz m = (_, refl, e)
execute-Elects elsewhere s e nz m = cc
execute-Elects (does c) s e nz m = (_, refl, perform-Elects c s e nz)
execute-Elects (answers v) s e nz m = (_, refl, e)
execute-Elects (reports_processes at count) s e nz m = (_, refl, e)
execute-Elects (reports_queues at count) s e nz m = (_, refl, e)
execute-Elects (asks_clock q t) s e nz m = (_, refl, store-Elects t _ _ (store-Elects q _ s e))

-- Every number but those of the calls of the console, the speaker and the file system, and of `reboot`
decode-is_modelled :
    (env : Env) (id p1 p2 p3 p4 p5 : ℕ) (s : Sys)
    → is_elsewhere id ≡ false
    → is_modelled (decode env id p1 p2 p3 p4 p5 s) ≡ true
unfolding decode
decode-is_modelled env id p1 p2 p3 p4 p5 s h = ground (arith, h)

-- From a valid kernel whose active process is not the idle one and has the highest priority of the
-- runnable ones, `user_IT` with any arguments, and with any number but those of the console (0, 10 to
-- 13), the speaker (14), `reboot` (63) and the file system (70 to 74), leads to a valid kernel whose
-- active process has the highest priority of the runnable ones.
pub user_it-Elects :
    (env : Env) (id p1 p2 p3 p4 p5 : ℕ) (s : Sys)
    → is_elsewhere id ≡ false
    → Elects s
    → s.active_process ≢ 0
    → (r : Reply) × (user_it env id p1 p2 p3 p4 p5 s ≡ some r) × Elects r.sys
unfolding user_it
user_it-Elects env id p1 p2 p3 p4 p5 s h e nz =
    execute-Elects (decode env id p1 p2 p3 p4 p5 s) s e nz
      (decode-is_modelled env id p1 p2 p3 p4 p5 s h)
