-- ===== src/Kernel/Runnable.antt =====
-- The runnable list and the dead stack of kernel/scheduler.c.
pub mod Shape
pub mod Effects
use calm_os.Base.{ℕ, Bool, ◌∷◌, none, not, if◌then◌else◌, ltb_ℤ, insert_before, unlink}
use calm_os.Kernel.State.{ProcessState, Sys, is_runnable, is_dead, set_process, set_state, check}

-- Remove process from runnable list
unfoldable pub remove_runnable : ℕ → Sys → Sys
remove_runnable p s =
    if is_runnable (s.processes p).state
    then record s { runnable_process = unlink p s.runnable_process }
    else s

-- A process goes before the first of a strictly lower priority.
abbrev pub higher_prio : Sys → ℕ → ℕ → Bool
higher_prio s p q = ltb_ℤ (s.processes q).prio (s.processes p).prio

-- Add process to runnable list
unfoldable pub push_runnable : ℕ → Sys → Sys
push_runnable p s =
    let t = set_state p ProcessState.runnable (check (not (is_runnable (s.processes p).state)) s) in
    record t { runnable_process = insert_before (higher_prio t p) p t.runnable_process }

-- Add process to dead stack; its user stack is given back
unfoldable pub push_dead : ℕ → Sys → Sys
push_dead p s =
    let t = check (not (is_dead (s.processes p).state)) s in
    let u =
      set_process p (record (t.processes p) { user_stack = none; state = ProcessState.dead }) t in
    record u { dead_process = p ∷ u.dead_process }
