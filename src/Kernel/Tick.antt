-- ===== src/Kernel/Tick.antt =====
-- `tick_scheduler` and `fix_scheduler` of kernel/scheduler.c. `CTX_switch` is the change of
-- `active_process`: what stands behind a call of the scheduler runs when the process is chosen again.
pub mod Wake
pub mod Dispatch
pub mod Laws
pub mod Keeps
use calm_os.Base.{ℕ, Bool, List, [], ◌∷◌, not, ◌||◌, if◌then◌else◌, leb, leb_ℤ, ltb_ℤ, false}
use calm_os.Kernel.State.{ProcessState, Sys, is_asleep, is_running, set_state, check}
use calm_os.Kernel.Runnable.{push_runnable}

unfoldable pub wake : ℕ → List ℕ → Sys → Sys
wake p ps s =
    push_runnable p (record (check (is_asleep (s.processes p).state) s) { asleep_process = ps })

-- Wake up processes on PS_ASLEEP: the loop over the sleepers
unfoldable pub wake_up : List ℕ → Sys → Sys
unfolding wake
wake_up [] s = s
wake_up (p ∷ ps) s = if leb (s.processes p).wake s.clock then wake_up ps (wake p ps s) else s

-- The switch to the head of the runnable list; with no such process a null pointer is followed.
unfoldable pub dispatch : List ℕ → Sys → Sys
dispatch [] s = check false s
dispatch (h ∷ rest) s =
    let prev = s.active_process in
    let t = record s { active_process = h; runnable_process = rest } in
    let u = if is_running (t.processes prev).state then push_runnable prev t else t in
    record (set_state h ProcessState.running u) { esp0 = h }

-- `other` tests the head's priority against that of the active process.
abbrev pub head_test : (Sys → ℕ → Bool) → List ℕ → Sys → Bool
head_test other [] s = false
head_test other (h ∷ rest) s = other s h

abbrev pub prio_ge_active : Sys → ℕ → Bool
prio_ge_active s h = leb_ℤ (s.processes s.active_process).prio (s.processes h).prio

abbrev pub prio_gt_active : Sys → ℕ → Bool
prio_gt_active s h = ltb_ℤ (s.processes s.active_process).prio (s.processes h).prio

unfoldable pub elect : Sys → Sys
unfolding dispatch
elect s =
    if not (is_running (s.processes s.active_process).state)
      || head_test prio_ge_active s.runnable_process s
    then dispatch s.runnable_process s
    else s

-- Change running process
unfoldable pub tick_scheduler : Sys → Sys
unfolding wake_up elect
tick_scheduler s = elect (wake_up s.asleep_process s)

unfoldable pub fix_scheduler : Sys → Sys
unfolding tick_scheduler
fix_scheduler s =
    if not (is_running (s.processes s.active_process).state)
      || head_test prio_gt_active s.runnable_process s
    then tick_scheduler s
    else s
