-- ===== src/Kernel/Machine/Laws.antt =====
-- The invariant of the kernel over everything that may happen to it.
use calm_os.Base.{
  ℕ, ◌+◌, ◌%◌, ◌^◌, ◌≡◌, ◌≢◌, ◌∙◌, ◌==◌, ℤ, pos, Bool, true, false, Option, some, inl, inr, arith,
  refl, Bool-cases, Option-cases, subst, sym, ltb,
}
use calm_os.Kernel.State.{Queue, Sys, is_running}
use calm_os.Kernel.Invariant.{at_home}
use calm_os.Kernel.Ready.{Ready, IsValid, IsElected, Ready-frame}
use calm_os.Kernel.Runnable.{push_runnable}
use calm_os.Kernel.Tick.{tick_scheduler}
use calm_os.Kernel.Tick.Laws.{Elects, tick_scheduler-Elects}
use calm_os.Kernel.Stop.Laws.{kill-Elects, exit-Elects}
use calm_os.Kernel.Scheduler.{Program, start_user_background, user_stack_size, maxstack}
use calm_os.Kernel.Scheduler.Prio.{chprio-Elects}
use calm_os.Kernel.Scheduler.Start.{start_user-Elects, start-Elects, start_user_background-Ready}
use calm_os.Kernel.Scheduler.Sleep.{wait_clock-Elects}
use calm_os.Kernel.Waitpid.Laws.{waitpid-Elects, resume_waitpid-Elects}
use calm_os.Kernel.Messages.Laws.{pcreate-Elects, pdelete-Elects, preset-Elects, only_queues}
use calm_os.Kernel.Messages.Passing.{
  pcount-Elects, preceive-Elects, psend-Elects, resume_wait-Elects, send_room-Elects,
  send_room-IsValid,
}
use calm_os.Kernel.Boot.{IsZeroed, setup_scheduler, pids, setup_scheduler-Elects}
use calm_os.Kernel.Messages.{is_queue_full, valid_fid, psend, send}
use calm_os.Keyboard.Input.{buffer_size}
use calm_os.Kernel.Machine.{
  Call, calls_waitpid, calls_chprio, calls_pcount, calls_pcreate, calls_pdelete, calls_preceive,
  calls_preset, calls_psend, calls_wait_clock, calls_start, calls_start_user, calls_kill,
  calls_exit, perform, tic_clock, kernel_start, Step, call, interrupt, typed, create_keyboard_queue,
  child_ended, woken, Reach, here, next, Runs,
}

-- Every system call of a process other than the idle one, on each of its branches, leads from a
-- valid kernel with the process of the highest priority active to such a kernel.
pub perform-Elects : (c : Call) (s : Sys) → Elects s → s.active_process ≢ 0 → Elects (perform c s)
unfolding perform
perform-Elects (calls_waitpid pid to) s e nz = waitpid-Elects s e nz pid to
perform-Elects (calls_chprio pid prio) s e nz = chprio-Elects pid prio s e
perform-Elects (calls_pcount fid to) s e nz = pcount-Elects fid to s e
perform-Elects (calls_pcreate alloc n) s e nz = pcreate-Elects alloc n s e
perform-Elects (calls_pdelete fid) s e nz = pdelete-Elects fid s e
perform-Elects (calls_preceive fid to) s e nz = preceive-Elects s e nz fid to
perform-Elects (calls_preset fid) s e nz = preset-Elects fid s e
perform-Elects (calls_psend fid m) s e nz = psend-Elects s e nz fid m
perform-Elects (calls_wait_clock clock) s e nz = (wait_clock-Elects clock s e.valid nz).0
perform-Elects (calls_start g) s e nz = start-Elects g s e.valid.ready
perform-Elects (calls_start_user alloc g) s e nz = start_user-Elects alloc g s e.valid.ready
perform-Elects (calls_kill pid) s e nz = kill-Elects pid s e
perform-Elects (calls_exit v) s e nz = exit-Elects v s e nz

Elects-Runs : {s : Sys} → Elects s → Runs s
Elects-Runs e = record { valid = e.valid; elected = λ nz. e.elected }

Runs-Elects : {s : Sys} → Runs s → s.active_process ≢ 0 → Elects s
Runs-Elects r nz = record { valid = r.valid; elected = r.elected nz }

module _ (s : Sys) (v : IsValid s) where
  abbrev later : Sys
  later = record s { clock = (s.clock + 1) % 2 ^ 32 }

  later-IsValid : IsValid later
  later-IsValid = record { ready = Ready-frame at_home s _ _ _ v.ready; active = v.active }

  ticked : Elects (tick_scheduler later)
  ticked = (tick_scheduler-Elects later later-IsValid.ready).0

  pub tic_clock-Elects : IsElected s → Elects (tic_clock s)
  unfolding tic_clock
  tic_clock-Elects e =
      let stays : Elects later = record { valid = later-IsValid; elected = e } in
      ground (arith, ticked, stays)

  tic_clock-Runs : (s.active_process ≢ 0 → IsElected s) → Runs (tic_clock s)
  unfolding tic_clock
  tic_clock-Runs e =
      let stays : Runs later = record { valid = later-IsValid; elected = e } in
      let switched : Runs (tick_scheduler later) = Elects-Runs ticked in
      ground (arith, switched, stays)

psend-valid :
    (fid : ℤ) (f : ℕ) (c : ℤ) (s : Sys)
    → valid_fid fid s ≡ some f
    → (psend fid c s).1 ≡ (send f c s).1
unfolding psend
psend-valid fid f c s h = rw (h, psend) refl

-- As long as the idle process waits for the first tick, a message either calls the scheduler or leaves
-- the active process and the lists alone.
send_room-Runs :
    (s : Sys) (f : ℕ) (m : ℤ) → Runs s → is_queue_full (s.queues f) ≡ false → Runs (send f m s).1
send_room-Runs s f m r nf = elim (Bool-cases (s.active_process == 0)) [
  | inr busy ↦ Elects-Runs (send_room-Elects s f m (Runs-Elects r (λ z. ground arith)) nf)
  | inl idle ↦ elim (send_room-IsValid s f m r.valid nf) [
    | inl e ↦ Elects-Runs e
    | inr (v, same) ↦ record { valid = v; elected = λ nz. absurd (nz (same ∙ ground arith)) }
  ]
]

Step-Elects : {s t : Sys} → Step s t → Elects s → Elects t
Step-Elects {s} (call c nz) e = perform-Elects c s e nz
Step-Elects {s} interrupt e = tic_clock-Elects s e.valid e.elected
Step-Elects {s} (typed fid c f h room) e =
    subst Elects (sym (psend-valid fid f c s h)) (send_room-Elects s f c e room)
Step-Elects {s} (child_ended to c nz p h z) e = (resume_waitpid-Elects s e nz to c h z).0
Step-Elects {s} (woken nz) e = resume_wait-Elects s e

Step-Runs : {s t : Sys} → Step s t → Runs s → Runs t
Step-Runs {s} (call c nz) r = Elects-Runs (perform-Elects c s (Runs-Elects r nz) nz)
Step-Runs {s} interrupt r = tic_clock-Runs s r.valid r.elected
Step-Runs {s} (typed fid c f h room) r =
    subst Runs (sym (psend-valid fid f c s h)) (send_room-Runs s f c r room)
Step-Runs {s} (child_ended to c nz p h z) r =
    Elects-Runs (resume_waitpid-Elects s (Runs-Elects r nz) nz to c h z).0
Step-Runs {s} (woken nz) r = Elects-Runs (resume_wait-Elects s (Runs-Elects r nz))

Reach-Runs : {s t : Sys} → Runs s → Reach s t → Runs t
Reach-Runs e here = e
Reach-Runs e (next r st) = Step-Runs st (Reach-Runs e r)

-- Once the active process has the highest priority of the runnable ones in a valid kernel, this
-- stays so over any sequence of calls on processes, queues and the clock, interrupts of the clock,
-- keys for which the keyboard's queue has room, and returns of suspended calls, `waitpid` among them
-- where the child it was woken for is a zombie still.
pub Reach-Elects : (s t : Sys) → Elects s → Reach s t → Elects t
Reach-Elects s _ e here = e
Reach-Elects s _ e (next {t} r st) = Step-Elects st (Reach-Elects s t e r)

-- The idle process runs.
abbrev IsIdle : Sys → Type 0
IsIdle s = (s.active_process ≡ 0) × (is_running (s.processes 0).state ≡ true)

-- It goes on running until the first tick.
start_user_background-IsIdle :
    (alloc : ℕ → Option ℕ) (g : Program) (s : Sys) (qs : ℕ → Queue)
    → IsIdle (start_user_background alloc g (record (setup_scheduler s) { queues = qs })).1
unfolding start_user_background setup_scheduler pids push_runnable
start_user_background-IsIdle alloc g s qs = elim (Bool-cases (ltb maxstack g.ssize)) [
  | inl big ↦ rw (big, start_user_background) (refl, refl)
  | inr fits ↦ elim (Option-cases (alloc (user_stack_size g.ssize))) [
    | inl e ↦ rw (fits, e, start_user_background) (refl, refl)
    | inr (a, e) ↦ rw (fits, e, start_user_background) (refl, refl)
  ]
]

kernel_start-IsIdle :
    (mem_alloc : ℕ → Bool) (alloc : ℕ → Option ℕ) (g : Program) (s : Sys)
    → IsIdle (kernel_start mem_alloc alloc g s)
unfolding kernel_start
kernel_start-IsIdle mem_alloc alloc g s =
    subst (λ t. IsIdle (start_user_background alloc g t).1)
      (sym (only_queues mem_alloc (pos buffer_size) (setup_scheduler s)))
      (start_user_background-IsIdle alloc g s
        (create_keyboard_queue mem_alloc (setup_scheduler s)).queues)

idle-Runs : (s : Sys) → IsIdle s → Ready at_home s → Runs s
idle-Runs s (i, r) v = record {
  valid = record {
    ready = v;
    active = subst (λ a. is_running (s.processes a).state ≡ true) (sym i) r;
  };
  elected = λ nz. absurd (nz i);
}

-- From zeroed variables, `kernel_start` and any sequence of calls on processes, queues and the clock,
-- interrupts of the clock, keys for which the keyboard's queue has room, and returns of suspended
-- calls, `waitpid` among them where the child it was woken for is a zombie still: every process that
-- is not abandoned stands once on the list of its state and on no other, the lists are in order, one
-- process runs, no assertion has failed, and unless the idle process runs, no runnable process has a
-- higher priority than the active one.
pub kernel_start-Reach :
    (mem_alloc : ℕ → Bool) (alloc : ℕ → Option ℕ) (g : Program) (s t : Sys)
    → IsZeroed s
    → Reach (kernel_start mem_alloc alloc g s) t
    → Runs t
unfolding kernel_start
kernel_start-Reach mem_alloc alloc g s t z r =
    let b = setup_scheduler-Elects s z in
    let q = pcreate-Elects mem_alloc (pos buffer_size) (setup_scheduler s) b in
    Reach-Runs
      (idle-Runs _ (kernel_start-IsIdle mem_alloc alloc g s)
        (start_user_background-Ready alloc g _ q.valid.ready))
      r
