-- ===== src/Kernel/Machine.antt =====
-- The kernel as a machine: the calls of kernel/syscall.c that reach the scheduler and the queues,
-- the interrupts of the clock and of the keyboard, and the return of suspended calls. The interrupts of
-- the mouse and the floppy call neither the scheduler nor the queues.
pub mod Laws
pub mod Turns
use calm_os.Base.{
  ℕ, ◌+◌, ◌%◌, ◌^◌, ◌/◌, ◌≡◌, ◌≢◌, ℤ, Bool, true, false, ◌==◌, Option, some, if◌then◌else◌, pos,
}
use calm_os.Kernel.State.{Pending, Sys, is_zombie}
use calm_os.Kernel.Ready.{IsValid, IsElected}
use calm_os.Kernel.Tick.{tick_scheduler}
use calm_os.Kernel.Stop.{valid_pid, exit, kill}
use calm_os.Kernel.Scheduler.{Program, chprio, start_user, start_user_background, start, wait_clock}
use calm_os.Kernel.Waitpid.{waitpid, resume_waitpid}
use calm_os.Kernel.Messages.{
  pcount, pcreate, pdelete, preceive, preset, psend, resume_wait, valid_fid, is_queue_full,
}
use calm_os.Kernel.Boot.{setup_scheduler}
use calm_os.Keyboard.Input.{buffer_size}

-- CLOCKFREQ and SCHEDFREQ
abbrev pub clockfreq : ℕ
clockfreq = 200

abbrev pub schedfreq : ℕ
schedfreq = 50

-- The scheduling part of `tic_PIT`; its other calls draw on the console and stop the speaker.
unfoldable pub tic_clock : Sys → Sys
tic_clock s =
    let t = record s { clock = (s.clock + 1) % 2 ^ 32 } in
    if t.clock % (clockfreq / schedfreq) == 0 then tick_scheduler t else t

-- The system calls, with the answers of the allocators.
pub data Call : Type 0 where
  calls_waitpid : ℤ → Option ℕ → Call
  calls_chprio : ℤ → ℤ → Call
  calls_pcount : ℤ → Option ℕ → Call
  calls_pcreate : (ℕ → Bool) → ℤ → Call
  calls_pdelete : ℤ → Call
  calls_preceive : ℤ → Option ℕ → Call
  calls_preset : ℤ → Call
  calls_psend : ℤ → ℤ → Call
  calls_wait_clock : ℕ → Call
  calls_start : Program → Call
  calls_start_user : (ℕ → Option ℕ) → Program → Call
  calls_kill : ℤ → Call
  calls_exit : ℤ → Call

unfoldable pub perform : Call → Sys → Sys
perform (calls_waitpid pid to) s = (waitpid pid to s).1
perform (calls_chprio pid prio) s = (chprio pid prio s).1
perform (calls_pcount fid to) s = (pcount fid to s).1
perform (calls_pcreate alloc n) s = (pcreate alloc n s).1
perform (calls_pdelete fid) s = (pdelete fid s).1
perform (calls_preceive fid to) s = (preceive fid to s).1
perform (calls_preset fid) s = (preset fid s).1
perform (calls_psend fid m) s = (psend fid m s).1
perform (calls_wait_clock clock) s = wait_clock clock s
perform (calls_start g) s = (start g s).1
perform (calls_start_user alloc g) s = (start_user alloc g s).1
perform (calls_kill pid) s = (kill pid s).1
perform (calls_exit v) s = exit v s

-- `init_keyboard_buffer`, as a step of the kernel
abbrev pub create_keyboard_queue : (ℕ → Bool) → Sys → Sys
create_keyboard_queue mem_alloc s = (pcreate mem_alloc (pos buffer_size) s).1

-- `kernel_start` up to the loop of the idle process, in which only interrupts happen. Of
-- `setup_interrupt_handlers` it is the keyboard's queue that concerns the kernel.
unfoldable pub kernel_start : (ℕ → Bool) → (ℕ → Option ℕ) → Program → Sys → Sys
kernel_start mem_alloc alloc g s =
    (start_user_background alloc g (create_keyboard_queue mem_alloc (setup_scheduler s))).1

-- What may happen next. The idle process makes no call.
pub data Step (s : Sys) : Sys → Type 0 where
  call : (c : Call) → s.active_process ≢ 0 → Step s (perform c s)
  interrupt : Step s (tic_clock s)
  -- a character of `keyboard_data`, for which the keyboard's queue has room; the idle process may run
  typed :
      (fid c : ℤ) (f : ℕ)
      → valid_fid fid s ≡ some f
      → is_queue_full (s.queues f) ≡ false
      → Step s (psend fid c s).1
  -- the premises are what the code asserts when the call comes back
  child_ended :
      (to : Option ℕ) (c : ℕ)
      → s.active_process ≢ 0
      → (s.processes s.active_process).pending ≡ Pending.waiting to
      → valid_pid (s.processes s.active_process).child s ≡ some c
      → is_zombie (s.processes c).state ≡ true
      → Step s (resume_waitpid to s).1
  woken : s.active_process ≢ 0 → Step s (resume_wait s).1

pub data Reach (s : Sys) : Sys → Type 0 where
  here : Reach s s
  next : {t u : Sys} → Reach s t → Step t u → Reach s u

-- The kernel is valid, and unless the idle process runs, no runnable process has a higher priority
-- than the active one. (The process that `kernel_start` makes waits for the first tick.)
pub record Runs (s : Sys) : Type 0 where
  pub valid : IsValid s
  pub elected : s.active_process ≢ 0 → IsElected s
