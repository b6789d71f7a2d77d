-- ===== src/User.antt =====
-- The library of user programs, user/syscall.c: each function puts a number and its arguments, as
-- words of 32 bits, into the registers and raises the interrupt of `user_IT`. The functions on
-- files are those of User/Files.
pub mod Laws
pub mod Files
pub mod RoundTrip
use calm_os.Base.{ℕ, ◌-◌, ◌/◌, ◌%◌, ◌^◌, ◌<◌, ◌≡◌, ◌≢◌, ℤ, pos, negsuc, true, Option, none, some}
use calm_os.Kernel.State.{Sys, store}
use calm_os.Kernel.Scheduler.{Program, chprio, getprio, start_user, wait_clock}
use calm_os.Kernel.Stop.{exit, kill}
use calm_os.Kernel.Waitpid.{Outcome, returned, suspended, waitpid}
use calm_os.Kernel.Messages.{pcount, pcreate, pdelete, preceive, preset, psend}
use calm_os.Kernel.Status.{processes_status, queues_status}
use calm_os.Kernel.Syscall.{Env, quartz, to_int, puts_processes, puts_queues, Reply, plain, user_it}
use calm_os.Kernel.Machine.{clockfreq}

-- The word of an `int`, and of a pointer
abbrev pub word : ℤ → ℕ
word (pos n) = n % 2 ^ 32
word (negsuc n) = 2 ^ 32 - 1 - n % 2 ^ 32

abbrev pub address : Option ℕ → ℕ
address none = 0
address (some a) = a

-- The registers of SYS_call
pub record Registers : Type 0 where
  pub call_id : ℕ
  pub p1 : ℕ
  pub p2 : ℕ
  pub p3 : ℕ
  pub p4 : ℕ
  pub p5 : ℕ

abbrev pub sys_call_5 : ℕ → ℕ → ℕ → ℕ → ℕ → ℕ → Registers
sys_call_5 id a b c d e = record { call_id = id; p1 = a; p2 = b; p3 = c; p4 = d; p5 = e }

abbrev pub sys_call_0 : ℕ → Registers
sys_call_0 id = sys_call_5 id 0 0 0 0 0

abbrev pub sys_call_1 : ℕ → ℕ → Registers
sys_call_1 id a = sys_call_5 id a 0 0 0 0

abbrev pub sys_call_2 : ℕ → ℕ → ℕ → Registers
sys_call_2 id a b = sys_call_5 id a b 0 0 0

-- A call of one of the library's functions on processes, queues and the clock, with its arguments
pub data LibraryCall : Type 0 where
  lib_getpid lib_current_clock : LibraryCall
  lib_waitpid : ℤ → Option ℕ → LibraryCall
  lib_processes_status lib_queues_status : ℕ → ℤ → LibraryCall
  lib_chprio : ℤ → ℤ → LibraryCall
  lib_getprio lib_pcreate lib_pdelete lib_preset lib_kill lib_exit : ℤ → LibraryCall
  lib_pcount lib_preceive : ℤ → Option ℕ → LibraryCall
  lib_psend : ℤ → ℤ → LibraryCall
  lib_clock_settings : Option ℕ → Option ℕ → LibraryCall
  lib_wait_clock : ℕ → LibraryCall
  lib_start : Program → LibraryCall

unfoldable pub registers : LibraryCall → Registers
registers lib_getpid = sys_call_0 20
registers (lib_waitpid pid retval) = sys_call_2 21 (word pid) (address retval)
registers (lib_processes_status status count) = sys_call_2 22 status (word count)
registers (lib_chprio pid newprio) = sys_call_2 30 (word pid) (word newprio)
registers (lib_getprio pid) = sys_call_1 31 (word pid)
registers (lib_pcount fid count) = sys_call_2 40 (word fid) (address count)
registers (lib_pcreate count) = sys_call_1 41 (word count)
registers (lib_pdelete fid) = sys_call_1 42 (word fid)
registers (lib_preceive fid message) = sys_call_2 43 (word fid) (address message)
registers (lib_preset fid) = sys_call_1 44 (word fid)
registers (lib_psend fid message) = sys_call_2 45 (word fid) (word message)
registers (lib_queues_status status count) = sys_call_2 46 status (word count)
registers (lib_clock_settings q ticks) = sys_call_2 50 (address q) (address ticks)
registers lib_current_clock = sys_call_0 51
registers (lib_wait_clock wakeup) = sys_call_1 52 wakeup
registers (lib_start g) = sys_call_5 60 g.pt_func g.ssize (word g.prio) g.name g.arg
registers (lib_kill pid) = sys_call_1 61 (word pid)
registers (lib_exit retval) = sys_call_1 62 (word retval)

-- The interrupt
abbrev pub raise : Env → Registers → Sys → Option Reply
raise env r s = user_it env r.call_id r.p1 r.p2 r.p3 r.p4 r.p5 s

-- What each call is for: the kernel's function of the same name (`start_user` for `start`)
abbrev pub replies : Outcome × Sys → Option Reply
replies (o, s) = some (plain o s)

abbrev pub returns : ℤ × Sys → Option Reply
returns (v, s) = some (plain (returned v) s)

unfoldable pub meaning : Env → LibraryCall → Sys → Option Reply
meaning env lib_getpid s = returns (pos s.active_process, s)
meaning env (lib_waitpid pid retval) s = replies (waitpid pid retval s)
meaning env (lib_processes_status status count) s =
    let (found, entries) = processes_status count s in
    some (record { outcome = returned found; sys = s; written = puts_processes status entries })
meaning env (lib_chprio pid newprio) s = returns (chprio pid newprio s)
meaning env (lib_getprio pid) s = returns (getprio pid s, s)
meaning env (lib_pcount fid count) s = returns (pcount fid count s)
meaning env (lib_pcreate count) s = returns (pcreate env.mem_alloc count s)
meaning env (lib_pdelete fid) s = returns (pdelete fid s)
meaning env (lib_preceive fid message) s = replies (preceive fid message s)
meaning env (lib_preset fid) s = returns (preset fid s)
meaning env (lib_psend fid message) s = replies (psend fid message s)
meaning env (lib_queues_status status count) s =
    let (found, entries) = queues_status count s in
    some (record { outcome = returned found; sys = s; written = puts_queues status entries })
meaning env (lib_clock_settings q ticks) s =
    returns (pos 0, store ticks (pos (quartz / clockfreq)) (store q (pos quartz) s))
meaning env lib_current_clock s = returns (to_int s.clock, s)
meaning env (lib_wait_clock wakeup) s = returns (pos 0, wait_clock wakeup s)
meaning env (lib_start g) s = returns (start_user env.user_stack_alloc g s)
meaning env (lib_kill pid) s = returns (kill pid s)
meaning env (lib_exit retval) s = replies (suspended, exit retval s)

-- A value of the C type `int`
abbrev pub IsInt : ℤ → Type 0
IsInt (pos n) = n < 2 ^ 31
IsInt (negsuc n) = n < 2 ^ 31

-- A null pointer, or an address of user space, which does not start at 0
abbrev pub IsPointer : Env → Option ℕ → Type 0
IsPointer env none = Unit {0}
IsPointer env (some a) = (env.is_user a ≡ true) × (a ≢ 0)

-- The arguments are values of their types, and the pointers lead to user space.
abbrev pub IsProper : Env → LibraryCall → Type 0
IsProper env lib_getpid = Unit {0}
IsProper env lib_current_clock = Unit {0}
IsProper env (lib_waitpid pid retval) = IsInt pid × IsPointer env retval
IsProper env (lib_processes_status status count) = (env.is_user status ≡ true) × IsInt count
IsProper env (lib_queues_status status count) = (env.is_user status ≡ true) × IsInt count
IsProper env (lib_chprio pid newprio) = IsInt pid × IsInt newprio
IsProper env (lib_getprio pid) = IsInt pid
IsProper env (lib_pcreate count) = IsInt count
IsProper env (lib_pdelete fid) = IsInt fid
IsProper env (lib_preset fid) = IsInt fid
IsProper env (lib_kill pid) = IsInt pid
IsProper env (lib_exit retval) = IsInt retval
IsProper env (lib_pcount fid count) = IsInt fid × IsPointer env count
IsProper env (lib_preceive fid message) = IsInt fid × IsPointer env message
IsProper env (lib_psend fid message) = IsInt fid × IsInt message
IsProper env (lib_clock_settings q ticks) = IsPointer env q × IsPointer env ticks
IsProper env (lib_wait_clock wakeup) = Unit {0}
IsProper env (lib_start g) =
    (env.is_user g.pt_func ≡ true) × (env.is_user g.name ≡ true) × IsInt g.prio
