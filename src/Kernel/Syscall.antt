-- ===== src/Kernel/Syscall.antt =====
-- `user_IT` of kernel/syscall.c, for the calls of processes, queues and the clock (20 to 62). The
-- arguments are words of 32 bits. `is_user` answers IS_USER_PTR, whose bounds the linker sets. The
-- entries that the status calls write to the caller's array are part of the result, with its address.
-- The calls of the console, the speaker and the file system, and `reboot`, are `elsewhere`: a missing
-- result. (Those on files are in Files.)
pub mod Laws
pub mod Files
use calm_os.Base.{
  ℕ, ◌-◌, ◌/◌, ◌^◌, ℤ, pos, negsuc, List, Bool, not, ◌&&◌, ◌||◌, ◌==◌, Option, none, some,
  if◌then◌else◌, ltb, leb,
}
use calm_os.Kernel.State.{Sys, store}
use calm_os.Kernel.Scheduler.{Program, chprio, getprio, start, start_user}
use calm_os.Kernel.Stop.{kill}
use calm_os.Kernel.Waitpid.{Outcome, returned, suspended, waitpid}
use calm_os.Kernel.Messages.{pcount, pcreate, pdelete, preceive, preset, psend}
use calm_os.Kernel.Status.{ProcessStatus, QueueStatus, processes_status, queues_status}
use calm_os.Kernel.Machine.{
  Call, calls_waitpid, calls_chprio, calls_pcount, calls_pcreate, calls_pdelete, calls_preceive,
  calls_preset, calls_psend, calls_wait_clock, calls_start, calls_start_user, calls_kill,
  calls_exit, perform, clockfreq,
}

-- QUARTZ
abbrev pub quartz : ℕ
quartz = 0x1234dd

-- The casts (int) and to a pointer
abbrev pub to_int : ℕ → ℤ
to_int n = if ltb n (2 ^ 31) then pos n else negsuc (2 ^ 32 - 1 - n)

abbrev pub to_ptr : ℕ → Option ℕ
to_ptr p = if p == 0 then none else some p

-- The value of a call
unfoldable pub outcome : Call → Sys → Outcome
outcome (calls_waitpid pid to) s = (waitpid pid to s).0
outcome (calls_chprio pid prio) s = returned (chprio pid prio s).0
outcome (calls_pcount fid to) s = returned (pcount fid to s).0
outcome (calls_pcreate alloc n) s = returned (pcreate alloc n s).0
outcome (calls_pdelete fid) s = returned (pdelete fid s).0
outcome (calls_preceive fid to) s = (preceive fid to s).0
outcome (calls_preset fid) s = returned (preset fid s).0
outcome (calls_psend fid m) s = (psend fid m s).0
outcome (calls_wait_clock clock) s = returned (pos 0)
outcome (calls_start g) s = returned (start g s).0
outcome (calls_start_user alloc g) s = returned (start_user alloc g s).0
outcome (calls_kill pid) s = returned (kill pid s).0
outcome (calls_exit v) s = suspended

-- What a number and its arguments ask for
pub data Decoded : Type 0 where
  faults elsewhere : Decoded
  does : Call → Decoded
  answers : ℤ → Decoded
  reports_processes reports_queues : ℕ → ℤ → Decoded
  asks_clock : Option ℕ → Option ℕ → Decoded

-- The allocators' answers, and the test of a pointer
pub record Env : Type 0 where
  pub is_user : ℕ → Bool
  pub mem_alloc : ℕ → Bool
  pub user_stack_alloc : ℕ → Option ℕ

-- USER_PTR and USER_OR_NULL_PTR
abbrev pub user_ptr : Env → ℕ → Decoded → Decoded
user_ptr env p d = if env.is_user p then d else faults

abbrev pub user_or_null_ptr : Env → ℕ → Decoded → Decoded
user_or_null_ptr env p d = if p == 0 || env.is_user p then d else faults

-- The numbers of the calls that are not modelled; no other number is one of a call.
abbrev pub is_elsewhere : ℕ → Bool
is_elsewhere id = id == 0 || (leb 10 id && leb id 14) || id == 63 || (leb 70 id && leb id 74)

abbrev pub others : ℕ → Decoded
others id = if is_elsewhere id then elsewhere else faults

unfoldable pub decode : Env → ℕ → ℕ → ℕ → ℕ → ℕ → ℕ → Sys → Decoded
decode env id p1 p2 p3 p4 p5 s =
    if id == 20
    then answers (pos s.active_process)
    else if id == 21
    then user_or_null_ptr env p2 (does (calls_waitpid (to_int p1) (to_ptr p2)))
    else if id == 22
    then user_ptr env p1 (reports_processes p1 (to_int p2))
    else if id == 30
    then does (calls_chprio (to_int p1) (to_int p2))
    else if id == 31
    then answers (getprio (to_int p1) s)
    else if id == 40
    then user_or_null_ptr env p2 (does (calls_pcount (to_int p1) (to_ptr p2)))
    else if id == 41
    then does (calls_pcreate env.mem_alloc (to_int p1))
    else if id == 42
    then does (calls_pdelete (to_int p1))
    else if id == 43
    then user_or_null_ptr env p2 (does (calls_preceive (to_int p1) (to_ptr p2)))
    else if id == 44
    then does (calls_preset (to_int p1))
    else if id == 45
    then does (calls_psend (to_int p1) (to_int p2))
    else if id == 46
    then user_ptr env p1 (reports_queues p1 (to_int p2))
    else if id == 50
    then user_or_null_ptr env p1 (user_or_null_ptr env p2 (asks_clock (to_ptr p1) (to_ptr p2)))
    else if id == 51
    then answers (to_int s.clock)
    else if id == 52
    then does (calls_wait_clock p1)
    else if id == 60
    then user_ptr env p1 (
        user_ptr env p4 (
          does (
            calls_start_user env.user_stack_alloc
              (record { pt_func = p1; ssize = p2; prio = to_int p3; name = p4; arg = p5 }))))
    else if id == 61
    then does (calls_kill (to_int p1))
    else if id == 62
    then does (calls_exit (to_int p1))
    else others id

-- What the status calls write to an array of the caller, and its address
pub data Written : Type 0 where
  nothing : Written
  puts_processes : ℕ → List ProcessStatus → Written
  puts_queues : ℕ → List QueueStatus → Written

pub record Reply : Type 0 where
  pub outcome : Outcome
  pub sys : Sys
  pub written : Written

abbrev pub plain : Outcome → Sys → Reply
plain o s = record { outcome = o; sys = s; written = nothing }

-- SEGFAULT: the call returns -42.
unfoldable pub execute : Decoded → Sys → Option Reply
unfolding outcome
execute faults s = some (plain (returned (negsuc 41)) s)
execute elsewhere s = none
execute (does c) s = some (plain (outcome c s) (perform c s))
execute (answers v) s = some (plain (returned v) s)
execute (reports_processes at count) s =
    let r = processes_status count s in
    some (record { outcome = returned r.0; sys = s; written = puts_processes at r.1 })
execute (reports_queues at count) s =
    let r = queues_status count s in
    some (record { outcome = returned r.0; sys = s; written = puts_queues at r.1 })
execute (asks_clock q t) s =
    some (plain (returned (pos 0)) (store t (pos (quartz / clockfreq)) (store q (pos quartz) s)))

unfoldable pub user_it : Env → ℕ → ℕ → ℕ → ℕ → ℕ → ℕ → Sys → Option Reply
unfolding decode execute
user_it env id p1 p2 p3 p4 p5 s = execute (decode env id p1 p2 p3 p4 p5 s) s
