-- ===== src/User/Laws.antt =====
-- A call of the library of user/syscall.c reaches the kernel's function that it is for.
use calm_os.Base.{ℕ, ◌≡◌, ◌==◌, ◌||◌, ℤ, pos, negsuc, true, Option, none, some, refl, arith}
use calm_os.Kernel.State.{Sys}
use calm_os.Kernel.Syscall.{Env, to_int, to_ptr, decode, execute, outcome, user_it}
use calm_os.Kernel.Machine.{perform}
use calm_os.User.{
  LibraryCall, lib_getpid, lib_current_clock, lib_waitpid, lib_processes_status, lib_queues_status,
  lib_chprio, lib_getprio, lib_pcreate, lib_pdelete, lib_preset, lib_kill, lib_exit, lib_pcount,
  lib_preceive, lib_psend, lib_clock_settings, lib_wait_clock, lib_start, registers, raise, meaning,
  word, address, IsInt, IsPointer, IsProper,
}

-- An `int` comes back from its word.
pub to_int-word : (z : ℤ) → IsInt z → to_int (word z) ≡ z
to_int-word (pos n) h = ground arith
to_int-word (negsuc n) h = ground arith

pub to_ptr-address : (env : Env) (p : Option ℕ) → IsPointer env p → to_ptr (address p) ≡ p
to_ptr-address env none h = refl
to_ptr-address env (some a) h = ground arith

pointer_passes :
    (env : Env) (p : Option ℕ)
    → IsPointer env p
    → (address p == 0 || env.is_user (address p)) ≡ true
pointer_passes env none h = refl
pointer_passes env (some a) h = ground arith

-- Every function of the library on processes, queues and the clock, called with values of its
-- argument types and with pointers into user space, does and returns what the kernel's function of
-- its name does and returns for these arguments (`start_user` for `start`), and has the entries of a
-- status written to the address given.
pub raise-registers :
    (env : Env) (c : LibraryCall) (s : Sys)
    → IsProper env c
    → raise env (registers c) s ≡ meaning env c s
unfolding registers meaning user_it decode execute outcome perform
raise-registers env lib_getpid s h = refl
raise-registers env lib_current_clock s h = refl
raise-registers env (lib_waitpid pid retval) s (h, p) =
    rw (pointer_passes env retval p, to_int-word pid h, to_ptr-address env retval p) refl
raise-registers env (lib_processes_status status count) s (p, h) = rw (p, to_int-word count h) refl
raise-registers env (lib_queues_status status count) s (p, h) = rw (p, to_int-word count h) refl
raise-registers env (lib_chprio pid newprio) s (h, p) =
    rw (to_int-word pid h, to_int-word newprio p) refl
raise-registers env (lib_getprio pid) s h = rw (to_int-word pid h) refl
raise-registers env (lib_pcreate count) s h = rw (to_int-word count h) refl
raise-registers env (lib_pdelete fid) s h = rw (to_int-word fid h) refl
raise-registers env (lib_preset fid) s h = rw (to_int-word fid h) refl
raise-registers env (lib_kill pid) s h = rw (to_int-word pid h) refl
raise-registers env (lib_exit retval) s h = rw (to_int-word retval h) refl
raise-registers env (lib_pcount fid count) s (h, p) =
    rw (pointer_passes env count p, to_int-word fid h, to_ptr-address env count p) refl
raise-registers env (lib_preceive fid message) s (h, p) =
    rw (pointer_passes env message p, to_int-word fid h, to_ptr-address env message p) refl
raise-registers env (lib_psend fid message) s (h, p) =
    rw (to_int-word fid h, to_int-word message p) refl
raise-registers env (lib_clock_settings q ticks) s (h, p) =
    rw (pointer_passes env q h, pointer_passes env ticks p)
      (rw (to_ptr-address env q h, to_ptr-address env ticks p) refl)
raise-registers env (lib_wait_clock wakeup) s h = refl
raise-registers env (lib_start g) s (f, n, h) = rw (f, n, to_int-word g.prio h) refl
