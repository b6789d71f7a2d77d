-- ===== src/User/Files.antt =====
-- The functions on files of the library of user programs, user/syscall.c.
use calm_os.Base.{ℕ, ◌≡◌, Bool, true, false, refl}
use calm_os.Disk.{Image, Disk}
use calm_os.Kernel.Syscall.{Env}
use calm_os.Kernel.Syscall.Files.{
  UserMemory, FileAnswer, puts_root, puts_files, puts_name, puts_bytes, writes_file, file_it,
  fs_root, fs_list, fs_file_name, fs_read, fs_write,
}
use calm_os.User.{Registers, sys_call_5, sys_call_1}

abbrev sys_call_3 : ℕ → ℕ → ℕ → ℕ → Registers
sys_call_3 id a b c = sys_call_5 id a b c 0 0

abbrev sys_call_4 : ℕ → ℕ → ℕ → ℕ → ℕ → Registers
sys_call_4 id a b c d = sys_call_5 id a b c d 0

-- A call of one of the functions, with the addresses of its arguments in memory
pub data FileCall : Type 0 where
  lib_root : ℕ → FileCall
  lib_list : (dir files nfiles offset : ℕ) → FileCall
  lib_file_name : (f name len : ℕ) → FileCall
  lib_read : (dst f offset len : ℕ) → FileCall
  lib_write : (f offset src len : ℕ) → FileCall

unfoldable pub file_registers : FileCall → Registers
file_registers (lib_root ret) = sys_call_1 70 ret
file_registers (lib_list dir files nfiles offset) = sys_call_4 71 dir files nfiles offset
file_registers (lib_file_name f name len) = sys_call_3 72 f name len
file_registers (lib_read dst f offset len) = sys_call_4 73 dst f offset len
file_registers (lib_write f offset src len) = sys_call_4 74 f offset src len

module _ (env : Env) (u : UserMemory) (d : Disk) (fuel : ℕ) where
  abbrev pub raise_file : FileCall → Image → FileAnswer
  raise_file c m = let r = file_registers c in file_it env u d fuel r.call_id r.p1 r.p2 r.p3 r.p4 m

  -- What each call is for, with the length that is asked for
  unfoldable pub file_meaning : FileCall → Image → FileAnswer
  file_meaning (lib_root ret) m = puts_root ret fs_root
  file_meaning (lib_list dir files nfiles offset) m =
      puts_files files (fs_list d (u.dir_at dir) nfiles offset m)
  file_meaning (lib_file_name f name len) m = puts_name name (fs_file_name d (u.file_at f) len m)
  file_meaning (lib_read dst f offset len) m =
      puts_bytes dst (fs_read d fuel (u.file_at f) offset len m)
  file_meaning (lib_write f offset src len) m =
      writes_file (fs_write d fuel (u.file_at f) offset (u.bytes_at src len) len m)

  -- The pointers lead to user space.
  abbrev pub IsProperFile : FileCall → Type 0
  IsProperFile (lib_root ret) = env.is_user ret ≡ true
  IsProperFile (lib_list dir files nfiles offset) =
      (env.is_user dir ≡ true) × (env.is_user files ≡ true)
  IsProperFile (lib_file_name f name len) = (env.is_user f ≡ true) × (env.is_user name ≡ true)
  IsProperFile (lib_read dst f offset len) = (env.is_user dst ≡ true) × (env.is_user f ≡ true)
  IsProperFile (lib_write f offset src len) = (env.is_user f ≡ true) × (env.is_user src ≡ true)

  abbrev pub names_file : FileCall → Bool
  names_file (lib_file_name f name len) = true
  names_file _ = false

  -- Every function of the library on files but `fs_file_name`, called with pointers into user
  -- space, puts to its address, or writes to the file, what the file system's function of its name
  -- gives for these arguments.
  pub raise_file-file_meaning :
      (c : FileCall) (m : Image)
      → IsProperFile c
      → names_file c ≡ false
      → raise_file c m ≡ file_meaning c m
  unfolding file_registers file_meaning file_it
  raise_file-file_meaning (lib_root ret) m h n = rw h refl
  raise_file-file_meaning (lib_list dir files nfiles offset) m (h, k) n = rw (h, k) refl
  raise_file-file_meaning (lib_file_name f name len) m h n = absurd (cc)
  raise_file-file_meaning (lib_read dst f offset len) m (h, k) n = rw (h, k) refl
  raise_file-file_meaning (lib_write f offset src len) m (h, k) n = rw (h, k) refl

  -- `fs_file_name` does not heed the length that it is given: with pointers into user space, it
  -- puts the name that the file system gives for the address of the buffer in the length's place.
  pub raise_file-lib_file_name :
      (f name len : ℕ) (m : Image)
      → env.is_user f ≡ true
      → env.is_user name ≡ true
      → raise_file (lib_file_name f name len) m
        ≡ puts_name name (fs_file_name d (u.file_at f) name m)
  unfolding file_registers file_it
  raise_file-lib_file_name f name len m h k = rw (h, k) refl
