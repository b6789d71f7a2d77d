-- ===== src/Kernel/Syscall/Files.antt =====
-- `user_IT` of kernel/syscall.c for the calls on files (70 to 74), and kernel/filesystem/filesystem.c,
-- which hands them to the FAT16 file system of `root_fs`. What stands at the addresses of user space
-- is a parameter.
use calm_os.Base.{ℕ, List, Option, ◌==◌, if◌then◌else◌}
use calm_os.Disk.{Image, Disk}
use calm_os.Fat16.Names.{fat_fs_file_name}
use calm_os.Fat16.Entries.{File, fat_fs_root, fat_fs_list, fat_fs_read, fat_fs_write}
use calm_os.Kernel.Syscall.{Env}

-- The FILE and the DIR at an address, and the bytes from an address on
pub record UserMemory : Type 0 where
  pub file_at : ℕ → File
  pub dir_at : ℕ → ℕ
  pub bytes_at : ℕ → ℕ → List ℕ

abbrev pub fs_root : ℕ
fs_root = fat_fs_root

abbrev pub fs_list : Disk → ℕ → ℕ → ℕ → Image → List File
fs_list d dir nfiles offset m = fat_fs_list d dir nfiles offset m

abbrev pub fs_file_name : Disk → File → ℕ → Image → List ℕ
fs_file_name d f len m = fat_fs_file_name d f.entry_addr len m

abbrev pub fs_read : Disk → ℕ → File → ℕ → ℕ → Image → Option (List ℕ)
fs_read d fuel f offset len m = fat_fs_read d fuel f offset len m

abbrev pub fs_write : Disk → ℕ → File → ℕ → List ℕ → ℕ → Image → Option (ℕ × Image)
fs_write d fuel f offset src len m = fat_fs_write d fuel f offset src len m

-- What a call does, with the address to which it writes
pub data FileAnswer : Type 0 where
  segfault not_of_files : FileAnswer
  puts_root : ℕ → ℕ → FileAnswer
  puts_files : ℕ → List File → FileAnswer
  puts_name : ℕ → List ℕ → FileAnswer
  puts_bytes : ℕ → Option (List ℕ) → FileAnswer
  writes_file : Option (ℕ × Image) → FileAnswer

-- USER_PTR
abbrev pub file_ptr : Env → ℕ → FileAnswer → FileAnswer
file_ptr env p a = if env.is_user p then a else segfault

unfoldable pub file_it : Env → UserMemory → Disk → (fuel id p1 p2 p3 p4 : ℕ) → Image → FileAnswer
file_it env u d fuel id p1 p2 p3 p4 m =
    if id == 70
    then file_ptr env p1 (puts_root p1 fs_root)
    else if id == 71
    then file_ptr env p1 (file_ptr env p2 (puts_files p2 (fs_list d (u.dir_at p1) p3 p4 m)))
    else if id == 72
    then file_ptr env p1 (file_ptr env p2 (puts_name p2 (fs_file_name d (u.file_at p1) p2 m)))
    else if id == 73
    then file_ptr env p1 (file_ptr env p2 (puts_bytes p1 (fs_read d fuel (u.file_at p2) p3 p4 m)))
    else if id == 74
    then file_ptr env p1
        (file_ptr env p3 (writes_file (fs_write d fuel (u.file_at p1) p2 (u.bytes_at p3 p4) p4 m)))
    else not_of_files
