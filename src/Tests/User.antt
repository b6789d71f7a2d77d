-- ===== src/Tests/User.antt =====
-- The theorems on the library of user programs applied to calls of it.
use calm_os.Base.{replicate, ◌∷◌, ◌≡◌, pos, negsuc, true, some, refl, arith, leb, []}
use calm_os.Disk.{Image, mem_disk, mem_disk-IsDisk}
use calm_os.Fat16.Entries.{File}
use calm_os.Kernel.Syscall.{Env}
use calm_os.Kernel.Syscall.Files.{UserMemory, puts_bytes, writes_file}
use calm_os.User.{lib_psend, registers, raise, meaning}
use calm_os.User.Laws.{raise-registers}
use calm_os.User.Files.{lib_read, lib_write, raise_file}
use calm_os.User.RoundTrip.{lib_read-lib_write}
use calm_os.Tests.{created}
use calm_os.Tests.Fat16.Images.{
  added, fresh_block, fresh-HasTable, fresh-HasData, added-with_bpb, added_mark, added-Chain,
  added_used,
}

-- User space starts at 4096.
abbrev env : Env
env = record { is_user = λ p. leb 4096 p; mem_alloc = λ n. true; user_stack_alloc = λ n. some n }

-- The file on cluster 2
abbrev opened : File
opened = record {
  name = [];
  size = 3;
  attribs = 0;
  created_at = 0;
  access_at = 0;
  modified_at = 0;
  parent_cluster = 0;
  cluster_index = 2;
  entry_addr = 1024;
}

abbrev memory : UserMemory
memory = record { file_at = λ p. opened; dir_at = λ p. 0; bytes_at = λ p n. replicate n 7 }

raise-registers_example :
    raise env (registers (lib_psend (pos 0) (negsuc 6))) created
    ≡ meaning env (lib_psend (pos 0) (negsuc 6)) created
raise-registers_example =
    raise-registers env (lib_psend (pos 0) (negsuc 6)) created (omega arith, omega arith)

lib_read-lib_write_example :
    (t : Image) × (raise_file env memory mem_disk 1 (lib_write 6000 0 7000 2) added
      ≡ writes_file (some (2, t)))
    × (raise_file env memory mem_disk 1 (lib_read 8000 6000 0 2) t
        ≡ puts_bytes 8000 (some (7 ∷ 7 ∷ [])))
lib_read-lib_write_example =
    lib_read-lib_write mem_disk mem_disk-IsDisk 0xffff fresh_block fresh-HasTable fresh-HasData env
      memory 6000 7000 8000 2 1 (2 ∷ []) added refl refl refl refl (omega arith) (omega arith)
      (omega arith) (ground arith) added-with_bpb added_mark added-Chain
      (λ j o. ((added_used j o).0, (added_used j o).1)) (omega arith)
