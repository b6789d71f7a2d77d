-- ===== src/User/RoundTrip.antt =====
-- `fs_write` and `fs_read` of user/syscall.c one after the other, down to the disk.
use calm_os.Base.{
  ℕ, ◌*◌, ◌^◌, ◌≤◌, ◌<◌, ◌≡◌, ◌≢◌, true, List, some, refl, arith, ap, sym, ◌∙◌, length,
}
use calm_os.Disk.{Image, Disk, IsDisk}
use calm_os.Fat16.Layout.{BiosBlock, with_bpb, bytes_per_cluster, fat_get_cluster_count}
use calm_os.Fat16.Clusters.{fat_get_cluster_value}
use calm_os.Fat16.Clusters.Laws.{HasTable}
use calm_os.Fat16.Data.{fat_write_data, fat_read_data}
use calm_os.Fat16.Data.Chain.{mem, Chain}
use calm_os.Fat16.Data.Area.{HasData}
use calm_os.Fat16.Data.Write.{fat_read_data-fat_write_data}
use calm_os.Fat16.Entries.{File, cut_len, fat_fs_read, fat_fs_write}
use calm_os.Kernel.Syscall.{Env}
use calm_os.Kernel.Syscall.Files.{UserMemory, puts_bytes, writes_file}
use calm_os.User.Files.{lib_read, lib_write, raise_file, raise_file-file_meaning, file_meaning}

cut_none : (f : File) (n : ℕ) → n ≤ f.size → f.size < 2 ^ 32 → cut_len f 0 n ≡ n
cut_none f n h k = ground arith

module _ (d : Disk) (laws : IsDisk d) (end : ℕ) (b : BiosBlock) (h : HasTable b) (w : HasData b)
    (env : Env) (u : UserMemory) where
  -- A user program reads what it has written: for an open file whose chain of clusters holds as
  -- many bytes as the file is long, `fs_write` of some bytes at its start, not more than the file is
  -- long, ends and returns how many they are, and `fs_read` from the start then puts these bytes to
  -- the address given. (The pointers lead to user space, and the rounds are as many as the chain has
  -- clusters.)
  pub lib_read-lib_write :
      (file src dst len fuel : ℕ) (xs : List ℕ) (m : Image)
      → env.is_user file ≡ true
      → env.is_user src ≡ true
      → env.is_user dst ≡ true
      → length (u.bytes_at src len) ≡ len
      → len ≤ (u.file_at file).size
      → (u.file_at file).size ≤ length xs * bytes_per_cluster b
      → length xs * bytes_per_cluster b < 2 ^ 32
      → (u.file_at file).cluster_index ≢ 0
      → with_bpb d m ≡ b
      → fat_get_cluster_value d 1 m ≡ some end
      → Chain d end m (u.file_at file).cluster_index xs
      → ((j : ℕ) → mem j xs ≡ true → (2 ≤ j) × (j < fat_get_cluster_count b))
      → length xs ≤ fuel
      → (t : Image) × (raise_file env u d fuel (lib_write file 0 src len) m
          ≡ writes_file (some (len, t)))
        × (raise_file env u d fuel (lib_read dst file 0 len) t
            ≡ puts_bytes dst (some (u.bytes_at src len)))
  unfolding file_meaning fat_fs_read fat_fs_write
  lib_read-lib_write file src dst len fuel xs m uf us ud n fits held small nz e mark p o f =
      let bs = u.bytes_at src len in
      let c = (u.file_at file).cluster_index in
      let whole = cut_none (u.file_at file) len fits (omega arith) in
      let (t, wrote, read, g) =
        fat_read_data-fat_write_data d laws end b h w xs bs fuel c m e nz mark p o (omega arith) f
          small in
      (
        t,
        raise_file-file_meaning env u d fuel (lib_write file 0 src len) m (uf, us) refl
            ∙ ap (λ k. writes_file (fat_write_data d fuel c bs k 0 m)) (whole ∙ sym n)
            ∙ ap writes_file wrote
            ∙ ap (λ k. writes_file (some (k, t))) n,
        raise_file-file_meaning env u d fuel (lib_read dst file 0 len) t (ud, uf) refl
            ∙ ap (λ k. puts_bytes dst (fat_read_data d fuel c k 0 t)) (whole ∙ sym n)
            ∙ ap (puts_bytes dst) read,
      )
