-- ===== src/Fat16/Names/Bounds.antt =====
-- The length of the names of `fat_fs_file_name` of kernel/filesystem/fat16.c.
use calm_os.Base.{
  ℕ, zero, suc, ◌+◌, ◌-◌, ◌^◌, ◌≤◌, ◌==◌, ◌&&◌, not, List, [], ◌∷◌, ◌++◌, arith, length, map, take,
  ltb, if◌then◌else◌, length-append, length-take, branch,
}
use calm_os.Disk.{Image, Disk, mem_disk_read, disk_view}
use calm_os.Fat16.Layout.{entry_size, wrap}
use calm_os.Fat16.Names.{fat_fs_file_name, short_name, long_name, trim_length, dotted, lfn_chars}
use calm_os.Fat16.Data.Area.{length-mem_disk_read}

length_cut : (n : ℕ) (xs : List ℕ) → length (take n xs) ≤ n
length_cut n xs = ground (arith, length-take n xs)

two_parts :
    (len : ℕ) (xs ys : List ℕ)
    → length xs ≤ len
    → length ys ≤ len - length xs
    → length (xs ++ ys) ≤ len
two_parts len xs ys h k = omega (arith, length-append xs ys)

length-long_name :
    (d : Disk) (m : Image) (fuel len addr : ℕ) → length (long_name d m fuel len addr) ≤ len
unfolding long_name
length-long_name d m zero len addr = omega arith
length-long_name d m (suc fuel) len addr =
    let chars = take len (map (disk_view d (wrap (addr + 2 ^ 32 - entry_size)) m) lfn_chars) in
    branch (λ (xs : List ℕ). length xs ≤ len) _ _ []
      (λ more.
        two_parts len chars _
          (length_cut len (map (disk_view d (wrap (addr + 2 ^ 32 - entry_size)) m) lfn_chars))
          (length-long_name d m fuel (len - length chars) (wrap (addr + 2 ^ 32 - entry_size))))
      (λ stop. omega arith)

length-dotted :
    (len : ℕ) (name ext : List ℕ) → length name ≤ len → length (dotted len name ext) ≤ len
length-dotted len name ext h =
    branch (λ (xs : List ℕ). length xs ≤ len) (not (length ext == 0) && ltb (length name) len) _ _
      (λ both. ground (
        arith,
        both,
        length-append name (0x2e ∷ take (len - (length name + 1)) ext),
        length_cut (len - (length name + 1)) ext,
      ))
      (λ alone. h)

length-short_name : (entry : ℕ → ℕ) (len : ℕ) → length (short_name entry len) ≤ len
unfolding short_name
length-short_name entry len =
    let n = trim_length entry 0 8 in
    let name_len = if ltb len n then len else n in
    length-dotted len (mem_disk_read 0 name_len entry) _
      (ground (arith, length-mem_disk_read 0 name_len entry))

-- A name fits its buffer: whatever the disk and the entry, `fat_fs_file_name` puts at most as many
-- characters as it is asked for before the null character.
pub length-fat_fs_file_name :
    (d : Disk) (addr len : ℕ) (m : Image) → length (fat_fs_file_name d addr len m) ≤ len
unfolding fat_fs_file_name
length-fat_fs_file_name d addr len m =
    let long = long_name d m len len addr in
    branch (λ (xs : List ℕ). length xs ≤ len) (length long == 0) _ _
      (λ empty. length-short_name (disk_view d addr m) len)
      (λ some_long. length-long_name d m len len addr)
