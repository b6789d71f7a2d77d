-- ===== src/Fat16/Entries.antt =====
-- The entries of a directory: the search for one, the list of files, and a file added and removed.
-- A number of 32 bits from 2 ^ 31 on, as the index of an entry, is the `int32_t` less by 2 ^ 32.
pub mod Update
pub mod AddFile
pub mod Listing
use calm_os.Base.{
  ℕ, zero, suc, ◌+◌, ◌-◌, ◌*◌, ◌/◌, ◌%◌, ◌^◌, ◌==◌, ◌&&◌, Bool, true, false, not, List, [], ◌∷◌,
  Option, none, some, if◌then◌else◌, ltb, ◌>>=◌, length,
}
use Prim.Native.Nat.{bit_and, bit_or}
use calm_os.Disk.{Image, Disk, disk_read, disk_write, disk_view}
use calm_os.Fat16.Layout.{
  with_bpb, wrap, entry_size, uint16_at, uint32_at, fat_get_cluster_addr, fat_get_cluster_count,
}
use calm_os.Fat16.Clusters.{uint16_bytes, uint16_of}
use calm_os.Fat16.Names.{StringOps, fat_split_path, fat_fs_file_name}
use calm_os.Fat16.Data.{fat_add_data, fat_remove_data, fat_read_data, fat_write_data}

-- ENTRY_AVAILABLE and ENTRY_ERASED
abbrev pub is_used : ℕ → Bool
is_used first = not (first == 0) && not (first == 0xe5)

abbrev pub entry_addr : Disk → Image → ℕ → ℕ → ℕ
entry_addr d m cluster index =
    wrap (fat_get_cluster_addr (with_bpb d m) cluster + index * entry_size)

-- The rounds of a loop of an `int32_t` from `skip` up to `count`
abbrev pub rounds_from : ℕ → ℕ → ℕ
rounds_from count skip = if ltb skip (2 ^ 31) then count - skip else 2 ^ 32 + count - skip

-- The source returns the address beside the index, and the callers take 0 for no entry.
abbrev pub found_at : ℕ → ℕ → Option ℕ
found_at addr i = if addr == 0 then none else some i

-- The loop of `fat_find_entry` over `n` entries from an index on: the index that is found
unfoldable pub find_entry_from : Disk → Image → ℕ → Bool → ℕ → ℕ → Option ℕ
find_entry_from d m cluster free zero i = none
find_entry_from d m cluster free (suc n) i =
    let rest = find_entry_from d m cluster free n (i + 1) in
    let used = is_used (disk_view d (entry_addr d m cluster i) m 0) in
    if (if free then not used else used) then found_at (entry_addr d m cluster i) i else rest

unfoldable pub fat_find_entry : Disk → ℕ → Bool → ℕ → Image → Option ℕ
unfolding find_entry_from
fat_find_entry d cluster free skip m =
    find_entry_from d m cluster free (rounds_from (with_bpb d m).root_entry_count skip) skip

-- The address of a free entry, or 0
unfoldable pub fat_find_free_entry : Disk → ℕ → Image → ℕ
unfolding fat_find_entry
fat_find_free_entry d cluster m = elim (fat_find_entry d cluster true 0 m) [
  | none ↦ 0
  | some i ↦ entry_addr d m cluster i
]

-- The fields of an entry are written through the pointer that `view` returns.
unfoldable pub fat_update_dir_entry : Disk → ℕ → ℕ → List ℕ → List ℕ → ℕ → Image → Image
fat_update_dir_entry d addr cluster name ext size m =
    let t = d.poke (addr + 26) (uint16_bytes cluster) m in
    let u = d.poke (addr + 8) ext (d.poke addr name t) in
    d.poke (addr + 28)
      ((size % 256) ∷ (size / 256 % 256) ∷ (size / 65536 % 256) ∷ (size / 16777216 % 256) ∷ []) u

abbrev pub fat_remove_dir_entry : Disk → ℕ → Image → Image
fat_remove_dir_entry d addr m = disk_write d addr (0 ∷ []) m

-- The entry is written when the data have been.
unfoldable pub add_entry : StringOps → Disk → ℕ → List ℕ → ℕ → ℕ × Image → ℕ × Image
unfolding fat_update_dir_entry fat_split_path
add_entry ops d entry path size (root, m) =
    if root == 0
    then (0, m)
    else (let (name, ext) = fat_split_path ops path in
        (entry, fat_update_dir_entry d entry root name ext size m))

-- The address of the new entry, or 0
unfoldable pub fat_add_file :
    StringOps → Disk → ℕ → ℕ → List ℕ → List ℕ → Image → Option (ℕ × Image)
unfolding add_entry
fat_add_file ops d cluster fat_index path content m =
    let entry = fat_find_free_entry d cluster m in
    if entry == 0
    then some (0, m)
    else fat_add_data d fat_index content m >>= λ r.
        some (add_entry ops d entry path (length content) r)

unfoldable pub fat_remove_file : Disk → ℕ → Image → Option Image
fat_remove_file d addr m =
    let cluster = uint16_of (disk_read d (addr + 26) 2 m) in
    fat_remove_data d (fat_get_cluster_count (with_bpb d m)) 0 cluster m >>= λ t.
    some (fat_remove_dir_entry d addr t)

-- `FILE`; the dates are the packed bytes of the entry.
pub record File : Type 0 where
  pub name : List ℕ
  pub size : ℕ
  pub attribs : ℕ
  pub created_at : ℕ
  pub access_at : ℕ
  pub modified_at : ℕ
  pub parent_cluster : ℕ
  pub cluster_index : ℕ
  pub entry_addr : ℕ

-- FILE_SHORTNAME_SIZE
abbrev pub file_shortname_size : ℕ
file_shortname_size = 31

-- FAT_SYSTEM | FAT_VOLUME_ID
abbrev pub is_visible : ℕ → Bool
is_visible attribs = bit_and attribs (bit_or 0x04 0x08) == 0

-- The attribute if it is set
abbrev pub kept : ℕ → ℕ → ℕ
kept flag attribs = if bit_and attribs flag == 0 then 0 else flag

unfoldable pub file_of : Disk → ℕ → ℕ → Image → File
file_of d cluster addr m =
    let entry = disk_view d addr m in
    record {
      name = fat_fs_file_name d addr file_shortname_size m;
      size = uint32_at entry 28;
      attribs =
          bit_or (bit_or (kept 0x01 (entry 11)) (kept 0x02 (entry 11))) (kept 0x10 (entry 11));
      created_at = uint32_at entry 14;
      access_at = uint16_at entry 18;
      modified_at = uint32_at entry 22;
      parent_cluster = cluster;
      cluster_index = uint16_at entry 26;
      entry_addr = addr;
    }

-- The inner loop of `fat_fs_list`: the next visible entry from an index on. Each round goes on behind
-- the entry found, so that a round more than the entries from there on is enough.
unfoldable pub next_visible : Disk → ℕ → Image → ℕ → ℕ → Option ℕ
next_visible d cluster m zero current = none
next_visible d cluster m (suc fuel) current = fat_find_entry d cluster false current m >>= λ i.
    elim (is_visible (disk_view d (entry_addr d m cluster i) m 11)) [
      | true ↦ some i
      | false ↦ next_visible d cluster m fuel (i + 1)
    ]

-- The outer loop, over the places in the caller's array
unfoldable pub fat_fs_list : Disk → ℕ → ℕ → ℕ → Image → List File
unfolding next_visible
fat_fs_list d cluster zero offset m = []
fat_fs_list d cluster (suc nfiles) offset m =
    elim (next_visible d cluster m (rounds_from (with_bpb d m).root_entry_count offset + 1)
      offset) [
        | none ↦ []
        | some i ↦
            file_of d cluster (entry_addr d m cluster i) m ∷ fat_fs_list d cluster nfiles (i + 1) m
      ]

-- DIR, by its cluster
abbrev pub fat_fs_root : ℕ
fat_fs_root = 0

-- The number of bytes that are asked for, cut at the end of the file
abbrev pub cut_len : File → ℕ → ℕ → ℕ
cut_len f offset len =
    let left = wrap (f.size + 2 ^ 32 - offset) in if ltb left len then left else len

unfoldable pub fat_fs_read : Disk → ℕ → File → ℕ → ℕ → Image → Option (List ℕ)
fat_fs_read d fuel f offset len m =
    fat_read_data d fuel f.cluster_index (cut_len f offset len) offset m

unfoldable pub fat_fs_write : Disk → ℕ → File → ℕ → List ℕ → ℕ → Image → Option (ℕ × Image)
fat_fs_write d fuel f offset src len m =
    fat_write_data d fuel f.cluster_index src (cut_len f offset len) offset m
