-- ===== src/Tests/Fat16.antt =====
-- The theorems on the file system applied to new disks.
pub mod Images
use calm_os.Base.{
  false, ℕ, get_or, ltb, if◌then◌else◌, ◌++◌, ◌-◌, replicate, ◌>>=◌, ◌+◌, map, take, ◌==◌, ◌≡◌,
  Bool, true, List, [], ◌∷◌, Option, none, some, ◌≢◌, ◌<◌, ◌≤◌, refl, sym, ap, ◌∙◌, subst, length,
  arith,
}
use calm_os.Disk.{Image, mem_disk, mem_disk-IsDisk, mem_disk_write, mem_disk_read}
use calm_os.Fat16.Layout.{
  BiosBlock, with_bpb, bytes_per_cluster, fat_get_total_sector_count, fat_get_meta_sector_count,
  fat_get_cluster_count, fat_get_root_table_addr, fat_get_cluster_addr,
}
use calm_os.Fat16.Clusters.{
  fat_get_cluster_value, fat_set_cluster_value, find_free_from, fat_find_free_cluster,
  update_copies, fat_update_cluster, format_clusters, format_table, fat_format,
}
use calm_os.Fat16.Data.{
  fat_remove_data, add_chain, fat_add_data, read_chain, fat_read_data, fat_write_data,
}
use calm_os.Fat16.Names.{
  StringOps, fat_split_path, set_padded_string, trim_length, short_name, long_name,
  fat_fs_file_name,
}
use calm_os.Fat16.Entries.{
  entry_addr, find_entry_from, fat_find_entry, fat_find_free_entry, fat_update_dir_entry, add_entry,
  fat_add_file, file_of, next_visible, fat_fs_list, fat_fs_read,
}
use calm_os.Fat16.Entries.AddFile.{HasDirectory, fat_fs_read-fat_add_file}
use calm_os.Fat16.Entries.Listing.{visible_from, fat_fs_list-visible_from}
use calm_os.Fat16.Data.Add.Full.{Restored, fat_add_data-Restored}
use calm_os.Fat16.Create.{new_bios_block, new_boot_sector, new_fat16}
use calm_os.Fat16.Clusters.Laws.{HasTable, in_table, Updated, fat_update_cluster-Updated}
use calm_os.Fat16.Clusters.Free.{FirstFree, fat_find_free_cluster-FirstFree}
use calm_os.Fat16.Data.Chain.{mem, Chain}
use calm_os.Fat16.Data.Remove.{Removed, fat_remove_data-Removed}
use calm_os.Fat16.Data.Area.{HasData, Stored}
use calm_os.Fat16.Names.Bounds.{length-fat_fs_file_name}
use calm_os.Fat16.Data.Write.{Rewritten, fat_read_data-fat_write_data}
use calm_os.Fat16.Data.Add.Undo.{fat_remove_data-fat_add_data}
use calm_os.Fat16.Data.Read.{fat_read_data-Stored}
use calm_os.Fat16.Data.Free.{free_count}
use calm_os.Fat16.Data.Add.Round.{Grown}
use calm_os.Fat16.Data.Add.Loop.{fat_add_data-Grown}
use calm_os.Fat16.Data.Add.ReadBack.{fat_read_data-fat_add_data, fat_read_data-kept}
use calm_os.Fat16.Names.{fat_split_path, short_name, to_upper}
use calm_os.Fat16.Names.Laws.{short_name-fat_split_path}
use calm_os.Tests.Fat16.Images.{
  image_of, fresh, fresh_block, fresh-with_bpb, fresh_value, fresh-HasTable, fresh-HasData, three,
  disk_of, added, added-with_bpb, added_mark, added_value, added-Chain, added-Stored, fresh_room,
  count_is, fresh_table, added_table, fresh_count, added_size, added_room, added_used, crowded,
  long_data, crowded-with_bpb, crowded_mark, crowded_room, index_of, last_index_of, string_ops,
  path, fresh-HasDirectory, fresh_entry, listed, listed-HasEntries,
}

fat_remove_data-Removed_example :
    (t : Image) × (fat_remove_data mem_disk 1 0 2 added ≡ some t)
    × Removed mem_disk (2 ∷ []) 0 added t
fat_remove_data-Removed_example =
    fat_remove_data-Removed mem_disk mem_disk-IsDisk 0 0xffff (2 ∷ []) 1 2 added added_table
      (ground arith) added_mark added-Chain (omega arith)

fat_find_free_cluster-FirstFree_example :
    FirstFree mem_disk mem_disk-IsDisk added 2
      (fat_get_cluster_count (with_bpb mem_disk added) - 2)
      (fat_find_free_cluster mem_disk added)
fat_find_free_cluster-FirstFree_example =
    let count = ap fat_get_cluster_count added-with_bpb ∙ count_is in
    fat_find_free_cluster-FirstFree mem_disk mem_disk-IsDisk added added_table
      (omega (arith, count)) (omega (arith, count))

fat_add_data-Grown_example :
    (r last_one : ℕ) × (zs : List ℕ) × (t : Image) × (fat_add_data mem_disk 0 three fresh
      ≡ some (r, t))
    × Grown mem_disk 0xffff fresh_block fresh zs three r last_one t
fat_add_data-Grown_example =
    fat_add_data-Grown mem_disk mem_disk-IsDisk 0xffff fresh_block fresh-HasTable fresh-HasData
      (omega (arith, count_is)) (omega arith) fresh (omega (arith, count_is)) fresh-with_bpb
      fresh_value 0 three (omega arith) (omega (arith, fresh_room))

fat_read_data-fat_add_data_example :
    (r : ℕ) × (t : Image) × (fat_add_data mem_disk 0 three fresh ≡ some (r, t))
    × (fat_read_data mem_disk 3 r 3 0 t ≡ some three)
fat_read_data-fat_add_data_example =
    fat_read_data-fat_add_data mem_disk mem_disk-IsDisk 0xffff fresh_block fresh-HasTable
      fresh-HasData (omega (arith, count_is)) (omega arith) fresh (omega (arith, count_is))
      fresh-with_bpb fresh_value 0 three (omega arith) (omega (arith, fresh_room)) (omega arith)

fat_read_data-kept_example :
    (r : ℕ) × (t : Image) × (fat_add_data mem_disk 0 three added ≡ some (r, t))
    × (fat_read_data mem_disk 1 2 3 0 t ≡ some three)
fat_read_data-kept_example =
    fat_read_data-kept mem_disk mem_disk-IsDisk 0xffff fresh_block fresh-HasTable fresh-HasData
      (omega (arith, count_is)) (omega arith) added (omega (arith, count_is)) added-with_bpb
      added_mark 0 three (omega arith) (omega (arith, added_room)) (2 ∷ []) three 1 2 (ground arith)
      added-Chain added_used added-Stored (omega arith) (omega arith)

fat_add_data-Restored_example :
    (t : Image) × (fat_add_data mem_disk 0 long_data crowded ≡ some (0, t))
    × Restored mem_disk mem_disk-IsDisk 0xffff fresh_block fresh-HasTable fresh-HasData
        (omega (arith, count_is))
        (omega arith)
        crowded
        (omega (arith, count_is))
        crowded_mark
        t
fat_add_data-Restored_example =
    fat_add_data-Restored mem_disk mem_disk-IsDisk 0xffff fresh_block fresh-HasTable fresh-HasData
      (omega (arith, count_is)) (omega arith) crowded (omega (arith, count_is)) crowded_mark
      crowded-with_bpb long_data (omega (arith, crowded_room))

fat_fs_read-fat_add_file_example :
    (t : Image) × (fat_add_file string_ops mem_disk 0 0 path three fresh
      ≡ some (entry_addr mem_disk fresh 0 0, t))
    × (fat_fs_read mem_disk 3 (file_of mem_disk 0 (entry_addr mem_disk fresh 0 0) t) 0 3 t
        ≡ some three)
fat_fs_read-fat_add_file_example =
    fat_fs_read-fat_add_file mem_disk mem_disk-IsDisk fresh_block fresh-HasTable fresh-HasData
      fresh-HasDirectory 0xffff (omega (arith, count_is)) (omega arith) fresh
      (omega (arith, count_is)) fresh-with_bpb fresh_value string_ops 0 path three 0 (omega arith)
      (omega (arith, fresh_room)) (omega arith) fresh_entry

fat_fs_list-visible_from_example :
    fat_fs_list mem_disk 0 2 0 listed
    ≡ map
        (λ i. file_of mem_disk 0 (entry_addr mem_disk listed 0 i) listed)
        (take 2
          (visible_from mem_disk 0 listed ((with_bpb mem_disk listed).root_entry_count - 0) 0))
fat_fs_list-visible_from_example =
    fat_fs_list-visible_from mem_disk 0 listed 2 0 listed-HasEntries (omega arith)

-- An entry with the name and the extension of /A.TXT
abbrev entry : ℕ → ℕ
entry k =
    if ltb k 8
    then get_or (fat_split_path string_ops path).0 k 0
    else get_or (fat_split_path string_ops path).1 (k - 8) 0

short_name-fat_split_path_example :
    short_name entry 31 ≡ map to_upper (0x41 ∷ []) ++ 0x2e ∷ map to_upper (0x54 ∷ 0x58 ∷ 0x54 ∷ [])
short_name-fat_split_path_example =
    short_name-fat_split_path string_ops path (0x41 ∷ []) (0x54 ∷ 0x58 ∷ 0x54 ∷ []) entry refl refl
      (omega arith) (omega arith) (omega arith) (omega arith) (ground arith) (ground arith)
      (λ k l. ground arith) (λ k l. ground arith)

fat_read_data-fat_write_data_example :
    (t : Image) × (fat_write_data mem_disk 1 2 (9 ∷ 8 ∷ []) 2 0 added ≡ some (2, t))
    × (fat_read_data mem_disk 1 2 2 0 t ≡ some (9 ∷ 8 ∷ []))
    × Rewritten mem_disk mem_disk-IsDisk 0xffff fresh_block fresh-HasTable fresh-HasData
        (2 ∷ [])
        (9 ∷ 8 ∷ [])
        added
        t
fat_read_data-fat_write_data_example =
    fat_read_data-fat_write_data mem_disk mem_disk-IsDisk 0xffff fresh_block fresh-HasTable
      fresh-HasData (2 ∷ []) (9 ∷ 8 ∷ []) 1 2 added added-with_bpb (ground arith) added_mark
      added-Chain (λ j o. ((added_used j o).0, (added_used j o).1)) (omega arith) (omega arith)
      (omega arith)

fat_remove_data-fat_add_data_example :
    (r : ℕ) × (u t : Image) × (fat_add_data mem_disk 0 three fresh ≡ some (r, u))
    × (fat_remove_data mem_disk 3 0 r u ≡ some t)
    × (with_bpb mem_disk t ≡ fresh_block)
    × ((j : ℕ) → fat_get_cluster_value mem_disk j t ≡ fat_get_cluster_value mem_disk j fresh)
    × ((i : ℕ)
        → in_table fresh_block i ≡ false
        → i < fat_get_cluster_addr fresh_block 2
        → t i ≡ fresh i)
fat_remove_data-fat_add_data_example =
    fat_remove_data-fat_add_data mem_disk mem_disk-IsDisk 0xffff fresh_block fresh-HasTable
      fresh-HasData (omega (arith, count_is)) (omega arith) fresh (omega (arith, count_is))
      fresh-with_bpb fresh_value 0 three (omega arith) (omega (arith, fresh_room))

length-fat_fs_file_name_example : length (fat_fs_file_name mem_disk 1024 5 added) ≤ 5
length-fat_fs_file_name_example = length-fat_fs_file_name mem_disk 1024 5 added
