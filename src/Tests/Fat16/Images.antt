-- ===== src/Tests/Fat16/Images.antt =====
-- New disks of 128 sectors, with some data, for the tests of the file system.
use calm_os.Base.{
  ℕ, replicate, ◌>>=◌, ◌+◌, ◌*◌, ◌==◌, if◌then◌else◌, ◌≡◌, Bool, true, false, List, [], ◌∷◌, Option,
  none, some, ◌≢◌, ◌<◌, ◌≤◌, ◌-◌, refl, sym, ap, ◌∙◌, subst, length, arith,
}
use calm_os.Disk.{Image, mem_disk, mem_disk_write, mem_disk_read}
use calm_os.Fat16.Layout.{
  BiosBlock, with_bpb, wrap, entry_size, bytes_per_cluster, fat_get_total_sector_count,
  fat_get_meta_sector_count, fat_get_cluster_count, fat_get_root_table_addr, fat_get_cluster_addr,
}
use calm_os.Fat16.Clusters.{
  fat_get_cluster_value, fat_set_cluster_value, find_free_from, fat_find_free_cluster,
  update_copies, fat_update_cluster, format_clusters, format_table, fat_format,
}
use calm_os.Fat16.Data.{add_chain, fat_add_data, read_chain, fat_read_data}
use calm_os.Fat16.Names.{StringOps, set_padded_string, fat_split_path}
use calm_os.Fat16.Entries.{
  find_entry_from, fat_find_entry, fat_find_free_entry, fat_update_dir_entry, add_entry,
  fat_add_file,
}
use calm_os.Fat16.Entries.Listing.{HasEntries, visible_from}
use calm_os.Fat16.Entries.AddFile.{HasDirectory}
use calm_os.Fat16.Create.{new_bios_block, new_boot_sector, new_fat16}
use calm_os.Fat16.Clusters.Laws.{HasTable}
use calm_os.Fat16.Data.Chain.{mem, Chain}
use calm_os.Fat16.Data.Area.{HasData, Stored}
use calm_os.Fat16.Data.Free.{free_count}

new_bios_block_size : length (new_bios_block 128) ≡ 62
unfolding new_bios_block
new_bios_block_size = refl

abbrev pub image_of : Option (Bool × Image) → Image
image_of none = λ i. 0
image_of (some (b, m)) = m

abbrev pub fresh : Image
fresh = image_of (new_fat16 128 (λ i. 0))

-- Its boot block, and its cluster 1
abbrev pub fresh_block : BiosBlock
fresh_block = record {
  bytes_per_sector = 512;
  sectors_per_cluster = 1;
  reserved_sector_count = 4;
  fat_count = 2;
  root_entry_count = 512;
  sector_count = 128;
  media_type = 0xf8;
  sectors_per_fat = 20;
  large_sector_count = 0;
}

pub fresh-with_bpb : with_bpb mem_disk fresh ≡ fresh_block
unfolding new_fat16 new_boot_sector new_bios_block fat_format format_table format_clusters
    fat_update_cluster update_copies fat_set_cluster_value fat_get_cluster_value mem_disk_write
    mem_disk_read with_bpb fat_get_cluster_count fat_get_total_sector_count
    fat_get_meta_sector_count fat_get_root_table_addr fat_get_cluster_addr fat_add_data add_chain
    fat_find_free_cluster find_free_from fat_read_data read_chain
fresh-with_bpb = refl

pub fresh_value : fat_get_cluster_value mem_disk 1 fresh ≡ some 0xffff
unfolding new_fat16 new_boot_sector new_bios_block fat_format format_table format_clusters
    fat_update_cluster update_copies fat_set_cluster_value fat_get_cluster_value mem_disk_write
    mem_disk_read with_bpb fat_get_cluster_count fat_get_total_sector_count
    fat_get_meta_sector_count fat_get_root_table_addr fat_get_cluster_addr fat_add_data add_chain
    fat_find_free_cluster find_free_from fat_read_data read_chain
fresh_value = refl

pub fresh-HasTable : HasTable fresh_block
unfolding new_fat16 new_boot_sector new_bios_block fat_format format_table format_clusters
    fat_update_cluster update_copies fat_set_cluster_value fat_get_cluster_value mem_disk_write
    mem_disk_read with_bpb fat_get_cluster_count fat_get_total_sector_count
    fat_get_meta_sector_count fat_get_root_table_addr fat_get_cluster_addr fat_add_data add_chain
    fat_find_free_cluster find_free_from fat_read_data read_chain
fresh-HasTable = record { copies = ground arith; behind = ground arith; table = ground arith }

pub fresh-HasData : HasData fresh_block
unfolding new_fat16 new_boot_sector new_bios_block fat_format format_table format_clusters
    fat_update_cluster update_copies fat_set_cluster_value fat_get_cluster_value mem_disk_write
    mem_disk_read with_bpb fat_get_cluster_count fat_get_total_sector_count
    fat_get_meta_sector_count fat_get_root_table_addr fat_get_cluster_addr fat_add_data add_chain
    fat_find_free_cluster find_free_from fat_read_data read_chain
fresh-HasData = record { size = ground arith; behind = ground arith; within = ground arith }

abbrev pub three : List ℕ
three = 1 ∷ 2 ∷ 3 ∷ []

abbrev pub disk_of : Option (ℕ × Image) → Image
disk_of none = λ i. 0
disk_of (some (r, m)) = m

-- The disk with three bytes added, on cluster 2
abbrev pub added : Image
added = disk_of (fat_add_data mem_disk 0 three fresh)

pub added-with_bpb : with_bpb mem_disk added ≡ fresh_block
unfolding new_fat16 new_boot_sector new_bios_block fat_format format_table format_clusters
    fat_update_cluster update_copies fat_set_cluster_value fat_get_cluster_value mem_disk_write
    mem_disk_read with_bpb fat_get_cluster_count fat_get_total_sector_count
    fat_get_meta_sector_count fat_get_root_table_addr fat_get_cluster_addr fat_add_data add_chain
    fat_find_free_cluster find_free_from fat_read_data read_chain
added-with_bpb = refl

pub added_mark : fat_get_cluster_value mem_disk 1 added ≡ some 0xffff
unfolding new_fat16 new_boot_sector new_bios_block fat_format format_table format_clusters
    fat_update_cluster update_copies fat_set_cluster_value fat_get_cluster_value mem_disk_write
    mem_disk_read with_bpb fat_get_cluster_count fat_get_total_sector_count
    fat_get_meta_sector_count fat_get_root_table_addr fat_get_cluster_addr fat_add_data add_chain
    fat_find_free_cluster find_free_from fat_read_data read_chain
added_mark = refl

pub added_value : fat_get_cluster_value mem_disk 2 added ≡ some 0xffff
unfolding new_fat16 new_boot_sector new_bios_block fat_format format_table format_clusters
    fat_update_cluster update_copies fat_set_cluster_value fat_get_cluster_value mem_disk_write
    mem_disk_read with_bpb fat_get_cluster_count fat_get_total_sector_count
    fat_get_meta_sector_count fat_get_root_table_addr fat_get_cluster_addr fat_add_data add_chain
    fat_find_free_cluster find_free_from fat_read_data read_chain
added_value = refl

pub added-Chain : Chain mem_disk 0xffff added 2 (2 ∷ [])
unfolding new_fat16 new_boot_sector new_bios_block fat_format format_table format_clusters
    fat_update_cluster update_copies fat_set_cluster_value fat_get_cluster_value mem_disk_write
    mem_disk_read with_bpb fat_get_cluster_count fat_get_total_sector_count
    fat_get_meta_sector_count fat_get_root_table_addr fat_get_cluster_addr fat_add_data add_chain
    fat_find_free_cluster find_free_from fat_read_data read_chain
added-Chain = (refl, ground arith, 0xffff, added_value, refl)

pub added-Stored : Stored fresh_block added (2 ∷ []) three
unfolding new_fat16 new_boot_sector new_bios_block fat_format format_table format_clusters
    fat_update_cluster update_copies fat_set_cluster_value fat_get_cluster_value mem_disk_write
    mem_disk_read with_bpb fat_get_cluster_count fat_get_total_sector_count
    fat_get_meta_sector_count fat_get_root_table_addr fat_get_cluster_addr fat_add_data add_chain
    fat_find_free_cluster find_free_from fat_read_data read_chain
added-Stored = (refl, refl)

pub fresh_room : free_count mem_disk fresh (fat_get_cluster_count fresh_block - 2) 2 ≡ 50
unfolding new_fat16 new_boot_sector new_bios_block fat_format format_table format_clusters
    fat_update_cluster update_copies fat_set_cluster_value fat_get_cluster_value mem_disk_write
    mem_disk_read with_bpb fat_get_cluster_count fat_get_total_sector_count
    fat_get_meta_sector_count fat_get_root_table_addr fat_get_cluster_addr fat_add_data add_chain
    fat_find_free_cluster find_free_from fat_read_data read_chain
fresh_room = refl

pub count_is : fat_get_cluster_count fresh_block ≡ 52
unfolding fat_get_cluster_count fat_get_total_sector_count fat_get_meta_sector_count
count_is = refl

pub fresh_table : HasTable (with_bpb mem_disk fresh)
fresh_table = subst HasTable (sym fresh-with_bpb) fresh-HasTable

pub added_table : HasTable (with_bpb mem_disk added)
added_table = subst HasTable (sym added-with_bpb) fresh-HasTable

pub fresh_count : fat_get_cluster_count (with_bpb mem_disk fresh) ≡ 52
fresh_count = ap fat_get_cluster_count fresh-with_bpb ∙ count_is

pub added_size : bytes_per_cluster (with_bpb mem_disk added) ≡ 512
added_size = ap bytes_per_cluster added-with_bpb

pub added_room : free_count mem_disk added (fat_get_cluster_count fresh_block - 2) 2 ≡ 49
unfolding new_fat16 new_boot_sector new_bios_block fat_format format_table format_clusters
    fat_update_cluster update_copies fat_set_cluster_value fat_get_cluster_value mem_disk_write
    mem_disk_read with_bpb fat_get_cluster_count fat_get_total_sector_count
    fat_get_meta_sector_count fat_get_root_table_addr fat_get_cluster_addr fat_add_data add_chain
    fat_find_free_cluster find_free_from fat_read_data read_chain
added_room = refl

pub added_used :
    (j : ℕ)
    → mem j (2 ∷ []) ≡ true
    → (2 ≤ j)
      × (j < fat_get_cluster_count fresh_block)
      × (fat_get_cluster_value mem_disk j added ≢ some 0)
added_used j h =
    let two : j ≡ 2 = ground arith in
    (
      omega (arith, two),
      omega (arith, two, count_is),
      λ e.
          ground
            (arith, sym (ap (λ k. fat_get_cluster_value mem_disk k added) two) ∙ e, added_value),
    )

-- The disk with one cluster left, and data for two
abbrev pub crowded : Image
crowded = mem_disk_write 2054 (replicate 98 0xff) fresh

abbrev pub long_data : List ℕ
long_data = replicate 513 7

pub crowded-with_bpb : with_bpb mem_disk crowded ≡ fresh_block
unfolding new_fat16 new_boot_sector new_bios_block fat_format format_table format_clusters
    fat_update_cluster update_copies fat_set_cluster_value fat_get_cluster_value mem_disk_write
    mem_disk_read with_bpb fat_get_cluster_count fat_get_total_sector_count
    fat_get_meta_sector_count fat_get_root_table_addr fat_get_cluster_addr fat_add_data add_chain
    fat_find_free_cluster find_free_from fat_read_data read_chain
crowded-with_bpb = refl

pub crowded_mark : fat_get_cluster_value mem_disk 1 crowded ≡ some 0xffff
unfolding new_fat16 new_boot_sector new_bios_block fat_format format_table format_clusters
    fat_update_cluster update_copies fat_set_cluster_value fat_get_cluster_value mem_disk_write
    mem_disk_read with_bpb fat_get_cluster_count fat_get_total_sector_count
    fat_get_meta_sector_count fat_get_root_table_addr fat_get_cluster_addr fat_add_data add_chain
    fat_find_free_cluster find_free_from fat_read_data read_chain
crowded_mark = refl

pub crowded_room : free_count mem_disk crowded (fat_get_cluster_count fresh_block - 2) 2 ≡ 1
unfolding new_fat16 new_boot_sector new_bios_block fat_format format_table format_clusters
    fat_update_cluster update_copies fat_set_cluster_value fat_get_cluster_value mem_disk_write
    mem_disk_read with_bpb fat_get_cluster_count fat_get_total_sector_count
    fat_get_meta_sector_count fat_get_root_table_addr fat_get_cluster_addr fat_add_data add_chain
    fat_find_free_cluster find_free_from fat_read_data read_chain
crowded_room = refl

-- A path, and the searches in it
abbrev pub index_of : List ℕ → ℕ → Option ℕ
index_of [] c = none
index_of (x ∷ xs) c = if x == c then some 0 else (index_of xs c >>= λ i. some (i + 1))

abbrev pub last_index_of : List ℕ → ℕ → Option ℕ
last_index_of [] c = none
last_index_of (x ∷ xs) c = elim (last_index_of xs c) [
  | none ↦ if x == c then some 0 else none
  | some i ↦ some (i + 1)
]

abbrev pub string_ops : StringOps
string_ops = record { strchr = index_of; strrchr = last_index_of }

-- /A.TXT
abbrev pub path : List ℕ
path = 0x2f ∷ 0x41 ∷ 0x2e ∷ 0x54 ∷ 0x58 ∷ 0x54 ∷ []

pub fresh-HasDirectory : HasDirectory fresh_block
unfolding new_fat16 new_boot_sector new_bios_block fat_format format_table format_clusters
    fat_update_cluster update_copies fat_set_cluster_value fat_get_cluster_value mem_disk_write
    mem_disk_read with_bpb fat_get_cluster_count fat_get_total_sector_count
    fat_get_meta_sector_count fat_get_root_table_addr fat_get_cluster_addr fat_add_data add_chain
    fat_find_free_cluster find_free_from fat_read_data read_chain
fresh-HasDirectory = record { behind = ground arith; before_data = ground arith }

pub fresh_entry : fat_find_entry mem_disk 0 true 0 fresh ≡ some 0
unfolding new_fat16 new_boot_sector new_bios_block fat_format format_table format_clusters
    fat_update_cluster update_copies fat_set_cluster_value fat_get_cluster_value mem_disk_write
    mem_disk_read with_bpb fat_get_cluster_count fat_get_total_sector_count
    fat_get_meta_sector_count fat_get_root_table_addr fat_get_cluster_addr fat_add_data add_chain
    fat_find_free_cluster find_free_from fat_read_data read_chain fat_find_entry find_entry_from
fresh_entry = refl

-- The disk with that file
abbrev pub with_file : Image
with_file = disk_of (fat_add_file string_ops mem_disk 0 0 path three fresh)

-- The file is listed when its attributes are 0; `fat_add_file` leaves them as the new disk has them.
abbrev pub listed : Image
listed = mem_disk_write (22528 + 11) (0 ∷ []) with_file

pub listed-with_bpb : with_bpb mem_disk listed ≡ fresh_block
unfolding new_fat16 new_boot_sector new_bios_block fat_format format_table format_clusters
    fat_update_cluster update_copies fat_set_cluster_value fat_get_cluster_value mem_disk_write
    mem_disk_read with_bpb fat_get_cluster_count fat_get_total_sector_count
    fat_get_meta_sector_count fat_get_root_table_addr fat_get_cluster_addr fat_add_data add_chain
    fat_find_free_cluster find_free_from fat_find_entry find_entry_from fat_find_free_entry
    fat_add_file add_entry fat_update_dir_entry fat_split_path set_padded_string
listed-with_bpb = refl

pub listed-HasEntries : HasEntries mem_disk 0 listed
unfolding fat_get_cluster_addr
listed-HasEntries = record {
  counted = omega (arith, ap (λ b. b.root_entry_count) listed-with_bpb);
  present = λ i l. subst present_in (sym listed-with_bpb) below i l;
}
  where
    present_in : BiosBlock → Type 0
    present_in b =
        (i : ℕ)
        → i < b.root_entry_count
        → (wrap (fat_get_cluster_addr b 0 + i * entry_size) == 0) ≡ false

    below : present_in fresh_block
    below i l = ground arith

-- It is the first file of the root directory, and the entry behind it is none.
listed_file : visible_from mem_disk 0 listed 2 0 ≡ 0 ∷ []
unfolding new_fat16 new_boot_sector new_bios_block fat_format format_table format_clusters
    fat_update_cluster update_copies fat_set_cluster_value fat_get_cluster_value mem_disk_write
    mem_disk_read with_bpb fat_get_cluster_count fat_get_total_sector_count
    fat_get_meta_sector_count fat_get_root_table_addr fat_get_cluster_addr fat_add_data add_chain
    fat_find_free_cluster find_free_from fat_find_entry find_entry_from fat_find_free_entry
    fat_add_file add_entry fat_update_dir_entry fat_split_path set_padded_string
listed_file = refl
