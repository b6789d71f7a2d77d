-- ===== src/Fat16/Layout.antt =====
-- Where the parts of a FAT16 disk stand: the boot block, the table of clusters, the root directory
-- and the data.
use calm_os.Base.{ℕ, ◌+◌, ◌-◌, ◌*◌, ◌/◌, ◌%◌, ◌^◌, ◌==◌, if◌then◌else◌, ltb}
use calm_os.Disk.{Image, Disk, disk_view}

abbrev pub wrap : ℕ → ℕ
wrap n = n % 2 ^ 32

-- The fields of `bios_block_t` that are used
pub record BiosBlock : Type 0 where
  pub bytes_per_sector : ℕ
  pub sectors_per_cluster : ℕ
  pub reserved_sector_count : ℕ
  pub fat_count : ℕ
  pub root_entry_count : ℕ
  pub sector_count : ℕ
  pub media_type : ℕ
  pub sectors_per_fat : ℕ
  pub large_sector_count : ℕ

-- Numbers of two and four bytes, the lowest first
abbrev pub uint16_at : (ℕ → ℕ) → ℕ → ℕ
uint16_at m a = m a + 256 * m (a + 1)

abbrev pub uint32_at : (ℕ → ℕ) → ℕ → ℕ
uint32_at m a = uint16_at m a + 65536 * uint16_at m (a + 2)

abbrev pub bios_block : (ℕ → ℕ) → BiosBlock
bios_block m = record {
  bytes_per_sector = uint16_at m 11;
  sectors_per_cluster = m 13;
  reserved_sector_count = uint16_at m 14;
  fat_count = m 16;
  root_entry_count = uint16_at m 17;
  sector_count = uint16_at m 19;
  media_type = m 21;
  sectors_per_fat = uint16_at m 22;
  large_sector_count = uint32_at m 32;
}

-- WITH_BPB. Of its assertion, that the block can be viewed, nothing is modelled.
unfoldable pub with_bpb : Disk → Image → BiosBlock
with_bpb d m = bios_block (disk_view d 0 m)

-- sizeof(struct dir_entry_t)
abbrev pub entry_size : ℕ
entry_size = 32

unfoldable pub fat_get_total_sector_count : BiosBlock → ℕ
fat_get_total_sector_count b = if b.sector_count == 0 then b.large_sector_count else b.sector_count

unfoldable pub fat_get_meta_sector_count : BiosBlock → ℕ
fat_get_meta_sector_count b = wrap (
    b.reserved_sector_count
    + b.fat_count * b.sectors_per_fat
    + b.root_entry_count * entry_size / b.bytes_per_sector)

unfoldable pub fat_get_cluster_count : BiosBlock → ℕ
unfolding fat_get_total_sector_count fat_get_meta_sector_count
fat_get_cluster_count b =
    wrap (fat_get_total_sector_count b + 2 ^ 32 - fat_get_meta_sector_count b)
    / b.sectors_per_cluster

unfoldable pub fat_get_root_table_addr : BiosBlock → ℕ
fat_get_root_table_addr b =
    wrap ((b.reserved_sector_count + 0 * b.sectors_per_fat) * b.bytes_per_sector)

abbrev pub bytes_per_cluster : BiosBlock → ℕ
bytes_per_cluster b = b.sectors_per_cluster * b.bytes_per_sector

unfoldable pub fat_get_cluster_addr : BiosBlock → ℕ → ℕ
fat_get_cluster_addr b cluster =
    let offset =
      wrap ((b.reserved_sector_count + b.fat_count * b.sectors_per_fat) * b.bytes_per_sector) in
    if ltb cluster 2
    then offset
    else wrap (offset + b.root_entry_count * entry_size + (cluster - 2) * bytes_per_cluster b)
