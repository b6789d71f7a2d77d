-- ===== src/Fat16/Clusters.antt =====
-- The table of clusters: its values, the search for a free cluster, and the format of a disk.
pub mod Laws
pub mod Free
use calm_os.Base.{
  ℕ, zero, suc, ◌+◌, ◌-◌, ◌*◌, ◌/◌, ◌%◌, ◌^◌, ◌==◌, ◌&&◌, ◌||◌, Bool, true, false, not, List, [],
  ◌∷◌, Option, none, some, if◌then◌else◌, ltb, ◌>>=◌, take, get_or,
}
use Prim.Native.Nat.{bit_or}
use calm_os.Disk.{Image, Disk, disk_read, disk_write}
use calm_os.Fat16.Layout.{
  BiosBlock, bios_block, with_bpb, wrap, fat_get_cluster_count, fat_get_root_table_addr,
}

-- The two bytes of a `uint16_t`, and back
abbrev pub uint16_bytes : ℕ → List ℕ
uint16_bytes v = (v % 256) ∷ (v / 256 % 256) ∷ []

abbrev pub uint16_of : List ℕ → ℕ
uint16_of bs = get_or bs 0 0 + 256 * get_or bs 1 0

abbrev pub value_addr : BiosBlock → ℕ → ℕ
value_addr b cluster = wrap (fat_get_root_table_addr b + cluster * 2)

unfoldable pub fat_get_cluster_value : Disk → ℕ → Image → Option ℕ
fat_get_cluster_value d cluster m =
    let b = with_bpb d m in
    if ltb cluster (fat_get_cluster_count b)
    then some (uint16_of (disk_read d (value_addr b cluster) 2 m))
    else none

unfoldable pub fat_set_cluster_value : Disk → ℕ → ℕ → Image → Option Image
fat_set_cluster_value d cluster value m =
    let b = with_bpb d m in
    if ltb cluster (fat_get_cluster_count b)
    then some (disk_write d (value_addr b cluster) (uint16_bytes value) m)
    else none

-- The search, over the `n` clusters from `i` on
unfoldable pub find_free_from : Disk → Image → ℕ → ℕ → ℕ
find_free_from d m zero i = 0
find_free_from d m (suc n) i =
    let rest = find_free_from d m n (i + 1) in
    if uint16_of (disk_read d (value_addr (with_bpb d m) i) 2 m) == 0 then i % 2 ^ 16 else rest

unfoldable pub fat_find_free_cluster : Disk → Image → ℕ
unfolding find_free_from
fat_find_free_cluster d m = find_free_from d m (fat_get_cluster_count (with_bpb d m) - 2) 2

-- The loop of `fat_update_cluster`, with the rounds that are left
unfoldable pub update_copies : Disk → ℕ → ℕ → ℕ → Image → Option Image
update_copies d zero cluster value m = some m
update_copies d (suc n) cluster value m =
    fat_set_cluster_value d cluster value m >>= update_copies d n cluster value

unfoldable pub fat_update_cluster : Disk → ℕ → ℕ → Image → Option Image
unfolding update_copies
fat_update_cluster d cluster value m = update_copies d (with_bpb d m).fat_count cluster value m

-- The clusters of a new disk are free, from `i` on.
unfoldable pub format_clusters : Disk → ℕ → ℕ → Image → Option Image
format_clusters d zero i m = some m
format_clusters d (suc n) i m = fat_update_cluster d i 0 m >>= format_clusters d n (i + 1)

-- The copy of the boot sector, and the table behind it
unfoldable pub format_table : Disk → BiosBlock → Image → Option Image
unfolding format_clusters
format_table d bpb m =
    let count = fat_get_cluster_count (with_bpb d m) in
    if ltb count 2 then none else do
      table ← fat_update_cluster d 0 (bit_or 0xff00 bpb.media_type) m
      chain ← fat_update_cluster d 1 0xffff table
      format_clusters d (count - 2) 2 chain

-- The boot sector is a list of bytes. The result is whether its signature is right, and the disk.
unfoldable pub fat_format : Disk → List ℕ → Image → Option (Bool × Image)
unfolding format_table
fat_format d boot_sector m =
    let bpb = bios_block (λ i. get_or boot_sector i 0) in
    if not (get_or boot_sector 0x1fe 0 == 0x55) || not (get_or boot_sector 0x1ff 0 == 0xaa)
    then some (false, m)
    else format_table d bpb (disk_write d 0 (take bpb.bytes_per_sector boot_sector) m)
      >>= (λ t. some (true, t))
