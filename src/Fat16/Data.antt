-- ===== src/Fat16/Data.antt =====
-- The data of a file: its chain of clusters is freed, built, read and written. A loop over a chain
-- takes the number of rounds it may make; a chain that is longer is a missing result.
pub mod Chain
pub mod Remove
pub mod Area
pub mod Read
pub mod Free
pub mod Link
pub mod Add
pub mod Write
use calm_os.Base.{
  ℕ, zero, suc, ◌+◌, ◌-◌, ◌*◌, ◌==◌, ◌&&◌, Bool, true, false, not, List, [], ◌∷◌, ◌++◌, Option,
  none, some, if◌then◌else◌, ltb, ◌>>=◌, take, drop, length,
}
use calm_os.Disk.{Image, Disk, disk_read, disk_write}
use calm_os.Fat16.Layout.{
  BiosBlock, with_bpb, wrap, fat_get_cluster_count, fat_get_cluster_addr, bytes_per_cluster,
}
use calm_os.Fat16.Clusters.{fat_get_cluster_value, fat_find_free_cluster, fat_update_cluster}

-- The loop of `fat_remove_data`
unfoldable pub remove_chain : Disk → ℕ → ℕ → ℕ → ℕ → Image → Option Image
remove_chain d zero fat_index end_of_chain cluster m =
    if cluster == end_of_chain then some m else none
remove_chain d (suc fuel) fat_index end_of_chain cluster m = elim (cluster == end_of_chain) [
  | true ↦ some m
  | false ↦ do
    following ← fat_get_cluster_value d cluster m
    freed ← fat_update_cluster d cluster fat_index m
    remove_chain d fuel fat_index end_of_chain following freed
]

unfoldable pub fat_remove_data : Disk → ℕ → ℕ → ℕ → Image → Option Image
unfolding remove_chain
fat_remove_data d fuel fat_index cluster m =
    if cluster == 0
    then none
    else fat_get_cluster_value d 1 m >>= λ end_of_chain.
        remove_chain d fuel fat_index end_of_chain cluster m

-- The clusters that a file has already, when the disk is full, are given back.
abbrev pub give_up : Disk → ℕ → ℕ → ℕ → Image → Option (ℕ × Image)
give_up d fuel fat_index root m =
    if root == 0 then some (0, m) else fat_remove_data d fuel fat_index root m >>= λ t. some (0, t)

-- The new cluster ends the chain, and the previous one, if there is one, leads to it.
abbrev pub link : Disk → ℕ → ℕ → ℕ → Image → Option Image
link d end_of_chain prev cluster m = fat_update_cluster d cluster end_of_chain m >>= λ t.
    if prev == 0 then some t else fat_update_cluster d prev cluster t

-- The loop of `fat_add_data`: the first cluster, and the disk. Each round takes a byte at least,
-- so that the chain is never longer than `limit`, the length of the data.
unfoldable pub add_chain : Disk → ℕ → ℕ → ℕ → ℕ → ℕ → ℕ → ℕ → List ℕ → Image → Option (ℕ × Image)
add_chain d size limit fuel fat_index end_of_chain prev root [] m = some (root, m)
add_chain d size limit zero fat_index end_of_chain prev root (b ∷ bs) m = none
add_chain d size limit (suc fuel) fat_index end_of_chain prev root (b ∷ bs) m =
    let bpb = with_bpb d m in
    let cluster = fat_find_free_cluster d m in
    elim (cluster == 0) [
      | true ↦ give_up d limit fat_index root m
      | false ↦ do
        linked ←
            link d end_of_chain prev cluster
              (disk_write d (fat_get_cluster_addr bpb cluster) (take size (b ∷ bs)) m)
        add_chain d size limit fuel fat_index end_of_chain cluster
            (if prev == 0 then cluster else root) (drop size (b ∷ bs)) linked
    ]

unfoldable pub fat_add_data : Disk → ℕ → List ℕ → Image → Option (ℕ × Image)
unfolding add_chain
fat_add_data d fat_index content m =
    if length content == 0
    then some (0, m)
    else fat_get_cluster_value d 1 m >>= λ end_of_chain.
        add_chain d (bytes_per_cluster (with_bpb d m)) (length content) (length content) fat_index
          end_of_chain 0 0 content m

-- The part of a cluster that is copied: where it starts, and how long it is
abbrev pub copy_start : ℕ → ℕ → ℕ
copy_start read_size skip = if ltb skip read_size then 0 else skip - read_size

abbrev pub copy_count : ℕ → ℕ → ℕ → ℕ
copy_count size len copied = if ltb size (len - copied) then size else len - copied

-- The loop of `fat_read_data`, with the bytes copied so far
unfoldable pub read_chain : Disk → ℕ → ℕ → ℕ → ℕ → ℕ → ℕ → ℕ → List ℕ → Image → Option (List ℕ)
read_chain d size zero end_of_chain len skip read_size cluster out m =
    if not (cluster == end_of_chain) && ltb (length out) len then none else some out
read_chain d size (suc fuel) end_of_chain len skip read_size cluster out m =
    let offset = fat_get_cluster_addr (with_bpb d m) cluster in
    let bytes =
      disk_read d (wrap (offset + copy_start read_size skip)) (copy_count size len (length out))
        m in
    elim (not (cluster == end_of_chain) && ltb (length out) len) [
      | true ↦ fat_get_cluster_value d cluster m >>= λ following.
          read_chain d size fuel end_of_chain len skip (wrap (read_size + size)) following
            (if ltb skip (wrap (read_size + size)) then out ++ bytes else out) m
      | false ↦ some out
    ]

unfoldable pub fat_read_data : Disk → ℕ → ℕ → ℕ → ℕ → Image → Option (List ℕ)
unfolding read_chain
fat_read_data d fuel cluster len skip m =
    if cluster == 0
    then none
    else if len == 0
    then some []
    else fat_get_cluster_value d 1 m >>= λ end_of_chain.
        read_chain d (bytes_per_cluster (with_bpb d m)) fuel end_of_chain len skip 0 cluster [] m

-- The loop of `fat_write_data`, with the number of bytes written so far and those left
unfoldable pub write_chain :
    Disk → ℕ → ℕ → ℕ → ℕ → ℕ → ℕ → ℕ → ℕ → List ℕ → Image → Option (ℕ × Image)
write_chain d size zero end_of_chain len skip read_size cluster copied bs m =
    if not (cluster == end_of_chain) && ltb copied len then none else some (copied, m)
write_chain d size (suc fuel) end_of_chain len skip read_size cluster copied bs m =
    let offset = fat_get_cluster_addr (with_bpb d m) cluster in
    let count = copy_count size len copied in
    let here = ltb skip (wrap (read_size + size)) in
    let t =
      if here
      then disk_write d (wrap (offset + copy_start read_size skip)) (take count bs) m
      else m in
    elim (not (cluster == end_of_chain) && ltb copied len) [
      | true ↦ fat_get_cluster_value d cluster t >>= λ following.
          write_chain d size fuel end_of_chain len skip (wrap (read_size + size)) following
            (if here then copied + count else copied) (if here then drop count bs else bs) t
      | false ↦ some (copied, m)
    ]

unfoldable pub fat_write_data : Disk → ℕ → ℕ → List ℕ → ℕ → ℕ → Image → Option (ℕ × Image)
unfolding write_chain
fat_write_data d fuel cluster bs len skip m =
    if cluster == 0
    then none
    else if len == 0
    then some (0, m)
    else fat_get_cluster_value d 1 m >>= λ end_of_chain.
        write_chain d (bytes_per_cluster (with_bpb d m)) fuel end_of_chain len skip 0 cluster 0 bs m
