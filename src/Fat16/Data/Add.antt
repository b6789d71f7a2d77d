-- ===== src/Fat16/Data/Add.antt =====
-- Lemmas on one round of `fat_add_data` of kernel/filesystem/fat16.c: the write of a piece of the data
-- to a free cluster, and the cluster's place at the end of the chain.
pub mod Round
pub mod Loop
pub mod ReadBack
pub mod Full
pub mod Undo
use calm_os.Base.{
  ℕ, zero, suc, ◌+◌, ◌-◌, ◌*◌, ◌%◌, ◌^◌, ◌≤◌, ◌<◌, ◌≡◌, ◌≢◌, ◌⊎◌, ◌==◌, ◌||◌, ◌&&◌, Bool, true,
  false, not, List, [], ◌∷◌, ◌++◌, Option, none, some, refl, arith, ap, ◌∙◌, sym, subst, length,
  take, drop, if◌then◌else◌, inl, inr, leb, ltb, Bool-cases, ◌>>=◌, length-append, take_all,
}
use calm_os.Disk.{Image, Disk, IsDisk, disk_read, disk_write, mem_disk_read, mem_disk_write}
use calm_os.Disk.Laws.{mem_disk_write-outside}
use calm_os.Fat16.Layout.{
  BiosBlock, with_bpb, bytes_per_cluster, fat_get_cluster_addr, fat_get_cluster_count,
  fat_get_root_table_addr,
}
use calm_os.Fat16.Clusters.{fat_get_cluster_value, fat_find_free_cluster}
use calm_os.Fat16.Clusters.Laws.{HasTable, in_table, with_bpb-write, value-same}
use calm_os.Fat16.Data.{link}
use calm_os.Fat16.Data.Chain.{mem, Chain}
use calm_os.Fat16.Data.Area.{
  HasData, Stored, Stored-kept, Stored-last, area_behind, fat_get_cluster_addr_lem, areas_apart,
  mem_disk_read-kept, mem_disk_read-write,
}
use calm_os.Fat16.Data.Free.{is_zero}
use calm_os.Fat16.Data.Link.{last, Linked, Chain-link}

-- The bytes of a cluster's area
abbrev pub area : BiosBlock → ℕ → ℕ → Image → List ℕ
area b x n m = mem_disk_read (fat_get_cluster_addr b x) n m

module _ (d : Disk) (laws : IsDisk d) (b : BiosBlock) (h : HasTable b) (w : HasData b) where
  -- What the write of a piece to a cluster's area does
  pub record Written (c : ℕ) (piece : List ℕ) (m t : Image) : Type 0 where
    pub bpb : with_bpb d t ≡ b
    pub value : (j : ℕ) → fat_get_cluster_value d j t ≡ fat_get_cluster_value d j m
    pub own : area b c (length piece) t ≡ piece
    pub others :
        (x n : ℕ)
        → 2 ≤ x
        → x < fat_get_cluster_count b
        → c ≢ x
        → n ≤ bytes_per_cluster b
        → area b x n t ≡ area b x n m
    pub front : (i : ℕ) → i < fat_get_cluster_addr b 2 → t i ≡ m i

  module _ (c : ℕ) (piece : List ℕ) (m : Image) (e : with_bpb d m ≡ b) (two : 2 ≤ c)
      (l : c < fat_get_cluster_count b) (s : length piece ≤ bytes_per_cluster b) where
    abbrev pub put : Image
    put = disk_write d (fat_get_cluster_addr b c) piece m

    put_lem : put ≡ mem_disk_write (fat_get_cluster_addr b c) piece m
    put_lem = laws.write (fat_get_cluster_addr b c) piece m

    put_outside :
        (i : ℕ)
        → (leb (fat_get_cluster_addr b c) i && ltb i (fat_get_cluster_addr b c + length piece))
          ≡ false
        → put i ≡ m i
    put_outside i o =
        ap (λ t. t i) put_lem ∙ mem_disk_write-outside piece (fat_get_cluster_addr b c) m i o

    put_bpb : with_bpb d put ≡ b
    put_bpb =
        with_bpb-write d laws (fat_get_cluster_addr b c) piece m
          (omega (arith, area_behind b c w two l, h.behind))
        ∙ e

    put_value : (j : ℕ) → fat_get_cluster_value d j put ≡ fat_get_cluster_value d j m
    put_value j =
        value-same d laws b put m h put_bpb e
          (λ i t. put_outside i (ground (arith, area_behind b c w two l))) j

    pub put-Written : Written c piece m put
    put-Written = record {
      bpb = put_bpb;
      value = put_value;
      own =
          ap (area b c (length piece)) put_lem
          ∙ mem_disk_read-write piece (fat_get_cluster_addr b c) m;
      front = λ i o. put_outside i (ground (arith, fat_get_cluster_addr_lem b c w two l));
      others = λ x n two' l' ne k.
          mem_disk_read-kept n (fat_get_cluster_addr b x) m put
            (λ i lo hi. put_outside i (ground (arith, areas_apart b c x w two l two' l' ne)));
    }

  -- A change of the table only leaves the areas.
  pub area-kept :
      (x n : ℕ) (m t : Image)
      → ((i : ℕ) → in_table b i ≡ false → t i ≡ m i)
      → 2 ≤ x
      → x < fat_get_cluster_count b
      → area b x n t ≡ area b x n m
  area-kept x n m t o two l =
      mem_disk_read-kept n (fat_get_cluster_addr b x) m t
        (λ i lo hi. o i (ground (arith, area_behind b x w two l)))
