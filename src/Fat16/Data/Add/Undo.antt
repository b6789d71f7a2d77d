-- ===== src/Fat16/Data/Add/Undo.antt =====
-- `fat_add_data` and `fat_remove_data` of kernel/filesystem/fat16.c one after the other.
use calm_os.Base.{
  ℕ, ◌-◌, ◌*◌, ◌^◌, ◌≤◌, ◌<◌, ◌≡◌, false, List, some, arith, ◌∙◌, sym, subst, length,
}
use calm_os.Disk.{Image, Disk, IsDisk}
use calm_os.Fat16.Layout.{
  BiosBlock, with_bpb, fat_get_cluster_addr, bytes_per_cluster, fat_get_cluster_count,
}
use calm_os.Fat16.Clusters.{fat_get_cluster_value}
use calm_os.Fat16.Clusters.Laws.{HasTable, in_table}
use calm_os.Fat16.Data.{fat_add_data, fat_remove_data}
use calm_os.Fat16.Data.Area.{HasData}
use calm_os.Fat16.Data.Free.{free_count}
use calm_os.Fat16.Data.Remove.{fat_remove_data-Removed}
use calm_os.Fat16.Data.Add.Loop.{fat_add_data-Grown}
use calm_os.Fat16.Data.Add.ReadBack.{Grown-Chain, Grown-mark}

module _ (d : Disk) (laws : IsDisk d) (end : ℕ) (b : BiosBlock) (h : HasTable b) (w : HasData b)
    (count_end : fat_get_cluster_count b ≤ end) (end_small : end < 2 ^ 16) (m : Image)
    (two : 2 ≤ fat_get_cluster_count b) (at : with_bpb d m ≡ b)
    (mark : fat_get_cluster_value d 1 m ≡ some end) where
  -- Removing undoes adding: under the conditions of `fat_add_data-Grown`, `fat_remove_data`, with 0
  -- as the value of a free cluster, from the cluster and on the disk that `fat_add_data` returns,
  -- ends and fails no assertion; and the boot block, the values of all clusters and the bytes
  -- in front of the data area are then as they were before the data were added.
  pub fat_remove_data-fat_add_data :
      (fat_index : ℕ) (content : List ℕ)
      → 0 < length content
      → length content ≤ free_count d m (fat_get_cluster_count b - 2) 2 * bytes_per_cluster b
      → (r : ℕ) × (u t : Image) × (fat_add_data d fat_index content m ≡ some (r, u))
        × (fat_remove_data d (length content) 0 r u ≡ some t)
        × (with_bpb d t ≡ b)
        × ((j : ℕ) → fat_get_cluster_value d j t ≡ fat_get_cluster_value d j m)
        × ((i : ℕ) → in_table b i ≡ false → i < fat_get_cluster_addr b 2 → t i ≡ m i)
  fat_remove_data-fat_add_data fat_index content p k =
      let (r, q, zs, u, e, g) =
        fat_add_data-Grown d laws end b h w count_end end_small m two at mark fat_index content p
          k in
      let (nz, own, c) =
        Grown-Chain d laws end b h w count_end end_small m u zs content r q p g g.ends g.stored in
      let (t, f, o) =
        fat_remove_data-Removed d laws 0 end zs (length content) r u (subst HasTable (sym g.bpb) h)
          nz (Grown-mark d laws end b h w count_end end_small m two at mark zs content r q u g) c
          g.short in
      (
        r,
        u,
        t,
        e,
        f,
        o.bpb ∙ g.bpb,
        (λ j. ground (arith, o.value j, g.values j, g.free j)),
        (λ i n l. o.outside i (subst (λ a. in_table a i ≡ false) (sym g.bpb) n) ∙ g.front i n l),
      )
