-- ===== src/Fat16/Data/Remove.antt =====
-- Lemmas on `fat_remove_data` of kernel/filesystem/fat16.c.
use calm_os.Base.{
  ℕ, zero, suc, ◌%◌, ◌^◌, ◌≤◌, ◌≡◌, ◌≢◌, ◌==◌, true, false, List, [], ◌∷◌, some, refl, arith, ◌∙◌,
  sym, subst, length, if◌then◌else◌,
}
use calm_os.Disk.{Image, Disk, IsDisk}
use calm_os.Fat16.Layout.{with_bpb}
use calm_os.Fat16.Clusters.{fat_get_cluster_value}
use calm_os.Fat16.Clusters.Laws.{HasTable, in_table, fat_update_cluster-Updated, value-below}
use calm_os.Fat16.Data.{remove_chain, fat_remove_data}
use calm_os.Fat16.Data.Chain.{mem, Chain, not_again, Chain-kept}

-- What the removal of a chain does: the boot block is left, the clusters of the chain have the given
-- value, all others and all bytes outside the table are as before.
pub record Removed (d : Disk) (xs : List ℕ) (v : ℕ) (m t : Image) : Type 0 where
  pub bpb : with_bpb d t ≡ with_bpb d m
  pub value :
      (j : ℕ)
      → fat_get_cluster_value d j t
        ≡ (if mem j xs then some (v % 2 ^ 16) else fat_get_cluster_value d j m)
  pub outside : (i : ℕ) → in_table (with_bpb d m) i ≡ false → t i ≡ m i

module _ (d : Disk) (laws : IsDisk d) (v end : ℕ) where
  remove_chain-Removed :
      (xs : List ℕ) (fuel c : ℕ) (m : Image)
      → HasTable (with_bpb d m)
      → Chain d end m c xs
      → length xs ≤ fuel
      → (t : Image) × (remove_chain d fuel v end c m ≡ some t) × Removed d xs v m t
  unfolding remove_chain
  remove_chain-Removed [] zero c m h p l =
      let at : (c == end) ≡ true = ground arith in
      (
        m,
        rw (at, remove_chain) refl,
        record { bpb = refl; value = λ j. refl; outside = λ i o. refl },
      )
  remove_chain-Removed [] (suc fuel) c m h p l =
      let at : (c == end) ≡ true = ground arith in
      (
        m,
        rw (at, remove_chain) refl,
        record { bpb = refl; value = λ j. refl; outside = λ i o. refl },
      )
  remove_chain-Removed (x ∷ xs) zero c m h p l = absurd (omega arith)
  remove_chain-Removed (x ∷ xs) (suc fuel) c m h (e, ne, n, w, p) l =
      let on : (c == end) ≡ false = ground arith in
      let (t, f, u) = fat_update_cluster-Updated d laws c v m h (value-below d c n m w) in
      let alone = not_again d end m c xs n ne w p in
      let kept = Chain-kept d end m t n xs (λ j k. u.value j ∙ ground (arith, alone, k)) p in
      let (r, g, q) =
        remove_chain-Removed xs fuel n t (subst HasTable (sym u.bpb) h) kept (omega arith) in
      (
        r,
        rw (on, remove_chain, w, f) g,
        record {
          bpb = q.bpb ∙ u.bpb;
          value = λ j. ground (arith, q.value j, u.value j, e);
          outside =
              λ i o. q.outside i (subst (λ b. in_table b i ≡ false) (sym u.bpb) o) ∙ u.outside i o;
        },
      )

  -- On a disk with its table of clusters behind the boot block, for a chain that starts at a cluster
  -- other than 0 and ends in the value of cluster 1: given as many rounds as the chain has clusters,
  -- `fat_remove_data` ends and fails no assertion. Afterwards the clusters of the chain have the
  -- given value, as 16 bits, every other cluster has its own, and the boot block and all bytes
  -- outside the table are as before.
  pub fat_remove_data-Removed :
      (xs : List ℕ) (fuel c : ℕ) (m : Image)
      → HasTable (with_bpb d m)
      → c ≢ 0
      → fat_get_cluster_value d 1 m ≡ some end
      → Chain d end m c xs
      → length xs ≤ fuel
      → (t : Image) × (fat_remove_data d fuel v c m ≡ some t) × Removed d xs v m t
  unfolding fat_remove_data
  fat_remove_data-Removed xs fuel c m h nz e p l =
      let used : (c == 0) ≡ false = ground arith in
      let (t, f, r) = remove_chain-Removed xs fuel c m h p l in (t, rw (used, e) f, r)
