-- ===== src/Fat16/Data/Add/ReadBack.antt =====
-- `fat_add_data` and `fat_read_data` of kernel/filesystem/fat16.c one after the other.
use calm_os.Base.{
  ℕ, ◌+◌, ◌-◌, ◌*◌, ◌^◌, ◌≤◌, ◌<◌, ◌≡◌, ◌≢◌, true, false, List, [], ◌∷◌, some, arith, ap, ◌∙◌, sym,
  subst, length, inl, inr, Bool-cases,
}
use calm_os.Disk.{Image, Disk, IsDisk}
use calm_os.Fat16.Layout.{BiosBlock, with_bpb, bytes_per_cluster, fat_get_cluster_count}
use calm_os.Fat16.Clusters.{fat_get_cluster_value}
use calm_os.Fat16.Clusters.Laws.{HasTable}
use calm_os.Fat16.Data.{fat_add_data, fat_read_data}
use calm_os.Fat16.Data.Chain.{mem, Chain, Chain-kept}
use calm_os.Fat16.Data.Area.{HasData, Stored, Stored-kept}
use calm_os.Fat16.Data.Read.{fat_read_data-Stored}
use calm_os.Fat16.Data.Free.{free_count}
use calm_os.Fat16.Data.Add.Round.{Ends, Grown}
use calm_os.Fat16.Data.Add.Loop.{fat_add_data-Grown}

module _ (d : Disk) (laws : IsDisk d) (end : ℕ) (b : BiosBlock) (h : HasTable b) (w : HasData b)
    (count_end : fat_get_cluster_count b ≤ end) (end_small : end < 2 ^ 16) where
  abbrev size : ℕ
  size = bytes_per_cluster b

  pub Grown-Chain :
      (m t : Image) (zs content : List ℕ) (r q : ℕ)
      → 0 < length content
      → Grown d end b m zs content r q t
      → Ends d end t zs r q
      → Stored b t zs content
      → (r ≢ 0) × (mem r zs ≡ true) × Chain d end t r zs
  Grown-Chain m t [] content r q p g e s = absurd (omega (arith, ap length s))
  Grown-Chain m t (z ∷ zs) content r q p g (c, e) s =
      let first = g.inside z (ground arith) in (ground (arith, first, c.0), ground (arith, c.0), c)

  module _ (m : Image) (two : 2 ≤ fat_get_cluster_count b) (at : with_bpb d m ≡ b)
      (mark : fat_get_cluster_value d 1 m ≡ some end) where
    pub Grown-mark :
        (zs content : List ℕ) (r q : ℕ) (t : Image)
        → Grown d end b m zs content r q t
        → fat_get_cluster_value d 1 t ≡ some end
    Grown-mark zs content r q t g =
        let one : mem 1 zs ≡ false = elim (Bool-cases (mem 1 zs)) [
          | inl f ↦ let i = g.inside 1 f in absurd (omega arith)
          | inr o ↦ o
        ] in
        g.values 1 one ∙ mark

    -- What was added is read back: under the conditions of `fat_add_data-Grown`, for data whose clusters
    -- end below 2^32 bytes, `fat_read_data` of its length, from the cluster and the disk that
    -- `fat_add_data` returns, returns the data.
    pub fat_read_data-fat_add_data :
        (fat_index : ℕ) (content : List ℕ)
        → 0 < length content
        → length content ≤ free_count d m (fat_get_cluster_count b - 2) 2 * size
        → length content + size < 2 ^ 32
        → (r : ℕ) × (t : Image) × (fat_add_data d fat_index content m ≡ some (r, t))
          × (fat_read_data d (length content) r (length content) 0 t ≡ some content)
    fat_read_data-fat_add_data fat_index content p k small =
        let (r, q, zs, t, e, g) =
          fat_add_data-Grown d laws end b h w count_end end_small m two at mark fat_index content p
            k in
        let (nz, own, c) = Grown-Chain m t zs content r q p g g.ends g.stored in
        (
          r,
          t,
          e,
          fat_read_data-Stored d laws end t zs content (length content) r
              (subst (λ k. 0 < bytes_per_cluster k) (sym g.bpb) w.size) nz
              (Grown-mark zs content r q t g) c
              (subst (λ k. Stored k t zs content) (sym g.bpb) g.stored) g.short
              (subst (λ k. length zs * bytes_per_cluster k < 2 ^ 32) (sym g.bpb)
                (omega (arith, g.room))),
        )

    -- Adding data leaves the other files: under the conditions of `fat_add_data-Grown`, for data stored on
    -- a chain of clusters of the disk in use, each 2 at least, `fat_read_data` of it returns the
    -- same data on the disk that `fat_add_data` returns.
    pub fat_read_data-kept :
        (fat_index : ℕ) (content : List ℕ)
        → 0 < length content
        → length content ≤ free_count d m (fat_get_cluster_count b - 2) 2 * size
        → (xs bs : List ℕ) (fuel c : ℕ) → c ≢ 0
        → Chain d end m c xs
        → ((j : ℕ)
            → mem j xs ≡ true
            → (2 ≤ j) × (j < fat_get_cluster_count b) × (fat_get_cluster_value d j m ≢ some 0))
        → Stored b m xs bs
        → length xs ≤ fuel
        → length xs * size < 2 ^ 32
        → (r : ℕ) × (t : Image) × (fat_add_data d fat_index content m ≡ some (r, t))
          × (fat_read_data d fuel c (length bs) 0 t ≡ some bs)
    fat_read_data-kept fat_index content p k xs bs fuel c nz chain used stored f small =
        let (r, q, zs, t, e, g) =
          fat_add_data-Grown d laws end b h w count_end end_small m two at mark fat_index content p
            k in
        let apart = λ (j : ℕ) (o : mem j xs ≡ true).
          elim (Bool-cases (mem j zs)) as (λ _. mem j zs ≡ false) [
            | inl y ↦ absurd ((used j o).2 (g.free j y))
            | inr n ↦ n
          ] in
        (
          r,
          t,
          e,
          fat_read_data-Stored d laws end t xs bs fuel c
              (subst (λ k. 0 < bytes_per_cluster k) (sym g.bpb) w.size) nz
              (Grown-mark zs content r q t g)
              (Chain-kept d end m t c xs (λ j o. g.values j (apart j o)) chain)
              (subst (λ k. Stored k t xs bs) (sym g.bpb)
                (Stored-kept b m t xs bs
                  (λ x n o l. g.others x n (used x o).0 (used x o).1 (apart x o) l) stored))
              f (subst (λ k. length xs * bytes_per_cluster k < 2 ^ 32) (sym g.bpb) small),
        )
