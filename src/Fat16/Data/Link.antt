-- ===== src/Fat16/Data/Link.antt =====
-- A cluster put at the end of a chain, of kernel/filesystem/fat16.c.
use calm_os.Base.{
  ℕ, ◌%◌, ◌^◌, ◌≤◌, ◌<◌, ◌≡◌, ◌≢◌, ◌==◌, ◌&&◌, true, false, not, List, [], ◌∷◌, ◌++◌, some, refl,
  arith, ◌∙◌, sym, subst, if◌then◌else◌, inl, inr, Bool-cases,
}
use calm_os.Disk.{Image, Disk, IsDisk}
use calm_os.Fat16.Layout.{BiosBlock, with_bpb, fat_get_cluster_count}
use calm_os.Fat16.Clusters.{fat_get_cluster_value}
use calm_os.Fat16.Clusters.Laws.{HasTable, in_table, fat_update_cluster-Updated}
use calm_os.Fat16.Data.{link}
use calm_os.Fat16.Data.Chain.{mem, Chain, not_again}

-- The last of some clusters
abbrev pub last : ℕ → List ℕ → ℕ
last z [] = z
last z (y ∷ ys) = last y ys

pub mem-last : (z : ℕ) (zs : List ℕ) → mem (last z zs) (z ∷ zs) ≡ true
mem-last z [] = ground arith
mem-last z (y ∷ ys) = ground (arith, mem-last y ys)

-- A member is not one that is none.
not_mem : (x y : ℕ) (zs : List ℕ) → mem x zs ≡ false → mem y zs ≡ true → (y == x) ≡ false
not_mem x y zs f t = elim (Bool-cases (y == x)) [
  | inl e ↦
      let same : y ≡ x = ground arith in let s = subst (λ k. mem k zs ≡ true) {x = y} same t in cc
  | inr ne ↦ ne
]

module _ (d : Disk) (laws : IsDisk d) (end : ℕ) where
  -- What the new cluster does to the values
  pub record Linked (b : BiosBlock) (prev c : ℕ) (m t : Image) : Type 0 where
    pub bpb : with_bpb d t ≡ b
    pub value :
        (j : ℕ)
        → fat_get_cluster_value d j t ≡ (
            if not (prev == 0) && prev == j
            then some c
            else if c == j
            then some end
            else fat_get_cluster_value d j m)
    pub outside : (i : ℕ) → in_table b i ≡ false → t i ≡ m i

  pub link-Linked :
      (b : BiosBlock) (prev c : ℕ) (m : Image)
      → with_bpb d m ≡ b
      → HasTable b
      → c < fat_get_cluster_count b
      → prev < fat_get_cluster_count b
      → end < 2 ^ 16
      → fat_get_cluster_count b ≤ 2 ^ 16
      → (t : Image) × (link d end prev c m ≡ some t) × Linked b prev c m t
  link-Linked b prev c m e h l lp le lb =
      let (t, f, u) =
        fat_update_cluster-Updated d laws c end m (subst HasTable (sym e) h)
          (subst (λ k. c < fat_get_cluster_count k) (sym e) l) in
      let same = u.bpb ∙ e in
      let (w, g, x) =
        fat_update_cluster-Updated d laws prev c t (subst HasTable (sym same) h)
          (subst (λ k. prev < fat_get_cluster_count k) (sym same) lp) in
      let small : end % 2 ^ 16 ≡ end = omega arith in
      let small_c : c % 2 ^ 16 ≡ c = omega arith in
      elim (Bool-cases (prev == 0)) [
        | inl z ↦ (
          t,
          rw (f, z) refl,
          record {
            bpb = same;
            value = λ j. u.value j ∙ rw (z, small) refl;
            outside = λ i o. u.outside i (subst (λ k. in_table k i ≡ false) (sym e) o);
          },
        )
        | inr nz ↦ (
          w,
          rw (f, nz) g,
          record {
            bpb = x.bpb ∙ same;
            value = λ j. x.value j ∙ rw (nz, small_c, u.value j, small) refl;
            outside = λ i o.
                x.outside i (subst (λ k. in_table k i ≡ false) (sym same) o)
                ∙ u.outside i (subst (λ k. in_table k i ≡ false) (sym e) o);
          },
        )
      ]

  -- The chain with the new cluster behind its last one
  pub Chain-link :
      (b : BiosBlock) (m t : Image) (root c z : ℕ) (zs : List ℕ)
      → last z zs ≢ 0
      → Linked b (last z zs) c m t
      → mem c (z ∷ zs) ≡ false
      → c ≢ end
      → Chain d end m root (z ∷ zs)
      → Chain d end t root ((z ∷ zs) ++ c ∷ [])
  Chain-link b m t root c z [] nz k f ne (e, re, n, v, p) = (
    e,
    re,
    c,
    k.value root ∙ ground (arith, e, nz),
    (refl, ne, end, k.value c ∙ ground (arith, f), refl),
  )
  Chain-link b m t root c z (y ∷ ys) nz k f ne (e, re, n, v, p) =
      let alone = not_again d end m root (y ∷ ys) n re v p in
      let other = not_mem root (last y ys) (y ∷ ys) alone (mem-last y ys) in
      (
        e,
        re,
        n,
        k.value root ∙ ground (arith, other, e, f, v),
        Chain-link b m t n c y ys nz k (ground (arith, f)) ne p,
      )
