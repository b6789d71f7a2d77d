-- ===== src/Fat16/Data/Free.antt =====
-- The number of free clusters, and the search for one, of kernel/filesystem/fat16.c.
use calm_os.Base.{
  ℕ, zero, suc, ◌+◌, ◌-◌, ◌^◌, ◌≤◌, ◌<◌, ◌≡◌, ◌≢◌, ◌==◌, ◌&&◌, Bool, true, false, Option, none,
  some, refl, arith, ap, ◌∙◌, bit, inl, inr, leb, ltb, Bool-cases,
}
use calm_os.Disk.{Image, Disk, IsDisk}
use calm_os.Fat16.Layout.{with_bpb, fat_get_cluster_count}
use calm_os.Fat16.Clusters.{fat_get_cluster_value, fat_find_free_cluster}
use calm_os.Fat16.Clusters.Laws.{HasTable}
use calm_os.Fat16.Clusters.Free.{FirstFree, full, first, fat_find_free_cluster-FirstFree}

abbrev pub is_zero : Option ℕ → Bool
is_zero none = false
is_zero (some v) = v == 0

-- The free ones of `n` clusters from `i` on
abbrev pub free_count : Disk → Image → ℕ → ℕ → ℕ
free_count d m zero i = 0
free_count d m (suc n) i = bit (is_zero (fat_get_cluster_value d i m)) + free_count d m n (i + 1)

is_zero-some : (o : Option ℕ) → is_zero o ≡ true → o ≡ some 0
is_zero-some none h = cc
is_zero-some (some v) h = ap some (ground arith)

module _ (d : Disk) where
  free_count-none :
      (m : Image) (n i : ℕ)
      → ((j : ℕ) → i ≤ j → j < i + n → fat_get_cluster_value d j m ≢ some 0)
      → free_count d m n i ≡ 0
  free_count-none m zero i h = refl
  free_count-none m (suc n) i h =
      let rest = free_count-none m n (i + 1) (λ j a b. h j (omega arith) (omega arith)) in
      elim (Bool-cases (is_zero (fat_get_cluster_value d i m))) [
        | inl z ↦
            absurd (h i (omega arith) (omega arith) (is_zero-some (fat_get_cluster_value d i m) z))
        | inr u ↦ rw u (omega (arith, rest))
      ]

  -- When one cluster is taken, and no other is.
  pub free_count-taken :
      (m t : Image) (c n i : ℕ)
      → ((j : ℕ)
          → j ≢ c
          → is_zero (fat_get_cluster_value d j t) ≡ is_zero (fat_get_cluster_value d j m))
      → free_count d m n i ≤ free_count d t n i + bit (leb i c && ltb c (i + n))
  free_count-taken m t c zero i h = omega arith
  free_count-taken m t c (suc n) i h =
      let rest = free_count-taken m t c n (i + 1) h in
      elim (Bool-cases (i == c)) [
        | inl e ↦ ground (arith, rest, e)
        | inr ne ↦ ground (arith, rest, ne, h i)
      ]

  -- With a free cluster the search finds one.
  pub found :
      (laws : IsDisk d) (m : Image)
      → HasTable (with_bpb d m)
      → 2 ≤ fat_get_cluster_count (with_bpb d m)
      → fat_get_cluster_count (with_bpb d m) ≤ 2 ^ 16
      → 0 < free_count d m (fat_get_cluster_count (with_bpb d m) - 2) 2
      → (2 ≤ fat_find_free_cluster d m)
        × (fat_find_free_cluster d m < fat_get_cluster_count (with_bpb d m))
        × (fat_get_cluster_value d (fat_find_free_cluster d m) m ≡ some 0)
  found laws m h two l k = on (fat_find_free_cluster-FirstFree d laws m h two l)
    where
      on :
          FirstFree d laws m 2
            (fat_get_cluster_count (with_bpb d m) - 2)
            (fat_find_free_cluster d m)
          → (2 ≤ fat_find_free_cluster d m)
            × (fat_find_free_cluster d m < fat_get_cluster_count (with_bpb d m))
            × (fat_get_cluster_value d (fat_find_free_cluster d m) m ≡ some 0)
      on (full z f) =
          absurd (omega (arith, free_count-none m (fat_get_cluster_count (with_bpb d m) - 2) 2 f))
      on (first lo hi v f) = (lo, omega arith, v)

  -- When a free cluster is taken, and no other is made free.
  pub free_count-used :
      (m t : Image) (c n i : ℕ)
      → is_zero (fat_get_cluster_value d c m) ≡ true
      → is_zero (fat_get_cluster_value d c t) ≡ false
      → ((j : ℕ)
          → j ≢ c
          → is_zero (fat_get_cluster_value d j t) ≡ is_zero (fat_get_cluster_value d j m))
      → free_count d t n i + bit (leb i c && ltb c (i + n)) ≤ free_count d m n i
  free_count-used m t c zero i f u h = ground arith
  free_count-used m t c (suc n) i f u h =
      let rest = free_count-used m t c n (i + 1) f u h in
      elim (Bool-cases (i == c)) [
        | inl e ↦
            let same : i ≡ c = ground arith in
            let f' = ap (λ k. is_zero (fat_get_cluster_value d k m)) same ∙ f in
            let u' = ap (λ k. is_zero (fat_get_cluster_value d k t)) same ∙ u in
            ground (arith, rest, e, f', u')
        | inr ne ↦ ground (arith, rest, ne, h i)
      ]

  -- What the search finds is a free cluster.
  pub found_lem :
      (laws : IsDisk d) (m : Image)
      → HasTable (with_bpb d m)
      → 2 ≤ fat_get_cluster_count (with_bpb d m)
      → fat_get_cluster_count (with_bpb d m) ≤ 2 ^ 16
      → fat_find_free_cluster d m ≢ 0
      → (2 ≤ fat_find_free_cluster d m)
        × (fat_find_free_cluster d m < fat_get_cluster_count (with_bpb d m))
        × (fat_get_cluster_value d (fat_find_free_cluster d m) m ≡ some 0)
  found_lem laws m h two l nz = on (fat_find_free_cluster-FirstFree d laws m h two l)
    where
      on :
          FirstFree d laws m 2
            (fat_get_cluster_count (with_bpb d m) - 2)
            (fat_find_free_cluster d m)
          → (2 ≤ fat_find_free_cluster d m)
            × (fat_find_free_cluster d m < fat_get_cluster_count (with_bpb d m))
            × (fat_get_cluster_value d (fat_find_free_cluster d m) m ≡ some 0)
      on (full z f) = absurd (nz z)
      on (first lo hi v f) = (lo, omega arith, v)
