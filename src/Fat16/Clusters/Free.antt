-- ===== src/Fat16/Clusters/Free.antt =====
-- The search for a free cluster of kernel/filesystem/fat16.c.
use calm_os.Base.{
  ℕ, zero, suc, ◌+◌, ◌-◌, ◌^◌, ◌≤◌, ◌<◌, ◌≡◌, ◌≢◌, ◌==◌, true, some, refl, arith, ap, ◌∙◌, subst,
  ltb, inl, inr, Bool-cases,
}
use calm_os.Disk.{Image, Disk, IsDisk, disk_read}
use calm_os.Fat16.Layout.{with_bpb, fat_get_cluster_count}
use calm_os.Fat16.Clusters.{
  uint16_of, value_addr, fat_get_cluster_value, find_free_from, fat_find_free_cluster,
}
use calm_os.Fat16.Clusters.Laws.{HasTable}

module _ (d : Disk) (laws : IsDisk d) where
  -- What the search for a free cluster among `n` from `i` on may answer: 0 if each of them is in use,
  -- and the first of them that is free if there is one.
  pub data FirstFree (m : Image) (i n c : ℕ) : Type 0 where
    full :
        c ≡ 0
        → ((j : ℕ) → i ≤ j → j < i + n → fat_get_cluster_value d j m ≢ some 0)
        → FirstFree m i n c
    first :
        i ≤ c
        → c < i + n
        → fat_get_cluster_value d c m ≡ some 0
        → ((j : ℕ) → i ≤ j → j < c → fat_get_cluster_value d j m ≢ some 0)
        → FirstFree m i n c

  used_before :
      (m : Image) (i n c : ℕ)
      → fat_get_cluster_value d i m ≢ some 0
      → FirstFree m (i + 1) n c
      → FirstFree m i (suc n) c
  used_before m i n c u (full z f) = full z (λ j a b. elim (Bool-cases (i == j)) [
    | inl e ↦ subst (λ k. fat_get_cluster_value d k m ≢ some 0) {x = i} (ground arith) u
    | inr ne ↦ f j (ground arith) (omega arith)
  ])
  used_before m i n c u (first lo hi z f) = first (omega arith) (omega arith) z (λ j a b.
      elim (Bool-cases (i == j)) [
        | inl e ↦ subst (λ k. fat_get_cluster_value d k m ≢ some 0) {x = i} (ground arith) u
        | inr ne ↦ f j (ground arith) b
      ])

  find_free_from-FirstFree :
      (m : Image) (n i : ℕ)
      → HasTable (with_bpb d m)
      → i + n ≤ fat_get_cluster_count (with_bpb d m)
      → i + n ≤ 2 ^ 16
      → FirstFree m i n (find_free_from d m n i)
  unfolding find_free_from
  find_free_from-FirstFree m zero i h l w = full refl (λ j a b. absurd (omega arith))
  find_free_from-FirstFree m (suc n) i h l w =
      let b = with_bpb d m in
      let bits = uint16_of (disk_read d (value_addr b i) 2 m) in
      let here : fat_get_cluster_value d i m ≡ some bits =
        unfold fat_get_cluster_value in
        (let inside : ltb i (fat_get_cluster_count b) ≡ true = ground arith in rw inside refl) in
      elim (Bool-cases (bits == 0)) [
        | inl z ↦ rw z (
            subst (FirstFree m i (suc n)) {x = i} (omega arith) (
              first (omega arith) (omega arith) (here ∙ ap some (ground arith))
                (λ j x y. absurd (omega arith))))
        | inr nz ↦ rw nz (
            used_before m i n (find_free_from d m n (i + 1)) (λ e. ground (arith, here, e))
              (find_free_from-FirstFree m n (i + 1) h (omega arith) (omega arith)))
      ]

  -- On a disk of 2 to 65536 clusters whose boot block has its table of clusters behind it,
  -- `fat_find_free_cluster` returns the first cluster from 2 on whose value is 0, and 0 if there
  -- is none.
  pub fat_find_free_cluster-FirstFree :
      (m : Image)
      → HasTable (with_bpb d m)
      → 2 ≤ fat_get_cluster_count (with_bpb d m)
      → fat_get_cluster_count (with_bpb d m) ≤ 2 ^ 16
      → FirstFree m 2 (fat_get_cluster_count (with_bpb d m) - 2) (fat_find_free_cluster d m)
  unfolding fat_find_free_cluster
  fat_find_free_cluster-FirstFree m h two l =
      find_free_from-FirstFree m (fat_get_cluster_count (with_bpb d m) - 2) 2 h (omega arith)
        (omega arith)
