-- ===== src/Fat16/Data/Add/Full.antt =====
-- `fat_add_data` of kernel/filesystem/fat16.c on a disk without room.
use calm_os.Base.{
  ℕ, zero, suc, ◌+◌, ◌-◌, ◌*◌, ◌^◌, ◌≤◌, ◌<◌, ◌≡◌, ◌≢◌, Bool-cases, inl, inr, true, ◌==◌, false,
  List, [], ◌∷◌, ◌++◌, some, refl, arith, ap, ◌∙◌, sym, subst, length, take, drop, length-append,
  length-take, length-drop,
}
use calm_os.Disk.{Image, Disk, IsDisk}
use calm_os.Fat16.Layout.{BiosBlock, with_bpb, bytes_per_cluster, fat_get_cluster_count}
use calm_os.Fat16.Clusters.{fat_get_cluster_value, fat_find_free_cluster}
use calm_os.Fat16.Clusters.Laws.{HasTable}
use calm_os.Fat16.Data.{give_up, add_chain, fat_add_data}
use calm_os.Fat16.Data.Area.{HasData}
use calm_os.Fat16.Data.Free.{is_zero, free_count, free_count-used, found_lem}
use calm_os.Fat16.Data.Add.Round.{Ends, Grown, times_mono}
use calm_os.Fat16.Data.Add.Loop.{empty-Grown, next_full, add_chain-step}
use calm_os.Fat16.Data.Chain.{mem}
use calm_os.Fat16.Data.Remove.{fat_remove_data-Removed}

less_room : (l f g z : ℕ) → f * z < l → g + 1 ≤ f → g * z < l - z
less_room l f g z e h = let more : (g + 1) * z ≤ f * z = times_mono (g + 1) f z h in grind arith

one_full : (l f z : ℕ) → f * z < l → 1 ≤ f → z < l
one_full l f z e h = let more : 1 * z ≤ f * z = times_mono 1 f z h in grind arith

mem-last_one : (c : ℕ) (zs : List ℕ) → mem c (zs ++ c ∷ []) ≡ true
mem-last_one c [] = ground arith
mem-last_one c (z ∷ zs) = ground (arith, mem-last_one c zs)

module _ (d : Disk) (laws : IsDisk d) (end : ℕ) (b : BiosBlock) (h : HasTable b) (w : HasData b)
    (count_end : fat_get_cluster_count b ≤ end) (end_small : end < 2 ^ 16) where
  abbrev size : ℕ
  size = bytes_per_cluster b

  abbrev left : Image → ℕ
  left t = free_count d t (fat_get_cluster_count b - 2) 2

  module _ (m : Image) (two : 2 ≤ fat_get_cluster_count b)
      (mark : fat_get_cluster_value d 1 m ≡ some end) where
    -- The table after the disk was full: as it was before
    pub record Restored (t : Image) : Type 0 where
      pub bpb : with_bpb d t ≡ b
      pub value : (j : ℕ) → fat_get_cluster_value d j t ≡ fat_get_cluster_value d j m

    give_up_lem :
        (limit : ℕ) (zs done : List ℕ) (root prev : ℕ) (u : Image)
        → Grown d end b m zs done root prev u
        → Ends d end u zs root prev
        → length zs ≤ limit
        → (t : Image) × (give_up d limit 0 root u ≡ some (0, t)) × Restored t
    give_up_lem limit [] done root prev u g (r, p) f =
        let at : (root == 0) ≡ true = ground arith in
        (u, rw at refl, record { bpb = g.bpb; value = λ j. g.values j refl })
    give_up_lem limit (z ∷ zs) done root prev u g (c, p) f =
        let first = g.inside z (ground arith) in
        let nz : root ≢ 0 = ground (arith, first, c.0) in
        let used : (root == 0) ≡ false = ground arith in
        let one : mem 1 (z ∷ zs) ≡ false = elim (Bool-cases (mem 1 (z ∷ zs))) [
          | inl y ↦ let i = g.inside 1 y in absurd (omega arith)
          | inr n ↦ n
        ] in
        let (t, e, r) =
          fat_remove_data-Removed d laws 0 end (z ∷ zs) limit root u (subst HasTable (sym g.bpb) h)
            nz (g.values 1 one ∙ mark) c f in
        (
          t,
          rw (used, e) refl,
          record {
            bpb = r.bpb ∙ g.bpb;
            value = λ j. ground (arith, r.value j, g.values j, g.free j);
          },
        )

    add_chain-Restored :
        (limit fuel : ℕ) (bs done zs : List ℕ) (root prev : ℕ) (u : Image)
        → Grown d end b m zs done root prev u
        → length done ≡ length zs * size
        → length bs ≤ fuel
        → length done + length bs ≤ limit
        → left u * size < length bs
        → (t : Image) × (add_chain d size limit fuel 0 end prev root bs u ≡ some (0, t))
          × Restored t
    unfolding add_chain
    add_chain-Restored limit fuel [] done zs root prev u g full f l k = absurd (omega arith)
    add_chain-Restored limit zero (x ∷ bs) done zs root prev u g full f l k = absurd (omega arith)
    add_chain-Restored limit (suc fuel) (x ∷ bs) done zs root prev u g full f l k =
        let c = fat_find_free_cluster d u in
        elim (Bool-cases (c == 0)) [
          | inl none_left ↦
              let (t, e, r) =
                give_up_lem limit zs done root prev u g g.ends (omega (arith, g.short)) in
              (t, rw (add_chain, none_left) e, r)
          | inr some_left ↦
              let free =
                found_lem d laws u (subst HasTable (sym g.bpb) h)
                  (subst (λ e. 2 ≤ fat_get_cluster_count e) (sym g.bpb) two)
                  (subst (λ e. fat_get_cluster_count e ≤ 2 ^ 16) (sym g.bpb) (omega arith))
                  (λ z. ground (arith, z, some_left)) in
              let below = subst (λ e. c < fat_get_cluster_count e) g.bpb free.1 in
              let (t, root', e, g', other) =
                add_chain-step d laws end b h w count_end end_small m limit 0 fuel x bs done zs root
                  prev u g full free in
              let fewer : left t + 1 ≤ left u = ground (
                arith,
                below,
                free.0,
                free_count-used d u t c (fat_get_cluster_count b - 2) 2 (ap is_zero free.2)
                    (g'.taken c (mem-last_one c zs)) (λ j ne. other j (λ q. ne (sym q))),
              ) in
              let whole : size < length (x ∷ bs) =
                one_full (length (x ∷ bs)) (left u) size k (omega (arith, fewer)) in
              let room : left t * size < length (drop size (x ∷ bs)) =
                subst (λ n. left t * size < n) (sym (length-drop size (x ∷ bs)))
                  (less_room (length (x ∷ bs)) (left u) (left t) size k fewer) in
              let (v, e', r) =
                add_chain-Restored limit fuel (drop size (x ∷ bs)) (done ++ take size (x ∷ bs))
                  (zs ++ c ∷ []) root' c t g' (next_full bs x done zs c size full (omega arith))
                  (ground (arith, length-drop size (x ∷ bs), w.size))
                  (ground (
                    arith,
                    length-append done (take size (x ∷ bs)),
                    length-take size (x ∷ bs),
                    length-drop size (x ∷ bs),
                  ))
                  room in
              (v, e ∙ e', r)
        ]

    -- Data that finds no room in the free clusters is not added: `fat_add_data` with 0 as the value of a
    -- free cluster ends, fails no assertion, and returns 0. The boot block and the values of all
    -- clusters are then as before, so that the clusters that it had taken are free again. (The
    -- disk's boot block has the table of clusters and the data area where they belong, and
    -- cluster 1 holds a mark that is no cluster's number.)
    pub fat_add_data-Restored :
        (at : with_bpb d m ≡ b) (content : List ℕ)
        → left m * size < length content
        → (t : Image) × (fat_add_data d 0 content m ≡ some (0, t)) × Restored t
    unfolding fat_add_data
    fat_add_data-Restored at content k =
        let (t, e, r) =
          add_chain-Restored (length content) (length content) content [] [] 0 0 m
            (empty-Grown d laws end b h w count_end end_small m two at mark) (omega arith)
            (omega arith) (omega arith) k in
        let filled : (length content == 0) ≡ false = ground arith in
        (
          t,
          rw (filled, mark)
              (ap
                  (λ b.
                    add_chain d (bytes_per_cluster b) (length content) (length content) 0 end 0 0
                      content m)
                  at
                ∙ e),
          r,
        )
