-- ===== src/Fat16/Data/Add/Loop.antt =====
-- The loop of `fat_add_data` of kernel/filesystem/fat16.c, and reading what it stored.
use calm_os.Base.{
  ℕ, zero, suc, ◌+◌, ◌-◌, ◌*◌, ◌^◌, ◌≤◌, ◌<◌, ◌≡◌, ◌≢◌, ◌==◌, false, List, [], ◌∷◌, ◌++◌, some,
  refl, arith, ap, ◌∙◌, sym, subst, length, take, drop, if◌then◌else◌, ◌>>=◌, length-append,
  length-take, length-drop, take-append-drop, append_nil, append_assoc,
}
use calm_os.Disk.{Image, Disk, IsDisk, disk_write}
use calm_os.Fat16.Layout.{
  BiosBlock, with_bpb, bytes_per_cluster, fat_get_cluster_addr, fat_get_cluster_count,
}
use calm_os.Fat16.Clusters.{fat_get_cluster_value, fat_find_free_cluster}
use calm_os.Fat16.Clusters.Laws.{HasTable}
use calm_os.Fat16.Data.{link, add_chain, fat_add_data}
use calm_os.Fat16.Data.Area.{HasData}
use calm_os.Fat16.Data.Free.{is_zero, free_count, free_count-taken, found}
use calm_os.Fat16.Data.Add.Round.{Grown, less_left, some_free, slot_full, step}

pub next_full :
    (bs : List ℕ) (x : ℕ) (done zs : List ℕ) (c z : ℕ)
    → length done ≡ length zs * z
    → 0 < length (drop z (x ∷ bs))
    → length (done ++ take z (x ∷ bs)) ≡ length (zs ++ c ∷ []) * z
next_full bs x done zs c z e more =
    let whole : length (take z (x ∷ bs)) ≡ z =
      ground (arith, length-take z (x ∷ bs), length-drop z (x ∷ bs)) in
    length-append done (take z (x ∷ bs))
    ∙ slot_full (length zs) z (length done) (length (take z (x ∷ bs))) e whole
    ∙ ap (λ n. n * z) (sym (length-append zs (c ∷ [])))

module _ (d : Disk) (laws : IsDisk d) (end : ℕ) (b : BiosBlock) (h : HasTable b) (w : HasData b)
    (count_end : fat_get_cluster_count b ≤ end) (end_small : end < 2 ^ 16) where
  abbrev size : ℕ
  size = bytes_per_cluster b

  abbrev left : Image → ℕ
  left t = free_count d t (fat_get_cluster_count b - 2) 2

  -- A round that finds a free cluster
  pub add_chain-step :
      (m : Image) (limit fat_index fuel x : ℕ) (bs done zs : List ℕ) (root prev : ℕ) (u : Image)
      → Grown d end b m zs done root prev u
      → length done ≡ length zs * size
      → (2 ≤ fat_find_free_cluster d u)
        × (fat_find_free_cluster d u < fat_get_cluster_count (with_bpb d u))
        × (fat_get_cluster_value d (fat_find_free_cluster d u) u ≡ some 0)
      → (t : Image) × (next_root : ℕ) × (add_chain d size limit
            (suc fuel)
            fat_index
            end
            prev
            root
            (x ∷ bs)
            u
          ≡ add_chain d size limit fuel fat_index end
              (fat_find_free_cluster d u)
              next_root
              (drop size (x ∷ bs))
              t)
        × Grown d end b m
            (zs ++ fat_find_free_cluster d u ∷ [])
            (done ++ take size (x ∷ bs))
            next_root
            (fat_find_free_cluster d u)
            t
        × ((j : ℕ)
            → fat_find_free_cluster d u ≢ j
            → is_zero (fat_get_cluster_value d j t) ≡ is_zero (fat_get_cluster_value d j u))
  unfolding add_chain
  add_chain-step m limit fat_index fuel x bs done zs root prev u g full (two_c, below, z) =
      let c = fat_find_free_cluster d u in
      let piece = take size (x ∷ bs) in
      let below_b = subst (λ e. c < fat_get_cluster_count e) g.bpb below in
      let some_piece : 0 < length piece = ground (arith, length-take size (x ∷ bs), w.size) in
      let piece_small : length piece ≤ size = ground (arith, length-take size (x ∷ bs)) in
      let (t, e, g', other) =
        step d laws end b h w count_end end_small m u zs done piece root prev c g two_c below_b z
          piece_small some_piece full in
      let used : (c == 0) ≡ false = ground arith in
      (
        t,
        if prev == 0 then c else root,
        rw (add_chain, used)
            ((λ i.
                link d end prev c (disk_write d (fat_get_cluster_addr (g.bpb i) c) piece u)
                >>= λ linked.
                    add_chain d size limit fuel fat_index end c (if prev == 0 then c else root)
                      (drop size (x ∷ bs)) linked)
              ∙ rw e refl),
        g',
        other,
      )

  add_chain-Grown :
      (m : Image) (limit fat_index fuel : ℕ) (bs done zs : List ℕ) (root prev : ℕ) (u : Image)
      → 2 ≤ fat_get_cluster_count b
      → Grown d end b m zs done root prev u
      → (0 < length bs → length done ≡ length zs * size)
      → length bs ≤ fuel
      → length bs ≤ left u * size
      → (r last_one : ℕ) × (ys : List ℕ) × (t : Image) × (add_chain d size limit fuel fat_index end
            prev root bs u
          ≡ some (r, t))
        × Grown d end b m ys (done ++ bs) r last_one t
  unfolding add_chain
  add_chain-Grown m limit fat_index fuel [] done zs root prev u two g full f k = (
    root,
    prev,
    zs,
    u,
    refl,
    subst (λ ds. Grown d end b m zs ds root prev u) (sym (append_nil done)) g,
  )
  add_chain-Grown m limit fat_index zero (x ∷ bs) done zs root prev u two g full f k =
      absurd (omega arith)
  add_chain-Grown m limit fat_index (suc fuel) (x ∷ bs) done zs root prev u two g full f k =
      let c = fat_find_free_cluster d u in
      let n : 0 < left u = some_free (length (x ∷ bs)) (left u) size (omega arith) k in
      let free =
        found d laws u (subst HasTable (sym g.bpb) h)
          (subst (λ e. 2 ≤ fat_get_cluster_count e) (sym g.bpb) two)
          (subst (λ e. fat_get_cluster_count e ≤ 2 ^ 16) (sym g.bpb) (omega arith))
          (subst (λ e. 0 < free_count d u (fat_get_cluster_count e - 2) 2) (sym g.bpb) n) in
      let (t, root', e, g', other) =
        add_chain-step m limit fat_index fuel x bs done zs root prev u g (full (omega arith))
          free in
      let fewer : left u ≤ left t + 1 = ground (
        arith,
        free_count-taken d u t c (fat_get_cluster_count b - 2) 2
            (λ j ne. other j (λ q. ne (sym q))),
      ) in
      let rest : length (drop size (x ∷ bs)) ≤ left t * size =
        subst (λ n. n ≤ left t * size) (sym (length-drop size (x ∷ bs)))
          (less_left (length (x ∷ bs)) (left u) (left t) size k fewer) in
      let (r, p, ys, v, e', g'') =
        add_chain-Grown m limit fat_index fuel (drop size (x ∷ bs)) (done ++ take size (x ∷ bs))
          (zs ++ c ∷ []) root' c t two g'
          (λ more. next_full bs x done zs c size (full (omega arith)) more)
          (ground (arith, length-drop size (x ∷ bs), w.size)) rest in
      (
        r,
        p,
        ys,
        v,
        e ∙ e',
        subst (λ ds. Grown d end b m ys ds r p v)
            (append_assoc done (take size (x ∷ bs)) (drop size (x ∷ bs))
              ∙ ap (λ ds. done ++ ds) (take-append-drop size (x ∷ bs)))
            g'',
      )

  module _ (m : Image) (two : 2 ≤ fat_get_cluster_count b) (at : with_bpb d m ≡ b)
      (mark : fat_get_cluster_value d 1 m ≡ some end) where
    pub empty-Grown : Grown d end b m [] [] 0 0 m
    empty-Grown = record {
      bpb = at;
      stored = refl;
      ends = (refl, refl);
      values = λ j f. refl;
      taken = λ j f. cc;
      free = λ j f. cc;
      inside = λ j f. cc;
      others = λ x n a l f k. refl;
      room = omega (arith, w.size);
      short = omega arith;
      front = λ i o f. refl;
    }

    -- Data that is not empty and finds room in the free clusters is added: `fat_add_data` ends, fails
    -- no assertion, and returns the first cluster of a chain of clusters that were free, on
    -- which the data is stored. The boot block, the values of all other clusters and the bytes of
    -- their areas are as before. (The disk's boot block has the table of clusters and the data
    -- area where they belong, and cluster 1 holds a mark that is no cluster's number.)
    pub fat_add_data-Grown :
        (fat_index : ℕ) (content : List ℕ)
        → 0 < length content
        → length content ≤ left m * size
        → (r last_one : ℕ) × (zs : List ℕ) × (t : Image) × (fat_add_data d fat_index content m
            ≡ some (r, t))
          × Grown d end b m zs content r last_one t
    unfolding fat_add_data
    fat_add_data-Grown fat_index content p k =
        let (r, q, zs, t, e, g) =
          add_chain-Grown m (length content) fat_index (length content) content [] [] 0 0 m two
            empty-Grown (λ x. omega arith) (omega arith) k in
        let filled : (length content == 0) ≡ false = ground arith in
        (
          r,
          q,
          zs,
          t,
          rw (filled, mark)
              (ap
                  (λ b.
                    add_chain d (bytes_per_cluster b) (length content) (length content) fat_index
                      end 0 0 content m)
                  at
                ∙ e),
          g,
        )
