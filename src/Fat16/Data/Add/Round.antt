-- ===== src/Fat16/Data/Add/Round.antt =====
-- A round of the loop of `fat_add_data` of kernel/filesystem/fat16.c, and what it keeps.
use calm_os.Base.{
  ℕ, zero, suc, ◌+◌, ◌-◌, ◌*◌, ◌^◌, ◌≤◌, ◌<◌, ◌≡◌, ◌≢◌, ◌⊎◌, ◌==◌, ◌||◌, true, false, List, [], ◌∷◌,
  ◌++◌, some, refl, arith, ap, ◌∙◌, sym, subst, length, if◌then◌else◌, inl, inr, Bool-cases,
  length-append,
}
use calm_os.Disk.{Image, Disk, IsDisk}
use calm_os.Fat16.Layout.{
  BiosBlock, with_bpb, bytes_per_cluster, fat_get_cluster_addr, fat_get_cluster_count,
}
use calm_os.Fat16.Clusters.{fat_get_cluster_value}
use calm_os.Fat16.Clusters.Laws.{HasTable, in_table}
use calm_os.Fat16.Data.{link}
use calm_os.Fat16.Data.Chain.{mem, Chain, Chain-kept}
use calm_os.Fat16.Data.Area.{HasData, Stored, Stored-kept, Stored-last}
use calm_os.Fat16.Data.Free.{is_zero}
use calm_os.Fat16.Data.Link.{last, mem-last, Linked, link-Linked, Chain-link}
use calm_os.Fat16.Data.Add.{area, Written, put, put-Written, area-kept}

mem-append : (x c : ℕ) (zs : List ℕ) → mem x (zs ++ c ∷ []) ≡ (mem x zs || c == x)
mem-append x c [] = ground arith
mem-append x c (z ∷ zs) = ground (arith, mem-append x c zs)

last-append : (z c : ℕ) (zs : List ℕ) → last z (zs ++ c ∷ []) ≡ c
last-append z c [] = refl
last-append z c (y ∷ ys) = last-append y c ys

module _ (d : Disk) (end : ℕ) where
  -- The first and the last cluster so far, both 0 when there is none yet
  abbrev pub Ends : Image → List ℕ → ℕ → ℕ → Type 0
  Ends m [] root prev = (root ≡ 0) × (prev ≡ 0)
  Ends m (z ∷ zs) root prev = Chain d end m root (z ∷ zs) × (prev ≡ last z zs)

  module _ (b : BiosBlock) where
    -- The disk when `done` stands on the clusters `zs`, which were free on `m`
    pub record Grown (m : Image) (zs done : List ℕ) (root prev : ℕ) (t : Image) : Type 0 where
      pub bpb : with_bpb d t ≡ b
      pub stored : Stored b t zs done
      pub ends : Ends t zs root prev
      pub values :
          (j : ℕ) → mem j zs ≡ false → fat_get_cluster_value d j t ≡ fat_get_cluster_value d j m
      pub taken : (j : ℕ) → mem j zs ≡ true → is_zero (fat_get_cluster_value d j t) ≡ false
      pub free : (j : ℕ) → mem j zs ≡ true → fat_get_cluster_value d j m ≡ some 0
      pub inside : (j : ℕ) → mem j zs ≡ true → (2 ≤ j) × (j < fat_get_cluster_count b)
      pub others :
          (x n : ℕ)
          → 2 ≤ x
          → x < fat_get_cluster_count b
          → mem x zs ≡ false
          → n ≤ bytes_per_cluster b
          → area b x n t ≡ area b x n m
      pub front : (i : ℕ) → in_table b i ≡ false → i < fat_get_cluster_addr b 2 → t i ≡ m i
      pub room : length zs * bytes_per_cluster b < length done + bytes_per_cluster b
      pub short : length zs ≤ length done

Ends-prev :
    (d : Disk) (end : ℕ) (m : Image) (zs : List ℕ) (root prev : ℕ)
    → Ends d end m zs root prev
    → (prev ≡ 0) ⊎ (mem prev zs ≡ true)
Ends-prev d end m [] root prev (r, p) = inl p
Ends-prev d end m (z ∷ zs) root prev (p, e) = inr (ap (λ k. mem k (z ∷ zs)) e ∙ mem-last z zs)

Ends-link_lem :
    (d : Disk) (laws : IsDisk d) (end : ℕ) (b : BiosBlock) (u v t : Image) (zs : List ℕ)
    (root prev c : ℕ)
    → Linked d laws end b prev c v t
    → ((j : ℕ) → fat_get_cluster_value d j v ≡ fat_get_cluster_value d j u)
    → Ends d end u zs root prev
    → mem c zs ≡ false
    → c ≢ end
    → ((j : ℕ) → mem j zs ≡ true → j ≢ 0)
    → Ends d end t (zs ++ c ∷ []) (if prev == 0 then c else root) c
Ends-link_lem d laws end b u v t [] root prev c k same (r, p) new ne nz =
    let first : (if prev == 0 then c else root) ≡ c = ground arith in
    (
      (
        first,
        (λ e. ne (sym first ∙ e)),
        end,
        ap (λ x. fat_get_cluster_value d x t) first ∙ k.value c ∙ ground (arith, p),
        refl,
      ),
      refl,
    )
Ends-link_lem d laws end b u v t (z ∷ zs) root prev c k same (p, e) new ne nz =
    let old : last z zs ≢ 0 = nz (last z zs) (mem-last z zs) in
    let kept : (if prev == 0 then c else root) ≡ root = ground (arith, e, old) in
    (
      subst (λ r. Chain d end t r (z ∷ zs ++ c ∷ [])) (sym kept)
          (Chain-link d laws end b v t root c z zs old
            (subst (λ x. Linked d laws end b x c v t) e k) new ne
            (Chain-kept d end u v root (z ∷ zs) (λ j f. same j) p)),
      sym (last-append z c zs),
    )

slot_more : (n z k p : ℕ) → k ≡ n * z → 0 < p → (n + 1) * z < k + p + z
slot_more n z k p e l = grind arith

-- When the data is as long as the clusters, the next piece is full or the last one.
pub slot_full : (n z k p : ℕ) → k ≡ n * z → p ≡ z → k + p ≡ (n + 1) * z
slot_full n z k p e f = grind arith

pub times_mono : (f g z : ℕ) → f ≤ g → f * z ≤ g * z
times_mono zero g z h = omega arith
times_mono (suc f) zero z h = absurd (omega arith)
times_mono (suc f) (suc g) z h = let rest = times_mono f g z (omega arith) in grind arith

pub less_left : (l f g z : ℕ) → l ≤ f * z → f ≤ g + 1 → l - z ≤ g * z
less_left l f g z e h = let more = times_mono f (g + 1) z h in grind arith

pub some_free : (l f z : ℕ) → 0 < l → l ≤ f * z → 0 < f
some_free l f z p e = grind arith

module _ (d : Disk) (laws : IsDisk d) (end : ℕ) (b : BiosBlock) (h : HasTable b) (w : HasData b)
    (count_end : fat_get_cluster_count b ≤ end) (end_small : end < 2 ^ 16) where
  module _ (m u : Image) (zs done piece : List ℕ) (root prev c : ℕ)
      (g : Grown d end b m zs done root prev u) (two : 2 ≤ c) (l : c < fat_get_cluster_count b)
      (z : fat_get_cluster_value d c u ≡ some 0) (s : length piece ≤ bytes_per_cluster b)
      (p : 0 < length piece) (full : length done ≡ length zs * bytes_per_cluster b) where
    abbrev v : Image
    v = put d laws b h w c piece u g.bpb two l s

    wr : Written d laws b h w c piece u v
    wr = put-Written d laws b h w c piece u g.bpb two l s

    new : mem c zs ≡ false
    new = elim (Bool-cases (mem c zs)) [
      | inl t ↦ let k = g.taken c t in absurd (ground (arith, rw z at k))
      | inr f ↦ f
    ]

    before : (prev ≡ 0) ⊎ (mem prev zs ≡ true)
    before = Ends-prev d end u zs root prev g.ends

    prev_below : prev < fat_get_cluster_count b
    prev_below = elim before [ inl n ↦ omega arith | inr t ↦ (g.inside prev t).1 ]

    -- The chain behind the new link
    Ends-link :
        (t : Image)
        → Linked d laws end b prev c v t
        → Ends d end t (zs ++ c ∷ []) (if prev == 0 then c else root) c
    Ends-link t k =
        Ends-link_lem d laws end b u v t zs root prev c k wr.value g.ends new (omega arith)
          (λ j f. let i = (g.inside j f).0 in omega arith)

    step_values :
        (t : Image) (k : Linked d laws end b prev c v t) (j : ℕ)
        → mem j (zs ++ c ∷ []) ≡ false
        → fat_get_cluster_value d j t ≡ fat_get_cluster_value d j m
    step_values t k j f =
        ground (arith, before, k.value j, wr.value j, g.values j, mem-append j c zs)

    step_taken :
        (t : Image) (k : Linked d laws end b prev c v t) (j : ℕ)
        → mem j (zs ++ c ∷ []) ≡ true
        → is_zero (fat_get_cluster_value d j t) ≡ false
    step_taken t k j f =
        ground (arith, before, two, k.value j, wr.value j, g.taken j, mem-append j c zs)

    step_free :
        (t : Image) (k : Linked d laws end b prev c v t) (j : ℕ)
        → c ≢ j
        → is_zero (fat_get_cluster_value d j t) ≡ is_zero (fat_get_cluster_value d j u)
    step_free t k j ne = ground (arith, before, two, k.value j, wr.value j, g.taken j)

    step_others :
        (t : Image) (k : Linked d laws end b prev c v t) (x n : ℕ)
        → 2 ≤ x
        → x < fat_get_cluster_count b
        → c ≢ x
        → n ≤ bytes_per_cluster b
        → area b x n t ≡ area b x n u
    step_others t k x n two' l' ne n_small =
        area-kept d laws b h w x n v t k.outside two' l' ∙ wr.others x n two' l' ne n_small

    step_Stored :
        (t : Image) → Linked d laws end b prev c v t → Stored b t (zs ++ c ∷ []) (done ++ piece)
    step_Stored t k =
        Stored-last b t zs done piece c
          (Stored-kept b u t zs done
            (λ x n f n_small.
              let i = g.inside x f in step_others t k x n (i.0) (i.1) (ground (arith, new)) n_small)
            g.stored)
          full s (area-kept d laws b h w c (length piece) v t k.outside two l ∙ wr.own)

    -- One round keeps the invariant.
    pub step :
        (t : Image) × (link d end prev c v ≡ some t)
        × Grown d end b m (zs ++ c ∷ []) (done ++ piece) (if prev == 0 then c else root) c t
        × ((j : ℕ)
            → c ≢ j
            → is_zero (fat_get_cluster_value d j t) ≡ is_zero (fat_get_cluster_value d j u))
    step =
        let (t, e, k) =
          link-Linked d laws end b prev c v wr.bpb h l prev_below end_small (omega arith) in
        (
          t,
          e,
          record {
            bpb = k.bpb;
            stored = step_Stored t k;
            ends = Ends-link t k;
            values = step_values t k;
            taken = step_taken t k;
            free = λ j f. ground (arith, z, g.values j, g.free j, mem-append j c zs, new);
            inside = λ j f. ground (arith, two, l, g.inside j, mem-append j c zs);
            others = λ x n two' l' f n_small.
                step_others t k x n two' l' (ground (arith, mem-append x c zs)) n_small
                ∙ g.others x n two' l' (ground (arith, mem-append x c zs)) n_small;
            front =
                λ i o before_data. k.outside i o ∙ wr.front i before_data ∙ g.front i o before_data;
            room = ground (
              arith,
              length-append zs (c ∷ []),
              length-append done piece,
              slot_more (length zs) (bytes_per_cluster b) (length done) (length piece),
            );
            short = ground (arith, length-append zs (c ∷ []), length-append done piece, g.short);
          },
          step_free t k,
        )
