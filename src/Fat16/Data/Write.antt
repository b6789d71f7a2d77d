-- ===== src/Fat16/Data/Write.antt =====
-- `fat_write_data` of kernel/filesystem/fat16.c, from the start of a file on.
use calm_os.Base.{
  ℕ, zero, suc, ◌+◌, ◌-◌, ◌*◌, ◌^◌, ◌≤◌, ◌<◌, ◌≡◌, ◌≢◌, ◌==◌, ◌&&◌, true, false, not, List, [], ◌∷◌,
  some, refl, arith, ap, ◌∙◌, sym, subst, length, take, drop, ltb, ◌>>=◌, length-take, length-drop,
  take_all, drop_all, inl, inr, Bool-cases,
}
use calm_os.Disk.{Image, Disk, IsDisk, disk_write, mem_disk_read}
use calm_os.Fat16.Layout.{
  BiosBlock, with_bpb, wrap, bytes_per_cluster, fat_get_cluster_addr, fat_get_cluster_count,
}
use calm_os.Fat16.Clusters.{fat_get_cluster_value}
use calm_os.Fat16.Clusters.Laws.{HasTable}
use calm_os.Fat16.Data.{copy_start, copy_count, write_chain, fat_write_data, fat_read_data}
use calm_os.Fat16.Data.Chain.{mem, Chain, Chain-kept, not_again}
use calm_os.Fat16.Data.Area.{HasData, Stored, fat_get_cluster_addr_bound}
use calm_os.Fat16.Data.Read.{slots_more, fat_read_data-Stored}
use calm_os.Fat16.Data.Add.{area, Written, put, put-Written}

-- What is written to one cluster is what belongs there.
take-copy_count :
    (z copied : ℕ) (bs : List ℕ) → take (copy_count z (copied + length bs) copied) bs ≡ take z bs
take-copy_count z copied bs = elim (Bool-cases (ltb z (copied + length bs - copied))) [
  | inl more ↦ rw more refl
  | inr last ↦
      rw last (
        take_all (copied + length bs - copied) bs (omega arith)
        ∙ sym (take_all z bs (ground arith)))
]

drop-copy_count :
    (z copied : ℕ) (bs : List ℕ) → drop (copy_count z (copied + length bs) copied) bs ≡ drop z bs
drop-copy_count z copied bs = elim (Bool-cases (ltb z (copied + length bs - copied))) [
  | inl more ↦ rw more refl
  | inr last ↦
      rw last (
        drop_all (copied + length bs - copied) bs (omega arith)
        ∙ sym (drop_all z bs (ground arith)))
]

one_less : (l n z : ℕ) → l ≤ suc n * z → l - z ≤ n * z
one_less l n z h = grind arith

nil_of : (bs : List ℕ) → length bs ≡ 0 → bs ≡ []
nil_of [] e = refl
nil_of (b ∷ bs) e = absurd (omega arith)

no_slot : (l z : ℕ) → l ≤ 0 * z → l ≡ 0
no_slot l z h = grind arith

Stored-nil : (b : BiosBlock) (m : Image) (xs : List ℕ) → Stored b m xs []
unfolding mem_disk_read
Stored-nil b m [] = refl
Stored-nil b m (x ∷ xs) =
    let z = bytes_per_cluster b in
    let none_left : take z [] ≡ [] = take_all z [] (omega arith) in
    let none_behind : drop z [] ≡ [] = drop_all z [] (omega arith) in
    (
      (λ i. mem_disk_read (fat_get_cluster_addr b x) (length (none_left i)) m) ∙ sym none_left,
      subst (Stored b m xs) (sym none_behind) (Stored-nil b m xs),
    )

module _ (d : Disk) (laws : IsDisk d) (end : ℕ) (b : BiosBlock) (h : HasTable b)
    (w : HasData b) where
  abbrev size : ℕ
  size = bytes_per_cluster b

  -- The disk when some bytes stand on the clusters of a chain
  pub record Rewritten (xs bs : List ℕ) (m t : Image) : Type 0 where
    pub bpb : with_bpb d t ≡ b
    pub value : (j : ℕ) → fat_get_cluster_value d j t ≡ fat_get_cluster_value d j m
    pub stored : Stored b t xs bs
    pub others :
        (x n : ℕ)
        → 2 ≤ x
        → x < fat_get_cluster_count b
        → mem x xs ≡ false
        → n ≤ size
        → area b x n t ≡ area b x n m
    pub front : (i : ℕ) → i < fat_get_cluster_addr b 2 → t i ≡ m i

  -- No byte is left to write.
  Rewritten-nil : (xs : List ℕ) (m : Image) → with_bpb d m ≡ b → Rewritten xs [] m m
  Rewritten-nil xs m e = record {
    bpb = e;
    value = λ j. refl;
    stored = Stored-nil b m xs;
    others = λ x n two l f k. refl;
    front = λ i l. refl;
  }

  abbrev InDisk : List ℕ → Type 0
  InDisk xs = (j : ℕ) → mem j xs ≡ true → (2 ≤ j) × (j < fat_get_cluster_count b)

  Rewritten-cons :
      (x : ℕ) (xs bs : List ℕ) (m u t : Image)
      → (2 ≤ x) × (x < fat_get_cluster_count b)
      → mem x xs ≡ false
      → length (take size bs) ≤ size
      → Written d laws b h w x (take size bs) m u
      → Rewritten xs (drop size bs) u t
      → Rewritten (x ∷ xs) bs m t
  Rewritten-cons x xs bs m u t inside new small wr r = record {
    bpb = r.bpb;
    value = λ j. r.value j ∙ wr.value j;
    stored = (r.others x _ inside.0 inside.1 new small ∙ wr.own, r.stored);
    others = λ y n two l f k.
        r.others y n two l (ground (arith, f)) k ∙ wr.others y n two l (ground (arith, f)) k;
    front = λ i l. r.front i l ∙ wr.front i l;
  }

  -- One round, on a cluster `x` of the chain
  module _ (x fuel rs copied n : ℕ) (bs : List ℕ) (m : Image) (e : with_bpb d m ≡ b) (two : 2 ≤ x)
      (l : x < fat_get_cluster_count b) (ne : x ≢ end) (some_left : 0 < length bs)
      (k : rs + size < 2 ^ 32) (v : fat_get_cluster_value d x m ≡ some n) where
    piece_small : length (take size bs) ≤ size
    piece_small = ground (arith, length-take size bs)

    abbrev written : Image
    written = put d laws b h w x (take size bs) m e two l piece_small

    written-Written : Written d laws b h w x (take size bs) m written
    written-Written = put-Written d laws b h w x (take size bs) m e two l piece_small

    abbrev count : ℕ
    count = copy_count size (copied + length bs) copied

    write_round :
        write_chain d size (suc fuel) end (copied + length bs) 0 rs x copied bs m
        ≡ write_chain d size fuel end
            (copied + length bs)
            0
            (rs + size)
            n
            (copied + count)
            (drop size bs)
            written
    unfolding write_chain
    write_round =
        let go : (not (x == end) && ltb copied (copied + length bs)) ≡ true = ground arith in
        let next : wrap (rs + size) ≡ rs + size = omega arith in
        let here : ltb 0 (rs + size) ≡ true = ground (arith, w.size) in
        let place : wrap (fat_get_cluster_addr (with_bpb d m) x + copy_start rs 0)
            ≡ fat_get_cluster_addr b x =
          ground (arith, fat_get_cluster_addr_bound b x, ap (λ c. fat_get_cluster_addr c x) e) in
        let rest = λ (ds : List ℕ) (t : Image) (following : ℕ).
          write_chain d size fuel end (copied + length bs) 0 (rs + size) following (copied + count)
            ds t in
        let round = λ (a : ℕ) (piece ds : List ℕ).
          fat_get_cluster_value d x (disk_write d a piece m) >>= rest ds (disk_write d a piece m) in
        rw (write_chain, go, next, here)
          ((λ i.
              round (place i) (take-copy_count size copied bs i) (drop-copy_count size copied bs i))
            ∙ ap (λ o. o >>= rest (drop size bs) written) (written-Written.value x ∙ v))

  write_chain_lem :
      (xs bs : List ℕ) (fuel rs c len copied : ℕ) (m : Image)
      → with_bpb d m ≡ b
      → Chain d end m c xs
      → InDisk xs
      → length bs ≤ length xs * size
      → length xs ≤ fuel
      → rs + length xs * size < 2 ^ 32
      → len ≡ copied + length bs
      → (t : Image) × (write_chain d size fuel end len 0 rs c copied bs m
          ≡ some (copied + length bs, t))
        × Rewritten xs bs m t
  unfolding write_chain
  write_chain_lem [] [] zero rs c len copied m e p o l f k q =
      let at : (c == end) ≡ true = ground arith in
      let all : copied ≡ copied + 0 = omega arith in
      (m, rw (write_chain, at) (ap (λ j. some (j, m)) all), Rewritten-nil [] m e)
  write_chain_lem [] [] (suc fuel) rs c len copied m e p o l f k q =
      let at : (c == end) ≡ true = ground arith in
      let all : copied ≡ copied + 0 = omega arith in
      (m, rw (write_chain, at) (ap (λ j. some (j, m)) all), Rewritten-nil [] m e)
  write_chain_lem [] (a ∷ bs) fuel rs c len copied m e p o l f k q =
      absurd (omega (arith, no_slot (suc (length bs)) size l))
  write_chain_lem (x ∷ xs) [] zero rs c len copied m e p o l f k q = absurd (omega arith)
  write_chain_lem (x ∷ xs) [] (suc fuel) rs c len copied m e p o l f k q =
      let stop : (not (c == end) && ltb copied len) ≡ false = ground arith in
      let all : copied ≡ copied + 0 = omega arith in
      (m, rw (write_chain, stop) (ap (λ j. some (j, m)) all), Rewritten-nil (x ∷ xs) m e)
  write_chain_lem (x ∷ xs) (a ∷ bs) zero rs c len copied m e p o l f k q = absurd (omega arith)
  write_chain_lem (x ∷ xs) (a ∷ bs) (suc fuel) rs c len copied m e (at, ne, n, v, p) o l f k q =
      let all = a ∷ bs in
      let inside = o x (ground arith) in
      let stays : x ≢ end = (λ s. ne (at ∙ s)) in
      let follows : fat_get_cluster_value d x m ≡ some n =
        ap (λ j. fat_get_cluster_value d j m) (sym at) ∙ v in
      let new = not_again d end m x xs n stays follows p in
      let more = slots_more rs (length xs) size (2 ^ 32) k in
      let fits : rs + size < 2 ^ 32 = omega arith in
      let left : 0 < length all = omega arith in
      let u = written x fuel rs copied n all m e inside.0 inside.1 stays left fits follows in
      let wr =
        written-Written x fuel rs copied n all m e inside.0 inside.1 stays left fits follows in
      let small =
        piece_small x fuel rs copied n all m e inside.0 inside.1 stays left fits follows in
      let len_left = length-drop size all in
      let (t, r, g) =
        write_chain_lem xs (drop size all) fuel (rs + size) n (copied + length all)
          (copied + copy_count size (copied + length all) copied) u wr.bpb
          (Chain-kept d end m u n xs (λ j y. wr.value j) p) (λ j y. o j (ground (arith, y)))
          (omega (arith, len_left, one_less (length all) (length xs) size l)) (omega arith) more
          (ground (arith, len_left)) in
      let total : copied + copy_count size (copied + length all) copied + length (drop size all)
          ≡ copied + length all =
        ground (arith, len_left) in
      (
        t,
        (λ i. write_chain d size (suc fuel) end (q i) 0 rs (at i) copied all m)
            ∙ write_round x fuel rs copied n all m e inside.0 inside.1 stays left fits follows
            ∙ r
            ∙ ap (λ j. some (j, t)) total,
        Rewritten-cons x xs all m u t inside new small wr g,
      )

  module _ (xs bs : List ℕ) (fuel c : ℕ) (m : Image) (e : with_bpb d m ≡ b) (nz : c ≢ 0)
      (mark : fat_get_cluster_value d 1 m ≡ some end) (p : Chain d end m c xs) (o : InDisk xs)
      (l : length bs ≤ length xs * size) (f : length xs ≤ fuel)
      (k : length xs * size < 2 ^ 32) where
    fat_write_data-Rewritten :
        (t : Image) × (fat_write_data d fuel c bs (length bs) 0 m ≡ some (length bs, t))
        × Rewritten xs bs m t
    unfolding fat_write_data
    fat_write_data-Rewritten =
        let used : (c == 0) ≡ false = ground arith in
        let (t, r, g) =
          write_chain_lem xs bs fuel 0 c (length bs) 0 m e p o l f (omega arith) (omega arith) in
        elim (Bool-cases (length bs == 0)) [
          | inl empty ↦
              let nothing : length bs ≡ 0 = ground arith in
              (
                m,
                rw (fat_write_data, used, empty) (ap (λ j. some (j, m)) (sym nothing)),
                subst (λ ds. Rewritten xs ds m m) (sym (nil_of bs nothing)) (Rewritten-nil xs m e),
              )
          | inr some_bytes ↦ (
            t,
            rw (fat_write_data, used, some_bytes, mark)
                ((λ i. write_chain d (bytes_per_cluster (e i)) fuel end (length bs) 0 0 c 0 bs m)
                  ∙ r
                  ∙ ap (λ j. some (j, t)) (omega arith)),
            g,
          )
        ]

    -- Bytes written from the start of a file on are what is read from there: for a chain of the
    -- disk's clusters and at least so many bytes in them, `fat_write_data` of the bytes ends and
    -- returns how many they are, with as many rounds as the chain has clusters, and `fat_read_data`
    -- of as many then returns them. The boot block, the values of all clusters and the bytes of the
    -- clusters that are not on the chain are as before.
    pub fat_read_data-fat_write_data :
        (t : Image) × (fat_write_data d fuel c bs (length bs) 0 m ≡ some (length bs, t))
        × (fat_read_data d fuel c (length bs) 0 t ≡ some bs)
        × Rewritten xs bs m t
    fat_read_data-fat_write_data =
        let (t, r, g) = fat_write_data-Rewritten in
        (
          t,
          r,
          fat_read_data-Stored d laws end t xs bs fuel c
              (subst (λ a. 0 < bytes_per_cluster a) (sym g.bpb) w.size) nz (g.value 1 ∙ mark)
              (Chain-kept d end m t c xs (λ j y. g.value j) p)
              (subst (λ a. Stored a t xs bs) (sym g.bpb) g.stored) f
              (subst (λ a. length xs * bytes_per_cluster a < 2 ^ 32) (sym g.bpb) k),
          g,
        )
