-- ===== src/Fat16/Data/Area.antt =====
-- The areas of the clusters on a disk of kernel/filesystem/fat16.c, and the data stored in them.
use calm_os.Base.{
  ℕ, zero, suc, ◌+◌, ◌-◌, ◌*◌, ◌^◌, ◌≤◌, ◌<◌, ◌≡◌, ◌≢◌, ◌⊎◌, true, List, [], ◌∷◌, ◌++◌, refl, arith,
  ap, ◌∙◌, sym, subst, length, take, drop, take_all, drop_all, take-append, drop-append,
  length-take, length-drop,
}
use calm_os.Kernel.State.{update}
use calm_os.Disk.{Image, mem_disk_write, mem_disk_read}
use calm_os.Disk.Laws.{mem_disk_write-outside}
use calm_os.Fat16.Layout.{
  BiosBlock, bytes_per_cluster, entry_size, fat_get_cluster_addr, fat_get_cluster_count,
  fat_get_root_table_addr,
}
use calm_os.Fat16.Data.Chain.{mem}

-- A boot block whose clusters have bytes, stand behind the table, and end within the addresses
pub record HasData (b : BiosBlock) : Type 0 where
  pub size : 0 < bytes_per_cluster b
  pub behind : fat_get_root_table_addr b + fat_get_cluster_count b * 2 ≤ fat_get_cluster_addr b 2
  pub within :
      (b.reserved_sector_count + b.fat_count * b.sectors_per_fat) * b.bytes_per_sector
        + b.root_entry_count * entry_size
        + fat_get_cluster_count b * bytes_per_cluster b
      ≤ 2 ^ 32

-- `n` areas of a size, counted from a first one
slot_end : (c n z : ℕ) → 2 ≤ c → c < n → (c - 2) * z + z ≤ n * z
slot_end c n z h l = grind arith

slots_apart : (c x z : ℕ) → 2 ≤ c → c < x → (c - 2) * z + z ≤ (x - 2) * z
slots_apart c x z h l = grind arith

one_slot : (l n z : ℕ) → l ≡ suc n * z → (z ≤ l) × (l - z ≡ n * z)
one_slot l n z e = (grind arith, grind arith)

pub fat_get_cluster_addr_lem :
    (b : BiosBlock) (c : ℕ)
    → HasData b
    → 2 ≤ c
    → c < fat_get_cluster_count b
    → fat_get_cluster_addr b c ≡ fat_get_cluster_addr b 2 + (c - 2) * bytes_per_cluster b
unfolding fat_get_cluster_addr
fat_get_cluster_addr_lem b c h two l =
    ground (arith, h.within, slot_end c (fat_get_cluster_count b) (bytes_per_cluster b) two l)

pub fat_get_cluster_addr_bound : (b : BiosBlock) (c : ℕ) → fat_get_cluster_addr b c < 2 ^ 32
unfolding fat_get_cluster_addr
fat_get_cluster_addr_bound b c = ground arith

-- The areas of two clusters do not meet.
pub areas_apart :
    (b : BiosBlock) (c x : ℕ)
    → HasData b
    → 2 ≤ c
    → c < fat_get_cluster_count b
    → 2 ≤ x
    → x < fat_get_cluster_count b
    → c ≢ x
    → (fat_get_cluster_addr b c + bytes_per_cluster b ≤ fat_get_cluster_addr b x)
      ⊎ (fat_get_cluster_addr b x + bytes_per_cluster b ≤ fat_get_cluster_addr b c)
areas_apart b c x h two l two' l' ne =
    let z = bytes_per_cluster b in
    ground (
      arith,
      fat_get_cluster_addr_lem b c h two l,
      fat_get_cluster_addr_lem b x h two' l',
      slots_apart c x z two,
      slots_apart x c z two',
    )

-- An area stands behind the table.
pub area_behind :
    (b : BiosBlock) (c : ℕ)
    → HasData b
    → 2 ≤ c
    → c < fat_get_cluster_count b
    → fat_get_root_table_addr b + fat_get_cluster_count b * 2 ≤ fat_get_cluster_addr b c
area_behind b c h two l = omega (arith, fat_get_cluster_addr_lem b c h two l, h.behind)

pub mem_disk_read-kept :
    (n a : ℕ) (m t : Image)
    → ((i : ℕ) → a ≤ i → i < a + n → t i ≡ m i)
    → mem_disk_read a n t ≡ mem_disk_read a n m
unfolding mem_disk_read
mem_disk_read-kept zero a m t k = refl
mem_disk_read-kept (suc n) a m t k = λ i.
    k a (omega arith) (omega arith) i
    ∷ mem_disk_read-kept n (a + 1) m t (λ j x y. k j (omega arith) (omega arith)) i

-- What was written is read.
pub mem_disk_read-write :
    (bs : List ℕ) (a : ℕ) (m : Image) → mem_disk_read a (length bs) (mem_disk_write a bs m) ≡ bs
unfolding mem_disk_read mem_disk_write
mem_disk_read-write [] a m = refl
mem_disk_read-write (b ∷ bs) a m =
    let head : mem_disk_write (a + 1) bs (update m a b) a ≡ b =
      mem_disk_write-outside bs (a + 1) (update m a b) a (ground arith) ∙ ground arith in
    λ i. head i ∷ mem_disk_read-write bs (a + 1) (update m a b) i

pub length-mem_disk_read : (a n : ℕ) (m : Image) → length (mem_disk_read a n m) ≡ n
unfolding mem_disk_read
length-mem_disk_read a zero m = refl
length-mem_disk_read a (suc n) m = ap suc (length-mem_disk_read (a + 1) n m)

module _ (b : BiosBlock) where
  -- Data that stands in the areas of some clusters, the last one filled as far as there are any
  abbrev pub Stored : Image → List ℕ → List ℕ → Type 0
  Stored m [] bs = bs ≡ []
  Stored m (x ∷ xs) bs =
      (mem_disk_read (fat_get_cluster_addr b x) (length (take (bytes_per_cluster b) bs)) m
        ≡ take (bytes_per_cluster b) bs)
      × Stored m xs (drop (bytes_per_cluster b) bs)

  pub Stored-kept :
      (m t : Image) (xs bs : List ℕ)
      → ((x n : ℕ)
          → mem x xs ≡ true
          → n ≤ bytes_per_cluster b
          → mem_disk_read (fat_get_cluster_addr b x) n t
            ≡ mem_disk_read (fat_get_cluster_addr b x) n m)
      → Stored m xs bs
      → Stored t xs bs
  Stored-kept m t [] bs k s = s
  Stored-kept m t (x ∷ xs) bs k (r, s) = (
    k x (length (take (bytes_per_cluster b) bs)) (ground arith)
          (ground (arith, length-take (bytes_per_cluster b) bs))
        ∙ r,
    Stored-kept m t xs (drop (bytes_per_cluster b) bs) (λ y n h l. k y n (ground (arith, h)) l) s,
  )

  -- One more cluster behind full ones
  pub Stored-last :
      (m : Image) (xs bs piece : List ℕ) (c : ℕ)
      → Stored m xs bs
      → length bs ≡ length xs * bytes_per_cluster b
      → length piece ≤ bytes_per_cluster b
      → mem_disk_read (fat_get_cluster_addr b c) (length piece) m ≡ piece
      → Stored m (xs ++ c ∷ []) (bs ++ piece)
  Stored-last m [] bs piece c s e l r =
      let z = bytes_per_cluster b in
      let all = take_all z piece l in
      subst (λ ds. Stored m (c ∷ []) (ds ++ piece)) (sym s)
        (
          (λ i. mem_disk_read (fat_get_cluster_addr b c) (length (all i)) m) ∙ r ∙ sym all,
          drop_all z piece l,
        )
  Stored-last m (x ∷ xs) bs piece c (f, s) e l r =
      let z = bytes_per_cluster b in
      let (full, left) = one_slot (length bs) (length xs) z e in
      let t = take-append z bs piece full in
      let d = drop-append z bs piece full in
      (
        (λ i. mem_disk_read (fat_get_cluster_addr b x) (length (t i)) m) ∙ f ∙ sym t,
        subst (Stored m (xs ++ c ∷ [])) (sym d)
            (Stored-last m xs (drop z bs) piece c s (length-drop z bs ∙ left) l r),
      )
