-- ===== src/Fat16/Clusters/Laws.antt =====
-- Lemmas on the table of clusters of kernel/filesystem/fat16.c.
use calm_os.Base.{
  ℕ, Option, zero, suc, ◌+◌, ◌*◌, ◌%◌, ◌^◌, ◌≤◌, ◌<◌, ◌≡◌, ◌==◌, ◌&&◌, Bool, true, false, List,
  none, some, refl, arith, ap, ◌∙◌, sym, subst, leb, ltb, if◌then◌else◌, inl, inr, Bool-cases,
  ◌>>=◌,
}
use calm_os.Disk.{Image, Disk, IsDisk, mem_disk_write, mem_disk_read, disk_read, disk_write}
use calm_os.Disk.Laws.{mem_disk_write-outside}
use calm_os.Fat16.Layout.{
  BiosBlock, with_bpb, uint16_at, fat_get_cluster_count, fat_get_root_table_addr,
}
use calm_os.Fat16.Clusters.{
  uint16_bytes, uint16_of, value_addr, fat_get_cluster_value, fat_set_cluster_value, update_copies,
  fat_update_cluster,
}

-- A boot block whose table of clusters stands behind it and within the addresses
pub record HasTable (b : BiosBlock) : Type 0 where
  pub copies : 1 ≤ b.fat_count
  pub behind : 62 ≤ fat_get_root_table_addr b
  pub table : fat_get_root_table_addr b + fat_get_cluster_count b * 2 ≤ 2 ^ 32

-- The bytes of the table
abbrev pub in_table : BiosBlock → ℕ → Bool
in_table b i =
    leb (fat_get_root_table_addr b) i
    && ltb i (fat_get_root_table_addr b + fat_get_cluster_count b * 2)

pub value_addr_lem :
    (b : BiosBlock) (c : ℕ)
    → HasTable b
    → c < fat_get_cluster_count b
    → value_addr b c ≡ fat_get_root_table_addr b + c * 2
value_addr_lem b c h l = omega (arith, h.table)

-- Only the clusters of the disk have a value.
pub value-below :
    (d : Disk) (c n : ℕ) (m : Image)
    → fat_get_cluster_value d c m ≡ some n
    → c < fat_get_cluster_count (with_bpb d m)
unfolding fat_get_cluster_value
value-below d c n m e = elim (Bool-cases (ltb c (fat_get_cluster_count (with_bpb d m)))) [
  | inl l ↦ ground arith
  | inr o ↦ absurd (ground (arith, rw o at e))
]

-- The value of a cluster, as bytes of the table
abbrev pub value_of : ℕ → Image → BiosBlock → Option ℕ
value_of c m b =
    if ltb c (fat_get_cluster_count b)
    then some (uint16_at m (fat_get_root_table_addr b + c * 2))
    else none

module _ (d : Disk) (laws : IsDisk d) where
  pub uint16_read : (a : ℕ) (m : Image) → uint16_of (disk_read d a 2 m) ≡ uint16_at m a
  unfolding mem_disk_read
  uint16_read a m = ap uint16_of (laws.read a 2 m)

  -- The boot block is the same on disks with the same first bytes.
  pub with_bpb-same : (t m : Image) → ((k : ℕ) → k < 62 → t k ≡ m k) → with_bpb d t ≡ with_bpb d m
  unfolding with_bpb
  with_bpb-same t m same =
      let p = λ (k : ℕ) (l : k < 62).
        laws.view 0 t k ∙ same (0 + k) (omega arith) ∙ sym (laws.view 0 m k) in
      λ i. record {
        bytes_per_sector = p 11 (omega arith) i + 256 * p 12 (omega arith) i;
        sectors_per_cluster = p 13 (omega arith) i;
        reserved_sector_count = p 14 (omega arith) i + 256 * p 15 (omega arith) i;
        fat_count = p 16 (omega arith) i;
        root_entry_count = p 17 (omega arith) i + 256 * p 18 (omega arith) i;
        sector_count = p 19 (omega arith) i + 256 * p 20 (omega arith) i;
        media_type = p 21 (omega arith) i;
        sectors_per_fat = p 22 (omega arith) i + 256 * p 23 (omega arith) i;
        large_sector_count =
            p 32 (omega arith) i
            + 256 * p 33 (omega arith) i
            + 65536 * (p 34 (omega arith) i + 256 * p 35 (omega arith) i);
      }

  -- A write behind the boot block leaves it as it was.
  pub with_bpb-write :
      (a : ℕ) (bs : List ℕ) (m : Image) → 62 ≤ a → with_bpb d (disk_write d a bs m) ≡ with_bpb d m
  with_bpb-write a bs m h =
      with_bpb-same (disk_write d a bs m) m
        (λ k l. ap (λ t. t k) (laws.write a bs m) ∙ mem_disk_write-outside bs a m k (ground arith))

  -- The value of a cluster, as the table holds it
  pub fat_get_cluster_value_lem :
      (c : ℕ) (m : Image)
      → HasTable (with_bpb d m)
      → fat_get_cluster_value d c m ≡ (
          if ltb c (fat_get_cluster_count (with_bpb d m))
          then some (uint16_at m (fat_get_root_table_addr (with_bpb d m) + c * 2))
          else none)
  unfolding fat_get_cluster_value
  fat_get_cluster_value_lem c m h =
      elim (Bool-cases (ltb c (fat_get_cluster_count (with_bpb d m)))) [
        | inl l ↦ rw l (
            ap some (
              uint16_read (value_addr (with_bpb d m) c) m
              ∙ ap (uint16_at m) (value_addr_lem (with_bpb d m) c h (ground arith))))
        | inr n ↦ rw n refl
      ]

  -- The values are the same on disks with the same boot block and table.
  pub value-same :
      (b : BiosBlock) (t m : Image)
      → HasTable b
      → with_bpb d t ≡ b
      → with_bpb d m ≡ b
      → ((i : ℕ) → in_table b i ≡ true → t i ≡ m i)
      → (j : ℕ) → fat_get_cluster_value d j t ≡ fat_get_cluster_value d j m
  value-same b t m h e f same j =
      let a = fat_get_root_table_addr b + j * 2 in
      fat_get_cluster_value_lem j t (subst HasTable (sym e) h)
      ∙ ap (value_of j t) e
      ∙ ground (arith, same a, same (a + 1))
      ∙ sym (ap (value_of j m) f)
      ∙ sym (fat_get_cluster_value_lem j m (subst HasTable (sym f) h))

  -- What an update of a cluster's value does: the boot block is left, the value is the new one, all
  -- others and all bytes outside the table are as before.
  pub record Updated (c v : ℕ) (m t : Image) : Type 0 where
    pub bpb : with_bpb d t ≡ with_bpb d m
    pub value :
        (j : ℕ)
        → fat_get_cluster_value d j t
          ≡ (if c == j then some (v % 2 ^ 16) else fat_get_cluster_value d j m)
    pub outside : (i : ℕ) → in_table (with_bpb d m) i ≡ false → t i ≡ m i

  uint16_written :
      (a v i : ℕ) (m : Image)
      → i ≡ a
      → uint16_at (mem_disk_write a (uint16_bytes v) m) i ≡ v % 2 ^ 16
  unfolding mem_disk_write
  uint16_written a v i m e = ground arith

  uint16_kept :
      (a v i : ℕ) (m : Image)
      → (leb a (i + 1) && ltb i (a + 2)) ≡ false
      → uint16_at (mem_disk_write a (uint16_bytes v) m) i ≡ uint16_at m i
  unfolding mem_disk_write
  uint16_kept a v i m e = ground arith

  module _ (c v : ℕ) (m : Image) (h : HasTable (with_bpb d m))
      (l : c < fat_get_cluster_count (with_bpb d m)) where
    abbrev table_of : BiosBlock
    table_of = with_bpb d m

    abbrev written : Image
    written = disk_write d (value_addr table_of c) (uint16_bytes v) m

    written_lem :
        written ≡ mem_disk_write (fat_get_root_table_addr table_of + c * 2) (uint16_bytes v) m
    written_lem =
        laws.write (value_addr table_of c) (uint16_bytes v) m
        ∙ ap (λ a. mem_disk_write a (uint16_bytes v) m) (value_addr_lem table_of c h l)

    written_bpb : with_bpb d written ≡ table_of
    written_bpb =
        with_bpb-write (value_addr table_of c) (uint16_bytes v) m
          (omega (arith, value_addr_lem table_of c h l, h.behind))

    written_value :
        (j : ℕ)
        → fat_get_cluster_value d j written
          ≡ (if c == j then some (v % 2 ^ 16) else fat_get_cluster_value d j m)
    written_value j =
        let root = fat_get_root_table_addr table_of in
        let count = fat_get_cluster_count table_of in
        fat_get_cluster_value_lem j written (subst HasTable (sym written_bpb) h)
        ∙ (λ i.
            if ltb j (fat_get_cluster_count (written_bpb i))
            then some (uint16_at (written_lem i) (fat_get_root_table_addr (written_bpb i) + j * 2))
            else none)
        ∙ ground (
          arith,
          fat_get_cluster_value_lem j m h,
          uint16_written (root + c * 2) v (root + j * 2) m,
          uint16_kept (root + c * 2) v (root + j * 2) m,
        )

    written_outside : (i : ℕ) → in_table table_of i ≡ false → written i ≡ m i
    written_outside i o =
        ap (λ t. t i) written_lem
        ∙ mem_disk_write-outside (uint16_bytes v) (fat_get_root_table_addr table_of + c * 2) m i
            (ground arith)

    written-Updated : Updated c v m written
    written-Updated = record { bpb = written_bpb; value = written_value; outside = written_outside }

  Updated-again : (c v : ℕ) (m t u : Image) → Updated c v m t → Updated c v t u → Updated c v m u
  Updated-again c v m t u p q = record {
    bpb = q.bpb ∙ p.bpb;
    value = λ j. ground (arith, q.value j, p.value j);
    outside = λ i o. q.outside i (subst (λ b. in_table b i ≡ false) (sym p.bpb) o) ∙ p.outside i o;
  }

  set_Updated :
      (c v : ℕ) (m : Image)
      → HasTable (with_bpb d m)
      → c < fat_get_cluster_count (with_bpb d m)
      → (t : Image) × (fat_set_cluster_value d c v m ≡ some t) × Updated c v m t
  unfolding fat_set_cluster_value
  set_Updated c v m h l =
      let inside : ltb c (fat_get_cluster_count (with_bpb d m)) ≡ true = ground arith in
      (written c v m h l, rw inside refl, written-Updated c v m h l)

  copies_Updated :
      (n c v : ℕ) (m : Image)
      → HasTable (with_bpb d m)
      → c < fat_get_cluster_count (with_bpb d m)
      → 1 ≤ n
      → (t : Image) × (update_copies d n c v m ≡ some t) × Updated c v m t
  unfolding update_copies
  copies_Updated zero c v m h l n = absurd (omega arith)
  copies_Updated (suc zero) c v m h l n =
      let (t, e, u) = set_Updated c v m h l in (t, ap (λ o. o >>= (λ s. some s)) e, u)
  copies_Updated (suc (suc k)) c v m h l n =
      let (t, e, u) = set_Updated c v m h l in
      let (w, f, x) =
        copies_Updated (suc k) c v t (subst HasTable (sym u.bpb) h)
          (subst (λ b. c < fat_get_cluster_count b) (sym u.bpb) l) (omega arith) in
      (w, ap (λ o. o >>= update_copies d (suc k) c v) e ∙ f, Updated-again c v m t w u x)

  -- On a disk whose boot block has its table of clusters behind it, `fat_update_cluster` of a cluster
  -- of the disk fails no assertion, and afterwards that cluster has the given value, as 16 bits,
  -- every other cluster has its own, and the boot block and all bytes outside the table are as
  -- before.
  pub fat_update_cluster-Updated :
      (c v : ℕ) (m : Image)
      → HasTable (with_bpb d m)
      → c < fat_get_cluster_count (with_bpb d m)
      → (t : Image) × (fat_update_cluster d c v m ≡ some t) × Updated c v m t
  unfolding fat_update_cluster
  fat_update_cluster-Updated c v m h l = copies_Updated (with_bpb d m).fat_count c v m h l h.copies
