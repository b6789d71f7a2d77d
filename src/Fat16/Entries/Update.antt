-- ===== src/Fat16/Entries/Update.antt =====
-- Lemmas on `fat_update_dir_entry` and `set_padded_string` of kernel/filesystem/fat16.c.
use calm_os.Base.{
  ℕ, zero, suc, ◌+◌, ◌-◌, ◌*◌, ◌/◌, ◌%◌, ◌^◌, ◌≡◌, ◌&&◌, false, List, [], ◌∷◌, ◌++◌, Option, none,
  some, refl, arith, ap, ◌∙◌, length, take, if◌then◌else◌, leb, ltb, get_or, map, replicate,
  length-append, length-take,
}
use calm_os.Disk.{Image, Disk, IsDisk}
use calm_os.Disk.Laws.{mem_disk_write_lem}
use calm_os.Fat16.Layout.{uint16_at, uint32_at}
use calm_os.Fat16.Clusters.{uint16_bytes}
use calm_os.Fat16.Names.{to_upper, set_padded_string}
use calm_os.Fat16.Entries.{fat_update_dir_entry}

four_bytes :
    (n : ℕ)
    → n % 256 + 256 * (n / 256 % 256) + 65536 * (n / 65536 % 256 + 256 * (n / 16777216 % 256))
      ≡ n % 2 ^ 32
four_bytes n = omega arith

length-map : (f : ℕ → ℕ) (xs : List ℕ) → length (map f xs) ≡ length xs
length-map f [] = refl
length-map f (x ∷ xs) = ap suc (length-map f xs)

length-replicate : (n x : ℕ) → length (replicate n x) ≡ n
length-replicate zero x = refl
length-replicate (suc n) x = ap suc (length-replicate n x)

pub length-set_padded_string :
    (n : ℕ) (src : Option (List ℕ)) → length (set_padded_string n src) ≡ n
unfolding set_padded_string
length-set_padded_string n none = length-replicate n 32
length-set_padded_string n (some src) =
    length-map to_upper
      (if ltb n (length src) then take n src else src ++ replicate (n - length src) 32)
    ∙ ground (
      arith,
      length-take n src,
      length-append src (replicate (n - length src) 32),
      length-replicate (n - length src) 32,
    )

module _ (d : Disk) (laws : IsDisk d) where
  poke_lem :
      (a : ℕ) (bs : List ℕ) (m : Image) (i : ℕ)
      → d.poke a bs m i ≡ (if leb a i && ltb i (a + length bs) then get_or bs (i - a) 0 else m i)
  poke_lem a bs m i = ap (λ t. t i) (laws.poke a bs m) ∙ mem_disk_write_lem bs a m i

  module _ (addr cluster : ℕ) (name ext : List ℕ) (size : ℕ) (m : Image) (n : length name ≡ 8)
      (x : length ext ≡ 3) where
    abbrev size_bytes : List ℕ
    size_bytes =
        (size % 256) ∷ (size / 256 % 256) ∷ (size / 65536 % 256) ∷ (size / 16777216 % 256) ∷ []

    abbrev linked : Image
    linked = d.poke (addr + 26) (uint16_bytes cluster) m

    abbrev named : Image
    named = d.poke (addr + 8) ext (d.poke addr name linked)

    -- The bytes of an entry after its update, by the four writes
    updated :
        (i : ℕ)
        → fat_update_dir_entry d addr cluster name ext size m i ≡ (
            if leb (addr + 28) i && ltb i (addr + 32)
            then get_or size_bytes (i - (addr + 28)) 0
            else if leb (addr + 8) i && ltb i (addr + 11)
            then get_or ext (i - (addr + 8)) 0
            else if leb addr i && ltb i (addr + 8)
            then get_or name (i - addr) 0
            else if leb (addr + 26) i && ltb i (addr + 28)
            then get_or (uint16_bytes cluster) (i - (addr + 26)) 0
            else m i)
    unfolding fat_update_dir_entry
    updated i = ground (
      arith,
      n,
      x,
      poke_lem (addr + 28) size_bytes named i,
      poke_lem (addr + 8) ext (d.poke addr name linked) i,
      poke_lem addr name linked i,
      poke_lem (addr + 26) (uint16_bytes cluster) m i,
    )

    -- An entry is 32 bytes.
    pub update-outside :
        (i : ℕ)
        → (leb addr i && ltb i (addr + 32)) ≡ false
        → fat_update_dir_entry d addr cluster name ext size m i ≡ m i
    update-outside i o = ground (arith, updated i)

    pub update-cluster :
        uint16_at (λ k. fat_update_dir_entry d addr cluster name ext size m (addr + k)) 26
        ≡ cluster % 2 ^ 16
    update-cluster = ground (arith, updated (addr + 26), updated (addr + 27))

    pub update-size :
        uint32_at (λ k. fat_update_dir_entry d addr cluster name ext size m (addr + k)) 28
        ≡ size % 2 ^ 32
    update-size =
        let t = fat_update_dir_entry d addr cluster name ext size m in
        let p : t (addr + 28) ≡ size % 256 = ground (arith, updated (addr + 28)) in
        let q : t (addr + 29) ≡ size / 256 % 256 = ground (arith, updated (addr + 29)) in
        let r : t (addr + 30) ≡ size / 65536 % 256 = ground (arith, updated (addr + 30)) in
        let s : t (addr + 31) ≡ size / 16777216 % 256 = ground (arith, updated (addr + 31)) in
        (λ i. p i + 256 * q i + 65536 * (r i + 256 * s i)) ∙ four_bytes size
