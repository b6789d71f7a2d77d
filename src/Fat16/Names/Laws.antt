-- ===== src/Fat16/Names/Laws.antt =====
-- Lemmas on the short names of kernel/filesystem/fat16.c.
use calm_os.Base.{
  ℕ, zero, suc, ◌+◌, ◌-◌, ◌≤◌, ◌<◌, ◌≡◌, ◌≢◌, ◌==◌, ◌&&◌, true, false, not, List, [], ◌∷◌, ◌++◌,
  map, some, refl, arith, ap, ◌∙◌, sym, subst, if◌then◌else◌, inl, inr, Bool-cases, leb, ltb, take,
  take_all, drop, length, replicate, get_or,
}
use calm_os.Disk.{mem_disk_read}
use calm_os.Fat16.Names.{
  to_upper, set_padded_string, StringOps, base_name, stem, extension, fat_split_path, trim_length,
  dotted, short_name,
}

-- The last character of a text, as it is stored
abbrev pub last_upper : List ℕ → ℕ
last_upper s = get_or (map to_upper s) (length s - 1) 0

length-upper : (s : List ℕ) → length (map to_upper s) ≡ length s
length-upper [] = refl
length-upper (x ∷ xs) = ap suc (length-upper xs)

-- The characters of a padded text
padded_own :
    (s : List ℕ) (n k : ℕ)
    → k < length s
    → get_or (map to_upper (s ++ replicate n 32)) k 0 ≡ get_or (map to_upper s) k 0
padded_own [] n k l = absurd (omega arith)
padded_own (x ∷ xs) n zero l = refl
padded_own (x ∷ xs) n (suc k) l = padded_own xs n k (omega arith)

padded_space :
    (s : List ℕ) (n k : ℕ)
    → length s ≤ k
    → k < length s + n
    → get_or (map to_upper (s ++ replicate n 32)) k 0 ≡ 32
padded_space [] zero k l h = absurd (omega arith)
padded_space [] (suc n) zero l h = refl
padded_space [] (suc n) (suc k) l h = padded_space [] n k (omega arith) (omega arith)
padded_space (x ∷ xs) n zero l h = absurd (omega arith)
padded_space (x ∷ xs) n (suc k) l h = padded_space xs n k (omega arith) (omega arith)

trim_length_lem :
    (entry : ℕ → ℕ) (a n len : ℕ)
    → len ≤ n
    → ((k : ℕ) → len ≤ k → k < n → entry (a + k) ≡ 32)
    → (0 < len → entry (a + (len - 1)) ≢ 32)
    → trim_length entry a n ≡ len
unfolding trim_length
trim_length_lem entry a zero len l sp own = omega arith
trim_length_lem entry a (suc n) len l sp own = elim (Bool-cases (leb len n)) [
  | inl more ↦
      let space : (entry (a + n) == 32) ≡ true =
        ground (arith, sp n (ground arith) (omega arith)) in
      rw (trim_length, space)
        (trim_length_lem entry a n len (ground arith) (λ k lo hi. sp k lo (omega arith)) own)
  | inr last_one ↦
      let at : len - 1 ≡ n = ground arith in
      let kept : (entry (a + n) == 32) ≡ false =
        ground (arith, subst (λ k. entry (a + k) ≢ 32) at (own (ground arith))) in
      rw (trim_length, kept) (ground arith)
]

read_list :
    (xs : List ℕ) (entry : ℕ → ℕ) (a : ℕ)
    → ((k : ℕ) → k < length xs → entry (a + k) ≡ get_or xs k 0)
    → mem_disk_read a (length xs) entry ≡ xs
unfolding mem_disk_read
read_list [] entry a h = refl
read_list (x ∷ xs) entry a h =
    let first : entry a ≡ x =
      subst (λ k. entry k ≡ x) {x = a + 0} (omega arith) (h zero (omega arith)) in
    λ i.
      first i
      ∷ read_list xs entry (a + 1)
          (λ k l.
            subst (λ j. entry j ≡ get_or xs k 0) {x = a + suc k} (omega arith)
              (h (suc k) (omega arith)))
          i

module _ (entry : ℕ → ℕ) (a n : ℕ) (s : List ℕ) (short : length s ≤ n)
    (own : (k : ℕ)
      → k < n
      → entry (a + k) ≡ get_or (map to_upper (s ++ replicate (n - length s) 32)) k 0) where
  field-trim_length : (0 < length s → last_upper s ≢ 32) → trim_length entry a n ≡ length s
  field-trim_length ends =
      trim_length_lem entry a n (length s) short
        (λ k lo hi. own k hi ∙ padded_space s (n - length s) k lo (omega arith))
        (λ p e. ends p (
          sym (padded_own s (n - length s) (length s - 1) (omega arith))
          ∙ sym (own (length s - 1) (omega arith))
          ∙ e))

  field_read : mem_disk_read a (length s) entry ≡ map to_upper s
  field_read =
      ap (λ k. mem_disk_read a k entry) (sym (length-upper s))
      ∙ read_list (map to_upper s) entry a (λ k l.
        own k (omega (arith, length-upper s))
        ∙ padded_own s (n - length s) k (omega (arith, length-upper s)))

take_own : (s t : List ℕ) → take (length s) (s ++ t) ≡ s
take_own [] t = refl
take_own (x ∷ xs) t = ap (λ ys. x ∷ ys) (take_own xs t)

drop_own : (s : List ℕ) (c : ℕ) (t : List ℕ) → drop (length s + 1) (s ++ c ∷ t) ≡ t
drop_own [] c t = refl
drop_own (x ∷ xs) c t =
    subst (λ k. drop k (x ∷ xs ++ c ∷ t) ≡ t) {x = suc (length xs + 1)} (omega arith)
      (drop_own xs c t)

padded :
    (n : ℕ) (s : List ℕ)
    → length s ≤ n
    → set_padded_string n (some s) ≡ map to_upper (s ++ replicate (n - length s) 32)
unfolding set_padded_string
padded n s l = let fits : ltb n (length s) ≡ false = ground arith in rw fits refl

dotted_lem :
    (name ext : List ℕ)
    → length name ≤ 8
    → 0 < length ext
    → length ext ≤ 3
    → dotted 31 name ext ≡ name ++ 0x2e ∷ ext
dotted_lem name ext l p q =
    let there : (not (length ext == 0) && ltb (length name) 31) ≡ true = ground arith in
    rw (dotted, there)
      (ap (λ t. name ++ 0x2e ∷ t) (take_all (31 - (length name + 1)) ext (omega arith)))

-- A name of a file is read as it was written, in capitals: for a path whose last part is a text of 1 to 8
-- characters, the first dot, and a text of 1 to 3, neither of which ends in a space, the entry that
-- has the two fields of `fat_split_path` as its first bytes has the short name that consists of
-- the first text in capitals, a dot, and the second one in capitals.
pub short_name-fat_split_path :
    (ops : StringOps) (path s e : List ℕ) (entry : ℕ → ℕ)
    → base_name (ops.strrchr path 0x2f) path ≡ s ++ 0x2e ∷ e
    → ops.strchr (s ++ 0x2e ∷ e) 0x2e ≡ some (length s)
    → 0 < length s
    → length s ≤ 8
    → 0 < length e
    → length e ≤ 3
    → last_upper s ≢ 32
    → last_upper e ≢ 32
    → ((k : ℕ) → k < 8 → entry (0 + k) ≡ get_or (fat_split_path ops path).0 k 0)
    → ((k : ℕ) → k < 3 → entry (8 + k) ≡ get_or (fat_split_path ops path).1 k 0)
    → short_name entry 31 ≡ map to_upper s ++ 0x2e ∷ map to_upper e
unfolding fat_split_path short_name
short_name-fat_split_path ops path s e entry last_part dot p l q k ends_s ends_e name_at ext_at =
    let name : (fat_split_path ops path).0 ≡ map to_upper (s ++ replicate (8 - length s) 32) =
      (λ i. set_padded_string 8 (some (stem (ops.strchr (last_part i) 0x2e) (last_part i))))
      ∙ (λ i. set_padded_string 8 (some (stem (dot i) (s ++ 0x2e ∷ e))))
      ∙ (λ i. set_padded_string 8 (some (take_own s (0x2e ∷ e) i)))
      ∙ padded 8 s l in
    let ext : (fat_split_path ops path).1 ≡ map to_upper (e ++ replicate (3 - length e) 32) =
      (λ i. set_padded_string 3 (extension (ops.strchr (last_part i) 0x2e) (last_part i)))
      ∙ (λ i. set_padded_string 3 (extension (dot i) (s ++ 0x2e ∷ e)))
      ∙ (λ i. set_padded_string 3 (some (drop_own s 0x2e e i)))
      ∙ padded 3 e k in
    let own_s = λ (j : ℕ) (h : j < 8). name_at j h ∙ ap (λ t. get_or t j 0) name in
    let own_e = λ (j : ℕ) (h : j < 3). ext_at j h ∙ ap (λ t. get_or t j 0) ext in
    let n : trim_length entry 0 8 ≡ length s =
      field-trim_length entry 0 8 s l own_s (λ x. ends_s) in
    let m : trim_length entry 8 3 ≡ length e =
      field-trim_length entry 8 3 e k own_e (λ x. ends_e) in
    let cut : (if ltb 31 (trim_length entry 0 8) then 31 else trim_length entry 0 8) ≡ length s =
      ground (arith, n) in
    (λ i. dotted 31 (mem_disk_read 0 (cut i) entry) (mem_disk_read 8 (m i) entry))
    ∙ (λ i. dotted 31 (field_read entry 0 8 s l own_s i) (field_read entry 8 3 e k own_e i))
    ∙ dotted_lem (map to_upper s) (map to_upper e) (omega (arith, length-upper s))
        (omega (arith, length-upper e)) (omega (arith, length-upper e))
