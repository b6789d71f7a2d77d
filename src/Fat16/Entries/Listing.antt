-- ===== src/Fat16/Entries/Listing.antt =====
-- The listing of a directory by `fat_fs_list` of kernel/filesystem/fat16.c.
use calm_os.Base.{
  ℕ, zero, suc, ◌+◌, ◌-◌, ◌≤◌, ◌<◌, ◌≡◌, ◌^◌, ◌==◌, ◌&&◌, Bool, true, false, List, [], ◌∷◌, Option,
  none, some, refl, arith, ap, ◌∙◌, sym, take, map, if◌then◌else◌, inl, inr, Bool-cases, ◌>>=◌,
}
use calm_os.Disk.{Image, Disk, disk_view}
use calm_os.Fat16.Layout.{with_bpb}
use calm_os.Fat16.Entries.{
  is_used, is_visible, entry_addr, rounds_from, find_entry_from, fat_find_entry, next_visible,
  fat_fs_list, file_of, File,
}

module _ (d : Disk) (cluster : ℕ) (m : Image) where
  abbrev entries : ℕ
  entries = (with_bpb d m).root_entry_count

  abbrev pub used_at : ℕ → Bool
  used_at i = is_used (disk_view d (entry_addr d m cluster i) m 0)

  abbrev pub visible_at : ℕ → Bool
  visible_at i = is_visible (disk_view d (entry_addr d m cluster i) m 11)

  -- The entries in use that are neither of the system nor a volume's name, among `n` from `i` on
  abbrev pub visible_from : ℕ → ℕ → List ℕ
  visible_from zero i = []
  visible_from (suc n) i =
      let rest = visible_from n (i + 1) in if used_at i && visible_at i then i ∷ rest else rest

  -- What follows a result of the search
  abbrev behind : Option ℕ → List ℕ
  behind none = []
  behind (some j) = j ∷ visible_from (entries - (j + 1)) (j + 1)

  -- The first of them
  visible_from-head : (n i j : ℕ) (js : List ℕ) → visible_from n i ≡ j ∷ js → j < i + n
  visible_from-head zero i j js e = cc
  visible_from-head (suc n) i j js e = elim (Bool-cases (used_at i && visible_at i)) [
    | inl y ↦ ground (arith, rw y at e)
    | inr o ↦ let later = visible_from-head n (i + 1) j js (rw o at e) in omega arith
  ]

  -- The entries are counted with 16 bits, and none of them stands at the address 0.
  pub record HasEntries : Type 0 where
    pub counted : entries < 2 ^ 16
    pub present : (i : ℕ) → i < entries → (entry_addr d m cluster i == 0) ≡ false

  find_none : (i : ℕ) → i < 2 ^ 31 → entries ≤ i → fat_find_entry d cluster false i m ≡ none
  unfolding fat_find_entry find_entry_from
  find_none i s l =
      let n : rounds_from entries i ≡ 0 = ground arith in
      ap (λ k. find_entry_from d m cluster false k i) n

  module _ (h : HasEntries) where
    find_here :
        (i : ℕ) → i < entries → used_at i ≡ true → fat_find_entry d cluster false i m ≡ some i
    unfolding fat_find_entry find_entry_from
    find_here i l u =
        let n : rounds_from entries i ≡ suc (entries - (i + 1)) = ground (arith, h.counted) in
        ap (λ k. find_entry_from d m cluster false k i) n ∙ rw (u, h.present i l) refl

    find_later :
        (i : ℕ)
        → i < entries
        → used_at i ≡ false
        → fat_find_entry d cluster false i m ≡ fat_find_entry d cluster false (i + 1) m
    unfolding fat_find_entry find_entry_from
    find_later i l u =
        let n : rounds_from entries i ≡ suc (rounds_from entries (i + 1)) =
          ground (arith, h.counted) in
        ap (λ k. find_entry_from d m cluster false k i) n ∙ rw u refl

  -- What a round does with the entry that it finds
  abbrev chosen : ℕ → ℕ → Option ℕ
  chosen fuel i = elim (visible_at i) [
    | true ↦ some i
    | false ↦ next_visible d cluster m fuel (i + 1)
  ]

  next_step :
      (fuel i : ℕ) (o : Option ℕ)
      → fat_find_entry d cluster false i m ≡ o
      → next_visible d cluster m (suc fuel) i ≡ (o >>= chosen fuel)
  unfolding next_visible
  next_step fuel i o e = ap (λ p. p >>= chosen fuel) e

  chosen_visible : (fuel i : ℕ) → visible_at i ≡ true → chosen fuel i ≡ some i
  chosen_visible fuel i v = rw (chosen, v) refl

  chosen_hidden :
      (fuel i : ℕ) → visible_at i ≡ false → chosen fuel i ≡ next_visible d cluster m fuel (i + 1)
  chosen_hidden fuel i v = rw (chosen, v) refl

  next_visible-behind :
      (n i fuel : ℕ)
      → HasEntries
      → i < 2 ^ 31
      → n ≡ entries - i
      → n < fuel
      → behind (next_visible d cluster m fuel i) ≡ visible_from n i
  next_visible-behind n i zero h s e l = absurd (omega arith)
  next_visible-behind zero i (suc fuel) h s e l =
      ap behind (next_step fuel i none (find_none i s (omega arith)))
  next_visible-behind (suc n) i (suc fuel) h s e l =
      let k : n ≡ entries - (i + 1) = omega arith in
      let small : i + 1 < 2 ^ 31 = omega (arith, h.counted) in
      let found =
        λ (u : used_at i ≡ true). next_step fuel i (some i) (find_here h i (omega arith) u) in
      elim (Bool-cases (used_at i)) [
        | inl u ↦ elim (Bool-cases (visible_at i)) [
          | inl v ↦
              ap behind (found u ∙ chosen_visible fuel i v)
              ∙ ap (λ r. i ∷ visible_from r (i + 1)) (sym k)
              ∙ rw (u, v) refl
          | inr v ↦
              ap behind (found u ∙ chosen_hidden fuel i v)
              ∙ next_visible-behind n (i + 1) fuel h small k (omega arith)
              ∙ rw (u, v) refl
        ]
        | inr u ↦
            ap behind (
              next_step fuel i (fat_find_entry d cluster false (i + 1) m)
                (find_later h i (omega arith) u)
              ∙ sym (next_step fuel (i + 1) (fat_find_entry d cluster false (i + 1) m) refl))
            ∙ next_visible-behind n (i + 1) (suc fuel) h small k (omega arith)
            ∙ rw u refl
      ]

  abbrev pub file_at : ℕ → File
  file_at i = file_of d cluster (entry_addr d m cluster i) m

  -- One place of the caller's array
  list_step :
      (nfiles n offset : ℕ) (o : Option ℕ)
      → ((j : ℕ)
          → j < offset + n
          → fat_fs_list d cluster nfiles (j + 1) m
            ≡ map file_at (take nfiles (visible_from (entries - (j + 1)) (j + 1))))
      → behind o ≡ visible_from n offset
      → (elim o as (λ _. List File) [
        | none ↦ []
        | some i ↦ file_at i ∷ fat_fs_list d cluster nfiles (i + 1) m
      ])
        ≡ map file_at (take (suc nfiles) (behind o))
  list_step nfiles n offset none h b = refl
  list_step nfiles n offset (some j) h b =
      ap (λ fs. file_at j ∷ fs) (h j (visible_from-head n offset j _ (sym b)))

  -- The list of a directory is right: when the entries are counted with 16 bits, and none of them stands
  -- at the address 0, `fat_fs_list` puts into an array of `nfiles` places the first of the files, in
  -- the order of their entries, whose entries stand at an offset below 2^31 or behind it, are in use,
  -- and are neither of the system nor a volume's name.
  pub fat_fs_list-visible_from :
      (nfiles offset : ℕ)
      → HasEntries
      → offset < 2 ^ 31
      → fat_fs_list d cluster nfiles offset m
        ≡ map file_at (take nfiles (visible_from (entries - offset) offset))
  unfolding fat_fs_list
  fat_fs_list-visible_from zero offset h s = refl
  fat_fs_list-visible_from (suc nfiles) offset h s =
      let rounds = rounds_from entries offset + 1 in
      let found = next_visible-behind (entries - offset) offset rounds h s refl (ground arith) in
      list_step nfiles (entries - offset) offset (next_visible d cluster m rounds offset)
        (λ j l. fat_fs_list-visible_from nfiles (j + 1) h (omega (arith, h.counted))) found
      ∙ ap (λ is. map file_at (take (suc nfiles) is)) found
