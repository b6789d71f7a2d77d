-- ===== src/Play/Laws.antt =====
-- Lemmas on the music lines of user/play.c.
use calm_os.Base.{
  ℕ, zero, suc, ◌<◌, ◌≡◌, ◌==◌, ◌&&◌, ◌||◌, true, false, ℤ, pos, negsuc, ◌+ℤ◌, Bool, List, [], ◌∷◌,
  ◌++◌, Option, none, some, refl, arith, ap, ◌∙◌, get_elem?, get_or, if◌then◌else◌, length, ◌>>=◌,
  Option-cases, inl, inr, branch, leb,
}
use calm_os.Play.{Action, plays, scale_of, place_of, accidental_of, figure_of, scale_at, play_note}

-- A key of the piano under its names: with a sharp (D), or with a flat (B), where it has one
abbrev pub sharp_name : ℕ → List ℕ
sharp_name k =
    if k == 0
    then b'C' ∷ b'N' ∷ []
    else if k == 1
    then b'C' ∷ b'D' ∷ []
    else if k == 2
    then b'D' ∷ b'N' ∷ []
    else if k == 3
    then b'D' ∷ b'D' ∷ []
    else if k == 4
    then b'E' ∷ b'N' ∷ []
    else if k == 5
    then b'E' ∷ b'D' ∷ []
    else if k == 6
    then b'F' ∷ b'D' ∷ []
    else if k == 7
    then b'G' ∷ b'N' ∷ []
    else if k == 8
    then b'G' ∷ b'D' ∷ []
    else if k == 9
    then b'A' ∷ b'N' ∷ []
    else if k == 10
    then b'A' ∷ b'D' ∷ []
    else b'B' ∷ b'N' ∷ []

abbrev pub flat_name : ℕ → List ℕ
flat_name k =
    if k == 0
    then b'C' ∷ b'N' ∷ []
    else if k == 1
    then b'D' ∷ b'B' ∷ []
    else if k == 2
    then b'D' ∷ b'N' ∷ []
    else if k == 3
    then b'E' ∷ b'B' ∷ []
    else if k == 4
    then b'F' ∷ b'B' ∷ []
    else if k == 5
    then b'F' ∷ b'N' ∷ []
    else if k == 6
    then b'G' ∷ b'B' ∷ []
    else if k == 7
    then b'G' ∷ b'N' ∷ []
    else if k == 8
    then b'A' ∷ b'B' ∷ []
    else if k == 9
    then b'A' ∷ b'N' ∷ []
    else if k == 10
    then b'B' ∷ b'B' ∷ []
    else b'B' ∷ b'N' ∷ []

abbrev pub at_key : ℕ → ℕ → ℕ → ℕ → Option Action
at_key k octave a b = get_elem? (scale_of octave) k >>= λ note. some (plays note (figure_of a b))

module _ (octave space a b : ℕ) (rest : List ℕ) where
  abbrev tail : List ℕ
  tail = octave ∷ space ∷ a ∷ b ∷ rest

  -- A line of a key's name, of either spelling, plays the key: `play_note` of a line of a name of one
  -- of the twelve keys, an octave and a figure plays the key's frequency in the octave's scale, for
  -- the figure.
  pub play_note-key :
      (k : ℕ)
      → k < 12
      → (play_note (sharp_name k ++ tail) ≡ at_key k octave a b)
        × (play_note (flat_name k ++ tail) ≡ at_key k octave a b)
  unfolding play_note ◌+ℤ◌
  play_note-key zero h = (refl, refl)
  play_note-key (suc zero) h = (refl, refl)
  play_note-key (suc (suc zero)) h = (refl, refl)
  play_note-key (suc (suc (suc zero))) h = (refl, refl)
  play_note-key (suc (suc (suc (suc zero)))) h = (refl, refl)
  play_note-key (suc (suc (suc (suc (suc zero))))) h = (refl, refl)
  play_note-key (suc (suc (suc (suc (suc (suc zero)))))) h = (refl, refl)
  play_note-key (suc (suc (suc (suc (suc (suc (suc zero))))))) h = (refl, refl)
  play_note-key (suc (suc (suc (suc (suc (suc (suc (suc zero)))))))) h = (refl, refl)
  play_note-key (suc (suc (suc (suc (suc (suc (suc (suc (suc zero))))))))) h = (refl, refl)
  play_note-key (suc (suc (suc (suc (suc (suc (suc (suc (suc (suc zero)))))))))) h = (refl, refl)
  play_note-key (suc (suc (suc (suc (suc (suc (suc (suc (suc (suc (suc zero))))))))))) h =
      (refl, refl)
  play_note-key (suc (suc (suc (suc (suc (suc (suc (suc (suc (suc (suc (suc k)))))))))))) h =
      absurd (omega arith)

abbrev pub is_none {ℓ} : {A : Type ℓ} → Option A → Bool
is_none none = true
is_none (some x) = false

get_elem_none : (xs : List ℕ) (n : ℕ) → is_none (get_elem? xs n) ≡ leb (length xs) n
get_elem_none [] n = ground arith
get_elem_none (x ∷ xs) zero = ground arith
get_elem_none (x ∷ xs) (suc n) = get_elem_none xs n ∙ ground arith

length-scale_of : (octave : ℕ) → length (scale_of octave) ≡ 12
length-scale_of octave =
    branch (λ (xs : List ℕ). length xs ≡ 12) (octave == b'1') _ _ (λ h. refl)
      (λ h. branch (λ (xs : List ℕ). length xs ≡ 12) (octave == b'2') _ _ (λ g. refl) (λ g. refl))

abbrev outside : ℤ → Bool
outside (pos n) = leb 12 n
outside (negsuc n) = true

scale_at_none : (octave : ℕ) (z : ℤ) → is_none (scale_at (scale_of octave) z) ≡ outside z
scale_at_none octave (pos n) =
    get_elem_none (scale_of octave) n ∙ ap (λ k. leb k n) (length-scale_of octave)
scale_at_none octave (negsuc n) = refl

outside_lem :
    (c acc place : ℕ)
    → place_of c ≡ some place
    → outside (pos place +ℤ accidental_of acc)
      ≡ ((c == b'C' && acc == b'B') || (c == b'B' && acc == b'D'))
unfolding ◌+ℤ◌
outside_lem c acc place h = ground arith

placed : (c : ℕ) → place_of c ≡ none → ((c == b'C') ≡ false) × ((c == b'B') ≡ false)
placed c h = (ground arith, ground arith)

bind_none : (o : Option ℕ) (f : ℕ → Action) → is_none (o >>= λ x. some (f x)) ≡ is_none o
bind_none none f = refl
bind_none (some x) f = refl

-- A scale is read inside but for two notes: whatever the line, `play_note` reads a scale outside its
-- twelve notes exactly when the line names C flat or B sharp.
pub play_note-outside :
    (line : List ℕ)
    → is_none (play_note line) ≡ (
        (get_or line 0 0 == b'C' && get_or line 1 0 == b'B')
        || (get_or line 0 0 == b'B' && get_or line 1 0 == b'D'))
unfolding play_note
play_note-outside line =
    let c = get_or line 0 0 in
    let acc = get_or line 1 0 in
    elim (Option-cases (place_of c)) [
      | inl e ↦ let (n, m) = placed c e in rw (play_note, e) (ground (arith, n, m))
      | inr (place, e) ↦
          rw (play_note, e)
            (bind_none (scale_at (scale_of (get_or line 2 0)) (pos place +ℤ accidental_of acc)) _
              ∙ scale_at_none (get_or line 2 0) (pos place +ℤ accidental_of acc)
              ∙ outside_lem c acc place e)
    ]
