-- ===== src/Play.antt =====
-- The music of user/play.c: what one line of a file asks for. `strtoul` of shared/strtoul.c is a
-- parameter: the number at the start of a text. A byte behind the line's end counts as 0, and the
-- reading of a scale outside its twelve notes is a missing result. Factors of `float` are their names.
pub mod Laws
use calm_os.Base.{
  ℕ, suc, ◌+◌, ◌-◌, ◌==◌, ℤ, pos, negsuc, ◌+ℤ◌, Bool, List, [], ◌∷◌, Option, none, some,
  if◌then◌else◌, ltb, get_elem?, get_or, drop, ◌>>=◌, ◌==ℤ◌,
}

abbrev pub low_notes : List ℕ
low_notes = 262 ∷ 277 ∷ 294 ∷ 311 ∷ 330 ∷ 349 ∷ 370 ∷ 392 ∷ 415 ∷ 440 ∷ 466 ∷ 494 ∷ []

abbrev pub medium_notes : List ℕ
medium_notes = 523 ∷ 554 ∷ 587 ∷ 622 ∷ 659 ∷ 698 ∷ 740 ∷ 784 ∷ 831 ∷ 880 ∷ 932 ∷ 988 ∷ []

abbrev pub high_notes : List ℕ
high_notes = 1046 ∷ 1109 ∷ 1175 ∷ 1244 ∷ 1318 ∷ 1397 ∷ 1480 ∷ 1568 ∷ 1661 ∷ 1760 ∷ 1865 ∷ 1975 ∷ []

-- The names of figures_fact and pauses_fact, and the value -1 for a code that is none
pub data Figure : Type 0 where
  figure_ro figure_bp figure_bl figure_np figure_no figure_cp figure_cr figure_dc no_figure : Figure

pub data Pause : Type 0 where
  pause_pa pause_dp pause_so pause_ds pause_qs pause_hs no_pause : Pause

-- What a line makes the player do
pub data Action : Type 0 where
  sets_tempo : ℕ → Action
  no_tempo incorrect : Action
  plays : ℕ → Figure → Action
  waits : Pause → Action

abbrev pub scale_of : ℕ → List ℕ
scale_of octave =
    if octave == b'1' then low_notes else if octave == b'2' then medium_notes else high_notes

abbrev pub accidental_of : ℕ → ℤ
accidental_of c = if c == b'B' then negsuc 0 else if c == b'D' then pos 1 else pos 0

-- The places of the letters in a scale, from `enum notes`
abbrev pub place_of : ℕ → Option ℕ
place_of c =
    if c == b'C'
    then some 0
    else if c == b'D'
    then some 2
    else if c == b'E'
    then some 4
    else if c == b'F'
    then some 5
    else if c == b'G'
    then some 7
    else if c == b'A'
    then some 9
    else if c == b'B'
    then some 11
    else none

-- A scale read at an index; below or behind it is no note.
abbrev pub scale_at : List ℕ → ℤ → Option ℕ
scale_at scale (pos n) = get_elem? scale n
scale_at scale (negsuc n) = none

abbrev pub figure_of : ℕ → ℕ → Figure
figure_of a b =
    if a == b'R'
    then figure_ro
    else if a == b'B'
    then (if b == b'L' then figure_bl else figure_bp)
    else if a == b'N'
    then (if b == b'O' then figure_no else figure_np)
    else if a == b'C'
    then (if b == b'R' then figure_cr else figure_cp)
    else if a == b'D'
    then figure_dc
    else no_figure

abbrev pub pause_of : ℕ → ℕ → Pause
pause_of a b =
    if a == b'P'
    then pause_pa
    else if a == b'D'
    then (if b == b'P' then pause_dp else pause_ds)
    else if a == b'S'
    then pause_so
    else if a == b'Q'
    then pause_qs
    else if a == b'H'
    then pause_hs
    else no_pause

-- The note of a line that starts with a letter, and the figure
unfoldable pub play_note : List ℕ → Option Action
play_note line = elim (place_of (get_or line 0 0)) [
  | none ↦ some incorrect
  | some place ↦
      scale_at (scale_of (get_or line 2 0)) (pos place +ℤ accidental_of (get_or line 1 0))
      >>= λ note. some (plays note (figure_of (get_or line 4 0) (get_or line 5 0)))
]

unfoldable pub wait_silence : List ℕ → Action
wait_silence line = waits (pause_of (get_or line 2 0) (get_or line 3 0))

abbrev pub is_unset : ℤ → Bool
is_unset tempo = tempo ==ℤ negsuc 0

module _ (strtoul : List ℕ → ℕ) where
  -- What the line asks for, under the tempo that is set
  unfoldable pub decode_music_line : ℤ → List ℕ → Option Action
  unfolding play_note wait_silence
  decode_music_line tempo line =
      if get_or line 0 0 == b'T'
      then some (sets_tempo (strtoul (drop 2 line)))
      else if is_unset tempo
      then some no_tempo
      else if get_or line 0 0 == b'P'
      then some (wait_silence line)
      else play_note line
