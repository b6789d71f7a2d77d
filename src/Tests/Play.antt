-- ===== src/Tests/Play.antt =====
-- The theorems on music lines applied to two of them.
use calm_os.Base.{◌≡◌, true, [], ◌∷◌, ◌++◌, arith}
use calm_os.Play.{play_note}
use calm_os.Play.Laws.{sharp_name, flat_name, at_key, is_none, play_note-key, play_note-outside}

-- C sharp and D flat of the second octave, a crotchet
play_note-key_example :
    (play_note (sharp_name 1 ++ b'2' ∷ b' ' ∷ b'N' ∷ b'O' ∷ []) ≡ at_key 1 b'2' b'N' b'O')
    × (play_note (flat_name 1 ++ b'2' ∷ b' ' ∷ b'N' ∷ b'O' ∷ []) ≡ at_key 1 b'2' b'N' b'O')
play_note-key_example = play_note-key b'2' b' ' b'N' b'O' [] 1 (omega arith)

-- "CB1 NO"
play_note-outside_example :
    is_none (play_note (b'C' ∷ b'B' ∷ b'1' ∷ b' ' ∷ b'N' ∷ b'O' ∷ [])) ≡ true
play_note-outside_example = play_note-outside (b'C' ∷ b'B' ∷ b'1' ∷ b' ' ∷ b'N' ∷ b'O' ∷ [])
