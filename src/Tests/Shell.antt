-- ===== src/Tests/Shell.antt =====
-- The theorem on the shell's search for a file applied to a disk with one file.
use calm_os.Base.{ℕ, ◌≡◌, ◌==◌, ◌&&◌, Bool, true, false, List, [], ◌∷◌, some, refl}
use calm_os.Shell.{name_index, shell_line}
use calm_os.Tests.Fat16.Images.{index_of}

abbrev same_string : List ℕ → List ℕ → Bool
same_string [] [] = true
same_string (x ∷ xs) (y ∷ ys) = x == y && same_string xs ys
same_string _ _ = false

-- "cat A.TXT" runs the fourth command.
cat_line :
    (shell_line same_string index_of (99 ∷ 97 ∷ 116 ∷ 32 ∷ 65 ∷ 46 ∷ 84 ∷ 88 ∷ 84 ∷ [])).command
    ≡ some 3
unfolding shell_line name_index
cat_line = refl
