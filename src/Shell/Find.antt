-- ===== src/Shell/Find.antt =====
-- Lemmas on `find_file` of user/shell.c.
use calm_os.Base.{ℕ, ◌+◌, Bool, true, false, List, [], ◌∷◌, Option, none, some, map, if◌then◌else◌}
use calm_os.Disk.{Image, Disk}
use calm_os.Fat16.Layout.{with_bpb}
use calm_os.Fat16.Entries.{File}
use calm_os.Fat16.Entries.Listing.{visible_from, file_at}
use calm_os.Shell.{find_from}

module _ (same_string : List ℕ → List ℕ → Bool) (strchr : List ℕ → ℕ → Option ℕ) where
  -- The first file with a name
  abbrev pub first_named : List ℕ → List File → Option File
  first_named name [] = none
  first_named name (f ∷ fs) =
      let rest = first_named name fs in if same_string name f.name then some f else rest

  module _ (d : Disk) (m : Image) (pwd : ℕ) (name : List ℕ) where
    abbrev entries : ℕ
    entries = (with_bpb d m).root_entry_count

    abbrev files_from : ℕ → ℕ → List File
    files_from n i = map (file_at d pwd m) (visible_from d pwd m n i)

    -- What a round makes of the list of one file
    abbrev round : ℕ → ℕ → List File → Option File
    round fuel i [] = none
    round fuel i (f ∷ fs) = elim (same_string name f.name) [
      | true ↦ some f
      | false ↦ find_from same_string strchr d m pwd fuel (i + 1) name
    ]
