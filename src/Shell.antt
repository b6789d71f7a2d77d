-- ===== src/Shell.antt =====
-- The shell of user/shell.c: which of its functions a line runs, and the functions on files. `strcmp` and
-- `strchr` of shared/string.c, copied from klibc, are parameters. What a function prints with `printf`
-- is not modelled; what it writes to the terminal is its result.
pub mod Find
use calm_os.Base.{
  ℕ, zero, suc, ◌+◌, ◌-◌, ◌*◌, ◌==◌, ◌&&◌, Bool, true, false, not, List, [], ◌∷◌, ◌++◌, Option,
  none, some, if◌then◌else◌, leb, ltb, length, take, drop, ◌>>=◌,
}
use Prim.Native.Nat.{bit_and}
use calm_os.Disk.{Image, Disk}
use calm_os.Fat16.Layout.{with_bpb}
use calm_os.Fat16.Entries.{File, fat_fs_list, fat_fs_read}

-- The names in `keywords` and `commands`
abbrev pub keywords : List (List ℕ)
keywords =
    (b'p' ∷ b's' ∷ [])
    ∷ (b'c' ∷ b'l' ∷ b'e' ∷ b'a' ∷ b'r' ∷ [])
    ∷ (b'u' ∷ b'p' ∷ b't' ∷ b'i' ∷ b'm' ∷ b'e' ∷ [])
    ∷ (b't' ∷ b'e' ∷ b's' ∷ b't' ∷ [])
    ∷ (b's' ∷ b'y' ∷ b's' ∷ b'_' ∷ b'i' ∷ b'n' ∷ b'f' ∷ b'o' ∷ [])
    ∷ (b'r' ∷ b'e' ∷ b'b' ∷ b'o' ∷ b'o' ∷ b't' ∷ [])
    ∷ (b'h' ∷ b'e' ∷ b'l' ∷ b'p' ∷ [])
    ∷ (b'l' ∷ b'o' ∷ b'g' ∷ b'o' ∷ [])
    ∷ (b'b' ∷ b'e' ∷ b'e' ∷ b'p' ∷ [])
    ∷ (b'p' ∷ b'i' ∷ b'n' ∷ b'g' ∷ [])
    ∷ (b'e' ∷ b'x' ∷ b'i' ∷ b't' ∷ [])
    ∷ []

abbrev pub commands : List (List ℕ)
commands =
    (b'e' ∷ b'c' ∷ b'h' ∷ b'o' ∷ [])
    ∷ (b'c' ∷ b'd' ∷ [])
    ∷ (b'l' ∷ b's' ∷ [])
    ∷ (b'c' ∷ b'a' ∷ b't' ∷ [])
    ∷ (b'p' ∷ b'l' ∷ b'a' ∷ b'y' ∷ [])
    ∷ []

-- The keyword and the command that a line runs, by their numbers, and the command's argument
pub record Run : Type 0 where
  pub keyword : Option ℕ
  pub command : Option ℕ
  pub arg : List ℕ

abbrev pub word_of : Option ℕ → List ℕ → List ℕ
word_of none buffer = buffer
word_of (some i) buffer = take i buffer

abbrev pub arg_of : Option ℕ → List ℕ → List ℕ
arg_of none buffer = []
arg_of (some i) buffer = drop (i + 1) buffer

-- The value of `echo`'s argument, if it has one
abbrev pub echo_args : List (List ℕ × Bool)
echo_args =
    (b'0' ∷ [], false)
    ∷ (b'1' ∷ [], true)
    ∷ (b'o' ∷ b'n' ∷ [], true)
    ∷ (b'o' ∷ b'f' ∷ b'f' ∷ [], false)
    ∷ []

module _ (same_string : List ℕ → List ℕ → Bool) (strchr : List ℕ → ℕ → Option ℕ) where
  -- The loops over the two tables, with the number of the next entry
  unfoldable pub name_index : List (List ℕ) → List ℕ → ℕ → Option ℕ
  name_index [] word i = none
  name_index (name ∷ names) word i =
      let rest = name_index names word (i + 1) in if same_string name word then some i else rest

  -- A line of `shell`
  unfoldable pub shell_line : List ℕ → Run
  unfolding name_index
  shell_line buffer =
      let first_word = strchr buffer 32 in
      let word = word_of first_word buffer in
      record {
        keyword = name_index keywords word 0;
        command = name_index commands word 0;
        arg = arg_of first_word buffer;
      }

  unfoldable pub echo_value : List (List ℕ × Bool) → List ℕ → Option Bool
  echo_value [] arg = none
  echo_value ((name, val) ∷ rest) arg =
      let other = echo_value rest arg in if same_string arg name then some val else other

  module _ (d : Disk) (m : Image) (pwd : ℕ) where
    -- The loop of `find_file` from an offset on. There is no file behind the last entry, so that it
    -- ends before it has made more rounds than the directory has entries.
    unfoldable pub find_from : ℕ → ℕ → List ℕ → Option File
    find_from zero i name = none
    find_from (suc fuel) i name = elim (fat_fs_list d pwd 1 i m) [
      | [] ↦ none
      | f ∷ fs ↦ elim (same_string name f.name) [
        | true ↦ some f
        | false ↦ find_from fuel (i + 1) name
      ]
    ]

    unfoldable pub find_file : List ℕ → Option File
    unfolding find_from
    find_file name = find_from ((with_bpb d m).root_entry_count + 1) 0 name

    abbrev pub is_directory : File → Bool
    is_directory f = not (bit_and f.attribs 0x10 == 0)

    -- The file of a path that is not empty
    abbrev pub file_at_path : List ℕ → Option File
    file_at_path [] = none
    file_at_path (c ∷ cs) = find_file (c ∷ cs)

    -- The cluster of the new directory, and whether there is one
    abbrev pub enter : Option File → ℕ × Bool
    enter none = (pwd, false)
    enter (some f) = if is_directory f then (f.cluster_index, true) else (pwd, false)

    unfoldable pub cd : List ℕ → ℕ × Bool
    unfolding find_file
    cd path = enter (file_at_path path)

    -- Without a path the directory is the current one; the list is that of it as well when the path
    -- is no directory's.
    unfoldable pub ls : List ℕ → List File
    unfolding find_file
    ls path = fat_fs_list d (enter (file_at_path path)).0 20 0 m

    -- The loop of `cat`, with the bytes written so far
    unfoldable pub cat_from : ℕ → ℕ → File → ℕ → List ℕ → Option (List ℕ)
    cat_from rounds zero f offset out = if ltb offset f.size then none else some out
    cat_from rounds (suc fuel) f offset out = elim (ltb offset f.size) [
      | true ↦ fat_fs_read d rounds f offset 2000 m >>= λ bytes.
          (if length bytes == 0
            then some out
            else cat_from rounds fuel f (offset + 2000) (out ++ bytes))
      | false ↦ some out
    ]

    abbrev pub cat_file : ℕ → Option File → Option (Option (List ℕ))
    cat_file rounds none = some none
    cat_file rounds (some f) =
        if is_directory f
        then some none
        else cat_from rounds (f.size + 1) f 0 [] >>= λ bytes. some (some bytes)

    -- The content that is written, or none when there is no such file
    unfoldable pub cat : ℕ → List ℕ → Option (Option (List ℕ))
    unfolding find_file cat_from
    cat rounds path = cat_file rounds (file_at_path path)
