-- ===== src/Fat16/Names.antt =====
-- Short names of files: a path is cut into a name and an extension, both padded with spaces, and a
-- directory entry's name is read back. `strchr` and `strrchr` of shared/string.c, copied from klibc,
-- are parameters: the index of a character in a text, if it is there.
pub mod Laws
pub mod Bounds
use calm_os.Base.{
  ℕ, zero, suc, ◌+◌, ◌-◌, ◌^◌, ◌==◌, ◌&&◌, not, List, [], ◌∷◌, ◌++◌, map, Option, none, some,
  if◌then◌else◌, ltb, take, drop, length, replicate,
}
use calm_os.Disk.{Image, Disk, disk_view, mem_disk_read}
use calm_os.Fat16.Layout.{entry_size, wrap}

abbrev pub to_upper : ℕ → ℕ
to_upper c = if ltb 96 c && ltb c 123 then c - 32 else c

-- `set_padded_string`: the field of `len` characters for a text, or for none
unfoldable pub set_padded_string : ℕ → Option (List ℕ) → List ℕ
set_padded_string len none = replicate len 32
set_padded_string len (some src) =
    map to_upper
      (if ltb len (length src) then take len src else src ++ replicate (len - length src) 32)

pub record StringOps : Type 0 where
  pub strchr : List ℕ → ℕ → Option ℕ
  pub strrchr : List ℕ → ℕ → Option ℕ

-- What stands behind the last slash
abbrev pub base_name : Option ℕ → List ℕ → List ℕ
base_name none path = path
base_name (some i) path = drop (i + 1) path

abbrev pub stem : Option ℕ → List ℕ → List ℕ
stem none name = name
stem (some i) name = take i name

abbrev pub extension : Option ℕ → List ℕ → Option (List ℕ)
extension none name = none
extension (some i) name = some (drop (i + 1) name)

-- The name and the extension of an entry
unfoldable pub fat_split_path : StringOps → List ℕ → List ℕ × List ℕ
unfolding set_padded_string
fat_split_path ops path =
    let name = base_name (ops.strrchr path 0x2f) path in
    let p = ops.strchr name 0x2e in
    (set_padded_string 8 (some (stem p name)), set_padded_string 3 (extension p name))

-- The length without the spaces at the end, of the `n` characters from an address on
unfoldable pub trim_length : (ℕ → ℕ) → ℕ → ℕ → ℕ
trim_length entry a zero = 0
trim_length entry a (suc n) = if entry (a + n) == 32 then trim_length entry a n else suc n

abbrev pub dotted : ℕ → List ℕ → List ℕ → List ℕ
dotted len name ext =
    if not (length ext == 0) && ltb (length name) len
    then name ++ 0x2e ∷ take (len - (length name + 1)) ext
    else name

-- The short name of the entry with these bytes, cut at `len`
unfoldable pub short_name : (ℕ → ℕ) → ℕ → List ℕ
unfolding trim_length
short_name entry len =
    let n = trim_length entry 0 8 in
    let name_len = if ltb len n then len else n in
    dotted len (mem_disk_read 0 name_len entry) (mem_disk_read 8 (trim_length entry 8 3) entry)

-- Position of char in dir_entry_t
abbrev pub lfn_chars : List ℕ
lfn_chars = 1 ∷ 3 ∷ 5 ∷ 7 ∷ 9 ∷ 14 ∷ 16 ∷ 18 ∷ 20 ∷ 22 ∷ 24 ∷ 28 ∷ 30 ∷ []

-- FAT_LFN
abbrev pub fat_lfn : ℕ
fat_lfn = 0xf

-- The characters of a long name, from the entries before the one at `addr`; the loop ends before
-- `len` rounds, since each takes a character.
unfoldable pub long_name : Disk → Image → ℕ → ℕ → ℕ → List ℕ
long_name d m zero len addr = []
long_name d m (suc fuel) len addr =
    let before = wrap (addr + 2 ^ 32 - entry_size) in
    let entry = disk_view d before m in
    let chars = take len (map entry lfn_chars) in
    let rest = long_name d m fuel (len - length chars) before in
    if ltb 0 len && (entry 11 == fat_lfn) then chars ++ rest else []

-- `fat_fs_file_name`: the characters that are put before the null character
unfoldable pub fat_fs_file_name : Disk → ℕ → ℕ → Image → List ℕ
unfolding short_name long_name
fat_fs_file_name d addr len m =
    let long = long_name d m len len addr in
    if length long == 0 then short_name (disk_view d addr m) len else long
