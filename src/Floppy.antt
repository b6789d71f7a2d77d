-- ===== src/Floppy.antt =====
-- The cache of one cylinder in front of the floppy drive, and the disk that it makes, of
-- kernel/driver/floppy.c (from `addr_2_coff` on). `do_track`, the driver adapted from the OSDev
-- forum, is a parameter: it moves a whole cylinder between the medium and `floppy_dmabuf`.
pub mod Cache
pub mod Read
pub mod Write
pub mod Fault
pub mod Calls
use calm_os.Base.{
  ℕ, zero, suc, ◌+◌, ◌-◌, ◌*◌, ◌/◌, ◌%◌, ◌^◌, ◌<◌, ◌≡◌, ℤ, pos, negsuc, Bool, true, false, not,
  ◌&&◌, ◌||◌, ◌==◌, Option, none, some, List, [], ◌++◌, if◌then◌else◌, ltb, leb, ltb_ℤ, leb_ℤ, take,
  drop, length,
}
use calm_os.Disk.{Image, mem_disk_write, mem_disk_read}

-- FLOPPY_144_CYLINDER_SIZE: two heads, 18 sectors of 512 bytes each
abbrev pub cylinder_size : ℕ
cylinder_size = 18432

-- The bytes of the medium: 80 cylinders
abbrev pub medium_size : ℕ
medium_size = 1474560

pub data Dir : Type 0 where
  dir_read dir_write : Dir

abbrev pub is_read : Dir → Bool
is_read dir_read = true
is_read dir_write = false

-- The variables of the driver, the medium, and the byte that the CMOS has for the drives
pub record Floppy : Type 0 where
  pub medium : Image
  pub floppy_dmabuf : Image
  pub floppy_dmacyl : ℕ
  pub drives : ℕ
  pub panicked : Bool

-- `do_track` on the base of the first drive
abbrev pub Track : Type 0
Track = Dir → ℕ → Floppy → ℤ × Floppy

abbrev pub failed : ℤ → Bool
failed ret = ltb_ℤ ret (pos 0)

-- The cylinder, the offset in it, and the bytes from there to its end
pub record Coff : Type 0 where
  pub cyl : ℕ
  pub offset : ℕ
  pub size : ℕ

-- The cylinder is a `uint16_t`.
abbrev pub addr_2_coff : ℕ → Coff
addr_2_coff addr = record {
  cyl = addr / cylinder_size % 2 ^ 16;
  offset = addr % cylinder_size;
  size = cylinder_size - addr % cylinder_size;
}

-- FLOPPY_144_CODE is 4.
abbrev pub has_drive : ℕ → Bool
has_drive drives = if drives / 16 == 0 then false else drives / 16 == 4

abbrev pub has_floppy : Floppy → Bool
has_floppy s = has_drive s.drives

-- What follows the transfer in `do_cached`
abbrev pub keep_cyl : ℕ → ℤ × Floppy → ℤ × Floppy
keep_cyl cyl (ret, s) = (ret, if failed ret then s else record s { floppy_dmacyl = cyl })

-- A pointer that `floppy_read_view` returns: the offset in the buffer, and the size set
abbrev pub View : Type 0
View = Option (ℕ × ℕ)

-- The bytes that a round of the loops below is about
abbrev pub working_size : ℕ → ℕ → ℕ → ℕ
working_size addr size done_size =
    let n = (addr_2_coff ((addr + done_size) % 2 ^ 32)).size in
    if ltb (size - done_size) n then size - done_size else n

abbrev pub edit_buffer : ℕ → List ℕ → Floppy → Floppy
edit_buffer offset bs s = record s { floppy_dmabuf = mem_disk_write offset bs s.floppy_dmabuf }

abbrev pub check_floppy : Bool → Floppy → Floppy
check_floppy b s = record s { panicked = s.panicked || not b }

abbrev pub is_some : View → Bool
is_some none = false
is_some (some v) = true

module _ (do_track : Track) where
  unfoldable pub do_cached : Dir → ℕ → Floppy → ℤ × Floppy
  do_cached dir addr s =
      let cyl = (addr_2_coff addr).cyl in
      if not (has_floppy s)
      then (negsuc 1, s)
      else if is_read dir && cyl == s.floppy_dmacyl
      then (pos 0, s)
      else keep_cyl cyl (do_track dir cyl s)

  unfoldable pub floppy_read_view : ℕ → Floppy → View × Floppy
  unfolding do_cached
  floppy_read_view addr s =
      let r = do_cached dir_read addr s in
      let c = addr_2_coff addr in (if failed r.0 then none else some (c.offset, c.size), r.1)

  -- The loop of `floppy_read`: the rounds left, and the bytes copied so far
  unfoldable pub read_cylinders : ℕ → ℕ → ℕ → ℕ → List ℕ → Floppy → ℤ × List ℕ × Floppy
  unfolding do_cached
  read_cylinders zero addr size done_size dst s = (pos 0, dst, s)
  read_cylinders (suc rounds) addr size done_size dst s =
      let at = (addr + done_size) % 2 ^ 32 in
      let r = do_cached dir_read at s in
      let n = working_size addr size done_size in
      let copied = dst ++ mem_disk_read (addr_2_coff at).offset n r.1.floppy_dmabuf in
      let rest = read_cylinders rounds addr size (done_size + n) copied r.1 in
      if not (ltb done_size size)
      then (pos 0, dst, s)
      else if failed r.0
      then (r.0, dst, r.1)
      else rest

  -- Reading cylinders one by one; each round copies a byte at least.
  unfoldable pub floppy_read : ℕ → ℕ → Floppy → ℤ × List ℕ × Floppy
  unfolding read_cylinders
  floppy_read addr size s = read_cylinders size addr size 0 [] s

  -- Load the cylinder, edit the buffer, save the cylinder
  unfoldable pub write_cylinder : ℕ → ℕ → List ℕ → Floppy → ℤ × Floppy
  unfolding do_cached
  write_cylinder at offset bs s =
      let r = do_cached dir_read at s in
      if failed r.0 then r else do_cached dir_write at (edit_buffer offset bs r.1)

  -- The loop of `floppy_write`
  unfoldable pub write_cylinders : ℕ → ℕ → List ℕ → ℕ → ℕ → Floppy → ℤ × Floppy
  unfolding write_cylinder
  write_cylinders zero addr src size done_size s = (pos 0, s)
  write_cylinders (suc rounds) addr src size done_size s =
      let at = (addr + done_size) % 2 ^ 32 in
      let n = working_size addr size done_size in
      let r = write_cylinder at (addr_2_coff at).offset (take n (drop done_size src)) s in
      let rest = write_cylinders rounds addr src size (done_size + n) r.1 in
      if not (ltb done_size size) then (pos 0, s) else if failed r.0 then r else rest

  -- Writing cylinders one by one
  unfoldable pub floppy_write : ℕ → List ℕ → Floppy → ℤ × Floppy
  unfolding write_cylinders
  floppy_write addr src s = write_cylinders (length src) addr src (length src) 0 s

  unfoldable pub floppy_disk_write : ℕ → List ℕ → Floppy → Floppy
  unfolding floppy_write
  floppy_disk_write addr src s =
      let r = floppy_write addr src s in check_floppy (not (failed r.0)) r.1

  unfoldable pub floppy_disk_read : ℕ → ℕ → Floppy → List ℕ × Floppy
  unfolding floppy_read
  floppy_disk_read addr n s =
      let r = floppy_read addr n s in (r.1, check_floppy (not (failed r.0)) r.2)

  unfoldable pub floppy_disk_view : ℕ → Floppy → View × Floppy
  unfolding floppy_read_view
  floppy_disk_view addr s = let r = floppy_read_view addr s in (r.0, check_floppy (is_some r.0) r.1)
