-- ===== src/Floppy/Fault.antt =====
-- Two ways in which the cache of kernel/driver/floppy.c parts from the medium.
use calm_os.Base.{
  ℕ, zero, suc, ◌+◌, ◌/◌, ◌%◌, ◌^◌, ◌≤◌, ◌<◌, ◌≡◌, ℤ, pos, true, false, not, ◌==◌, List, [], refl,
  arith, sym, ap, ◌∙◌, if◌then◌else◌, ltb, length, take, take_all,
}
use calm_os.Disk.{mem_disk_read}
use calm_os.Fat16.Data.Area.{mem_disk_read-write}
use calm_os.Floppy.{
  Floppy, Track, cylinder_size, medium_size, dir_read, dir_write, failed, has_floppy, has_drive,
  addr_2_coff, do_cached, working_size, read_cylinders, floppy_read, write_cylinder,
  write_cylinders, floppy_write, edit_buffer, floppy_disk_view, floppy_read_view, floppy_disk_read,
}
use calm_os.Floppy.Cache.{
  IsTrack, IsCached, Works, do_cached-medium, do_cached-cyl, do_cached-drives, do_cached-Works,
}
use calm_os.Floppy.Read.{floppy_read-Reads, floppy_read-Works}

-- Another cylinder is loaded, whatever was in the buffer.
other_cylinder :
    (do_track : Track) (addr : ℕ) (s : Floppy)
    → IsTrack do_track
    → addr < medium_size
    → (addr / cylinder_size == s.floppy_dmacyl) ≡ false
    → failed (do_cached do_track dir_read addr s).0 ≡ false
    → IsCached (do_cached do_track dir_read addr s).1
unfolding do_cached
other_cylinder do_track addr s laws w ne ok i l b =
    let n = (addr_2_coff addr).cyl in ground (arith, laws.loads n i s, laws.medium n s)

-- The bytes that are written through the pointer of `view`, at the place of another one
abbrev pub poked : Track → ℕ → List ℕ → Floppy → Floppy
poked do_track addr bs s =
    edit_buffer (addr_2_coff addr).offset bs (floppy_disk_view do_track addr s).1

module _ (do_track : Track) (laws : IsTrack do_track) (works : Works do_track) where
  -- A write through the pointer of `view` is lost: on a drive that works, after a view of an
  -- address, a write of any bytes through its pointer, and a view of an address in another
  -- cylinder, a read returns the bytes that were on the medium before.
  pub view_writes_lost :
      (addr other n : ℕ) (bs : List ℕ) (s : Floppy)
      → IsCached s
      → has_floppy s ≡ true
      → addr < medium_size
      → other < medium_size
      → (other / cylinder_size == addr / cylinder_size) ≡ false
      → addr + n ≤ medium_size
      → (floppy_disk_read do_track addr n
          (floppy_disk_view do_track other (poked do_track addr bs s)).1).0
        ≡ mem_disk_read addr n s.medium
  unfolding floppy_disk_view floppy_read_view floppy_disk_read
  view_writes_lost addr other n bs s c there w v ne l =
      let r = (do_cached do_track dir_read addr s).1 in
      let ok = do_cached-Works do_track laws addr s w dir_read works there in
      let drives = do_cached-drives do_track laws addr s w dir_read in
      let cyl = do_cached-cyl do_track laws addr s w dir_read ok in
      let t = poked do_track addr bs s in
      let still : has_floppy t ≡ true = ap has_drive drives.0 ∙ there in
      let fine = do_cached-Works do_track laws other t v dir_read works still in
      let u = (floppy_disk_view do_track other t).1 in
      let cached : IsCached u = other_cylinder do_track other t laws v (ground (arith, cyl)) fine in
      let later = do_cached-drives do_track laws other t v dir_read in
      let done = floppy_read-Reads do_track laws addr n u cached l in
      let read = floppy_read-Works do_track laws addr n u l works (ap has_drive later.0 ∙ still) in
      let same : u.medium ≡ s.medium =
        do_cached-medium do_track laws other t v ∙ do_cached-medium do_track laws addr s w in
      done.right read ∙ ap (mem_disk_read addr n) same

-- A write-protected disk: it is read, and every transfer to it fails and leaves it alone.
pub record IsProtected (do_track : Track) : Type 0 where
  pub reads : (c : ℕ) (s : Floppy) → c < 80 → failed (do_track dir_read c s).0 ≡ false
  pub writes : (c : ℕ) (s : Floppy) → failed (do_track dir_write c s).0 ≡ true
  pub medium : (c : ℕ) (s : Floppy) → (do_track dir_write c s).1.medium ≡ s.medium

module _ (do_track : Track) where
  hit :
      (at : ℕ) (s : Floppy)
      → at < medium_size
      → has_floppy s ≡ true
      → s.floppy_dmacyl ≡ at / cylinder_size
      → do_cached do_track dir_read at s ≡ (pos 0, s)
  unfolding do_cached
  hit at s w there e =
      let same : (at / cylinder_size % 2 ^ 16 == s.floppy_dmacyl) ≡ true = ground arith in
      rw (there, same) refl

  read_stop :
      (rounds addr size done_size : ℕ) (dst : List ℕ) (s : Floppy)
      → size ≤ done_size
      → read_cylinders do_track rounds addr size done_size dst s ≡ (pos 0, dst, s)
  unfolding read_cylinders
  read_stop zero addr size done_size dst s l = refl
  read_stop (suc rounds) addr size done_size dst s l =
      let stop : not (ltb done_size size) ≡ true = ground arith in rw stop refl

  -- A read within the cylinder that the buffer is said to be
  read_hit :
      (addr n : ℕ) (s : Floppy)
      → addr < medium_size
      → has_floppy s ≡ true
      → s.floppy_dmacyl ≡ addr / cylinder_size
      → addr % cylinder_size + suc n ≤ cylinder_size
      → floppy_read do_track addr (suc n) s
        ≡ (pos 0, mem_disk_read (addr % cylinder_size) (suc n) s.floppy_dmabuf, s)
  unfolding floppy_read read_cylinders
  read_hit addr n s w there e l =
      let at : (addr + 0) % 2 ^ 32 ≡ addr = omega arith in
      let go : not (ltb 0 (suc n)) ≡ false = ground arith in
      let all : working_size addr (suc n) 0 ≡ suc n = ground arith in
      let found =
        hit ((addr + 0) % 2 ^ 32) s (omega arith) there
          (e ∙ ap (λ a. a / cylinder_size) (sym at)) in
      let round = λ (r : ℤ × Floppy) (a k : ℕ).
        if not (ltb 0 (suc n))
        then (pos 0, [], s)
        else if failed r.0
        then (r.0, [], r.1)
        else read_cylinders do_track n addr (suc n) (0 + k)
            (mem_disk_read (a % cylinder_size) k r.1.floppy_dmabuf) r.1 in
      (λ i. round (found i) (at i) (all i))
      ∙ rw go (read_stop n addr (suc n) (0 + suc n) _ s (omega arith))

  -- A write to a write-protected disk, within one cylinder
  module _ (laws : IsTrack do_track) (protected : IsProtected do_track) where
    read_succeeds :
        (at : ℕ) (s : Floppy)
        → at < medium_size
        → has_floppy s ≡ true
        → failed (do_cached do_track dir_read at s).0 ≡ false
    unfolding do_cached
    read_succeeds at s w there = ground (arith, protected.reads (addr_2_coff at).cyl s)

    save_fails :
        (at : ℕ) (s : Floppy)
        → has_floppy s ≡ true
        → (failed (do_cached do_track dir_write at s).0 ≡ true)
          × ((do_cached do_track dir_write at s).1 ≡ (do_track dir_write (addr_2_coff at).cyl s).1)
    unfolding do_cached
    save_fails at s there =
        let bad = protected.writes (addr_2_coff at).cyl s in rw (there, bad) (refl, refl)

    write_cylinder-IsProtected :
        (at offset : ℕ) (bs : List ℕ) (s : Floppy)
        → at < medium_size
        → has_floppy s ≡ true
        → let r = write_cylinder do_track at offset bs s in
          (failed r.0 ≡ true)
          × (has_floppy r.1 ≡ true)
          × (r.1.medium ≡ s.medium)
          × (r.1.floppy_dmacyl ≡ at / cylinder_size)
          × (mem_disk_read offset (length bs) r.1.floppy_dmabuf ≡ bs)
    unfolding write_cylinder
    write_cylinder-IsProtected at offset bs s w there =
        let r = do_cached do_track dir_read at s in
        let u = edit_buffer offset bs r.1 in
        let drives = do_cached-drives do_track laws at s w dir_read in
        let still : has_floppy u ≡ true = ap has_drive drives.0 ∙ there in
        let ok = read_succeeds at s w there in
        let (bad, same) = save_fails at u still in
        let n = (addr_2_coff at).cyl in
        rw ok (
          bad,
          ap has_floppy same ∙ ap has_drive (laws.drives dir_write n u) ∙ still,
          ap (λ (x : Floppy). x.medium) same
              ∙ protected.medium n u
              ∙ do_cached-medium do_track laws at s w,
          ap (λ (x : Floppy). x.floppy_dmacyl) same
              ∙ laws.cyl dir_write n u
              ∙ do_cached-cyl do_track laws at s w dir_read ok,
          ap (λ (x : Floppy). mem_disk_read offset (length bs) x.floppy_dmabuf) same
              ∙ ap (mem_disk_read offset (length bs)) (laws.buffer n u)
              ∙ mem_disk_read-write bs offset r.1.floppy_dmabuf,
        )

    floppy_write_one :
        (addr n : ℕ) (src : List ℕ) (s : Floppy)
        → addr < medium_size
        → length src ≡ suc n
        → addr % cylinder_size + suc n ≤ cylinder_size
        → failed (write_cylinder do_track addr (addr % cylinder_size) src s).0 ≡ true
        → floppy_write do_track addr src s
          ≡ write_cylinder do_track addr (addr % cylinder_size) src s
    unfolding floppy_write write_cylinders
    floppy_write_one addr n src s w e l bad =
        let at : (addr + 0) % 2 ^ 32 ≡ addr = omega arith in
        let go : not (ltb 0 (suc n)) ≡ false = ground arith in
        let all : working_size addr (suc n) 0 ≡ suc n = ground arith in
        let piece : take (suc n) src ≡ src = take_all (suc n) src (omega (arith, e)) in
        let round = λ (a k : ℕ) (bs : List ℕ).
          let r = write_cylinder do_track a (a % cylinder_size) bs s in
          if not (ltb 0 (suc n))
          then (pos 0, s)
          else if failed r.0
          then r
          else write_cylinders do_track n addr src (suc n) (0 + k) r.1 in
        (λ i. write_cylinders do_track (e i) addr src (e i) 0 s)
        ∙ (λ i. round (at i) (all i) (take (all i) src))
        ∙ (λ i. round addr (suc n) (piece i))
        ∙ rw (go, bad) refl

    -- Bytes that a write could not save are read all the same: on a write-protected disk, for
    -- bytes within one cylinder, of which there is at least one, `floppy_write` fails and the
    -- medium is as before; but `floppy_read` of their place then returns 0 and these bytes.
    pub unsaved_write_is_read :
        (addr n : ℕ) (src : List ℕ) (s : Floppy)
        → has_floppy s ≡ true
        → addr < medium_size
        → length src ≡ suc n
        → addr % cylinder_size + suc n ≤ cylinder_size
        → (failed (floppy_write do_track addr src s).0 ≡ true)
          × ((floppy_write do_track addr src s).1.medium ≡ s.medium)
          × ((floppy_read do_track addr (suc n) (floppy_write do_track addr src s).1).0 ≡ pos 0)
          × ((floppy_read do_track addr (suc n) (floppy_write do_track addr src s).1).1 ≡ src)
    unsaved_write_is_read addr n src s there w e l =
        let c = write_cylinder do_track addr (addr % cylinder_size) src s in
        let (bad, still, medium, cyl, bytes) =
          write_cylinder-IsProtected addr (addr % cylinder_size) src s w there in
        let whole = floppy_write_one addr n src s w e l bad in
        let read = read_hit addr n c.1 w still cyl l in
        rw whole (
          bad,
          medium,
          ap (λ (x : ℤ × List ℕ × Floppy). x.0) read,
          ap (λ (x : ℤ × List ℕ × Floppy). x.1) read
              ∙ ap (λ (k : ℕ). mem_disk_read (addr % cylinder_size) k c.1.floppy_dmabuf) (sym e)
              ∙ bytes,
        )
