-- ===== src/Floppy/Cache.antt =====
-- `do_cached` of kernel/driver/floppy.c, and what its callers rely on of `do_track`.
use calm_os.Base.{
  ℕ, ◌+◌, ◌*◌, ◌/◌, ◌%◌, ◌<◌, ◌≡◌, sym, ap, ◌∙◌, true, false, ◌==◌, arith, if◌then◌else◌,
}
use calm_os.Disk.{Image}
use calm_os.Floppy.{
  Floppy, Track, cylinder_size, medium_size, Dir, dir_read, dir_write, failed, has_floppy,
  addr_2_coff, do_cached,
}

-- A cylinder's byte in the medium
abbrev pub cylinder_addr : ℕ → ℕ → ℕ
cylinder_addr cyl i = cyl * cylinder_size + i

-- What `do_track` does: it leaves the driver's other variables alone; a transfer from the medium
-- leaves the medium alone and, if it succeeds, fills the buffer with the cylinder; a transfer to
-- the medium leaves the buffer alone and, if it succeeds, makes the cylinder what the buffer is.
pub record IsTrack (do_track : Track) : Type 0 where
  pub cyl : (d : Dir) (c : ℕ) (s : Floppy) → (do_track d c s).1.floppy_dmacyl ≡ s.floppy_dmacyl
  pub drives : (d : Dir) (c : ℕ) (s : Floppy) → (do_track d c s).1.drives ≡ s.drives
  pub sound : (d : Dir) (c : ℕ) (s : Floppy) → (do_track d c s).1.panicked ≡ s.panicked
  pub medium : (c : ℕ) (s : Floppy) → (do_track dir_read c s).1.medium ≡ s.medium
  pub loads :
      (c i : ℕ) (s : Floppy)
      → c < 80
      → failed (do_track dir_read c s).0 ≡ false
      → i < cylinder_size
      → (do_track dir_read c s).1.floppy_dmabuf i ≡ s.medium (cylinder_addr c i)
  pub buffer : (c : ℕ) (s : Floppy) → (do_track dir_write c s).1.floppy_dmabuf ≡ s.floppy_dmabuf
  pub saves :
      (c a : ℕ) (s : Floppy)
      → c < 80
      → failed (do_track dir_write c s).0 ≡ false
      → (do_track dir_write c s).1.medium a
        ≡ (if a / cylinder_size == c then s.floppy_dmabuf (a % cylinder_size) else s.medium a)

-- The buffer is the cylinder that it is said to be.
abbrev pub IsCached : Floppy → Type 0
IsCached s =
    (i : ℕ)
    → s.floppy_dmacyl < 80
    → i < cylinder_size
    → s.floppy_dmabuf i ≡ s.medium (cylinder_addr s.floppy_dmacyl i)

-- The drive works: it is there, and no transfer fails.
pub record Works (do_track : Track) : Type 0 where
  pub succeeds : (d : Dir) (c : ℕ) (s : Floppy) → c < 80 → failed (do_track d c s).0 ≡ false

-- What a transfer from the medium leaves behind
pub record Loaded (addr : ℕ) (s t : Floppy) : Type 0 where
  pub cached : IsCached t
  pub cyl : t.floppy_dmacyl ≡ addr / cylinder_size

module _ (do_track : Track) (laws : IsTrack do_track) (addr : ℕ) (s : Floppy)
    (within : addr < medium_size) where
  pub do_cached-medium : (do_cached do_track dir_read addr s).1.medium ≡ s.medium
  unfolding do_cached
  do_cached-medium = ground (arith, laws.medium (addr_2_coff addr).cyl s)

  pub do_cached-drives :
      (d : Dir)
      → ((do_cached do_track d addr s).1.drives ≡ s.drives)
        × ((do_cached do_track d addr s).1.panicked ≡ s.panicked)
  unfolding do_cached
  do_cached-drives d =
      ground (arith, laws.drives d (addr_2_coff addr).cyl s, laws.sound d (addr_2_coff addr).cyl s)

  pub do_cached-cyl :
      (d : Dir)
      → failed (do_cached do_track d addr s).0 ≡ false
      → (do_cached do_track d addr s).1.floppy_dmacyl ≡ addr / cylinder_size
  unfolding do_cached
  do_cached-cyl dir_read ok = ground arith
  do_cached-cyl dir_write ok = ground arith

  pub do_cached-loads :
      IsCached s
      → failed (do_cached do_track dir_read addr s).0 ≡ false
      → IsCached (do_cached do_track dir_read addr s).1
  unfolding do_cached
  do_cached-loads c ok i l b =
      let n = (addr_2_coff addr).cyl in ground (arith, c i, laws.loads n i s, laws.medium n s)

  -- A working drive that is there does not fail.
  pub do_cached-Works :
      (d : Dir)
      → Works do_track
      → has_floppy s ≡ true
      → failed (do_cached do_track d addr s).0 ≡ false
  unfolding do_cached
  do_cached-Works d w h = ground (arith, w.succeeds d (addr_2_coff addr).cyl s)

  -- A successful transfer to the medium
  pub do_cached-saves :
      (a : ℕ)
      → failed (do_cached do_track dir_write addr s).0 ≡ false
      → (do_cached do_track dir_write addr s).1.medium a ≡ (
          if a / cylinder_size == addr / cylinder_size
          then s.floppy_dmabuf (a % cylinder_size)
          else s.medium a)
  unfolding do_cached
  do_cached-saves a ok = ground (arith, laws.saves (addr_2_coff addr).cyl a s)

  pub do_cached-buffer : (do_cached do_track dir_write addr s).1.floppy_dmabuf ≡ s.floppy_dmabuf
  unfolding do_cached
  do_cached-buffer = ground (arith, laws.buffer (addr_2_coff addr).cyl s)

  -- After a transfer to the medium, the buffer is the cylinder.
  pub do_cached-kept :
      failed (do_cached do_track dir_write addr s).0 ≡ false
      → IsCached (do_cached do_track dir_write addr s).1
  do_cached-kept ok i l b =
      let t = (do_cached do_track dir_write addr s).1 in
      let a = cylinder_addr t.floppy_dmacyl i in
      let place : a % cylinder_size ≡ i = omega arith in
      let cyl : a / cylinder_size ≡ addr / cylinder_size =
        omega (arith, do_cached-cyl dir_write ok) in
      sym (
        do_cached-saves a ok
        ∙ ground (arith, cyl, ap s.floppy_dmabuf place)
        ∙ sym (ap (λ (g : Image). g i) do_cached-buffer))
