-- ===== src/Floppy/Calls.antt =====
-- Calls of the disk that `load_floppy` of kernel/driver/floppy.c sets up, one after the other, and
-- the array of bytes that they refine.
use calm_os.Base.{
  ℕ, ◌+◌, ◌-◌, ◌%◌, ◌≤◌, ◌<◌, ◌≡◌, true, false, none, some, List, [], ◌∷◌, refl, arith, ap, ◌∙◌,
  length,
}
use calm_os.Disk.{Image, mem_disk_write, mem_disk_read}
use calm_os.Floppy.{
  Floppy, Track, View, cylinder_size, medium_size, dir_read, has_floppy, has_drive, do_cached,
  floppy_read_view, floppy_disk_write, floppy_disk_read, floppy_disk_view,
}
use calm_os.Floppy.Cache.{
  IsTrack, IsCached, Works, do_cached-medium, do_cached-cyl, do_cached-loads, do_cached-drives,
  do_cached-Works,
}
use calm_os.Floppy.Read.{buffer_piece, floppy_read-Reads, floppy_read-Works}
use calm_os.Floppy.Write.{floppy_write-mem_disk_write, floppy_write-Works, floppy_write-drives}

pub data DiskCall : Type 0 where
  writes : ℕ → List ℕ → DiskCall
  reads : ℕ → ℕ → DiskCall
  views : ℕ → DiskCall

-- The call ends within the medium.
abbrev pub InMedium : DiskCall → Type 0
InMedium (writes addr src) = addr + length src ≤ medium_size
InMedium (reads addr n) = addr + n ≤ medium_size
InMedium (views addr) = addr < medium_size

abbrev pub AllInMedium : List DiskCall → Type 0
AllInMedium [] = Unit {0}
AllInMedium (c ∷ cs) = InMedium c × AllInMedium cs

-- The bytes behind a pointer of `floppy_read_view`
abbrev pub seen : View → Floppy → List ℕ
seen none s = []
seen (some (offset, size)) s = mem_disk_read offset size s.floppy_dmabuf

-- A call of an array of bytes: what it reads, and the array afterwards
abbrev pub on_image : DiskCall → Image → List ℕ × Image
on_image (writes addr src) m = ([], mem_disk_write addr src m)
on_image (reads addr n) m = (mem_disk_read addr n m, m)
on_image (views addr) m = (mem_disk_read addr (cylinder_size - addr % cylinder_size) m, m)

abbrev pub image_answers : List DiskCall → Image → List (List ℕ)
image_answers [] m = []
image_answers (c ∷ cs) m = (on_image c m).0 ∷ image_answers cs (on_image c m).1

abbrev pub image_after : List DiskCall → Image → Image
image_after [] m = m
image_after (c ∷ cs) m = image_after cs (on_image c m).1

module _ (do_track : Track) where
  unfoldable pub on_floppy : DiskCall → Floppy → List ℕ × Floppy
  unfolding floppy_disk_write floppy_disk_read floppy_disk_view
  on_floppy (writes addr src) s = ([], floppy_disk_write do_track addr src s)
  on_floppy (reads addr n) s = floppy_disk_read do_track addr n s
  on_floppy (views addr) s = let r = floppy_disk_view do_track addr s in (seen r.0 r.1, r.1)

  unfoldable pub floppy_answers : List DiskCall → Floppy → List (List ℕ)
  unfolding on_floppy
  floppy_answers [] s = []
  floppy_answers (c ∷ cs) s = (on_floppy c s).0 ∷ floppy_answers cs (on_floppy c s).1

  unfoldable pub floppy_after : List DiskCall → Floppy → Floppy
  unfolding on_floppy
  floppy_after [] s = s
  floppy_after (c ∷ cs) s = floppy_after cs (on_floppy c s).1

-- A drive with a disk, whose buffer is the cylinder it is said to be, and no assertion failed
pub record IsReady (s : Floppy) : Type 0 where
  pub there : has_floppy s ≡ true
  pub cached : IsCached s
  pub sound : s.panicked ≡ false

module _ (do_track : Track) (laws : IsTrack do_track) (works : Works do_track) where
  record Refines (m : Image) (expected : List ℕ × Image) (r : List ℕ × Floppy) : Type 0 where
    ready : IsReady r.1
    answer : r.0 ≡ expected.0
    medium : r.1.medium ≡ expected.1

  write-Refines :
      (addr : ℕ) (src : List ℕ) (s : Floppy)
      → IsReady s
      → addr + length src ≤ medium_size
      → Refines s.medium
          (on_image (writes addr src) s.medium)
          (on_floppy do_track (writes addr src) s)
  unfolding on_floppy floppy_disk_write
  write-Refines addr src s h w =
      let ok = floppy_write-Works do_track laws addr src s w works h.there in
      let (medium, cached) = floppy_write-mem_disk_write do_track laws addr src s h.cached w ok in
      let (drives, sound) = floppy_write-drives do_track laws addr src s h.cached w in
      record {
        ready = record {
          there = ap has_drive drives ∙ h.there;
          cached = cached;
          sound = ground (arith, ok, sound, h.sound);
        };
        answer = refl;
        medium = medium;
      }

  read-Refines :
      (addr n : ℕ) (s : Floppy)
      → IsReady s
      → addr + n ≤ medium_size
      → Refines s.medium (on_image (reads addr n) s.medium) (on_floppy do_track (reads addr n) s)
  unfolding on_floppy floppy_disk_read
  read-Refines addr n s h w =
      let ok = floppy_read-Works do_track laws addr n s w works h.there in
      let done = floppy_read-Reads do_track laws addr n s h.cached w in
      record {
        ready = record {
          there = ap has_drive done.drives ∙ h.there;
          cached = done.cached ok;
          sound = ground (arith, ok, done.sound, h.sound);
        };
        answer = done.right ok;
        medium = done.medium;
      }

  view-Refines :
      (addr : ℕ) (s : Floppy)
      → IsReady s
      → addr < medium_size
      → Refines s.medium (on_image (views addr) s.medium) (on_floppy do_track (views addr) s)
  unfolding on_floppy floppy_disk_view floppy_read_view
  view-Refines addr s h w =
      let ok = do_cached-Works do_track laws addr s w dir_read works h.there in
      let medium = do_cached-medium do_track laws addr s w in
      let drives = do_cached-drives do_track laws addr s w dir_read in
      let cyl = do_cached-cyl do_track laws addr s w dir_read ok in
      let cached = do_cached-loads do_track laws addr s w h.cached ok in
      let t = (do_cached do_track dir_read addr s).1 in
      let n = cylinder_size - addr % cylinder_size in
      rw ok (record {
        ready = record {
          there = ap has_drive drives.0 ∙ h.there;
          cached = cached;
          sound = ground (arith, drives.1, h.sound);
        };
        answer =
            buffer_piece t addr n cached w cyl (omega arith) ∙ ap (mem_disk_read addr n) medium;
        medium = medium;
      })

  call-Refines :
      (c : DiskCall) (s : Floppy)
      → IsReady s
      → InMedium c
      → Refines s.medium (on_image c s.medium) (on_floppy do_track c s)
  call-Refines (writes addr src) s h w = write-Refines addr src s h w
  call-Refines (reads addr n) s h w = read-Refines addr n s h w
  call-Refines (views addr) s h w = view-Refines addr s h w

  -- The floppy is an array of bytes: when the drive works, and no pointer of `view` is written
  -- through, any calls that end within the medium read what they read from an array of bytes, they
  -- leave the medium as they leave the array, and no assertion fails.
  pub floppy_answers-image_answers :
      (cs : List DiskCall) (s : Floppy)
      → IsReady s
      → AllInMedium cs
      → (floppy_answers do_track cs s ≡ image_answers cs s.medium)
        × ((floppy_after do_track cs s).medium ≡ image_after cs s.medium)
        × ((floppy_after do_track cs s).panicked ≡ false)
  unfolding floppy_answers floppy_after
  floppy_answers-image_answers [] s h w = (refl, refl, h.sound)
  floppy_answers-image_answers (c ∷ cs) s h w =
      let one = call-Refines c s h w.0 in
      let (answers, medium, sound) =
        floppy_answers-image_answers cs (on_floppy do_track c s).1 one.ready w.1 in
      (
        (λ i. one.answer i ∷ answers i)
            ∙ (λ i. (on_image c s.medium).0 ∷ image_answers cs (one.medium i)),
        medium ∙ ap (image_after cs) one.medium,
        sound,
      )
