-- ===== src/Tests/Floppy.antt =====
-- Drives that always work and that are write-protected, and the theorems on the cache of
-- kernel/driver/floppy.c applied to them.
use calm_os.Base.{
  ℕ, ◌/◌, ◌%◌, ◌≡◌, pos, negsuc, true, false, ◌==◌, List, [], ◌∷◌, refl, arith, if◌then◌else◌,
}
use calm_os.Disk.{mem_disk_write, mem_disk_read}
use calm_os.Floppy.{
  Floppy, Track, dir_read, dir_write, cylinder_size, failed, floppy_read, floppy_write,
  floppy_disk_view, floppy_disk_read,
}
use calm_os.Floppy.Cache.{IsTrack, IsCached, Works, cylinder_addr}
use calm_os.Floppy.Read.{floppy_read-mem_disk_read, floppy_read-Works}
use calm_os.Floppy.Write.{floppy_write-mem_disk_write, floppy_write-Works}
use calm_os.Floppy.Calls.{
  writes, reads, views, DiskCall, IsReady, floppy_answers, floppy_after, image_answers, image_after,
  floppy_answers-image_answers,
}
use calm_os.Floppy.Fault.{IsProtected, poked, view_writes_lost, unsaved_write_is_read}

abbrev load : ℕ → Floppy → Floppy
load c s = record s { floppy_dmabuf = λ i. s.medium (cylinder_addr c i) }

abbrev save : ℕ → Floppy → Floppy
save c s = record s {
  medium = λ a. if a / cylinder_size == c then s.floppy_dmabuf (a % cylinder_size) else s.medium a;
}

unfoldable plain_track : Track
plain_track dir_read c s = (pos 0, load c s)
plain_track dir_write c s = (pos 0, save c s)

plain_track-IsTrack : IsTrack plain_track
unfolding plain_track
plain_track-IsTrack = record {
  cyl = λ d c s. ground arith;
  drives = λ d c s. ground arith;
  sound = λ d c s. ground arith;
  medium = λ c s. refl;
  loads = λ c i s l ok b. refl;
  buffer = λ c s. refl;
  saves = λ c a s l ok. refl;
}

plain_track-Works : Works plain_track
unfolding plain_track
plain_track-Works = record { succeeds = λ d c s l. ground arith }

-- A transfer to the medium returns -2.
unfoldable locked_track : Track
locked_track dir_read c s = (pos 0, load c s)
locked_track dir_write c s = (negsuc 1, s)

locked_track-IsTrack : IsTrack locked_track
unfolding locked_track
locked_track-IsTrack = record {
  cyl = λ d c s. ground arith;
  drives = λ d c s. ground arith;
  sound = λ d c s. ground arith;
  medium = λ c s. refl;
  loads = λ c i s l ok b. refl;
  buffer = λ c s. refl;
  saves = λ c a s l ok. cc;
}

locked_track-IsProtected : IsProtected locked_track
unfolding locked_track
locked_track-IsProtected = record {
  reads = λ c s l. refl;
  writes = λ c s. refl;
  medium = λ c s. refl;
}

-- The code 4 in the upper half of the byte, and no cylinder in the buffer
abbrev inserted : Floppy
inserted = record {
  medium = λ a. a % 251;
  floppy_dmabuf = λ i. 0;
  floppy_dmacyl = 4294967295;
  drives = 64;
  panicked = false;
}

inserted-IsCached : IsCached inserted
inserted-IsCached i l b = absurd (omega arith)

inserted-IsReady : IsReady inserted
inserted-IsReady = record { there = refl; cached = inserted-IsCached; sound = refl }

-- A write across the end of the first cylinder, and reads in both
abbrev some_calls : List DiskCall
some_calls = writes 18430 (1 ∷ 2 ∷ 3 ∷ 4 ∷ []) ∷ reads 18429 6 ∷ views 36860 ∷ []

floppy_answers-image_answers_example :
    (floppy_answers plain_track some_calls inserted ≡ image_answers some_calls inserted.medium)
    × ((floppy_after plain_track some_calls inserted).medium
        ≡ image_after some_calls inserted.medium)
    × ((floppy_after plain_track some_calls inserted).panicked ≡ false)
floppy_answers-image_answers_example =
    floppy_answers-image_answers plain_track plain_track-IsTrack plain_track-Works some_calls
      inserted inserted-IsReady (omega arith)

floppy_write-mem_disk_write_example :
    ((floppy_write plain_track 18430 (1 ∷ 2 ∷ 3 ∷ []) inserted).1.medium
      ≡ mem_disk_write 18430 (1 ∷ 2 ∷ 3 ∷ []) inserted.medium)
    × IsCached (floppy_write plain_track 18430 (1 ∷ 2 ∷ 3 ∷ []) inserted).1
floppy_write-mem_disk_write_example =
    floppy_write-mem_disk_write plain_track plain_track-IsTrack 18430 (1 ∷ 2 ∷ 3 ∷ []) inserted
      inserted-IsCached (omega arith)
      (floppy_write-Works plain_track plain_track-IsTrack 18430 (1 ∷ 2 ∷ 3 ∷ []) inserted
        (omega arith) plain_track-Works refl)

floppy_read-mem_disk_read_example :
    ((floppy_read plain_track 18430 5 inserted).1 ≡ mem_disk_read 18430 5 inserted.medium)
    × ((floppy_read plain_track 18430 5 inserted).2.medium ≡ inserted.medium)
    × IsCached (floppy_read plain_track 18430 5 inserted).2
floppy_read-mem_disk_read_example =
    floppy_read-mem_disk_read plain_track plain_track-IsTrack 18430 5 inserted inserted-IsCached
      (omega arith)
      (floppy_read-Works plain_track plain_track-IsTrack 18430 5 inserted (omega arith)
        plain_track-Works refl)

view_writes_lost_example :
    (floppy_disk_read plain_track 9728 2
      (floppy_disk_view plain_track 20000 (poked plain_track 9728 (7 ∷ 8 ∷ []) inserted)).1).0
    ≡ mem_disk_read 9728 2 inserted.medium
view_writes_lost_example =
    view_writes_lost plain_track plain_track-IsTrack plain_track-Works 9728 20000 2 (7 ∷ 8 ∷ [])
      inserted inserted-IsCached refl (omega arith) (omega arith) refl (omega arith)

unsaved_write_is_read_example :
    (failed (floppy_write locked_track 100 (7 ∷ 8 ∷ []) inserted).0 ≡ true)
    × ((floppy_write locked_track 100 (7 ∷ 8 ∷ []) inserted).1.medium ≡ inserted.medium)
    × ((floppy_read locked_track 100 2 (floppy_write locked_track 100 (7 ∷ 8 ∷ []) inserted).1).0
        ≡ pos 0)
    × ((floppy_read locked_track 100 2 (floppy_write locked_track 100 (7 ∷ 8 ∷ []) inserted).1).1
        ≡ 7 ∷ 8 ∷ [])
unsaved_write_is_read_example =
    unsaved_write_is_read locked_track locked_track-IsTrack locked_track-IsProtected 100 1
      (7 ∷ 8 ∷ []) inserted refl (omega arith) refl (omega arith)
