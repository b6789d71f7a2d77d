-- ===== src/Disk/Laws.antt =====
-- Reading what was written to the bytes of a disk.
use calm_os.Base.{
  ℕ, zero, suc, ◌+◌, ◌-◌, ◌≡◌, ◌&&◌, false, ◌==◌, List, [], ◌∷◌, refl, arith, ◌∙◌, leb, ltb, length,
  get_or, if◌then◌else◌,
}
use calm_os.Kernel.State.{update}
use calm_os.Disk.{Image, mem_disk_write}

get_or-cons :
    (b : ℕ) (bs : List ℕ) (n : ℕ)
    → get_or (b ∷ bs) n 0 ≡ (if n == 0 then b else get_or bs (n - 1) 0)
get_or-cons b bs zero = refl
get_or-cons b bs (suc n) = ground arith

-- A byte after a write: one of the bytes written, or the old one
pub mem_disk_write_lem :
    (bs : List ℕ) (a : ℕ) (m : Image) (i : ℕ)
    → mem_disk_write a bs m i
      ≡ (if leb a i && ltb i (a + length bs) then get_or bs (i - a) 0 else m i)
unfolding mem_disk_write
mem_disk_write_lem [] a m i = ground arith
mem_disk_write_lem (b ∷ bs) a m i =
    mem_disk_write_lem bs (a + 1) (update m a b) i ∙ ground (arith, get_or-cons b bs (i - a))

-- What is written elsewhere is not seen.
pub mem_disk_write-outside :
    (bs : List ℕ) (a : ℕ) (m : Image) (i : ℕ)
    → (leb a i && ltb i (a + length bs)) ≡ false
    → mem_disk_write a bs m i ≡ m i
mem_disk_write-outside bs a m i h = mem_disk_write_lem bs a m i ∙ rw h refl
