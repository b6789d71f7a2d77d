-- ===== src/Disk.antt =====
-- The disks of kernel/driver/disk.c. A disk's contents are its bytes by address; `disk_t` is the
-- record of its operations, and a pointer that `view` returns is a function from offsets to bytes.
-- The copies of `memcpy` between the disk and a buffer are written out.
pub mod Laws
use calm_os.Base.{ℕ, zero, suc, ◌+◌, ◌≡◌, List, [], ◌∷◌, replicate, refl}
use calm_os.Kernel.State.{update}

abbrev pub Image : Type 0
Image = ℕ → ℕ

-- `poke` is a write through the pointer of `view`.
pub record Disk : Type 0 where
  pub write : ℕ → List ℕ → Image → Image
  pub read : ℕ → ℕ → Image → List ℕ
  pub view : ℕ → Image → ℕ → ℕ
  pub poke : ℕ → List ℕ → Image → Image

abbrev pub disk_write : Disk → ℕ → List ℕ → Image → Image
disk_write d addr src m = d.write addr src m

abbrev pub disk_read : Disk → ℕ → ℕ → Image → List ℕ
disk_read d addr n m = d.read addr n m

abbrev pub disk_view : Disk → ℕ → Image → ℕ → ℕ
disk_view d addr m = d.view addr m

-- The bytes of a buffer put at an address
unfoldable pub mem_disk_write : ℕ → List ℕ → Image → Image
mem_disk_write addr [] m = m
mem_disk_write addr (b ∷ bs) m = mem_disk_write (addr + 1) bs (update m addr b)

unfoldable pub mem_disk_read : ℕ → ℕ → Image → List ℕ
mem_disk_read addr zero m = []
mem_disk_read addr (suc n) m = m addr ∷ mem_disk_read (addr + 1) n m

abbrev pub mem_disk_view : ℕ → Image → ℕ → ℕ
mem_disk_view addr m offset = m (addr + offset)

abbrev pub mem_disk : Disk
mem_disk = record {
  write = mem_disk_write;
  read = mem_disk_read;
  view = mem_disk_view;
  poke = mem_disk_write;
}

-- `new_mem_disk`: a memory disk filled with a byte
abbrev pub new_mem_disk : ℕ → ℕ → Image → Image
new_mem_disk size erase m = mem_disk_write 0 (replicate size erase) m

-- What the users of a disk rely on: it is one array of bytes.
pub record IsDisk (d : Disk) : Type 0 where
  pub write : (a : ℕ) (bs : List ℕ) (m : Image) → d.write a bs m ≡ mem_disk_write a bs m
  pub read : (a n : ℕ) (m : Image) → d.read a n m ≡ mem_disk_read a n m
  pub view : (a : ℕ) (m : Image) (i : ℕ) → d.view a m i ≡ m (a + i)
  pub poke : (a : ℕ) (bs : List ℕ) (m : Image) → d.poke a bs m ≡ mem_disk_write a bs m

-- A memory disk is one.
pub mem_disk-IsDisk : IsDisk mem_disk
mem_disk-IsDisk = record {
  write = λ a bs m. refl;
  read = λ a n m. refl;
  view = λ a m i. refl;
  poke = λ a bs m. refl;
}
