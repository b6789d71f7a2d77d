-- ===== src/Floppy/Read.antt =====
-- `floppy_read` of kernel/driver/floppy.c reads the medium.
use calm_os.Base.{
  ℕ, zero, suc, ◌+◌, ℤ, ◌-◌, ◌/◌, ◌%◌, ◌^◌, ◌≤◌, ◌<◌, ◌≡◌, pos, true, false, not, List, [], ◌∷◌,
  ◌++◌, refl, arith, sym, ap, ◌∙◌, branch, ltb, append_assoc, append_nil,
}
use calm_os.Disk.{Image, mem_disk_read}
use calm_os.Floppy.{
  Floppy, Track, cylinder_size, medium_size, dir_read, failed, has_floppy, has_drive, addr_2_coff,
  do_cached, working_size, read_cylinders, floppy_read,
}
use calm_os.Floppy.Cache.{
  IsTrack, IsCached, Works, do_cached-medium, do_cached-cyl, do_cached-loads, do_cached-drives,
  do_cached-Works,
}

-- The same bytes at two places
pub mem_disk_read-moved :
    (n a b : ℕ) (m t : Image)
    → ((i : ℕ) → i < n → m (a + i) ≡ t (b + i))
    → mem_disk_read a n m ≡ mem_disk_read b n t
unfolding mem_disk_read
mem_disk_read-moved zero a b m t h = refl
mem_disk_read-moved (suc n) a b m t h =
    let head : m a ≡ t b = ground (arith, h 0) in
    let rest = mem_disk_read-moved n (a + 1) (b + 1) m t (λ i l. ground (arith, h (i + 1))) in
    λ i. head i ∷ rest i

mem_disk_read_split :
    (n k a : ℕ) (m : Image)
    → mem_disk_read a n m ++ mem_disk_read (a + n) k m ≡ mem_disk_read a (n + k) m
unfolding mem_disk_read
mem_disk_read_split zero k a m =
    let here : a + 0 ≡ a = omega arith in
    let all : k ≡ 0 + k = omega arith in λ i. mem_disk_read (here i) (all i) m
mem_disk_read_split (suc n) k a m =
    let next : a + suc n ≡ a + 1 + n = omega arith in
    let all : suc (n + k) ≡ suc n + k = omega arith in
    ap (λ x. m a ∷ (mem_disk_read (a + 1) n m ++ mem_disk_read x k m)) next
    ∙ ap (λ bs. m a ∷ bs) (mem_disk_read_split n k (a + 1) m)
    ∙ ap (λ x. mem_disk_read a x m) all

-- What a read has done
pub record Reads (before : Floppy) (expected : List ℕ) (r : ℤ × List ℕ × Floppy) : Type 0 where
  pub medium : r.2.medium ≡ before.medium
  pub drives : r.2.drives ≡ before.drives
  pub sound : r.2.panicked ≡ before.panicked
  pub cached : failed r.0 ≡ false → IsCached r.2
  pub right : failed r.0 ≡ false → r.1 ≡ expected

-- A piece of a cylinder in the buffer is one of the medium.
pub buffer_piece :
    (s : Floppy) (addr n : ℕ)
    → IsCached s
    → addr < medium_size
    → s.floppy_dmacyl ≡ addr / cylinder_size
    → n ≤ (addr_2_coff addr).size
    → mem_disk_read (addr_2_coff addr).offset n s.floppy_dmabuf ≡ mem_disk_read addr n s.medium
buffer_piece s addr n c w e l =
    mem_disk_read-moved n (addr % cylinder_size) addr s.floppy_dmabuf s.medium
      (λ i h. ground (arith, c (addr % cylinder_size + i)))

at_addr :
    (addr size done_size : ℕ)
    → addr + size ≤ medium_size
    → done_size < size
    → (addr + done_size) % 2 ^ 32 ≡ addr + done_size
at_addr addr size done_size w l = omega arith

-- The bytes of one round and of the rest
piece_and_rest :
    (dst : List ℕ) (addr size done_size n : ℕ) (m : Image)
    → n ≤ size - done_size
    → (dst ++ mem_disk_read (addr + done_size) n m)
        ++ mem_disk_read (addr + (done_size + n)) (size - (done_size + n)) m
      ≡ dst ++ mem_disk_read (addr + done_size) (size - done_size) m
piece_and_rest dst addr size done_size n m l =
    append_assoc dst _ _
    ∙ ap (λ bs. dst ++ bs)
        (ap
            (λ x.
              mem_disk_read (addr + done_size) n m ++ mem_disk_read x (size - (done_size + n)) m)
            (omega arith)
          ∙ mem_disk_read_split n (size - (done_size + n)) (addr + done_size) m
          ∙ ap (λ k. mem_disk_read (addr + done_size) k m) (omega arith))

pub working_size_lem :
    (addr size done_size : ℕ)
    → addr + size ≤ medium_size
    → done_size < size
    → (working_size addr size done_size ≤ size - done_size)
      × (0 < working_size addr size done_size)
      × (working_size addr size done_size ≤ (addr_2_coff ((addr + done_size) % 2 ^ 32)).size)
working_size_lem addr size done_size w l = (ground arith, ground arith, ground arith)

Reads-stop :
    (s : Floppy) (dst : List ℕ) (a n : ℕ)
    → IsCached s
    → n ≡ 0
    → Reads s (dst ++ mem_disk_read a n s.medium) (pos 0, dst, s)
unfolding mem_disk_read
Reads-stop s dst a n c e = rw e (record {
  medium = refl;
  drives = refl;
  sound = refl;
  cached = λ k. c;
  right = λ k. sym (append_nil dst);
})

-- A read after a transfer
Reads-after :
    (s t : Floppy) (e f : List ℕ) (r : ℤ × List ℕ × Floppy)
    → t.medium ≡ s.medium
    → (t.drives ≡ s.drives) × (t.panicked ≡ s.panicked)
    → e ≡ f
    → Reads t e r
    → Reads s f r
Reads-after s t e f r m d q h = record {
  medium = h.medium ∙ m;
  drives = h.drives ∙ d.0;
  sound = h.sound ∙ d.1;
  cached = h.cached;
  right = λ k. h.right k ∙ q;
}

module _ (do_track : Track) (laws : IsTrack do_track) where
  -- The rounds left are enough.
  read_cylinders-Reads :
      (rounds addr size done_size : ℕ) (dst : List ℕ) (s : Floppy)
      → IsCached s
      → addr + size ≤ medium_size
      → size - done_size ≤ rounds
      → Reads s
          (dst ++ mem_disk_read (addr + done_size) (size - done_size) s.medium)
          (read_cylinders do_track rounds addr size done_size dst s)
  unfolding read_cylinders
  read_cylinders-Reads zero addr size done_size dst s c w l =
      Reads-stop s dst (addr + done_size) (size - done_size) c (omega arith)
  read_cylinders-Reads (suc rounds) addr size done_size dst s c w l =
      let P = Reads s (dst ++ mem_disk_read (addr + done_size) (size - done_size) s.medium) in
      branch P (not (ltb done_size size)) _ _
        (λ stop. Reads-stop s dst (addr + done_size) (size - done_size) c (ground arith))
        (λ go.
          let lt : done_size < size = ground arith in
          let at = (addr + done_size) % 2 ^ 32 in
          let same = at_addr addr size done_size w lt in
          let in_medium : at < medium_size = omega arith in
          let r = do_cached do_track dir_read at s in
          let n = working_size addr size done_size in
          let (fits, some_bytes, inside) = working_size_lem addr size done_size w lt in
          let medium = do_cached-medium do_track laws at s in_medium in
          let drives = do_cached-drives do_track laws at s in_medium dir_read in
          branch P (failed r.0) _ _
            (λ f. record {
              medium = medium;
              drives = drives.0;
              sound = drives.1;
              cached = λ k. cc;
              right = λ k. cc;
            })
            (λ k.
              let cached = do_cached-loads do_track laws at s in_medium c k in
              let cyl = do_cached-cyl do_track laws at s in_medium dir_read k in
              let copied = dst ++ mem_disk_read (addr_2_coff at).offset n r.1.floppy_dmabuf in
              let piece = buffer_piece r.1 at n cached in_medium cyl inside in
              Reads-after s r.1 _ _ _ medium drives
                ((λ i.
                    (dst ++ piece i)
                    ++ mem_disk_read (addr + (done_size + n)) (size - (done_size + n)) r.1.medium)
                  ∙ (λ i.
                      (dst ++ mem_disk_read (same i) n (medium i))
                      ++ mem_disk_read (addr + (done_size + n)) (size - (done_size + n)) (medium i))
                  ∙ piece_and_rest dst addr size done_size n s.medium fits)
                (read_cylinders-Reads rounds addr size (done_size + n) copied r.1 cached w
                  (omega arith))))

  read_cylinders-Works :
      (rounds addr size done_size : ℕ) (dst : List ℕ) (s : Floppy)
      → addr + size ≤ medium_size
      → Works do_track
      → has_floppy s ≡ true
      → failed (read_cylinders do_track rounds addr size done_size dst s).0 ≡ false
  unfolding read_cylinders
  read_cylinders-Works zero addr size done_size dst s w works there = refl
  read_cylinders-Works (suc rounds) addr size done_size dst s w works there =
      let P = λ (r : ℤ × List ℕ × Floppy). failed r.0 ≡ false in
      branch P (not (ltb done_size size)) _ _ (λ stop. refl)
        (λ go.
          let at = (addr + done_size) % 2 ^ 32 in
          let in_medium : at < medium_size = ground arith in
          let r = do_cached do_track dir_read at s in
          let drives = do_cached-drives do_track laws at s in_medium dir_read in
          let ok = do_cached-Works do_track laws at s in_medium dir_read works there in
          branch P (failed r.0) _ _ (λ f. cc)
            (λ k.
              read_cylinders-Works rounds addr size _ _ r.1 w works
                (ap has_drive drives.0 ∙ there)))

  pub floppy_read-Reads :
      (addr size : ℕ) (s : Floppy)
      → IsCached s
      → addr + size ≤ medium_size
      → Reads s (mem_disk_read addr size s.medium) (floppy_read do_track addr size s)
  unfolding floppy_read
  floppy_read-Reads addr size s c w =
      let start : addr + 0 ≡ addr = omega arith in
      let all : size - 0 ≡ size = omega arith in
      Reads-after s s _ _ _ refl (refl, refl) (λ i. mem_disk_read (start i) (all i) s.medium)
        (read_cylinders-Reads size addr size 0 [] s c w (omega arith))

  pub floppy_read-Works :
      (addr size : ℕ) (s : Floppy)
      → addr + size ≤ medium_size
      → Works do_track
      → has_floppy s ≡ true
      → failed (floppy_read do_track addr size s).0 ≡ false
  unfolding floppy_read
  floppy_read-Works addr size s w works there =
      read_cylinders-Works size addr size 0 [] s w works there

  -- Whether or not the drive always works: a read that ends within the medium and returns no
  -- error has read the medium's bytes and left the medium alone, and the buffer is then the
  -- cylinder that it is said to be.
  pub floppy_read-mem_disk_read :
      (addr size : ℕ) (s : Floppy)
      → IsCached s
      → addr + size ≤ medium_size
      → failed (floppy_read do_track addr size s).0 ≡ false
      → ((floppy_read do_track addr size s).1 ≡ mem_disk_read addr size s.medium)
        × ((floppy_read do_track addr size s).2.medium ≡ s.medium)
        × IsCached (floppy_read do_track addr size s).2
  floppy_read-mem_disk_read addr size s c w ok =
      let done = floppy_read-Reads addr size s c w in (done.right ok, done.medium, done.cached ok)
