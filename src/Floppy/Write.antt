-- ===== src/Floppy/Write.antt =====
-- `floppy_write` of kernel/driver/floppy.c writes the medium.
use calm_os.Base.{
  ℕ, zero, suc, ◌+◌, ℤ, ◌-◌, ◌/◌, ◌%◌, ◌^◌, ◌≤◌, ◌<◌, ◌≡◌, pos, true, false, not, ◌&&◌, ◌==◌, List,
  [], ◌∷◌, refl, arith, sym, ap, subst, ◌∙◌, fun_ext, branch, if◌then◌else◌, ltb, leb, length,
  get_or, take, drop, length-take, length-drop,
}
use calm_os.Disk.{Image, mem_disk_write}
use calm_os.Disk.Laws.{mem_disk_write_lem}
use calm_os.Floppy.{
  Floppy, Track, cylinder_size, medium_size, dir_read, dir_write, failed, has_floppy, has_drive,
  addr_2_coff, do_cached, working_size, write_cylinder, write_cylinders, floppy_write, edit_buffer,
}
use calm_os.Floppy.Read.{working_size_lem}
use calm_os.Floppy.Cache.{
  IsTrack, IsCached, Works, cylinder_addr, do_cached-medium, do_cached-cyl, do_cached-loads,
  do_cached-drives, do_cached-Works, do_cached-saves, do_cached-kept,
}

get_or-drop : (d j : ℕ) (bs : List ℕ) → get_or (drop d bs) j 0 ≡ get_or bs (d + j) 0
get_or-drop zero j bs = ap (λ i. get_or bs i 0) (omega arith)
get_or-drop (suc d) j [] = refl
get_or-drop (suc d) j (b ∷ bs) =
    let next : suc d + j ≡ suc (d + j) = omega arith in
    get_or-drop d j bs ∙ ap (λ i. get_or (b ∷ bs) i 0) (sym next)

get_or-take : (n j : ℕ) (bs : List ℕ) → j < n → get_or (take n bs) j 0 ≡ get_or bs j 0
get_or-take zero j bs l = absurd (omega arith)
get_or-take (suc n) j [] l = refl
get_or-take (suc n) zero (b ∷ bs) l = refl
get_or-take (suc n) (suc j) (b ∷ bs) l = get_or-take n j bs (omega arith)

-- What is on the medium when the bytes from `from` to `to` of a buffer stand from `addr` on
abbrev pub with_bytes : ℕ → List ℕ → ℕ → ℕ → Image → ℕ → ℕ
with_bytes addr src from to m a =
    if leb (addr + from) a && ltb a (addr + to) then get_or src (a - addr) 0 else m a

-- The bytes of a round are those of the buffer.
piece_lem :
    (addr from n offset i : ℕ) (src : List ℕ) (m : Image)
    → from + n ≤ length src
    → mem_disk_write offset (take n (drop from src)) m i
      ≡ (if leb offset i && ltb i (offset + n) then get_or src (from + (i - offset)) 0 else m i)
piece_lem addr from n offset i src m l = ground (
  arith,
  mem_disk_write_lem (take n (drop from src)) offset m i,
  length-take n (drop from src),
  length-drop from src,
  get_or-take n (i - offset) (drop from src),
  get_or-drop from (i - offset) src,
)

-- The bytes of the edited buffer, put on the medium in its cylinder's place
edited_lem :
    (a at addr from n : ℕ) (src : List ℕ) (s t : Floppy)
    → IsCached t
    → t.medium ≡ s.medium
    → t.floppy_dmacyl ≡ at / cylinder_size
    → at < medium_size
    → at ≡ addr + from
    → n ≤ (addr_2_coff at).size
    → from + n ≤ length src
    → (if a / cylinder_size == at / cylinder_size
        then mem_disk_write
            (addr_2_coff at).offset
            (take n (drop from src))
            t.floppy_dmabuf
            (a % cylinder_size)
        else t.medium a)
      ≡ with_bytes addr src from (from + n) s.medium a
edited_lem a at addr from n src s t c m y w e l f =
    let i = a % cylinder_size in
    let back : cylinder_addr t.floppy_dmacyl i
        ≡ (if a / cylinder_size == at / cylinder_size then a else cylinder_addr t.floppy_dmacyl i) =
      ground arith in
    let same : from + (i - at % cylinder_size) ≡ (
        if a / cylinder_size == at / cylinder_size && leb (at % cylinder_size) i
        then a - addr
        else from + (i - at % cylinder_size)) =
      ground arith in
    ground (
      arith,
      piece_lem addr from n (at % cylinder_size) i src t.floppy_dmabuf f,
      c i,
      back,
      same,
      ap (λ (g : Image). g a) m,
      ap (λ (j : ℕ). t.medium j) back,
      ap (λ (j : ℕ). get_or src j 0) same,
    )

-- What a write of a part of a buffer has done
pub record Wrote (addr : ℕ) (src : List ℕ) (from to : ℕ) (s : Floppy) (r : ℤ × Floppy)
    : Type 0 where
  pub drives : r.1.drives ≡ s.drives
  pub sound : r.1.panicked ≡ s.panicked
  pub cached : failed r.0 ≡ false → IsCached r.1
  pub right : (a : ℕ) → failed r.0 ≡ false → r.1.medium a ≡ with_bytes addr src from to s.medium a

module _ (do_track : Track) (laws : IsTrack do_track) where
  write_cylinder-Wrote :
      (at addr from n : ℕ) (src : List ℕ) (s : Floppy)
      → IsCached s
      → at < medium_size
      → at ≡ addr + from
      → n ≤ (addr_2_coff at).size
      → from + n ≤ length src
      → Wrote addr src from
          (from + n)
          s
          (write_cylinder do_track at (addr_2_coff at).offset (take n (drop from src)) s)
  unfolding write_cylinder
  write_cylinder-Wrote at addr from n src s c w e l f =
      let bs = take n (drop from src) in
      let r = do_cached do_track dir_read at s in
      let drives = do_cached-drives do_track laws at s w dir_read in
      branch (Wrote addr src from (from + n) s) (failed r.0) _ _
        (λ b. record { drives = drives.0; sound = drives.1; cached = λ k. cc; right = λ a k. cc })
        (λ k.
          let medium = do_cached-medium do_track laws at s w in
          let cached = do_cached-loads do_track laws at s w c k in
          let cyl = do_cached-cyl do_track laws at s w dir_read k in
          let u = edit_buffer (addr_2_coff at).offset bs r.1 in
          let later = do_cached-drives do_track laws at u w dir_write in
          record {
            drives = later.0 ∙ drives.0;
            sound = later.1 ∙ drives.1;
            cached = do_cached-kept do_track laws at u w;
            right = λ a g.
                do_cached-saves do_track laws at u w a g
                ∙ edited_lem a at addr from n src s r.1 cached medium cyl w e l f;
          })

with_bytes_none :
    (addr from to a : ℕ) (src : List ℕ) (m : Image)
    → to ≤ from
    → m a ≡ with_bytes addr src from to m a
with_bytes_none addr from to a src m l = ground arith

-- Two pieces that follow one another
with_bytes_split :
    (addr from mid to a : ℕ) (src : List ℕ) (m t : Image)
    → from ≤ mid
    → mid ≤ to
    → t a ≡ with_bytes addr src from mid m a
    → with_bytes addr src mid to t a ≡ with_bytes addr src from to m a
with_bytes_split addr from mid to a src m t l k e = ground arith

Wrote-stop :
    (addr from to : ℕ) (src : List ℕ) (s : Floppy)
    → IsCached s
    → to ≤ from
    → Wrote addr src from to s (pos 0, s)
Wrote-stop addr from to src s c l = record {
  drives = refl;
  sound = refl;
  cached = λ k. c;
  right = λ a k. with_bytes_none addr from to a src s.medium l;
}

module _ (do_track : Track) (laws : IsTrack do_track) where
  write_cylinders-Wrote :
      (rounds addr : ℕ) (src : List ℕ) (size done_size : ℕ) (s : Floppy)
      → IsCached s
      → addr + size ≤ medium_size
      → size ≤ length src
      → size - done_size ≤ rounds
      → Wrote addr src done_size size s (write_cylinders do_track rounds addr src size done_size s)
  unfolding write_cylinders
  write_cylinders-Wrote zero addr src size done_size s c w f l =
      Wrote-stop addr done_size size src s c (omega arith)
  write_cylinders-Wrote (suc rounds) addr src size done_size s c w f l =
      let P = Wrote addr src done_size size s in
      branch P (not (ltb done_size size)) _ _
        (λ stop. Wrote-stop addr done_size size src s c (ground arith))
        (λ go.
          let lt : done_size < size = ground arith in
          let at = (addr + done_size) % 2 ^ 32 in
          let n = working_size addr size done_size in
          let r =
            write_cylinder do_track at (addr_2_coff at).offset (take n (drop done_size src)) s in
          let (fits, some_bytes, inside) = working_size_lem addr size done_size w lt in
          let one =
            write_cylinder-Wrote do_track laws at addr done_size n src s c (omega arith)
              (omega arith) inside (omega arith) in
          branch P (failed r.0) _ _
            (λ b. record {
              drives = one.drives;
              sound = one.sound;
              cached = λ k. cc;
              right = λ a k. cc;
            })
            (λ k.
              let rest =
                write_cylinders-Wrote rounds addr src size (done_size + n) r.1 (one.cached k) w f
                  (omega arith) in
              record {
                drives = rest.drives ∙ one.drives;
                sound = rest.sound ∙ one.sound;
                cached = rest.cached;
                right = λ a g.
                    rest.right a g
                    ∙ with_bytes_split addr done_size (done_size + n) size a src s.medium r.1.medium
                        (omega arith) (omega arith) (one.right a k);
              }))

  write_cylinders-Works :
      (rounds addr : ℕ) (src : List ℕ) (size done_size : ℕ) (s : Floppy)
      → addr + size ≤ medium_size
      → Works do_track
      → has_floppy s ≡ true
      → failed (write_cylinders do_track rounds addr src size done_size s).0 ≡ false
  unfolding write_cylinders write_cylinder
  write_cylinders-Works zero addr src size done_size s w works there = refl
  write_cylinders-Works (suc rounds) addr src size done_size s w works there =
      let P = λ (r : ℤ × Floppy). failed r.0 ≡ false in
      branch P (not (ltb done_size size)) _ _ (λ stop. refl)
        (λ go.
          let at = (addr + done_size) % 2 ^ 32 in
          let in_medium : at < medium_size = ground arith in
          let n = working_size addr size done_size in
          let r = do_cached do_track dir_read at s in
          let u = edit_buffer (addr_2_coff at).offset (take n (drop done_size src)) r.1 in
          let drives = do_cached-drives do_track laws at s in_medium dir_read in
          let later = do_cached-drives do_track laws at u in_medium dir_write in
          let loaded = do_cached-Works do_track laws at s in_medium dir_read works there in
          let still = ap has_drive drives.0 ∙ there in
          let saved = do_cached-Works do_track laws at u in_medium dir_write works still in
          let t =
            write_cylinder do_track at (addr_2_coff at).offset (take n (drop done_size src)) s in
          let step : t ≡ do_cached do_track dir_write at u =
            λ i. if loaded i then r else do_cached do_track dir_write at u in
          branch P (failed t.0) _ _
            (λ f. absurd (subst (λ (x : ℤ × Floppy). failed x.0 ≡ true → ⊥) (sym step) (λ g. cc) f))
            (λ k.
              write_cylinders-Works rounds addr src size (done_size + n) t.1 w works
                (ap (λ (x : ℤ × Floppy). has_floppy x.1) step ∙ ap has_drive later.0 ∙ still)))

  -- Whether or not the drive always works: when the buffer is the cylinder that it is said to be, a
  -- write that ends within the medium and returns no error has put its bytes on the medium, and
  -- nothing else, and the buffer is such a cylinder again.
  pub floppy_write-mem_disk_write :
      (addr : ℕ) (src : List ℕ) (s : Floppy)
      → IsCached s
      → addr + length src ≤ medium_size
      → failed (floppy_write do_track addr src s).0 ≡ false
      → ((floppy_write do_track addr src s).1.medium ≡ mem_disk_write addr src s.medium)
        × IsCached (floppy_write do_track addr src s).1
  unfolding floppy_write
  floppy_write-mem_disk_write addr src s c w ok =
      let h =
        write_cylinders-Wrote (length src) addr src (length src) 0 s c w (omega arith)
          (omega arith) in
      (
        fun_ext (λ a. h.right a ok ∙ ground (arith, mem_disk_write_lem src addr s.medium a)),
        h.cached ok,
      )

  pub floppy_write-Works :
      (addr : ℕ) (src : List ℕ) (s : Floppy)
      → addr + length src ≤ medium_size
      → Works do_track
      → has_floppy s ≡ true
      → failed (floppy_write do_track addr src s).0 ≡ false
  unfolding floppy_write
  floppy_write-Works addr src s w works there =
      write_cylinders-Works (length src) addr src (length src) 0 s w works there

  pub floppy_write-drives :
      (addr : ℕ) (src : List ℕ) (s : Floppy)
      → IsCached s
      → addr + length src ≤ medium_size
      → ((floppy_write do_track addr src s).1.drives ≡ s.drives)
        × ((floppy_write do_track addr src s).1.panicked ≡ s.panicked)
  unfolding floppy_write
  floppy_write-drives addr src s c w =
      let h =
        write_cylinders-Wrote (length src) addr src (length src) 0 s c w (omega arith)
          (omega arith) in
      (h.drives, h.sound)
