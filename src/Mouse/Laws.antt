-- ===== src/Mouse/Laws.antt =====
-- Lemmas on the mouse of kernel/driver/mouse.c.
use calm_os.Base.{
  ℕ, ◌+◌, ◌%◌, ◌≤◌, ◌<◌, ◌≡◌, ◌==◌, ◌&&◌, Bool, true, false, not, ℤ, pos, negsuc, ◌+ℤ◌, ◌-ℤ◌, leb,
  Option, none, some, if◌then◌else◌, refl, arith, inl, inr, Bool-cases, ap, ◌∙◌,
}
use native.Mathlib.Nat.{mod-lt}
use calm_os.Kernel.State.{update}
use calm_os.Mouse.{
  MouseState, Mouse, has, clamp, moved, is_dropped, moved_state, mouse_handle_packet, mouse_it,
  mouse_state_equal, taken,
}

-- A coordinate on an axis of the screen
abbrev pub is_within : ℕ → ℤ → Bool
is_within limit (pos n) = leb (n + 1) limit
is_within limit (negsuc n) = false

pub record IsInside (m : MouseState) : Type 0 where
  pub x : is_within 80 m.x ≡ true
  pub y : is_within 25 m.y ≡ true

clamp-is_within : (limit : ℕ) (v : ℤ) → 1 ≤ limit → is_within limit (clamp limit v) ≡ true
clamp-is_within limit (pos n) l = ground arith
clamp-is_within limit (negsuc n) l = ground arith

pub moved_state-IsInside : (packet : ℕ → ℕ) (old : MouseState) → IsInside (moved_state packet old)
unfolding moved_state
moved_state-IsInside packet old = record {
  x = clamp-is_within 80 (old.x +ℤ moved (has 0x10 (packet 0)) (packet 1) 10) (omega arith);
  y = clamp-is_within 25 (old.y -ℤ moved (has 0x20 (packet 0)) (packet 2) 8) (omega arith);
}

-- The driver between two bytes: the pointer is on the screen, the place of the next byte is in the
-- packet, and a packet that is under way starts with a byte of the right form.
pub record IsTracking (s : Mouse) : Type 0 where
  pub place : s.current_byte < s.bytes_per_packet
  pub size : s.bytes_per_packet ≤ 4
  pub started : 0 < s.current_byte → has 0x08 (s.packet 0) ≡ true
  pub inside : IsInside s.mouse_state

-- What the callback may be called with
abbrev pub IsShown : Option MouseState → Type 0
IsShown none = true ≡ true
IsShown (some m) = IsInside m

abbrev Right : Mouse × Option MouseState → Type 0
Right r = IsTracking r.0 × IsShown r.1

moved-IsTracking :
    (s : Mouse)
    → IsTracking s
    → IsTracking (record s { mouse_state = moved_state s.packet s.mouse_state })
moved-IsTracking s t = record {
  place = t.place;
  size = t.size;
  started = t.started;
  inside = moved_state-IsInside s.packet s.mouse_state;
}

both :
    (b : Bool) (q r : Mouse × Option MouseState)
    → (b ≡ true → Right q)
    → (b ≡ false → Right r)
    → Right (if b then q else r)
both true q r p o = p refl
both false q r p o = o refl

shown : (equal : Bool) (m : MouseState) → IsInside m → IsShown (if equal then none else some m)
shown true m i = refl
shown false m i = i

handle-IsTracking : (s : Mouse) → IsTracking s → Right (mouse_handle_packet s)
unfolding mouse_handle_packet
handle-IsTracking s t =
    let m = moved_state s.packet s.mouse_state in
    let equal = mouse_state_equal s.mouse_state m in
    both (is_dropped s) (s, none) (record s { mouse_state = m }, if equal then none else some m)
      (λ drops. (t, refl))
      (λ goes. (moved-IsTracking s t, shown equal m (moved_state-IsInside s.packet s.mouse_state)))

not_refused : (start good : Bool) → start ≡ true → (start && not good) ≡ false → good ≡ true
not_refused start good e f = ground (arith, e, f)

first_byte :
    (byte : ℕ) (s : Mouse)
    → IsTracking s
    → (s.current_byte == 0 && not (has 0x08 byte)) ≡ false
    → has 0x08 (update s.packet s.current_byte byte 0) ≡ true
first_byte byte s t ok = elim (Bool-cases (s.current_byte == 0)) [
  | inl z ↦
      let here : update s.packet s.current_byte byte 0 ≡ byte = ground (arith, z) in
      let bit : has 0x08 byte ≡ true = not_refused (s.current_byte == 0) (has 0x08 byte) z ok in
      ap (has 0x08) here ∙ bit
  | inr nz ↦
      let kept : update s.packet s.current_byte byte 0 ≡ s.packet 0 = ground (arith, nz) in
      ap (has 0x08) kept ∙ t.started (ground (arith, nz))
]

taken-IsTracking :
    (byte : ℕ) (s : Mouse)
    → IsTracking s
    → (s.current_byte == 0 && not (has 0x08 byte)) ≡ false
    → IsTracking (taken byte s)
taken-IsTracking byte s t ok = record {
  place = mod-lt (s.current_byte + 1) (omega (arith, t.place));
  size = t.size;
  started = λ l. first_byte byte s t ok;
  inside = t.inside;
}

-- Whatever bytes arrive, the driver stays right: after `mouse_it` of any byte the pointer is on the
-- screen, the place of the next byte is one of the packet's, a packet that is under way starts with a byte
-- that has the bit which is always set, and the callback, if it is called, gets a place on the screen.
pub mouse_it-IsTracking :
    (byte : ℕ) (s : Mouse)
    → IsTracking s
    → IsTracking (mouse_it byte s).0 × IsShown (mouse_it byte s).1
unfolding mouse_it
mouse_it-IsTracking byte s t =
    let u = taken byte s in
    both (s.current_byte == 0 && not (has 0x08 byte)) (s, none)
      (if u.current_byte == 0 then mouse_handle_packet u else (u, none)) (λ refused. (t, refl))
      (λ ok.
        let v = taken-IsTracking byte s t ok in
        both (u.current_byte == 0) (mouse_handle_packet u) (u, none)
          (λ whole. handle-IsTracking u v) (λ more. (v, refl)))

goes_on :
    (byte : ℕ) (s : Mouse)
    → (s.current_byte == 0 && not (has 0x08 byte)) ≡ false
    → ((taken byte s).current_byte == 0) ≡ false
    → mouse_it byte s ≡ (taken byte s, none)
unfolding mouse_it
goes_on byte s ok more = rw (mouse_it, ok, more) refl

ends :
    (byte : ℕ) (s : Mouse)
    → (s.current_byte == 0 && not (has 0x08 byte)) ≡ false
    → ((taken byte s).current_byte == 0) ≡ true
    → mouse_it byte s ≡ mouse_handle_packet (taken byte s)
unfolding mouse_it
ends byte s ok whole = rw (mouse_it, ok, whole) refl

accepted : (start good : Bool) → good ≡ true → (start && not good) ≡ false
accepted start good e = ground (arith, e)

inside_packet : (c : ℕ) (good : Bool) → 0 < c → (c == 0 && not good) ≡ false
inside_packet c good l = ground arith

-- Three bytes are one packet: between two packets of three bytes, when the first of three bytes has the bit
-- that is always set, the interrupts of the three handle the packet of exactly these bytes, and
-- the next byte starts a packet again.
pub mouse_it-packet :
    (f g h : ℕ) (s : Mouse)
    → s.current_byte ≡ 0
    → s.bytes_per_packet ≡ 3
    → has 0x08 f ≡ true
    → (t : Mouse) × (mouse_it h (mouse_it g (mouse_it f s).0).0 ≡ mouse_handle_packet t)
      × (t.packet 0 ≡ f)
      × (t.packet 1 ≡ g)
      × (t.packet 2 ≡ h)
      × (t.current_byte ≡ 0)
      × (t.mouse_state ≡ s.mouse_state)
mouse_it-packet f g h s c n ok =
    let one = taken f s in
    let two = taken g one in
    let at_one : one.current_byte ≡ 1 = λ i. (c i + 1) % n i in
    let at_two : two.current_byte ≡ 2 = λ i. (at_one i + 1) % n i in
    let at_end : (taken h two).current_byte ≡ 0 = λ i. (at_two i + 1) % n i in
    let p : mouse_it f s ≡ (one, none) =
      goes_on f s (accepted (s.current_byte == 0) (has 0x08 f) ok) (ground (arith, at_one)) in
    let q : mouse_it g one ≡ (two, none) =
      goes_on g one (inside_packet one.current_byte (has 0x08 g) (omega (arith, at_one)))
        (ground (arith, at_two)) in
    let r : mouse_it h two ≡ mouse_handle_packet (taken h two) =
      ends h two (inside_packet two.current_byte (has 0x08 h) (omega (arith, at_two)))
        (ground (arith, at_end)) in
    (
      taken h two,
      ap (λ u. mouse_it h (mouse_it g u.0).0) p ∙ ap (λ u. mouse_it h u.0) q ∙ r,
      ground (arith, c, at_one, at_two),
      ground (arith, c, at_one, at_two),
      ground (arith, c, at_one, at_two),
      at_end,
      refl,
    )
