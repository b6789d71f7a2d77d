-- ===== src/Interrupt/Setup/Laws.antt =====
-- What `setup_interrupt_handlers` of kernel/interrupt.c leaves behind.
use calm_os.Base.{
  ℕ, ◌+◌, ◌*◌, ◌/◌, ◌%◌, ◌^◌, ◌<◌, ◌≡◌, ◌≢◌, zero, suc, ◌==◌, ◌||◌, false, arith, ◌∙◌,
  if◌then◌else◌,
}
use calm_os.Interrupt.{Idt, set_handler, kernel_cs}
use calm_os.Interrupt.Laws.{gate_offset, gate_ring, gate_kind, set_handler_lem}
use calm_os.Interrupt.Setup.{Chips, Handlers, set_bit, set_mask, set_pit, setup_interrupt_handlers}

-- The bit of an interrupt line: 1 when it is masked
abbrev pub mask_bit : ℕ → ℕ → ℕ
mask_bit masks j = masks / 2 ^ j % 2

below_8 : (P : ℕ → Type 0) → P 0 → P 1 → P 2 → P 3 → P 4 → P 5 → P 6 → P 7 → (j : ℕ) → j < 8 → P j
below_8 P a b c d e f g h zero l = a
below_8 P a b c d e f g h (suc zero) l = b
below_8 P a b c d e f g h (suc (suc zero)) l = c
below_8 P a b c d e f g h (suc (suc (suc zero))) l = d
below_8 P a b c d e f g h (suc (suc (suc (suc zero)))) l = e
below_8 P a b c d e f g h (suc (suc (suc (suc (suc zero))))) l = f
below_8 P a b c d e f g h (suc (suc (suc (suc (suc (suc zero)))))) l = g
below_8 P a b c d e f g h (suc (suc (suc (suc (suc (suc (suc zero))))))) l = h
below_8 P a b c d e f g h (suc (suc (suc (suc (suc (suc (suc (suc n)))))))) l = absurd (omega arith)

abbrev Cleared : ℕ → ℕ → ℕ → Type 0
Cleared irq m j = mask_bit (set_bit m irq false) j ≡ (if j == irq then 0 else mask_bit m j)

Cleared-0 : (m j : ℕ) → j < 8 → Cleared 0 m j
Cleared-0 m j l =
    below_8 (Cleared 0 m) (omega arith) (omega arith) (omega arith) (omega arith) (omega arith)
      (omega arith) (omega arith) (omega arith) j l

Cleared-1 : (m j : ℕ) → j < 8 → Cleared 1 m j
Cleared-1 m j l =
    below_8 (Cleared 1 m) (omega arith) (omega arith) (omega arith) (omega arith) (omega arith)
      (omega arith) (omega arith) (omega arith) j l

Cleared-2 : (m j : ℕ) → j < 8 → Cleared 2 m j
Cleared-2 m j l =
    below_8 (Cleared 2 m) (omega arith) (omega arith) (omega arith) (omega arith) (omega arith)
      (omega arith) (omega arith) (omega arith) j l

Cleared-4 : (m j : ℕ) → j < 8 → Cleared 4 m j
Cleared-4 m j l =
    below_8 (Cleared 4 m) (omega arith) (omega arith) (omega arith) (omega arith) (omega arith)
      (omega arith) (omega arith) (omega arith) j l

Cleared-6 : (m j : ℕ) → j < 8 → Cleared 6 m j
Cleared-6 m j l =
    below_8 (Cleared 6 m) (omega arith) (omega arith) (omega arith) (omega arith) (omega arith)
      (omega arith) (omega arith) (omega arith) j l

-- An entry with its handler and its ring, a present 32-bit interrupt gate of the kernel
pub record Gate (idt : Idt) (n handler ring : ℕ) : Type 0 where
  pub offset : gate_offset idt n ≡ handler
  pub selector : idt (n * 4 + 1) ≡ kernel_cs
  pub ring_level : gate_ring idt n ≡ ring
  pub kind : gate_kind idt n ≡ 0x8e00

Gate-set :
    (n handler ring : ℕ) (idt : Idt)
    → handler < 2 ^ 32
    → ring < 4
    → Gate (set_handler n handler ring idt) n handler ring
Gate-set n handler ring idt h r =
    let (offset, selector, level, kind, others) = set_handler_lem n handler ring idt h r in
    record { offset = offset; selector = selector; ring_level = level; kind = kind }

Gate-kept :
    (n other handler ring address level : ℕ) (idt : Idt)
    → address < 2 ^ 32
    → level < 4
    → n ≢ other
    → Gate idt n handler ring
    → Gate (set_handler other address level idt) n handler ring
Gate-kept n other handler ring address level idt h l ne g =
    let same = (set_handler_lem other address level idt h l).4 in
    let a = same (n * 4) (omega arith) in
    let b = same (n * 4 + 1) (omega arith) in
    let c = same (n * 4 + 2) (omega arith) in
    let d = same (n * 4 + 3) (omega arith) in
    record {
      offset = (λ i. a i + 2 ^ 16 * d i) ∙ g.offset;
      selector = b ∙ g.selector;
      ring_level = (λ i. c i / 2 ^ 13 % 4) ∙ g.ring_level;
      kind = (λ i. c i % 2 ^ 13 + c i / 2 ^ 15 * 2 ^ 15) ∙ g.kind;
    }

-- The set-up: for handlers at addresses of 32 bits, `setup_interrupt_handlers` makes the entries 32,
-- 33, 38 and 44 of the table gates of ring 0 to the handlers of the clock, the keyboard, the floppy
-- and the mouse, and 49 the gate of ring 3 to the handler of system calls; it unmasks the lines 0,
-- 1, 2 and 6 of the first controller and 4 of the second one (12), and every other line is as it was.
pub setup_interrupt_handlers_lem :
    (h : Handlers) (c : Chips)
    → h.it_pit < 2 ^ 32
    → h.it_keyboard < 2 ^ 32
    → h.it_floppy < 2 ^ 32
    → h.it_mouse < 2 ^ 32
    → h.it_usr < 2 ^ 32
    → Gate (setup_interrupt_handlers h c).idt 32 h.it_pit 0
      × Gate (setup_interrupt_handlers h c).idt 33 h.it_keyboard 0
      × Gate (setup_interrupt_handlers h c).idt 38 h.it_floppy 0
      × Gate (setup_interrupt_handlers h c).idt 44 h.it_mouse 0
      × Gate (setup_interrupt_handlers h c).idt 49 h.it_usr 3
      × ((j : ℕ)
          → j < 8
          → mask_bit (setup_interrupt_handlers h c).masks_low j
            ≡ (if j == 0 || j == 1 || j == 2 || j == 6 then 0 else mask_bit c.masks_low j))
      × ((j : ℕ)
          → j < 8
          → mask_bit (setup_interrupt_handlers h c).masks_high j
            ≡ (if j == 4 then 0 else mask_bit c.masks_high j))
unfolding setup_interrupt_handlers set_mask set_pit
setup_interrupt_handlers_lem h c pit kbd flo mou usr =
    let i1 = set_handler 32 h.it_pit 0 c.idt in
    let i2 = set_handler 33 h.it_keyboard 0 i1 in
    let i3 = set_handler 38 h.it_floppy 0 i2 in
    let i4 = set_handler 44 h.it_mouse 0 i3 in
    let keep2 = λ (n handler ring : ℕ) (ne : n ≢ 33) (g : Gate i1 n handler ring).
      Gate-kept n 33 handler ring h.it_keyboard 0 i1 kbd (omega arith) ne g in
    let keep3 = λ (n handler ring : ℕ) (ne : n ≢ 38) (g : Gate i2 n handler ring).
      Gate-kept n 38 handler ring h.it_floppy 0 i2 flo (omega arith) ne g in
    let keep4 = λ (n handler ring : ℕ) (ne : n ≢ 44) (g : Gate i3 n handler ring).
      Gate-kept n 44 handler ring h.it_mouse 0 i3 mou (omega arith) ne g in
    let keep5 = λ (n handler ring : ℕ) (ne : n ≢ 49) (g : Gate i4 n handler ring).
      Gate-kept n 49 handler ring h.it_usr 3 i4 usr (omega arith) ne g in
    let m0 = set_bit c.masks_low 0 false in
    let m1 = set_bit m0 1 false in
    let m6 = set_bit m1 6 false in
    (
      keep5 32 h.it_pit 0 (omega arith) (
          keep4 32 h.it_pit 0 (omega arith) (
            keep3 32 h.it_pit 0 (omega arith) (
              keep2 32 h.it_pit 0 (omega arith) (Gate-set 32 h.it_pit 0 c.idt pit (omega arith))))),
      keep5 33 h.it_keyboard 0 (omega arith) (
          keep4 33 h.it_keyboard 0 (omega arith) (
            keep3 33 h.it_keyboard 0 (omega arith)
              (Gate-set 33 h.it_keyboard 0 i1 kbd (omega arith)))),
      keep5 38 h.it_floppy 0 (omega arith)
          (keep4 38 h.it_floppy 0 (omega arith) (Gate-set 38 h.it_floppy 0 i2 flo (omega arith))),
      keep5 44 h.it_mouse 0 (omega arith) (Gate-set 44 h.it_mouse 0 i3 mou (omega arith)),
      Gate-set 49 h.it_usr 3 i4 usr (omega arith),
      (λ j l.
          Cleared-2 m6 j l
          ∙ ground (arith, Cleared-6 m1 j l, Cleared-1 m0 j l, Cleared-0 c.masks_low j l)),
      (λ j l. Cleared-4 c.masks_high j l),
    )
