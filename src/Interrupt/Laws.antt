-- ===== src/Interrupt/Laws.antt =====
-- Lemmas on the clock interrupt and the table of interrupts of kernel/interrupt.c, and on the
-- speaker of kernel/driver/beep.c.
use calm_os.Base.{
  ℕ, zero, suc, ◌+◌, ◌-◌, ◌*◌, ◌/◌, ◌%◌, ◌^◌, ◌≤◌, ◌<◌, ◌≡◌, ◌≢◌, ◌==◌, true, List, some, refl,
  arith, ap, ◌∙◌, length,
}
use Prim.Native.Nat.{bit_or}
use calm_os.Kernel.State.{update}
use calm_os.Kernel.Tick.Laws.{Elects}
use calm_os.Kernel.Machine.{tic_clock, clockfreq}
use calm_os.Kernel.Machine.Laws.{tic_clock-Elects}
use calm_os.Console.{
  console_col, console_white, console_black, console_red, pack_char, console_putbytes_at,
}
use calm_os.Console.Laws.{
  AllPrintable, write_text, console_putbytes_at_lem, console_draw_red_cross_lem,
}
use calm_os.Interrupt.{Computer, Idt, tic_pit, show_tick, time_str, set_handler, kernel_cs}

-- "%02ld:%02ld:%02ld" of three numbers of two digits at most
pub record IsSprintf (sprintf : ℕ → ℕ → ℕ → List ℕ) : Type 0 where
  pub short : (h m s : ℕ) → h < 100 → m < 100 → s < 100 → length (sprintf h m s) ≡ 8
  pub printable : (h m s : ℕ) → h < 100 → m < 100 → s < 100 → AllPrintable (sprintf h m s)

-- The ticks of 100 hours
abbrev pub hundred_hours : ℕ
hundred_hours = 100 * 60 * 60 * clockfreq

module _ (memmove : ℕ → ℕ → ℕ → (ℕ → ℕ) → ℕ → ℕ) (sprintf : ℕ → ℕ → ℕ → List ℕ)
    (laws : IsSprintf sprintf) where
  time_str_lem :
      (clock : ℕ)
      → clock < hundred_hours
      → (length (time_str sprintf clock) ≡ 8) × AllPrintable (time_str sprintf clock)
  unfolding time_str
  time_str_lem clock l =
      let seconds = clock / clockfreq in
      let h : seconds / (60 * 60) < 100 = omega arith in
      let m : seconds / 60 % 60 < 100 = omega arith in
      let s : seconds % 60 < 100 = omega arith in
      (laws.short _ _ _ h m s, laws.printable _ _ _ h m s)

  -- The clock interrupt: in the first 100 hours, with the `sprintf` of the C library, `tic_pit` writes no
  -- byte behind its array for the time, and shows the 8 characters of the time in the first line, 10
  -- columns before its end, and the red cross in the last cell of the line; no other cell changes,
  -- and the cursor and its style are as before. From a valid kernel whose active process has the
  -- highest priority of the runnable ones it leads to such a kernel.
  pub tic_pit_lem :
      (c : Computer)
      → (c.kernel.clock + 1) % 2 ^ 32 < hundred_hours
      → Elects c.kernel
      → (t : Computer) × (tic_pit memmove sprintf c ≡ some t)
        × Elects t.kernel
        × (length (time_str sprintf ((c.kernel.clock + 1) % 2 ^ 32)) ≡ 8)
        × (t.screen.cells
            ≡ update
                (write_text
                  (time_str sprintf ((c.kernel.clock + 1) % 2 ^ 32))
                  (console_col - 10)
                  console_white
                  console_black
                  c.screen.cells)
                (console_col - 1)
                (pack_char 0x58 console_white console_red))
        × (t.screen.col ≡ c.screen.col)
        × (t.screen.lig ≡ c.screen.lig)
        × (t.screen.ct ≡ c.screen.ct)
        × (t.screen.cf ≡ c.screen.cf)
  unfolding tic_pit tic_clock
  tic_pit_lem c l e =
      let text = time_str sprintf ((c.kernel.clock + 1) % 2 ^ 32) in
      let (eight, shown_well) = time_str_lem ((c.kernel.clock + 1) % 2 ^ 32) l in
      let shown = console_putbytes_at memmove text (console_col - 10) 0 c.screen in
      let fits : console_col - 10 + length text ≤ console_col = omega (arith, eight) in
      let (cells, col, lig, ct, cf) =
        console_putbytes_at_lem memmove text (console_col - 10) 0 c.screen shown_well fits
          (omega arith) in
      let (cross, col_x, lig_x, ct_x, cf_x) = console_draw_red_cross_lem memmove shown in
      let full : (length text == 8) ≡ true = ap (λ n. n == 8) eight in
      (
        show_tick memmove sprintf text c,
        rw full refl,
        tic_clock-Elects c.kernel e.valid e.elected,
        eight,
        cross
            ∙ ap (λ m. update m (console_col - 1) (pack_char 0x58 console_white console_red)) cells,
        col_x ∙ col,
        lig_x ∙ lig,
        ct_x ∙ ct,
        cf_x ∙ cf,
      )

-- What the processor reads in an entry of the table: the address, the selector, the ring, and the
-- rest of the access word, a present 32-bit interrupt gate
abbrev pub gate_offset : Idt → ℕ → ℕ
gate_offset idt n = idt (n * 4) + 2 ^ 16 * idt (n * 4 + 3)

abbrev pub gate_ring : Idt → ℕ → ℕ
gate_ring idt n = idt (n * 4 + 2) / 2 ^ 13 % 4

abbrev pub gate_kind : Idt → ℕ → ℕ
gate_kind idt n = idt (n * 4 + 2) % 2 ^ 13 + idt (n * 4 + 2) / 2 ^ 15 * 2 ^ 15

access_word :
    (ring : ℕ) → ring < 4 → bit_or 0x8e00 (ring * 2 ^ 13) % 2 ^ 16 ≡ 0x8e00 + ring * 2 ^ 13
access_word zero h = refl
access_word (suc zero) h = refl
access_word (suc (suc zero)) h = refl
access_word (suc (suc (suc zero))) h = refl
access_word (suc (suc (suc (suc n)))) h = absurd (omega arith)

-- An entry is read as it was set: for an address of 32 bits and a ring from 0 to 3, after
-- `set_handler` the entry has this address, the kernel's code segment and this ring, and is a
-- present 32-bit interrupt gate; the words of all other entries are as before.
pub set_handler_lem :
    (n handler ring : ℕ) (idt : Idt)
    → handler < 2 ^ 32
    → ring < 4
    → (gate_offset (set_handler n handler ring idt) n ≡ handler)
      × (set_handler n handler ring idt (n * 4 + 1) ≡ kernel_cs)
      × (gate_ring (set_handler n handler ring idt) n ≡ ring)
      × (gate_kind (set_handler n handler ring idt) n ≡ 0x8e00)
      × ((j : ℕ) → j / 4 ≢ n → set_handler n handler ring idt j ≡ idt j)
unfolding set_handler
set_handler_lem n handler ring idt h r =
    let access = access_word ring r in
    (
      ground (arith, access),
      ground (arith, access),
      ground (arith, access),
      ground (arith, access),
      (λ j o. ground (arith, access)),
    )
