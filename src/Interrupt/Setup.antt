-- ===== src/Interrupt/Setup.antt =====
-- The set-up of the interrupts, `setup_interrupt_handlers` of kernel/interrupt.c: the table of
-- interrupts, the masks of the two controllers and the interval of the clock. The addresses of the
-- handlers are parameters. Left out are the calls that set up the drivers, which are on other state,
-- and the check of the clock's constants, which hold of `clockfreq` and `schedfreq`.
pub mod Laws
use calm_os.Base.{
  ℕ, ◌+◌, ◌-◌, ◌*◌, ◌/◌, ◌%◌, ◌^◌, Bool, false, List, [], ◌∷◌, ◌++◌, if◌then◌else◌, leb,
}
use calm_os.Kernel.Machine.{clockfreq}
use calm_os.Interrupt.{Idt, set_handler}

-- The bytes at IRQ_LOW_MASK_DATA_PORT and IRQ_HIGH_MASK_DATA_PORT, the table, and the bytes sent to
-- the timer
pub record Chips : Type 0 where
  pub masks_low : ℕ
  pub masks_high : ℕ
  pub idt : Idt
  pub timer : List ℕ

-- (masks & ~(1UL << irq)) | (masked << irq)
abbrev pub set_bit : ℕ → ℕ → Bool → ℕ
set_bit masks irq masked = masks - masks / 2 ^ irq % 2 * 2 ^ irq + (if masked then 2 ^ irq else 0)

unfoldable pub set_mask : ℕ → Bool → Chips → Chips
set_mask irq masked c =
    if leb 8 irq
    then record c { masks_high = set_bit c.masks_high (irq - 8) masked }
    else record c { masks_low = set_bit c.masks_low irq masked }

abbrev pub interval : ℕ
interval = 0x1234dd / clockfreq

unfoldable pub set_pit : Chips → Chips
set_pit c = record c { timer = c.timer ++ 0x34 ∷ (interval % 256) ∷ (interval / 256) ∷ [] }

pub record Handlers : Type 0 where
  pub it_pit : ℕ
  pub it_keyboard : ℕ
  pub it_floppy : ℕ
  pub it_mouse : ℕ
  pub it_usr : ℕ

abbrev pub set_entry : ℕ → ℕ → ℕ → Chips → Chips
set_entry n handler ring c = record c { idt = set_handler n handler ring c.idt }

unfoldable pub setup_interrupt_handlers : Handlers → Chips → Chips
unfolding set_pit set_mask
setup_interrupt_handlers h c =
    let a =
      set_entry 44 h.it_mouse 0
        (set_entry 38 h.it_floppy 0 (set_entry 33 h.it_keyboard 0 (set_entry 32 h.it_pit 0 c))) in
    let b = set_mask 6 false (set_mask 1 false (set_mask 0 false (set_pit a))) in
    set_entry 49 h.it_usr 3 (set_mask 12 false (set_mask 2 false b))
