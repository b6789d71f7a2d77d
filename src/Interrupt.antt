-- ===== src/Interrupt.antt =====
-- The clock interrupt of kernel/interrupt.c with all that it calls, the speaker of
-- kernel/driver/beep.c, and the entries of the table of interrupts. `sprintf`, the product of a
-- `float` in `end_tick`, and `memmove` are parameters. The registers of the speaker are the words
-- sent to the timer and the byte of port 0x61.
pub mod Laws
pub mod Setup
use calm_os.Base.{
  ℕ, zero, suc, ◌+◌, ◌-◌, ◌*◌, ◌/◌, ◌%◌, ◌^◌, ◌==◌, ◌&&◌, not, Bool, ℤ, pos, negsuc, List, [], ◌∷◌,
  ◌++◌, Option, none, some, if◌then◌else◌, leb, length, ◌>>=◌,
}
use Prim.Native.Nat.{bit_or}
use calm_os.Kernel.State.{Sys, update}
use calm_os.Kernel.Tick.{tick_scheduler}
use calm_os.Kernel.Machine.{clockfreq, schedfreq}
use calm_os.Console.{Screen, console_col, console_putbytes_at, console_draw_red_cross}

pub record Speaker : Type 0 where
  -- the bytes sent to ports 0x43 and 0x42
  pub timer : List ℕ
  pub port_61 : ℕ
  pub beeping_end : ℕ

-- `tmp | 3` and `tmp & 0xFC` of a byte
abbrev pub switched_on : ℕ → ℕ
switched_on tmp = tmp / 4 * 4 + 3

abbrev pub switched_off : ℕ → ℕ
switched_off tmp = tmp / 4 * 4

-- The sound is heard when both bits are set.
abbrev pub is_on : Speaker → Bool
is_on s = s.port_61 % 4 == 3

-- 1193180 / freq, as a `uint16_t`; a division by 0 is an exception of the processor.
abbrev pub divisor : ℤ → Option ℕ
divisor (pos zero) = none
divisor (pos (suc n)) = some (1193180 / suc n % 2 ^ 16)
divisor (negsuc n) = some ((2 ^ 16 - 1193180 / suc n % 2 ^ 16) % 2 ^ 16)

abbrev pub sound : ℕ → Speaker → Speaker
sound div s = record s {
  timer = s.timer ++ 0xb6 ∷ (div % 256) ∷ (div / 256) ∷ [];
  port_61 = if s.port_61 == switched_on s.port_61 then s.port_61 else switched_on s.port_61;
}

unfoldable pub start_beep : ℤ → Speaker → Option Speaker
start_beep freq s = divisor freq >>= λ div. some (sound div s)

unfoldable pub stop_beep : Speaker → Speaker
stop_beep s = record s { port_61 = switched_off s.port_61 }

-- QUARTZ / (QUARTZ / CLOCKFREQ), the ticks of a second as `end_tick` computes them
abbrev pub ticks_per_second : ℕ
ticks_per_second = 0x1234dd / (0x1234dd / clockfreq)

module _ (times : ℕ → ℕ → ℕ) where
  unfoldable pub end_tick : ℕ → ℕ → ℕ
  end_tick delay clock = (clock + times ticks_per_second delay) % 2 ^ 32

  unfoldable pub async_beep : ℤ → ℕ → ℕ → Speaker → Option Speaker
  unfolding start_beep end_tick
  async_beep freq delay clock s =
      start_beep freq s >>= λ t. some (record t { beeping_end = end_tick delay clock })

unfoldable pub check_buzzer : ℕ → Speaker → Speaker
unfolding stop_beep
check_buzzer clock s =
    if not (s.beeping_end == 0) && leb s.beeping_end clock
    then record (stop_beep s) { beeping_end = 0 }
    else s

-- The calls of `check_buzzer` at some interrupts, one after the other
unfoldable pub check_buzzer_for : ℕ → ℕ → Speaker → Speaker
unfolding check_buzzer
check_buzzer_for zero clock s = s
check_buzzer_for (suc n) clock s = check_buzzer_for n (clock + 1) (check_buzzer (clock + 1) s)

-- The kernel, the screen and the speaker
pub record Computer : Type 0 where
  pub kernel : Sys
  pub screen : Screen
  pub speaker : Speaker

abbrev pub count_tick : Sys → Sys
count_tick s = record s { clock = (s.clock + 1) % 2 ^ 32 }

-- The hours, minutes and seconds, as the characters that `sprintf` puts before the null character
unfoldable pub time_str : (ℕ → ℕ → ℕ → List ℕ) → ℕ → List ℕ
time_str sprintf clock =
    let seconds = clock / clockfreq in
    sprintf (seconds / (60 * 60)) (seconds / 60 % 60) (seconds % 60)

module _ (memmove : ℕ → ℕ → ℕ → (ℕ → ℕ) → ℕ → ℕ) (sprintf : ℕ → ℕ → ℕ → List ℕ) where
  -- With a text that fits its array
  abbrev pub show_tick : List ℕ → Computer → Computer
  show_tick text c =
      let s = count_tick c.kernel in
      record {
        screen =
            console_draw_red_cross memmove
              (console_putbytes_at memmove text (console_col - 10) 0 c.screen);
        speaker = check_buzzer s.clock c.speaker;
        kernel = if s.clock % (clockfreq / schedfreq) == 0 then tick_scheduler s else s;
      }

  -- The array of the text has 9 places, and 8 of its bytes are shown: a text of another length, which
  -- is written behind the array or leaves bytes unset, is a missing result.
  unfoldable pub tic_pit : Computer → Option Computer
  unfolding check_buzzer
  tic_pit c =
      let text = time_str sprintf (count_tick c.kernel).clock in
      if length text == 8 then some (show_tick text c) else none

-- The table of interrupts: four words of 16 bits for each
abbrev pub Idt : Type 0
Idt = ℕ → ℕ

abbrev pub kernel_cs : ℕ
kernel_cs = 0x10

unfoldable pub set_handler : ℕ → ℕ → ℕ → Idt → Idt
set_handler nidt handler ring_level idt =
    let cell = nidt * 4 in
    let a = update idt cell (handler % 2 ^ 16) in
    let b = update a (cell + 1) kernel_cs in
    let c = update b (cell + 2) (bit_or 0x8e00 (ring_level * 2 ^ 13) % 2 ^ 16) in
    update c (cell + 3) (handler / 2 ^ 16 % 2 ^ 16)
