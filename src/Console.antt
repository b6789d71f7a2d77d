-- ===== src/Console.antt =====
-- The text console of kernel/console.c: the cells of the screen memory, the cursor and its style. A
-- character is a byte; those above 127, negative for the source, are no printable ones for either.
-- `memmove` of shared/string.c, copied from klibc, is a parameter: destination, source, number of
-- cells, and the memory. The sound of character 7 leaves the screen alone.
pub mod Laws
use calm_os.Base.{
  ℕ, zero, suc, ◌+◌, ◌-◌, ◌*◌, ◌/◌, ◌%◌, ◌^◌, ◌==◌, ◌&&◌, Bool, List, [], ◌∷◌, if◌then◌else◌, leb,
  ltb,
}
use calm_os.Kernel.State.{update}
use Prim.Native.Nat.{bit_and, bit_or}

abbrev pub console_col : ℕ
console_col = 80

abbrev pub console_lig : ℕ
console_lig = 25

abbrev pub console_black : ℕ
console_black = 0

abbrev pub console_blue : ℕ
console_blue = 1

abbrev pub console_green : ℕ
console_green = 2

abbrev pub console_red : ℕ
console_red = 4

abbrev pub console_white : ℕ
console_white = 15

pub record Screen : Type 0 where
  pub col : ℕ
  pub lig : ℕ
  pub ct : ℕ
  pub cf : ℕ
  -- the words from DISPLAY_START on
  pub cells : ℕ → ℕ
  -- the registers of the cursor's position
  pub cursor_low : ℕ
  pub cursor_high : ℕ

-- Address of a cell
abbrev pub char_addr : ℕ → ℕ → ℕ
char_addr col lig = lig * console_col + col

-- Group character and style
unfoldable pub pack_char : ℕ → ℕ → ℕ → ℕ
pack_char text ct cf =
    let color = bit_or (bit_or 0 (cf * 2 ^ 4)) ct % 2 ^ 16 in bit_or (color * 2 ^ 8) text % 2 ^ 16

-- Writes cursor position
abbrev pub put_cursor : Screen → Screen
put_cursor s =
    let at = (s.col + s.lig * console_col) % 2 ^ 16 in
    record s { cursor_low = at % 2 ^ 8; cursor_high = at / 2 ^ 8 }

abbrev pub clean : ℕ
clean = pack_char 32 console_white console_black

-- The loop of `screen_flush`, with the rounds that are left
unfoldable pub flush_cells : ℕ → ℕ → (ℕ → ℕ) → ℕ → ℕ
flush_cells zero i m = m
flush_cells (suc n) i m = flush_cells n (i + 1) (update m i clean)

-- Clear screen buffer part
abbrev pub screen_flush : ℕ → ℕ → Screen → Screen
screen_flush from to s = record s { cells = flush_cells (to - from) from s.cells }

-- Clear whole screen buffer
unfoldable pub screen_clean : Screen → Screen
screen_clean s = screen_flush 0 (console_lig * console_col) s

abbrev pub is_printable : ℕ → Bool
is_printable c = leb 32 c && leb c 126

module _ (memmove : ℕ → ℕ → ℕ → (ℕ → ℕ) → ℕ → ℕ) where
  -- Move screen buffer up
  unfoldable pub screen_scroll : Screen → Screen
  screen_scroll s =
      let bottom = (console_lig - 1) * console_col in
      screen_flush bottom (console_lig * console_col)
        (record s { cells = memmove 0 console_col bottom s.cells })

  -- Move cursor back to CONSOLE_COL, CONSOLE_LIG
  unfoldable pub wrap_cursor : Screen → Screen
  wrap_cursor s =
      let t =
        if leb console_col s.col then record s { col = 0; lig = (s.lig + 1) % 2 ^ 8 } else s in
      if leb console_lig t.lig then record (screen_scroll t) { lig = console_lig - 1 } else t

  -- Display a character at the cursor
  unfoldable pub print_char : ℕ → Screen → Screen
  print_char c s =
      let word = pack_char (if is_printable c then c else 32) s.ct s.cf in
      wrap_cursor (record s {
        cells = update s.cells (char_addr s.col s.lig) word;
        col = (s.col + 1) % 2 ^ 8;
      })

  -- Display or change state with a single char
  unfoldable pub handle_char : ℕ → Screen → Screen
  handle_char c s =
      if c == 7
      then s
      else if c == 8
      then (if ltb 0 s.col then record s { col = s.col - 1 } else s)
      else if c == 9
      then (let col = (s.col / 8 + 1) * 8 % 2 ^ 8 in
          record s { col = if leb console_col col then console_col - 1 else col })
      else if c == 10
      then wrap_cursor (record s { col = 0; lig = (s.lig + 1) % 2 ^ 8 })
      else if c == 12
      then screen_clean (record s { col = 0; lig = 0; ct = console_white; cf = console_black })
      else if c == 13
      then record s { col = 0 }
      else print_char c s

  unfoldable pub handle_chars : List ℕ → Screen → Screen
  handle_chars [] s = s
  handle_chars (c ∷ cs) s = handle_chars cs (handle_char c s)

  unfoldable pub console_putbytes : List ℕ → Screen → Screen
  console_putbytes cs s = put_cursor (handle_chars cs s)

  -- The cursor and the style are put back.
  abbrev pub restore : Screen → Screen → Screen
  restore save s =
      put_cursor (record s { col = save.col; lig = save.lig; ct = save.ct; cf = save.cf })

  unfoldable pub console_putbytes_at : List ℕ → ℕ → ℕ → Screen → Screen
  console_putbytes_at cs col lig s = restore s (
      console_putbytes cs
        (record s { col = col; lig = lig; ct = console_white; cf = console_black }))

  -- REDCROSS_COL and REDCROSS_LIG
  unfoldable pub console_draw_red_cross : Screen → Screen
  console_draw_red_cross s = restore s (
      console_putbytes (0x58 ∷ [])
        (record s { col = console_col - 1; lig = 0; ct = console_white; cf = console_red }))

unfoldable pub console_set_background_at : ℕ → ℕ → ℕ → Screen → Screen
console_set_background_at col lig c s =
    let a = char_addr col lig in
    let cell = bit_and (s.cells a) 0x8fff in
    record s { cells = update s.cells a (bit_or cell (c * 2 ^ 12) % 2 ^ 16) }

abbrev pub console_set_foreground : ℕ → Screen → Screen
console_set_foreground c s = record s { ct = c }

abbrev pub console_set_background : ℕ → Screen → Screen
console_set_background c s = record s { cf = c }
