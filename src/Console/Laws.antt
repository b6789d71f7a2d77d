-- ===== src/Console/Laws.antt =====
-- The cursor of kernel/console.c, and the cells that it writes.
use calm_os.Base.{
  ℕ, zero, suc, ◌+◌, ◌-◌, ◌*◌, ◌%◌, ◌^◌, ◌≤◌, ◌<◌, ◌≡◌, true, ◌&&◌, List, [], ◌∷◌, refl, ◌∙◌, arith,
  if◌then◌else◌, leb, ltb, length,
}
use calm_os.Base.Sorted.{All}
use calm_os.Kernel.State.{update}
use calm_os.Console.{
  Screen, console_col, console_lig, console_white, console_black, console_red, char_addr, pack_char,
  clean, flush_cells, screen_clean, is_printable, screen_scroll, wrap_cursor, print_char,
  handle_char, handle_chars, console_putbytes, console_putbytes_at, console_draw_red_cross,
}

-- The cursor is on the screen.
pub record IsInside (s : Screen) : Type 0 where
  pub col : s.col < console_col
  pub lig : s.lig < console_lig

flush_cells_lem :
    (n i : ℕ) (m : ℕ → ℕ) (j : ℕ)
    → flush_cells n i m j ≡ (if leb i j && ltb j (i + n) then clean else m j)
unfolding flush_cells
flush_cells_lem zero i m j = ground arith
flush_cells_lem (suc n) i m j = ground (arith, flush_cells_lem n (i + 1) (update m i clean) j)

-- What the C library says of memmove
abbrev pub IsMemmove : (ℕ → ℕ → ℕ → (ℕ → ℕ) → ℕ → ℕ) → Type 0
IsMemmove memmove =
    (d s n : ℕ) (m : ℕ → ℕ) (i : ℕ)
    → memmove d s n m i ≡ (if leb d i && ltb i (d + n) then m (s + (i - d)) else m i)

module _ (memmove : ℕ → ℕ → ℕ → (ℕ → ℕ) → ℕ → ℕ) (m : IsMemmove memmove) where
  -- With the `memmove` of the C library, `screen_scroll` moves every line one up and blanks the last
  -- one; what lies behind the screen stays.
  pub screen_scroll_lem :
      (s : Screen) (i : ℕ)
      → (screen_scroll memmove s).cells i ≡ (
          if ltb i (console_lig * console_col - console_col)
          then s.cells (i + console_col)
          else if ltb i (console_lig * console_col)
          then clean
          else s.cells i)
  unfolding screen_scroll
  screen_scroll_lem s i =
      let moved = m 0 console_col ((console_lig - 1) * console_col) s.cells i in
      flush_cells_lem console_col ((console_lig - 1) * console_col) _ i ∙ ground (arith, moved)

  wrap_cursor_behind :
      (s : Screen) (i : ℕ)
      → console_lig * console_col ≤ i
      → (wrap_cursor memmove s).cells i ≡ s.cells i
  unfolding wrap_cursor
  wrap_cursor_behind s i h = ground (
    arith,
    screen_scroll_lem (record s { col = 0; lig = (s.lig + 1) % 2 ^ 8 }) i,
    screen_scroll_lem s i,
  )

  print_char_behind :
      (c : ℕ) (s : Screen) (i : ℕ)
      → IsInside s
      → console_lig * console_col ≤ i
      → (print_char memmove c s).cells i ≡ s.cells i
  unfolding print_char
  print_char_behind c s i n h = wrap_cursor_behind _ i h ∙ ground (arith, n.col, n.lig)

  handle_char_behind :
      (c : ℕ) (s : Screen) (i : ℕ)
      → IsInside s
      → console_lig * console_col ≤ i
      → (handle_char memmove c s).cells i ≡ s.cells i
  unfolding handle_char screen_clean
  handle_char_behind c s i n h =
      let printed = print_char_behind c s i n h in
      let wrapped = wrap_cursor_behind (record s { col = 0; lig = (s.lig + 1) % 2 ^ 8 }) i h in
      let flushed = flush_cells_lem (console_lig * console_col) 0 s.cells i in
      ground (arith, printed, wrapped, flushed)

-- The cells of a text that is written from an address on
abbrev pub write_text : List ℕ → ℕ → ℕ → ℕ → (ℕ → ℕ) → ℕ → ℕ
write_text [] a ct cf m = m
write_text (c ∷ cs) a ct cf m = write_text cs (a + 1) ct cf (update m a (pack_char c ct cf))

abbrev pub AllPrintable : List ℕ → Type 0
AllPrintable cs = All (λ c. is_printable c ≡ true) cs

module _ (memmove : ℕ → ℕ → ℕ → (ℕ → ℕ) → ℕ → ℕ) where
  wrap_cursor-IsInside : (s : Screen) → s.lig < 255 → IsInside (wrap_cursor memmove s)
  unfolding wrap_cursor screen_scroll
  wrap_cursor-IsInside s l = record { col = ground arith; lig = ground arith }

  print_char-IsInside : (c : ℕ) (s : Screen) → IsInside s → IsInside (print_char memmove c s)
  unfolding print_char
  print_char-IsInside c s i = wrap_cursor-IsInside _ (ground (arith, i.lig))

  handle_char-IsInside : (c : ℕ) (s : Screen) → IsInside s → IsInside (handle_char memmove c s)
  unfolding handle_char screen_clean
  handle_char-IsInside c s i =
      let p = print_char-IsInside c s i in
      let w =
        wrap_cursor-IsInside (record s { col = 0; lig = (s.lig + 1) % 2 ^ 8 })
          (ground (arith, i.lig)) in
      record {
        col = ground (arith, p.col, w.col, i.col);
        lig = ground (arith, p.lig, w.lig, i.lig);
      }

  handle_chars-IsInside :
      (cs : List ℕ) (s : Screen) → IsInside s → IsInside (handle_chars memmove cs s)
  unfolding handle_chars
  handle_chars-IsInside [] s i = i
  handle_chars-IsInside (c ∷ cs) s i =
      handle_chars-IsInside cs (handle_char memmove c s) (handle_char-IsInside c s i)

  -- From a cursor on the screen, `console_putbytes` of any bytes leaves the cursor on the screen, and
  -- the registers of the cursor name its cell.
  pub console_putbytes-IsInside :
      (cs : List ℕ) (s : Screen)
      → IsInside s
      → IsInside (console_putbytes memmove cs s)
        × ((console_putbytes memmove cs s).cursor_low
              + (console_putbytes memmove cs s).cursor_high * 256
            ≡ char_addr (console_putbytes memmove cs s).col (console_putbytes memmove cs s).lig)
  unfolding console_putbytes
  console_putbytes-IsInside cs s i =
      let t = handle_chars-IsInside cs s i in
      (record { col = t.col; lig = t.lig }, ground (arith, t.col, t.lig))

  print_char-last :
      (c : ℕ) (s : Screen)
      → is_printable c ≡ true
      → s.col < console_col
      → s.lig < console_lig - 1
      → (handle_char memmove c s).cells
        ≡ update s.cells (char_addr s.col s.lig) (pack_char c s.ct s.cf)
  unfolding handle_char print_char wrap_cursor
  print_char-last c s p h l = ground arith

  -- Before the end of a line the next character goes to the next cell, in the same style.
  print_char-inner :
      (c : ℕ) (s : Screen)
      → is_printable c ≡ true
      → s.col + 1 < console_col
      → s.lig < console_lig - 1
      → ((handle_char memmove c s).col ≡ s.col + 1)
        × ((handle_char memmove c s).lig ≡ s.lig)
        × ((handle_char memmove c s).ct ≡ s.ct)
        × ((handle_char memmove c s).cf ≡ s.cf)
  unfolding handle_char print_char wrap_cursor
  print_char-inner c s p h l = (ground arith, ground arith, ground arith, ground arith)

  handle_chars_text :
      (cs : List ℕ) (s : Screen)
      → AllPrintable cs
      → s.col + length cs ≤ console_col
      → s.lig < console_lig - 1
      → (handle_chars memmove cs s).cells ≡ write_text cs (char_addr s.col s.lig) s.ct s.cf s.cells
  unfolding handle_chars
  handle_chars_text [] s p h l = refl
  handle_chars_text (c ∷ []) s p h l = print_char-last c s p.0 (omega arith) l
  handle_chars_text (c ∷ d ∷ cs) s p h l =
      let t = handle_char memmove c s in
      let (col, lig, ct, cf) = print_char-inner c s p.0 (omega arith) l in
      let cells = print_char-last c s p.0 (omega arith) l in
      let a : char_addr t.col t.lig ≡ char_addr s.col s.lig + 1 = ground arith in
      handle_chars_text (d ∷ cs) t p.1 (ground arith) (ground arith) ∙ λ i.
      write_text (d ∷ cs) (a i) (ct i) (cf i) (cells i)

  -- A text of printable characters that fits in its line, which is not the last one, is written to the
  -- cells from the given position on, in white on black, no other cell changes, and the cursor and
  -- its style are as before.
  pub console_putbytes_at_lem :
      (cs : List ℕ) (col lig : ℕ) (s : Screen)
      → AllPrintable cs
      → col + length cs ≤ console_col
      → lig < console_lig - 1
      → ((console_putbytes_at memmove cs col lig s).cells
          ≡ write_text cs (char_addr col lig) console_white console_black s.cells)
        × ((console_putbytes_at memmove cs col lig s).col ≡ s.col)
        × ((console_putbytes_at memmove cs col lig s).lig ≡ s.lig)
        × ((console_putbytes_at memmove cs col lig s).ct ≡ s.ct)
        × ((console_putbytes_at memmove cs col lig s).cf ≡ s.cf)
  unfolding console_putbytes_at console_putbytes
  console_putbytes_at_lem cs col lig s p h l = (
    handle_chars_text cs (record s { col = col; lig = lig; ct = console_white; cf = console_black })
        p h l,
    refl,
    refl,
    refl,
    refl,
  )

  -- `console_draw_red_cross` writes the last cell of the first line and no other, and leaves the cursor and
  -- its style as before.
  pub console_draw_red_cross_lem :
      (s : Screen)
      → ((console_draw_red_cross memmove s).cells
          ≡ update s.cells (console_col - 1) (pack_char 0x58 console_white console_red))
        × ((console_draw_red_cross memmove s).col ≡ s.col)
        × ((console_draw_red_cross memmove s).lig ≡ s.lig)
        × ((console_draw_red_cross memmove s).ct ≡ s.ct)
        × ((console_draw_red_cross memmove s).cf ≡ s.cf)
  unfolding console_draw_red_cross console_putbytes
  console_draw_red_cross_lem s = (
    handle_chars_text (0x58 ∷ [])
        (record s { col = console_col - 1; lig = 0; ct = console_white; cf = console_red })
        (refl, tt) (omega arith) (omega arith),
    refl,
    refl,
    refl,
    refl,
  )

module _ (memmove : ℕ → ℕ → ℕ → (ℕ → ℕ) → ℕ → ℕ) (m : IsMemmove memmove) where
  handle_chars_behind :
      (cs : List ℕ) (s : Screen) (i : ℕ)
      → IsInside s
      → console_lig * console_col ≤ i
      → (handle_chars memmove cs s).cells i ≡ s.cells i
  unfolding handle_chars
  handle_chars_behind [] s i n h = refl
  handle_chars_behind (c ∷ cs) s i n h =
      handle_chars_behind cs (handle_char memmove c s) i (handle_char-IsInside memmove c s n) h
      ∙ handle_char_behind memmove m c s i n h

  -- With the `memmove` of the C library and a cursor on the screen, `console_putbytes` of any bytes
  -- writes no word behind the screen.
  pub console_putbytes_behind :
      (cs : List ℕ) (s : Screen) (i : ℕ)
      → IsInside s
      → console_lig * console_col ≤ i
      → (console_putbytes memmove cs s).cells i ≡ s.cells i
  unfolding console_putbytes
  console_putbytes_behind cs s i n h = handle_chars_behind cs s i n h
