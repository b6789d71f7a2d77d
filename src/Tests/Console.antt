-- ===== src/Tests/Console.antt =====
-- The theorems on the console, applied to a screen whose cursor stands in its last line.
use calm_os.Base.{ℕ, ◌+◌, ◌-◌, ◌*◌, ◌≡◌, ◌&&◌, List, [], ◌∷◌, refl, arith, if◌then◌else◌, leb, ltb}
use calm_os.Console.{Screen, char_addr, console_putbytes}
use calm_os.Console.Laws.{IsInside, IsMemmove, console_putbytes-IsInside, console_putbytes_behind}

abbrev copy : ℕ → ℕ → ℕ → (ℕ → ℕ) → ℕ → ℕ
copy d s n m i = if leb d i && ltb i (d + n) then m (s + (i - d)) else m i

copy-IsMemmove : IsMemmove copy
copy-IsMemmove d s n m i = refl

abbrev screen : Screen
screen = record {
  col = 79;
  lig = 24;
  ct = 15;
  cf = 0;
  cells = λ i. i;
  cursor_low = 0;
  cursor_high = 0;
}

screen-IsInside : IsInside screen
screen-IsInside = record { col = omega arith; lig = omega arith }

-- "Hi", a tab, a line break
abbrev text : List ℕ
text = 0x48 ∷ 0x69 ∷ 9 ∷ 10 ∷ []

console_putbytes-IsInside_example :
    IsInside (console_putbytes copy text screen)
    × ((console_putbytes copy text screen).cursor_low
          + (console_putbytes copy text screen).cursor_high * 256
        ≡ char_addr (console_putbytes copy text screen).col (console_putbytes copy text screen).lig)
console_putbytes-IsInside_example = console_putbytes-IsInside copy text screen screen-IsInside

console_putbytes_behind_example : (console_putbytes copy text screen).cells 2000 ≡ 2000
console_putbytes_behind_example =
    console_putbytes_behind copy copy-IsMemmove text screen 2000 screen-IsInside (omega arith)
