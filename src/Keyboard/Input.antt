-- ===== src/Keyboard/Input.antt =====
-- The characters that the keyboard's driver hands to kernel/driver/keyboard.c: they are echoed on the
-- screen or played on the piano, and sent to the keyboard's queue. A character is a byte; those above
-- 127 are negative for the source. `printf` of "^%c", Mach's, is a parameter, and a call of
-- `async_beep` is kept as its frequency.
use calm_os.Base.{
  ℕ, ◌+◌, ◌-◌, ◌%◌, ◌==◌, ◌&&◌, ◌||◌, Bool, true, false, ℤ, pos, negsuc, ◌==ℤ◌, List, [], ◌∷◌, ◌++◌,
  Option, none, some, if◌then◌else◌, leb, ltb, length,
}
use calm_os.Kernel.State.{Sys}
use calm_os.Kernel.Messages.{valid_fid, queue_count, pcreate, psend, preceive}
use calm_os.Kernel.Waitpid.{Outcome}
use calm_os.Console.{Screen, console_putbytes}

abbrev pub buffer_size : ℕ
buffer_size = 2000

-- The kernel, the screen, and the variables of the file
pub record Input : Type 0 where
  pub sys : Sys
  pub screen : Screen
  pub keyboard_buffer : ℤ
  pub echo_on : Bool
  pub piano : Bool
  pub beeps : List ℕ

abbrev pub async_beep : ℕ → Input → Input
async_beep freq t = record t { beeps = t.beeps ++ freq ∷ [] }

-- (int)c
abbrev pub char_code : ℕ → ℤ
char_code c = if ltb c 128 then pos c else negsuc (255 - c)

-- The keys of the piano
abbrev pub note_of : ℕ → Option ℕ
note_of c =
    if c == 113
    then some 262
    else if c == 122
    then some 277
    else if c == 115
    then some 294
    else if c == 101
    then some 311
    else if c == 100
    then some 330
    else if c == 102
    then some 349
    else if c == 116
    then some 370
    else if c == 103
    then some 392
    else if c == 121
    then some 415
    else if c == 104
    then some 440
    else if c == 117
    then some 466
    else if c == 106
    then some 494
    else if c == 107
    then some 523
    else none

abbrev pub play_note : Option ℕ → Input → Input
play_note none t = t
play_note (some freq) t = async_beep freq t

-- A key in the piano mode, of which CTRL + P is the way out
unfoldable pub play_key : ℕ → Input → Input
play_key c t = if c == 16 then record t { piano = false } else play_note (note_of c) t

abbrev pub starts_with : ℕ → List ℕ → Bool
starts_with c [] = false
starts_with c (x ∷ xs) = x == c

module _ (memmove : ℕ → ℕ → ℕ → (ℕ → ℕ) → ℕ → ℕ) (printf_caret : ℕ → Screen → Screen) where
  abbrev pub put : List ℕ → Input → Input
  put cs t = record t { screen = console_putbytes memmove cs t.screen }

  -- A control character, or a negative one
  unfoldable pub echo_control : ℕ → Input → Input
  echo_control c t =
      if c == 12
      then put (12 ∷ []) t
      else if c == 7
      then async_beep 392 t
      else if c == 16
      then record t { piano = true }
      else record t { screen = printf_caret ((c + 64) % 256) t.screen }

  unfoldable pub echo_char : ℕ → Input → Input
  unfolding echo_control
  echo_char c t =
      if c == 9 || (leb 32 c && leb c 126)
      then put (c ∷ []) t
      else if c == 13
      then put (10 ∷ []) t
      else if ltb c 32 || leb 128 c
      then echo_control c t
      else if c == 127
      then put (8 ∷ 32 ∷ 8 ∷ []) t
      else t

  -- In the piano mode the loop ends after one character.
  unfoldable pub echo : List ℕ → Input → Input
  echo [] t = t
  echo (c ∷ cs) t = let rest = echo cs (echo_char c t) in if t.piano then play_key c t else rest

  -- The loop of `keyboard_data`. Without a queue `buffer_count` is not set: a missing result.
  unfoldable pub send_chars : List ℕ → Input → Option Input
  send_chars [] t = some t
  send_chars (c ∷ cs) t =
      let rest =
        send_chars cs (record t { sys = (psend t.keyboard_buffer (char_code c) t.sys).1 }) in
      elim (valid_fid t.keyboard_buffer t.sys) [
        | none ↦ none
        | some f ↦
            if queue_count (t.sys.queues f) ==ℤ pos buffer_size
            then some (async_beep 1000 t)
            else rest
      ]

  unfoldable pub keyboard_data : List ℕ → Input → Option Input
  unfolding echo send_chars
  keyboard_data str t = send_chars str (if t.echo_on || starts_with 13 str then echo str t else t)

  abbrev pub cons_write : List ℕ → Input → ℕ × Input
  cons_write str t = (length str, put str t)

abbrev pub init_keyboard_buffer : (ℕ → Bool) → Input → Input
init_keyboard_buffer alloc t =
    let (fid, s) = pcreate alloc (pos buffer_size) t.sys in
    record t { keyboard_buffer = fid; sys = s }

-- The message is written to a variable of the caller.
abbrev pub cons_read : Option ℕ → Input → Outcome × Input
cons_read to t = let (r, s) = preceive t.keyboard_buffer to t.sys in (r, record t { sys = s })

abbrev pub cons_echo : Bool → Input → Input
cons_echo on t = record t { echo_on = on }
