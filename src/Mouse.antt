-- ===== src/Mouse.antt =====
-- The mouse of kernel/driver/mouse.c, and what kernel/interrupt.c does with its moves: packets are put
-- together from the bytes of the interrupts, move a pointer, and colour the screen. The controller,
-- kernel/driver/ps2.c, copied from another project, is a parameter: the kind of device that it
-- tells after some bytes have been sent to the device. Port output is not modelled.
pub mod Laws
use calm_os.Base.{
  ℕ, zero, suc, ◌+◌, ◌-◌, ◌*◌, ◌/◌, ◌%◌, ◌==◌, ◌&&◌, ◌||◌, Bool, true, false, not, ℤ, pos, negsuc,
  ◌+ℤ◌, ◌-ℤ◌, ◌==ℤ◌, leb_ℤ, pos_part, List, [], ◌∷◌, ◌++◌, Option, none, some, if◌then◌else◌,
}
use Prim.Native.Nat.{bit_and}
use calm_os.Kernel.State.{update}
use calm_os.Console.{
  Screen, console_col, console_lig, console_black, console_blue, console_green, console_red,
  console_set_background_at,
}

-- ps2_mouse_t
pub record MouseState : Type 0 where
  pub x : ℤ
  pub y : ℤ
  pub left_button_pressed : Bool
  pub right_button_pressed : Bool
  pub middle_button_pressed : Bool

-- The variables of the driver
pub record Mouse : Type 0 where
  pub current_byte : ℕ
  pub bytes_per_packet : ℕ
  pub packet : ℕ → ℕ
  pub mouse_state : MouseState

-- Whether a flag of a byte is set
abbrev pub has : ℕ → ℕ → Bool
has flag byte = not (bit_and byte flag == 0)

abbrev pub same : Bool → Bool → Bool
same true b = b
same false b = not b

abbrev pub mouse_state_equal : MouseState → MouseState → Bool
mouse_state_equal a b =
    a.x ==ℤ b.x
    && a.y ==ℤ b.y
    && same a.left_button_pressed b.left_button_pressed
    && same a.right_button_pressed b.right_button_pressed
    && same a.middle_button_pressed b.middle_button_pressed

-- The way along an axis: the byte of the packet, below zero by the flag, as an `int` divided by the
-- speed, which cuts towards zero
abbrev pub negated : ℕ → ℤ
negated zero = pos 0
negated (suc n) = negsuc n

abbrev pub moved : Bool → ℕ → ℕ → ℤ
moved negative byte speed = if negative then negated ((256 - byte) / speed) else pos (byte / speed)

-- A coordinate kept on the screen
abbrev pub clamp : ℕ → ℤ → ℤ
clamp limit v =
    let t = if leb_ℤ (pos (limit - 1)) v then pos (limit - 1) else v in
    if leb_ℤ t (pos 0) then pos 0 else t

-- The packets that are dropped
abbrev pub is_dropped : Mouse → Bool
is_dropped s =
    (s.bytes_per_packet == 4 && (has 0x80 (s.packet 3) || has 0x40 (s.packet 3)))
    || has 0x40 (s.packet 0)
    || has 0x80 (s.packet 0)

unfoldable pub moved_state : (ℕ → ℕ) → MouseState → MouseState
moved_state packet old =
    let flags = packet 0 in
    record {
      x = clamp console_col (old.x +ℤ moved (has 0x10 flags) (packet 1) 10);
      y = clamp console_lig (old.y -ℤ moved (has 0x20 flags) (packet 2) 8);
      left_button_pressed = has 0x01 flags;
      right_button_pressed = has 0x02 flags;
      middle_button_pressed = has 0x04 flags;
    }

-- The state after a packet, and the state that the callback is called with, if it is
unfoldable pub mouse_handle_packet : Mouse → Mouse × Option MouseState
unfolding moved_state
mouse_handle_packet s =
    let t = moved_state s.packet s.mouse_state in
    if is_dropped s
    then (s, none)
    else (record s { mouse_state = t }, if mouse_state_equal s.mouse_state t then none else some t)

-- The byte put into the packet
abbrev pub taken : ℕ → Mouse → Mouse
taken byte s = record s {
  packet = update s.packet s.current_byte byte;
  current_byte = (s.current_byte + 1) % s.bytes_per_packet;
}

unfoldable pub mouse_it : ℕ → Mouse → Mouse × Option MouseState
mouse_it byte s =
    if s.current_byte == 0 && not (has 0x08 byte)
    then (s, none)
    else if (taken byte s).current_byte == 0
    then mouse_handle_packet (taken byte s)
    else (taken byte s, none)

-- The screen, the last place of the pointer and whether the machine restarts
pub record Pointer : Type 0 where
  pub screen : Screen
  pub mouse_previous : MouseState
  pub reboots : Bool

abbrev pub colour_at : MouseState → ℕ → Screen → Screen
colour_at m c s = console_set_background_at (pos_part m.x) (pos_part m.y) c s

-- `mouse_callback` of kernel/interrupt.c
unfoldable pub mouse_callback : MouseState → Pointer → Pointer
mouse_callback m p =
    let cleared = colour_at p.mouse_previous console_black p.screen in
    let shown = record p { screen = colour_at m console_green cleared } in
    if m.left_button_pressed && m.x ==ℤ pos 79 && m.y ==ℤ pos 0
    then record shown { reboots = true; mouse_previous = m }
    else if m.left_button_pressed
    then record shown { screen = colour_at m console_blue shown.screen }
    else if m.right_button_pressed
    then record shown { screen = colour_at m console_red shown.screen }
    else if m.middle_button_pressed
    then record shown { screen = colour_at m console_green shown.screen }
    else record shown { mouse_previous = m }

-- The set-up: the bytes sent to the device so far, and the length of a packet
pub record Setup : Type 0 where
  pub sent : List ℕ
  pub bytes_per_packet : ℕ

abbrev pub ps2_write_device : List ℕ → Setup → Setup
ps2_write_device bytes s = record s { sent = s.sent ++ bytes }

abbrev pub mouse_set_sample_rate : ℕ → Setup → Setup
mouse_set_sample_rate rate s = ps2_write_device (0xf3 ∷ rate ∷ []) s

-- MOUSE_ENABLE_SCALING and MOUSE_DISABLE_SCALING are the same command.
abbrev pub mouse_set_scaling : Bool → Setup → Setup
mouse_set_scaling enabled s = ps2_write_device ((if enabled then 0xe7 else 0xe7) ∷ []) s

abbrev pub mouse_set_resolution : ℕ → Setup → Setup
mouse_set_resolution level s = ps2_write_device (0xe8 ∷ level ∷ []) s

module _ (ps2_identity_device : List ℕ → ℕ) where
  unfoldable pub mouse_enable_scroll_wheel : Setup → Setup
  mouse_enable_scroll_wheel s =
      let t = mouse_set_sample_rate 80 (mouse_set_sample_rate 100 (mouse_set_sample_rate 200 s)) in
      if ps2_identity_device t.sent == 3 then record t { bytes_per_packet = 4 } else t

  -- What the device then is changes nothing.
  unfoldable pub mouse_enable_five_buttons : Setup → Setup
  mouse_enable_five_buttons s =
      if s.bytes_per_packet == 4
      then mouse_set_sample_rate 80 (mouse_set_sample_rate 200 (mouse_set_sample_rate 200 s))
      else s

  unfoldable pub init_mouse : Setup → Setup
  unfolding mouse_enable_scroll_wheel mouse_enable_five_buttons
  init_mouse s =
      let t = mouse_enable_five_buttons (mouse_enable_scroll_wheel s) in
      ps2_write_device (0xf4 ∷ [])
        (mouse_set_scaling false (mouse_set_resolution 3 (mouse_set_sample_rate 100 t)))
