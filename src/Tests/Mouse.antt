-- ===== src/Tests/Mouse.antt =====
-- The theorems on the mouse applied to a new one and some bytes.
use calm_os.Base.{◌≡◌, ◌+ℤ◌, ◌-ℤ◌, false, pos, [], refl, arith}
use calm_os.Mouse.{
  MouseState, Mouse, moved_state, mouse_handle_packet, mouse_it, init_mouse,
  mouse_enable_scroll_wheel, mouse_enable_five_buttons,
}
use calm_os.Mouse.Laws.{IsTracking, IsShown, mouse_it-IsTracking, mouse_it-packet}

abbrev corner : MouseState
corner = record {
  x = pos 0;
  y = pos 0;
  left_button_pressed = false;
  right_button_pressed = false;
  middle_button_pressed = false;
}

abbrev new_mouse : Mouse
new_mouse = record { current_byte = 0; bytes_per_packet = 3; packet = λ i. 0; mouse_state = corner }

new-IsTracking : IsTracking new_mouse
new-IsTracking = record {
  place = omega arith;
  size = omega arith;
  started = λ l. absurd (omega arith);
  inside = record { x = refl; y = refl };
}

-- A wheel makes packets of four bytes.
wheel : (init_mouse (λ sent. 3) (record { sent = []; bytes_per_packet = 3 })).bytes_per_packet ≡ 4
unfolding init_mouse mouse_enable_scroll_wheel mouse_enable_five_buttons
wheel = refl

-- A packet of a move to the right with the left button
right : ((mouse_it 0 (mouse_it 40 (mouse_it 9 new_mouse).0).0).0).mouse_state.x ≡ pos 4
unfolding mouse_it mouse_handle_packet moved_state ◌+ℤ◌ ◌-ℤ◌
right = refl

mouse_it-IsTracking_example : IsTracking (mouse_it 9 new_mouse).0 × IsShown (mouse_it 9 new_mouse).1
mouse_it-IsTracking_example = mouse_it-IsTracking 9 new_mouse new-IsTracking

mouse_it-packet_example :
    (t : Mouse) × (mouse_it 0 (mouse_it 40 (mouse_it 9 new_mouse).0).0 ≡ mouse_handle_packet t)
    × (t.packet 0 ≡ 9)
    × (t.packet 1 ≡ 40)
    × (t.packet 2 ≡ 0)
    × (t.current_byte ≡ 0)
    × (t.mouse_state ≡ corner)
mouse_it-packet_example = mouse_it-packet 9 40 0 new_mouse refl refl refl
