-- ===== src/Tests/Typing.antt =====
-- The theorem on typing applied to a kernel with a queue for the keyboard.
use calm_os.Base.{pos, true, false, []}
use calm_os.Kernel.State.{Sys}
use calm_os.Kernel.Messages.{pcreate}
use calm_os.Console.{Screen}
use calm_os.Keyboard.Input.{Input}
use calm_os.Tests.{parent}

abbrev with_buffer : Sys
with_buffer = (pcreate (λ n. true) (pos 2000) parent).1

abbrev blank : Screen
blank = record {
  col = 0;
  lig = 0;
  ct = 15;
  cf = 0;
  cells = λ i. 0;
  cursor_low = 0;
  cursor_high = 0;
}

abbrev ready : Input
ready = record {
  sys = with_buffer;
  screen = blank;
  keyboard_buffer = pos 0;
  echo_on = true;
  piano = false;
  beeps = [];
}
