-- ===== src/Keyboard/Typing.antt =====
-- Lemmas on `keyboard_data` of kernel/driver/keyboard.c.
use calm_os.Base.{ℕ, ◌≤◌, ◌≡◌, ℤ, [], some}
use calm_os.Kernel.State.{Sys}
use calm_os.Kernel.Tick.Laws.{Elects}
use calm_os.Kernel.Messages.{valid_fid}
use calm_os.Console.{Screen}
use calm_os.Keyboard.Input.{Input, buffer_size}

-- A queue for the keyboard with no sender that waits
pub record IsOpen (f : ℕ) (s : Sys) : Type 0 where
  pub capacity : (s.queues f).capacity ≡ buffer_size
  pub bounded : (s.queues f).size ≤ (s.queues f).capacity
  pub alone : (s.queues f).full_process ≡ []

-- The state of the keyboard's input between two characters
pub record IsTyping (f : ℕ) (t : Input) : Type 0 where
  pub elects : Elects t.sys
  pub valid : valid_fid t.keyboard_buffer t.sys ≡ some f
  pub room : IsOpen f t.sys

module _ (memmove : ℕ → ℕ → ℕ → (ℕ → ℕ) → ℕ → ℕ) (printf_caret : ℕ → Screen → Screen) where
  -- The echo leaves the kernel and the number of the queue alone.
  abbrev kernel_of : Input → Sys × ℤ
  kernel_of t = (t.sys, t.keyboard_buffer)
