-- ===== src/Keyboard.antt =====
-- `cons_readline` of kernel/driver/keyboard.c: the line that a user types, with its corrections. The
-- messages of the keyboard's queue are given in the order in which `preceive` returns them, and what
-- the function does to the queue at its end is a list of calls. `buf_save` has BUFFER_SIZE places. `string` is the array of the caller,
-- and an address in it an index.
pub mod Laws
pub mod Input
pub mod Typing
use calm_os.Base.{
  ℕ, ◌+◌, ◌-◌, ◌%◌, ◌^◌, ◌==◌, ℤ, pos, negsuc, ◌==ℤ◌, List, [], ◌∷◌, ◌++◌, map, Option, none, some,
  if◌then◌else◌, leb, ltb, length,
}
use calm_os.Kernel.State.{update}
use calm_os.Keyboard.Input.{buffer_size}

-- The variables of the loop: the index of `string`, the messages saved in `buf_save`
pub record Line : Type 0 where
  pub string : ℕ → ℕ
  pub index : ℕ
  pub msg_len : ℕ
  pub buf_save : List ℤ

-- (char)msg, as the byte that is stored
abbrev pub to_char : ℤ → ℕ
to_char (pos n) = n % 2 ^ 8
to_char (negsuc n) = 2 ^ 8 - 1 - n % 2 ^ 8

abbrev pub save : ℤ → Line → Line
save msg l = record l { buf_save = l.buf_save ++ msg ∷ [] }

-- The key that takes a character back
unfoldable pub delete_key : ℕ → Line → Line
delete_key length l =
    let t =
      if ltb length l.msg_len
      then save (pos 127) l
      else if ltb 0 l.msg_len
      then record l { index = l.index - 1; string = update l.string (l.index - 1) 0 }
      else l in
    if ltb 0 t.msg_len then record t { msg_len = t.msg_len - 1 } else t

-- One round of the loop
unfoldable pub handle_msg : ℕ → ℤ → Line → Line
unfolding delete_key
handle_msg length msg l =
    if msg ==ℤ pos 127
    then delete_key length l
    else if leb length l.msg_len
    then record (save msg l) { msg_len = l.msg_len + 1 }
    else record l {
      string = update l.string l.index (to_char msg);
      index = l.index + 1;
      msg_len = l.msg_len + 1;
    }

-- The loop. When the messages end, the call still waits for one; a message saved behind `buf_save` is
-- a missing result as well.
unfoldable pub read_msgs : ℕ → List ℤ → Line → Option Line
read_msgs size [] l = none
read_msgs size (msg ∷ msgs) l =
    let t = handle_msg size msg l in
    let rest = read_msgs size msgs t in
    if msg ==ℤ pos 13 then some l else if ltb buffer_size (length t.buf_save) then none else rest

-- What is done to the keyboard's queue
pub data Request : Type 0 where
  resets : Request
  sends : ℤ → Request

pub record Answer : Type 0 where
  pub retval : ℕ
  pub string : ℕ → ℕ
  pub requests : List Request

unfoldable pub finish : ℕ → Line → Answer
finish length l = record {
  retval = if ltb l.msg_len length then l.msg_len else length;
  string = l.string;
  requests =
      if leb length l.msg_len
      then Request.resets ∷ map Request.sends l.buf_save ++ Request.sends (pos 13) ∷ []
      else [];
}

abbrev pub answer : ℕ → Option Line → Option Answer
answer length none = none
answer length (some l) = some (finish length l)

unfoldable pub cons_readline : List ℤ → (ℕ → ℕ) → ℕ → Option Answer
cons_readline msgs string length =
    if length == 0
    then some (record { retval = 0; string = string; requests = [] })
    else answer length
        (read_msgs length msgs (record { string = string; index = 0; msg_len = 0; buf_save = [] }))
