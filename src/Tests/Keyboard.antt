-- ===== src/Tests/Keyboard.antt =====
-- The theorems on the keyboard's lines, applied to "hj", a correction, and "i".
use calm_os.Base.{ℕ, ◌≤◌, ◌≡◌, ℤ, pos, List, [], ◌∷◌, ◌++◌, some, refl, arith}
use calm_os.Keyboard.{Answer, handle_msg, read_msgs, finish, cons_readline}
use calm_os.Keyboard.Laws.{Shows, cons_readline_bounds, cons_readline-edit}

abbrev keys : List ℤ
keys = pos 104 ∷ pos 106 ∷ pos 127 ∷ pos 105 ∷ []

cons_readline-edit_example :
    (r : Answer) × (cons_readline (keys ++ pos 13 ∷ []) (λ i. 0) 8 ≡ some r)
    × (r.retval ≡ 2)
    × Shows (pos 105 ∷ pos 104 ∷ []) r.string
    × (r.requests ≡ [])
cons_readline-edit_example = cons_readline-edit keys [] (λ i. 0) 8 refl (omega arith)

-- An array of one cell: the second character goes back to the queue.
abbrev handed : Answer
handed = finish 1 (
    handle_msg 1 (pos 105)
      (handle_msg 1 (pos 104) (record { string = λ i. 0; index = 0; msg_len = 0; buf_save = [] })))

cons_readline_bounds_example : (handed.retval ≤ 1) × ((i : ℕ) → 1 ≤ i → handed.string i ≡ 0)
unfolding cons_readline read_msgs handle_msg
cons_readline_bounds_example =
    cons_readline_bounds (pos 104 ∷ pos 105 ∷ pos 13 ∷ []) (λ i. 0) 1 handed refl
