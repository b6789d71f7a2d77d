-- ===== src/Keyboard/Laws.antt =====
-- Lemmas on `cons_readline` of kernel/driver/keyboard.c: its array, and the line as it is corrected.
use calm_os.Base.{
  ℕ, suc, ◌+◌, ◌-◌, ◌≤◌, ◌<◌, ◌≡◌, ◌==◌, Bool, true, false, ℤ, pos, ◌==ℤ◌, List, [], ◌∷◌, ◌++◌,
  Option, none, some, refl, ap, sym, ◌∙◌, inl, inr, arith, if◌then◌else◌, ltb, length, Bool-cases,
  subst, not, ◌&&◌,
}
use calm_os.Kernel.State.{update}
use calm_os.Keyboard.Input.{buffer_size}
use calm_os.Keyboard.{
  Line, to_char, delete_key, handle_msg, read_msgs, Answer, finish, answer, cons_readline,
}

-- The index is that of the next character, and the cells behind the array are as they were.
pub record Fits (size : ℕ) (old : ℕ → ℕ) (l : Line) : Type 0 where
  pub index : l.index ≡ (if ltb l.msg_len size then l.msg_len else size)
  pub behind : (i : ℕ) → size ≤ i → l.string i ≡ old i

none_ne_some : (t : Line) → none ≡ some t → ⊥
none_ne_some t e = cc

line_of : Line → Option Line → Line
line_of l none = l
line_of l (some t) = t

module _ (size : ℕ) (old : ℕ → ℕ) where
  handle_msg-Fits : (msg : ℤ) (l : Line) → Fits size old l → Fits size old (handle_msg size msg l)
  unfolding handle_msg delete_key
  handle_msg-Fits msg l f = record {
    index = ground (arith, f.index);
    behind = λ i h. ground (arith, f.index, f.behind i h);
  }

  read_msgs-Fits :
      (msgs : List ℤ) (l t : Line)
      → Fits size old l
      → read_msgs size msgs l ≡ some t
      → Fits size old t
  unfolding read_msgs line_of
  read_msgs-Fits [] l t f e = cc
  read_msgs-Fits (msg ∷ msgs) l t f e = elim (Bool-cases (msg ==ℤ pos 13)) [
    | inl h ↦ let e' : some l ≡ some t = rw h at e in subst (Fits size old) (ap (line_of l) e') f
    | inr h ↦
        let u = handle_msg size msg l in
        elim (Bool-cases (ltb buffer_size (length u.buf_save))) [
          | inl long ↦ absurd (none_ne_some t (rw (h, long) at e))
          | inr fits ↦
              let e' : read_msgs size msgs u ≡ some t = rw (h, fits) at e in
              read_msgs-Fits msgs u t (handle_msg-Fits msg l f) e'
        ]
  ]

-- Whatever is typed, when `cons_readline` returns, and has not saved more than the BUFFER_SIZE keys for
-- which `buf_save` has places, it has written no cell behind the array it was given, and its value is at
-- most the length of this array.
pub cons_readline_bounds :
    (msgs : List ℤ) (string : ℕ → ℕ) (size : ℕ) (r : Answer)
    → cons_readline msgs string size ≡ some r
    → (r.retval ≤ size) × ((i : ℕ) → size ≤ i → r.string i ≡ string i)
unfolding cons_readline finish
cons_readline_bounds msgs string size r e = elim (Bool-cases (size == 0)) [
  | inl z ↦
      let e' : some (record { retval = 0; string = string; requests = [] }) ≡ some r = rw z at e in
      let d : record { retval = 0; string = string; requests = [] } ≡ r = cc in
      subst (λ (q : Answer). (q.retval ≤ size) × ((i : ℕ) → size ≤ i → q.string i ≡ string i)) d
        (omega arith, λ i h. refl)
  | inr nz ↦
      let start : Line = record { string = string; index = 0; msg_len = 0; buf_save = [] } in
      let e' : answer size (read_msgs size msgs start) ≡ some r = rw nz at e in
      answered (read_msgs size msgs start) e' (λ t k.
        read_msgs-Fits size string msgs start t
          (record { index = ground arith; behind = λ i h. refl }) k)
]
  where
    answered :
        (o : Option Line)
        → answer size o ≡ some r
        → ((t : Line) → o ≡ some t → Fits size string t)
        → (r.retval ≤ size) × ((i : ℕ) → size ≤ i → r.string i ≡ string i)
    answered none a f = cc
    answered (some t) a f =
        let d : finish size t ≡ r = cc in
        subst (λ (q : Answer). (q.retval ≤ size) × ((i : ℕ) → size ≤ i → q.string i ≡ string i)) d
          (ground arith, (f t refl).behind)

-- What stands on the line after some keys: the characters, the last one first. Key 127 takes the last
-- one back.
abbrev pub press : ℤ → List ℤ → List ℤ
press k [] = if k ==ℤ pos 127 then [] else k ∷ []
press k (c ∷ cs) = if k ==ℤ pos 127 then cs else k ∷ c ∷ cs

abbrev pub edit : List ℤ → List ℤ → List ℤ
edit cs [] = cs
edit cs (k ∷ ks) = edit (press k cs) ks

-- The characters stand in the array, from its start on.
abbrev pub Shows : List ℤ → (ℕ → ℕ) → Type 0
Shows [] m = Unit {0}
Shows (c ∷ cs) m = (m (length cs) ≡ to_char c) × Shows cs m

Shows-update :
    (cs : List ℤ) (m : ℕ → ℕ) (i v : ℕ) → length cs ≤ i → Shows cs m → Shows cs (update m i v)
Shows-update [] m i v h s = tt
Shows-update (c ∷ cs) m i v h s = (ground (arith, s.0), Shows-update cs m i v (omega arith) s.1)

record Types (cs : List ℤ) (l : Line) : Type 0 where
  index : l.index ≡ length cs
  msg_len : l.msg_len ≡ length cs
  shows : Shows cs l.string
  unsaved : l.buf_save ≡ []

abbrev pub no_return : List ℤ → Bool
no_return [] = true
no_return (k ∷ ks) = not (k ==ℤ pos 13) && no_return ks

module _ (size : ℕ) where
  handle_msg-Types :
      (k : ℤ) (cs : List ℤ) (l : Line)
      → length cs < size
      → Types cs l
      → Types (press k cs) (handle_msg size k l)
  unfolding handle_msg delete_key
  handle_msg-Types k [] l h t = elim (Bool-cases (k ==ℤ pos 127)) [
    | inl d ↦
        subst (λ ds. Types ds (handle_msg size k l)) {x = []} (ground (arith, d))
          (record {
            index = ground (arith, d, t.index, t.msg_len);
            msg_len = ground (arith, d, t.msg_len);
            unsaved = ground (arith, d, t.msg_len, t.unsaved);
            shows = tt;
          })
    | inr n ↦
        let w : (handle_msg size k l).string ≡ update l.string l.index (to_char k) =
          ground (arith, n, t.msg_len) in
        subst (λ ds. Types ds (handle_msg size k l)) {x = k ∷ []} (ground (arith, n))
          (record {
            index = ground (arith, n, t.index, t.msg_len);
            msg_len = ground (arith, n, t.msg_len);
            unsaved = ground (arith, n, t.msg_len, t.unsaved);
            shows = (ap (λ f. f 0) w ∙ ground (arith, t.index), tt);
          })
  ]
  handle_msg-Types k (c ∷ cs) l h t = elim (Bool-cases (k ==ℤ pos 127)) [
    | inl d ↦
        let w : (handle_msg size k l).string ≡ update l.string (l.index - 1) 0 =
          ground (arith, d, t.msg_len) in
        subst (λ ds. Types ds (handle_msg size k l)) {x = cs} (ground (arith, d))
          (record {
            index = ground (arith, d, t.index, t.msg_len);
            msg_len = ground (arith, d, t.msg_len);
            unsaved = ground (arith, d, t.msg_len, t.unsaved);
            shows =
                subst (Shows cs) (sym w)
                  (Shows-update cs l.string (l.index - 1) 0 (ground (arith, t.index)) t.shows.1);
          })
    | inr n ↦
        let w : (handle_msg size k l).string ≡ update l.string l.index (to_char k) =
          ground (arith, n, t.msg_len) in
        subst (λ ds. Types ds (handle_msg size k l)) {x = k ∷ c ∷ cs} (ground (arith, n))
          (record {
            index = ground (arith, n, t.index, t.msg_len);
            msg_len = ground (arith, n, t.msg_len);
            unsaved = ground (arith, n, t.msg_len, t.unsaved);
            shows = (
              ap (λ f. f (suc (length cs))) w ∙ ground (arith, t.index),
              subst (Shows (c ∷ cs)) (sym w) (
                  Shows-update (c ∷ cs) l.string l.index (to_char k) (ground (arith, t.index))
                    t.shows),
            );
          })
  ]

  length-press : (k : ℤ) (cs : List ℤ) → length (press k cs) ≤ suc (length cs)
  length-press k [] = ground arith
  length-press k (c ∷ cs) = ground arith

  length-edit : (ks cs : List ℤ) → length (edit cs ks) ≤ length cs + length ks
  length-edit [] cs = omega arith
  length-edit (k ∷ ks) cs = omega (arith, length-edit ks (press k cs), length-press k cs)

  read_msgs-edit :
      (ks rest cs : List ℤ) (l : Line)
      → no_return ks ≡ true
      → length cs + length ks < size
      → Types cs l
      → (t : Line) × (read_msgs size (ks ++ pos 13 ∷ rest) l ≡ some t) × Types (edit cs ks) t
  unfolding read_msgs
  read_msgs-edit [] rest cs l n h t = (l, refl, t)
  read_msgs-edit (k ∷ ks) rest cs l n h t =
      let (r, e, d) =
        read_msgs-edit ks rest (press k cs) (handle_msg size k l) (ground (arith, n))
          (ground (arith, h, length-press k cs)) (handle_msg-Types k cs l (omega arith) t) in
      let other : (k ==ℤ pos 13) ≡ false = ground (arith, n) in
      let saved = (handle_msg-Types k cs l (omega arith) t).unsaved in
      let fits : ltb buffer_size (length (handle_msg size k l).buf_save) ≡ false =
        ap (λ b. ltb buffer_size (length b)) saved in
      (r, rw (other, fits) e, d)

-- Keys that are fewer than the cells of the array, and then the return key: `cons_readline` returns, its
-- value is the length of the corrected line, the array holds the line from its start on, and the
-- queue of the keyboard is left alone.
pub cons_readline-edit :
    (ks rest : List ℤ) (string : ℕ → ℕ) (size : ℕ)
    → no_return ks ≡ true
    → length ks < size
    → (r : Answer) × (cons_readline (ks ++ pos 13 ∷ rest) string size ≡ some r)
      × (r.retval ≡ length (edit [] ks))
      × Shows (edit [] ks) r.string
      × (r.requests ≡ [])
unfolding cons_readline finish
cons_readline-edit ks rest string size n h =
    let start : Line = record { string = string; index = 0; msg_len = 0; buf_save = [] } in
    let (t, e, d) =
      read_msgs-edit size ks rest [] start n (omega arith)
        (record { index = refl; msg_len = refl; shows = tt; unsaved = refl }) in
    let used : (size == 0) ≡ false = ground arith in
    let short = length-edit size ks [] in
    (
      finish size t,
      rw (used, e) refl,
      ground (arith, d.msg_len),
      d.shows,
      ground (arith, d.msg_len),
    )
