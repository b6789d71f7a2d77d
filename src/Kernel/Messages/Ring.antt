-- ===== src/Kernel/Messages/Ring.antt =====
-- The ring of a queue of kernel/queues.c, and the list of its messages.
use calm_os.Base.{
  ℕ, suc, zero, ◌+◌, ◌-◌, ◌%◌, ◌≡◌, ◌<◌, ◌≤◌, ℤ, false, ◌==◌, List, [], ◌∷◌, ◌++◌, arith, ap, ◌∙◌,
  sym, dec_lt,
}
use native.Mathlib.Nat.{mod-add-mod, mod-eq_of_lt, mod_self, zero-mod}
use calm_os.Kernel.State.{Queue, update}
use calm_os.Kernel.Messages.{ring_push, ring_pop, is_queue_full, is_queue_empty}

-- The indices and the size of a queue that is in use fit together.
pub record IsRing (q : Queue) : Type 0 where
  pub bounded : q.size ≤ q.capacity
  pub front_in : q.front < q.capacity
  pub rear_in : q.rear < q.capacity
  pub meets : (q.rear + 1) % q.capacity ≡ (q.front + q.size) % q.capacity

-- The messages of a ring from an index on.
abbrev pub ring_list : ℕ → ℕ → ℕ → (ℕ → ℤ) → List ℤ
ring_list zero i c m = []
ring_list (suc n) i c m = m i ∷ ring_list n ((i + 1) % c) c m

-- The messages of a queue, oldest first.
abbrev pub contents : Queue → List ℤ
contents q = ring_list q.size q.front q.capacity q.messages

wrap_once : (a c : ℕ) → c ≤ a → a < c + c → a % c ≡ a - c
wrap_once a c h k = grind arith

step_index : (i n c : ℕ) → ((i + 1) % c + n) % c ≡ (i + suc n) % c
step_index i n c = mod-add-mod (i + 1) c n ∙ ap (λ t. t % c) (omega arith)

-- The slot behind `n + 1` messages is not the first of them.
other_slot : (i n c : ℕ) → i < c → suc n < c → ((i + suc n) % c == i) ≡ false
other_slot i n c hi hn = elim (dec_lt (i + suc n) c) [
  | yes small ↦ rw (mod-eq_of_lt small) (ground arith)
  | no large ↦ rw (wrap_once (i + suc n) c (omega arith) (omega arith)) (ground arith)
]

ring_list-write :
    (n i c k : ℕ) (m : ℕ → ℤ) (v : ℤ)
    → i < c
    → n < c
    → k ≡ (i + n) % c
    → ring_list (suc n) i c (update m k v) ≡ ring_list n i c m ++ v ∷ []
ring_list-write zero i c k m v hi hn e =
    let here : k ≡ i = e ∙ ap (λ t. t % c) (omega arith) ∙ mod-eq_of_lt hi in ground arith
ring_list-write (suc n) i c k m v hi hn e =
    let other : (k == i) ≡ false = rw e (other_slot i n c hi hn) in
    let rest =
      ring_list-write n ((i + 1) % c) c k m v (omega arith) (omega arith)
        (e ∙ sym (step_index i n c)) in
    rw (other, rest)

-- `push_message` on a queue that is not full adds its message behind the others.
pub contents-ring_push :
    (v : ℤ) (q : Queue)
    → IsRing q
    → is_queue_full q ≡ false
    → contents (ring_push v q) ≡ contents q ++ v ∷ []
unfolding ring_push
contents-ring_push v q r n =
    ap (λ k. ring_list k q.front q.capacity (update q.messages ((q.rear + 1) % q.capacity) v))
      {y = suc q.size} (omega arith)
    ∙ ring_list-write q.size q.front q.capacity _ q.messages v r.front_in
        (ground (arith, r.bounded)) r.meets

ring_list-head :
    (n i c : ℕ) (m : ℕ → ℤ)
    → (n == 0) ≡ false
    → ring_list n i c m ≡ m i ∷ ring_list (n - 1) ((i + 1) % c) c m
ring_list-head zero i c m h = cc
ring_list-head (suc n) i c m h = ap (λ k. m i ∷ ring_list k ((i + 1) % c) c m) (omega arith)

-- `pop_message` on a queue that is not empty takes the oldest message off.
pub contents-ring_pop :
    (q : Queue) → is_queue_empty q ≡ false → contents q ≡ q.messages q.front ∷ contents (ring_pop q)
unfolding ring_pop
contents-ring_pop q h = ring_list-head q.size q.front q.capacity q.messages h

-- `push_message` keeps a ring that is not full a ring.
pub ring_push-IsRing :
    (v : ℤ) (q : Queue) → IsRing q → is_queue_full q ≡ false → IsRing (ring_push v q)
unfolding ring_push
ring_push-IsRing v q r n = record {
  bounded = ground (arith, r.bounded);
  front_in = r.front_in;
  rear_in = ground (arith, r.rear_in);
  meets =
      ap (λ t. (t + 1) % q.capacity) r.meets
      ∙ mod-add-mod (q.front + q.size) q.capacity 1
      ∙ ap (λ t. t % q.capacity) (omega arith);
}

-- `pop_message` keeps a ring that is not empty a ring.
pub ring_pop-IsRing : (q : Queue) → IsRing q → is_queue_empty q ≡ false → IsRing (ring_pop q)
unfolding ring_pop
ring_pop-IsRing q r n = record {
  bounded = ground (arith, r.bounded);
  front_in = ground (arith, r.front_in);
  rear_in = r.rear_in;
  meets =
      r.meets
      ∙ ap (λ t. t % q.capacity) (ground arith)
      ∙ sym (mod-add-mod (q.front + 1) q.capacity (q.size - 1));
}

pub fresh-IsRing :
    (q : Queue) → q.size ≡ 0 → q.front ≡ 0 → 0 < q.capacity → q.rear ≡ q.capacity - 1 → IsRing q
fresh-IsRing q z f c r = record {
  bounded = omega arith;
  front_in = omega arith;
  rear_in = omega arith;
  meets =
      ap (λ t. t % q.capacity) (omega arith)
      ∙ mod_self q.capacity
      ∙ sym (zero-mod q.capacity)
      ∙ sym (ap (λ t. t % q.capacity) sum);
}
  where
    sum : q.front + q.size ≡ 0
    sum = omega arith
