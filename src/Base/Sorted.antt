-- ===== src/Base/Sorted.antt =====
-- Lists in the order of a relation, and the order through insertion and unlinking.
use Prim.Native.Nat.{ℕ, ◌<◌}
use mathlib.Core.Path.{◌≡◌}
use mathlib.Core.Logic.{◌≢◌, inl, inr}
use mathlib.Core.Bool.{Bool, true, false}
use mathlib.Core.List.{List, [], ◌∷◌}
use native.Mathlib.Omega.{arith}
use calm_os.Base.Tests.{◌==◌, Bool-cases}
use calm_os.Base.Lists.{insert_before, unlink, count}

abbrev pub All : (ℕ → Type 0) → List ℕ → Type 0
All P [] = Unit {0}
All P (x ∷ xs) = P x × All P xs

-- Each element stands in the relation to all behind it.
abbrev pub Sorted : (ℕ → ℕ → Type 0) → List ℕ → Type 0
Sorted R [] = Unit {0}
Sorted R (x ∷ xs) = All (R x) xs × Sorted R xs

pub All-map : {P Q : ℕ → Type 0} (xs : List ℕ) → ((x : ℕ) → P x → Q x) → All P xs → All Q xs
All-map [] f h = tt
All-map (x ∷ xs) f h = (f x h.0, All-map xs f h.1)

pub All-count : (P : ℕ → Type 0) (q : ℕ) (xs : List ℕ) → 0 < count q xs → All P xs → P q
All-count P q [] c h = elim c [ ]
All-count P q (x ∷ xs) c h = elim (Bool-cases (x == q)) [
  | inl hit ↦ let e : x ≡ q = ground arith in rw (← e) h.0
  | inr miss ↦ All-count P q xs (ground arith) h.1
]

pub All-insert_before :
    (P : ℕ → Type 0) (f : ℕ → Bool) (p : ℕ) (xs : List ℕ)
    → P p
    → All P xs
    → All P (insert_before f p xs)
unfolding insert_before
All-insert_before P f p [] h a = (h, tt)
All-insert_before P f p (x ∷ xs) h a = elim (Bool-cases (f x)) [
  | inl here ↦ rw here (h, (a.0, a.1))
  | inr later ↦ rw later (a.0, All-insert_before P f p xs h a.1)
]

pub All-unlink : (P : ℕ → Type 0) (p : ℕ) (xs : List ℕ) → All P xs → All P (unlink p xs)
unfolding unlink
All-unlink P p [] a = tt
All-unlink P p (x ∷ xs) a = elim (Bool-cases (x == p)) [
  | inl here ↦ rw here a.1
  | inr later ↦ rw later (a.0, All-unlink P p xs a.1)
]

pub Sorted-insert_before :
    (R : ℕ → ℕ → Type 0) (f : ℕ → Bool) (p : ℕ) (xs : List ℕ)
    → ((x y z : ℕ) → R x y → R y z → R x z)
    → ((x : ℕ) → f x ≡ true → R p x)
    → ((x : ℕ) → f x ≡ false → R x p)
    → Sorted R xs
    → Sorted R (insert_before f p xs)
unfolding insert_before
Sorted-insert_before R f p [] tr hit miss s = (tt, tt)
Sorted-insert_before R f p (x ∷ xs) tr hit miss s = elim (Bool-cases (f x)) [
  | inl here ↦ rw here ((hit x here, All-map xs (λ y. tr p x y (hit x here)) s.0), s)
  | inr later ↦ rw later (
    All-insert_before (λ y. R x y) f p xs (miss x later) s.0,
    Sorted-insert_before R f p xs tr hit miss s.1,
  )
]

pub Sorted-unlink :
    (R : ℕ → ℕ → Type 0) (p : ℕ) (xs : List ℕ) → Sorted R xs → Sorted R (unlink p xs)
unfolding unlink
Sorted-unlink R p [] s = tt
Sorted-unlink R p (x ∷ xs) s = elim (Bool-cases (x == p)) [
  | inl here ↦ rw here s.1
  | inr later ↦ rw later (All-unlink (λ y. R x y) p xs s.0, Sorted-unlink R p xs s.1)
]

All-away :
    {P Q : ℕ → Type 0} (p : ℕ) (xs : List ℕ)
    → count p xs ≡ 0
    → ((x : ℕ) → x ≢ p → P x → Q x)
    → All P xs
    → All Q xs
All-away p [] c f a = tt
All-away p (x ∷ xs) c f a = (f x (ground arith) a.0, All-away p xs (ground arith) f a.1)

-- The order survives a change of the relation at an element that is not on the list.
pub Sorted-away :
    {R S : ℕ → ℕ → Type 0} (p : ℕ) (xs : List ℕ)
    → count p xs ≡ 0
    → ((x y : ℕ) → x ≢ p → y ≢ p → R x y → S x y)
    → Sorted R xs
    → Sorted S xs
Sorted-away p [] c f s = tt
Sorted-away p (x ∷ xs) c f s = (
  All-away p xs (ground arith) (λ y. f x y (ground arith)) s.0,
  Sorted-away p xs (ground arith) f s.1,
)

pub Sorted-map :
    {R S : ℕ → ℕ → Type 0} (xs : List ℕ) → ((x y : ℕ) → R x y → S x y) → Sorted R xs → Sorted S xs
Sorted-map [] f s = tt
Sorted-map (x ∷ xs) f s = (All-map xs (f x) s.0, Sorted-map xs f s.1)
