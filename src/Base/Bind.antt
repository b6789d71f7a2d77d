-- ===== src/Base/Bind.antt =====
-- The chain of results that may be missing, for do blocks.
use mathlib.Core.Option.{Option, none, some}

infixl 15 ◌>>=◌
abbrev pub ◌>>=◌ {ℓ κ} : {A : Type ℓ} {B : Type κ} → Option A → (A → Option B) → Option B
none >>= f = none
some a >>= f = f a
