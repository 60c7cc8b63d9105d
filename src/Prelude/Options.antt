-- ===== src/Prelude/Options.antt =====
-- Chains of steps that may have no result.
use mathlib.Core.Option.{Option, none, some}

infixl 5 ◌>>=◌
-- `abbrev`, so that `some a >>= f` computes wherever it stands.
abbrev pub ◌>>=◌ {ℓ κ} : {A : Type ℓ} {B : Type κ} → Option A → (A → Option B) → Option B
none >>= f = none
some a >>= f = f a
