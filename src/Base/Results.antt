-- ===== src/Base/Results.antt =====
-- A Go function's pair of a value and an error, of which one is nil.
use mathlib.Core.Path.{◌≡◌}
use mathlib.Core.Option.{Option, none, some}

pub data Outcome {ℓ κ} (E : Type κ) (A : Type ℓ) : Type (ℓ ⊔ κ) where
  ok : A → Outcome E A
  err : E → Outcome E A

-- `if err != nil { return …, err }`
infixl 5 ◌>>=◌
abbrev pub ◌>>=◌ {ℓ κ ι} :
    {E : Type κ} {A : Type ℓ} {B : Type ι} → Outcome E A → (A → Outcome E B) → Outcome E B
ok a >>= f = f a
err e >>= f = err e

-- The error for a call that gave nothing.
abbrev pub or_fail {ℓ κ} : {E : Type κ} {A : Type ℓ} → Option A → E → Outcome E A
or_fail none e = err e
or_fail (some a) e = ok a

pub ok_inj {ℓ κ} :
    {E : Type κ} {A : Type ℓ} {a a' : A} → ◌≡◌ {A = Outcome E A} (ok a) (ok a') → a ≡ a'
ok_inj e = cc
