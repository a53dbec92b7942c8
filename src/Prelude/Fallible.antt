-- ===== src/Prelude/Fallible.antt =====
-- Code that may reach undefined behaviour: `none` stands for a read or write outside an object,
-- through a null pointer or of a destroyed object.
use mathlib.Core.Option.{Option, none, some}
use mathlib.Core.Path.{◌≡◌, sym, ◌∙◌, ap, subst}

infixl 5 ◌>>=◌
abbrev pub ◌>>=◌ {ℓ κ} : {A : Type ℓ} {B : Type κ} → Option A → (A → Option B) → Option B
none >>= f = none
some a >>= f = f a

-- The run ends, without undefined behaviour, in a value of which `P` holds.
abbrev pub Returns {ℓ κ} : {A : Type ℓ} → Option A → (A → Type κ) → Type (ℓ ⊔ κ)
Returns {A} r P = (a : A) × (r ≡ some a) × P a

-- What a run ends in is what it returns.
pub returned {ℓ κ} :
    {A : Type ℓ} {r : Option A} {b : A} {P : A → Type κ} → Returns r P → r ≡ some b → P b
returned {P} (a, e, p) e' = subst P (ap (λ o. elim o [ none ↦ a | some x ↦ x ]) (sym e ∙ e')) p
