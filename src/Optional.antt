-- ===== src/Optional.antt =====
-- Base/Optional.hpp: storage for an object, and whether `mConsturctedObject` points to it. A storage
-- with an object that nothing points to holds what a move has left.
use ziqe.Prelude.{◌≡◌, refl, Option, none, some, Bool, true, false, if◌then◌else◌}
use ziqe.Prelude.Fallible.{◌>>=◌, Returns}

pub record Optional {ℓ} (A : Type ℓ) : Type ℓ where
  pub storage : Option A
  pub constructed : Bool

module _ {ℓ} {A : Type ℓ} where
  -- The default constructor.
  abbrev pub new : Optional A
  new = record { storage = none; constructed = false }

  -- The constructor from the arguments of an object.
  unfoldable pub make : A → Optional A
  make x = record { storage = some x; constructed = true }

  -- `isValid` and `operator bool`
  unfoldable pub is_valid : Optional A → Bool
  is_valid o = o.constructed

  -- `destruct`
  unfoldable pub destruct : Optional A → Optional A
  destruct o = if is_valid o then new else o

  -- `construct`
  unfoldable pub construct : A → Optional A → Optional A
  construct x o = let left = destruct o in record left { storage = some x; constructed = true }

  -- `get`, `operator *` and `operator ->`
  unfoldable pub get : Optional A → Option A
  get o = if is_valid o then o.storage else none

  -- The move constructor gives the new object and what is left of the other one.
  unfoldable pub move_construct : Optional A → Option (Optional A × Optional A)
  move_construct other = do x ← get other; some (make x, record other { constructed = false })

  -- The move assignment, which leaves the other one as it is.
  unfoldable pub move_assign : Optional A → Optional A → Option (Optional A × Optional A)
  move_assign this other = do x ← get other; some (construct x this, other)

  -- Moving an optional without an object is undefined behaviour, by construction and by assignment.
  move_empty : (this : Optional A) → (move_construct new ≡ none) × (move_assign this new ≡ none)
  unfolding move_construct move_assign get is_valid
  move_empty this = (refl, refl)

  -- After a move construction the source is not valid, and after a move assignment it still is.
  moved-is_valid :
      (x : A) (this : Optional A)
      → Returns (move_construct (make x)) (λ r. (get r.0 ≡ some x) × (is_valid r.1 ≡ false))
        × Returns (move_assign this (make x)) (λ r. (get r.0 ≡ some x) × (is_valid r.1 ≡ true))
  unfolding move_construct move_assign get is_valid make construct
  moved-is_valid x this = (
    ((make x, record { storage = some x; constructed = false }), refl, (refl, refl)),
    ((construct x this, make x), refl, (refl, refl)),
  )
