-- ===== src/Expected/Variant.antt =====
-- `TwoVariant` of Base/Expected.hpp, and `Expected` as it is stored in one.
pub mod Contents
use ziqe.Prelude.{Option, none, some, Bool, true, false, not, if◌then◌else◌}

pub data Status : Type 0 where
  none_active first_active second_active : Status

-- What lies in `mStorage`: an object of one of the two types, or bytes in which none lives.
pub data Storage {ℓ} (A B : Type ℓ) : Type ℓ where
  raw : Storage A B
  first : A → Storage A B
  second : B → Storage A B

pub record TwoVariant {ℓ} (A B : Type ℓ) : Type ℓ where
  pub storage : Storage A B
  pub current_status : Status

abbrev pub same_status : Status → Status → Bool
same_status none_active none_active = true
same_status first_active first_active = true
same_status second_active second_active = true
same_status s t = false

module _ {ℓ} {A B : Type ℓ} where
  abbrev pub new : TwoVariant A B
  new = record { storage = raw; current_status = none_active }

  -- `constructFirst` and `constructSecond`
  unfoldable pub construct_first : A → TwoVariant A B → TwoVariant A B
  construct_first x v = record { storage = first x; current_status = first_active }

  unfoldable pub construct_second : B → TwoVariant A B → TwoVariant A B
  construct_second y v = record { storage = second y; current_status = second_active }

  -- `getFirst` and `getSecond`: no object where the storage holds none of that type
  unfoldable pub get_first : TwoVariant A B → Option A
  get_first v = elim v.storage [ raw ↦ none | first x ↦ some x | second y ↦ none ]

  unfoldable pub get_second : TwoVariant A B → Option B
  get_second v = elim v.storage [ raw ↦ none | first x ↦ none | second y ↦ some y ]

  unfoldable pub is_first : TwoVariant A B → Bool
  is_first v = same_status v.current_status first_active

  unfoldable pub is_second : TwoVariant A B → Bool
  is_second v = same_status v.current_status second_active

  -- `isActive`, which is true of a variant without a value
  unfoldable pub is_active : TwoVariant A B → Bool
  is_active v = same_status v.current_status none_active

  -- `destruct`, which leaves the status as it is
  unfoldable pub destruct : TwoVariant A B → TwoVariant A B
  destruct v = elim v.current_status [
    | none_active ↦ v
    | first_active ↦ record v { storage = raw }
    | second_active ↦ record v { storage = raw }
  ]

  -- `swap`, of this variant and the other one
  unfoldable pub swap : TwoVariant A B → TwoVariant A B → TwoVariant A B × TwoVariant A B
  swap this other =
      if is_active this
      then if is_active other
        then (other, this)
        else (record this { current_status = none_active }, this)
      else if is_active other
      then (other, record other { current_status = none_active })
      else (this, other)

  -- The move constructor gives the new variant and what is left of the other one.
  unfoldable pub move_construct : TwoVariant A B → TwoVariant A B × TwoVariant A B
  move_construct other = swap new other

  -- `constructFromOtherVariant` constructs the object and leaves the status as it is.
  unfoldable pub construct_from_other_variant :
      TwoVariant A B → TwoVariant A B → Option (TwoVariant A B)
  construct_from_other_variant other v = elim other.current_status [
    | none_active ↦ some v
    | first_active ↦ elim (get_first other) [
      | none ↦ none
      | some x ↦ some (record v { storage = first x })
    ]
    | second_active ↦ elim (get_second other) [
      | none ↦ none
      | some y ↦ some (record v { storage = second y })
    ]
  ]

  -- The copy constructor.
  unfoldable pub copy_construct : TwoVariant A B → Option (TwoVariant A B)
  copy_construct other =
      construct_from_other_variant other
        (record { storage = raw; current_status = other.current_status })

  -- The assignment to an object of the same type, which has to live.
  unfoldable pub assign_same : TwoVariant A B → TwoVariant A B → Option (TwoVariant A B)
  assign_same other v = elim v.current_status [
    | none_active ↦ some v
    | first_active ↦ elim (get_first other) [
      | none ↦ none
      | some x ↦ elim (get_first v) [
        | none ↦ none
        | some old ↦ some (record v { storage = first x })
      ]
    ]
    | second_active ↦ elim (get_second other) [
      | none ↦ none
      | some y ↦ elim (get_second v) [
        | none ↦ none
        | some old ↦ some (record v { storage = second y })
      ]
    ]
  ]

  -- `operator =`
  unfoldable pub copy_assign : TwoVariant A B → TwoVariant A B → Option (TwoVariant A B)
  copy_assign other v =
      let built = construct_from_other_variant other (destruct v) in
      if same_status v.current_status other.current_status
      then assign_same other v
      else elim built [
        | none ↦ none
        | some v' ↦ some (record v' { current_status = other.current_status })
      ]

-- `Expected`'s members: the two constructors, `isError`, `operator bool`, `get` and `getError`.
module _ {ℓ} {T E : Type ℓ} where
  unfoldable pub make_value : T → TwoVariant T E
  make_value x = construct_first x new

  unfoldable pub make_error : E → TwoVariant T E
  make_error e = construct_second e new

  unfoldable pub is_error : TwoVariant T E → Bool
  is_error = is_second

  unfoldable pub to_bool : TwoVariant T E → Bool
  to_bool v = not (is_error v)

  unfoldable pub get : TwoVariant T E → Option T
  get = get_first

  unfoldable pub get_error : TwoVariant T E → Option E
  get_error = get_second
