-- ===== src/Expected/Variant/Contents.antt =====
-- What a `TwoVariant` of Base/Expected.hpp contains, and what copying and moving it do to that.
use ziqe.Prelude.{◌≡◌, refl, Option, none, some, true, false}
use ziqe.Prelude.Fallible.{Returns}
use ziqe.Expected.{Expected, value, error}
use ziqe.Expected.Variant.{
  none_active, first_active, second_active, Storage, raw, first, second, TwoVariant,
  construct_first, construct_second, get_first, get_second, is_second, is_active, destruct, swap,
  move_construct, construct_from_other_variant, copy_construct, assign_same, copy_assign,
  make_value, make_error, is_error, to_bool, get, get_error,
}

module _ {ℓ} {A B : Type ℓ} where
  -- The variant that holds a value of the first type, of the second, or none.
  pub data Contains : Option (Expected A B) → TwoVariant A B → Type ℓ where
    nothing :
        (s : Storage A B) → Contains none (record { storage = s; current_status = none_active })
    the_first :
        (x : A)
        → Contains (some (value x)) (record { storage = first x; current_status = first_active })
    the_second :
        (y : B)
        → Contains (some (error y)) (record { storage = second y; current_status = second_active })

  -- A copy has the contents of the variant that it was made from.
  pub copy_construct-Contains :
      (c : Option (Expected A B)) (v : TwoVariant A B)
      → Contains c v
      → Returns (copy_construct v) (Contains c)
  unfolding copy_construct construct_from_other_variant get_first get_second
  copy_construct-Contains _ _ (nothing s) = (_, refl, nothing raw)
  copy_construct-Contains _ _ (the_first x) = (_, refl, the_first x)
  copy_construct-Contains _ _ (the_second y) = (_, refl, the_second y)

  -- An assignment gives a variant the contents of the other one, whatever it held before.
  pub copy_assign-Contains :
      (c old : Option (Expected A B)) (other v : TwoVariant A B)
      → Contains c other
      → Contains old v
      → Returns (copy_assign other v) (Contains c)
  unfolding copy_assign assign_same construct_from_other_variant destruct get_first get_second
  copy_assign-Contains _ _ _ _ (nothing s) (nothing t) = (_, refl, nothing t)
  copy_assign-Contains _ _ _ _ (nothing s) (the_first x) = (_, refl, nothing raw)
  copy_assign-Contains _ _ _ _ (nothing s) (the_second y) = (_, refl, nothing raw)
  copy_assign-Contains _ _ _ _ (the_first x) (nothing t) = (_, refl, the_first x)
  copy_assign-Contains _ _ _ _ (the_first x) (the_first x') = (_, refl, the_first x)
  copy_assign-Contains _ _ _ _ (the_first x) (the_second y') = (_, refl, the_first x)
  copy_assign-Contains _ _ _ _ (the_second y) (nothing t) = (_, refl, the_second y)
  copy_assign-Contains _ _ _ _ (the_second y) (the_first x') = (_, refl, the_second y)
  copy_assign-Contains _ _ _ _ (the_second y) (the_second y') = (_, refl, the_second y)

  -- What `swap` leaves: two variants that both hold values keep them, and else both lose theirs.
  abbrev pub after_swap :
      Option (Expected A B) → Option (Expected A B) → Option (Expected A B) × Option (Expected A B)
  after_swap (some a) (some b) = (some a, some b)
  after_swap a b = (none, none)

  -- `swap` never exchanges two variants: if both hold values, they keep them, and if one of them
  -- holds a value, it is lost.
  pub swap-Contains :
      (a b : Option (Expected A B)) (this other : TwoVariant A B)
      → Contains a this
      → Contains b other
      → Contains (after_swap a b).0 (swap this other).0
        × Contains (after_swap a b).1 (swap this other).1
  unfolding swap is_active
  swap-Contains _ _ _ _ (nothing s) (nothing t) = (nothing t, nothing s)
  swap-Contains _ _ _ _ (nothing s) (the_first x) = (nothing s, nothing s)
  swap-Contains _ _ _ _ (nothing s) (the_second y) = (nothing s, nothing s)
  swap-Contains _ _ _ _ (the_first x) (nothing t) = (nothing t, nothing t)
  swap-Contains _ _ _ _ (the_second y) (nothing t) = (nothing t, nothing t)
  swap-Contains _ _ _ _ (the_first x) (the_first x') = (the_first x, the_first x')
  swap-Contains _ _ _ _ (the_first x) (the_second y') = (the_first x, the_second y')
  swap-Contains _ _ _ _ (the_second y) (the_first x') = (the_second y, the_first x')
  swap-Contains _ _ _ _ (the_second y) (the_second y') = (the_second y, the_second y')

module _ {ℓ} {T E : Type ℓ} where
  -- A value or an error that has been moved out of an `Expected` is in neither object any more,
  -- and the new object, which holds nothing, tests as one that holds a value.
  pub move_construct-lost :
      (c : Expected T E) (v : TwoVariant T E)
      → Contains (some c) v
      → (get (move_construct v).0 ≡ none)
        × (get_error (move_construct v).0 ≡ none)
        × (to_bool (move_construct v).0 ≡ true)
        × Contains none (move_construct v).1
  unfolding move_construct swap is_active get get_error get_first get_second to_bool is_error
      is_second
  move_construct-lost _ _ (the_first x) = (refl, refl, refl, nothing raw)
  move_construct-lost _ _ (the_second y) = (refl, refl, refl, nothing raw)

  -- What the constructors of `Expected` store is what its readers give back.
  pub make-get :
      (x : T) (e : E)
      → (get {E = E} (make_value x) ≡ some x)
        × (to_bool {E = E} (make_value x) ≡ true)
        × (get_error {T = T} (make_error e) ≡ some e)
        × (to_bool {T = T} (make_error e) ≡ false)
  unfolding make_value make_error construct_first construct_second get get_error get_first
      get_second to_bool is_error is_second
  make-get x e = (refl, refl, refl, refl)
