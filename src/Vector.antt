-- ===== src/Vector.antt =====
-- Base/Vector.hpp: the array of constructed elements. A slot that holds `none` is storage in
-- which no object lives: it was never constructed, or its object has been destroyed.
-- Allocation is taken to succeed, and sizes are the `uint64_t` of Base/Types.hpp.
pub mod Elements
use ziqe.Prelude.{
  ℕ, zero, suc, ◌+◌, ◌-◌, ◌%◌, ◌^◌, List, [], ◌∷◌, ◌++◌, map, Option, none, some, Bool, ltb, ◌==◌,
  if◌then◌else◌, length, get_elem?, set, take, replicate, min,
}
use ziqe.Prelude.Fallible.{◌>>=◌}

abbrev pub size_mod : ℕ
size_mod = 2 ^ 64

-- A difference of two sizes.
abbrev pub sub_size : ℕ → ℕ → ℕ
sub_size a b = (a + size_mod - b) % size_mod

module _ {ℓ} {A : Type ℓ} where
  abbrev pub size : List (Option A) → ℕ
  size = length

  -- `v[i]` read
  unfoldable pub at : List (Option A) → ℕ → Option A
  at v i = elim (get_elem? v i) [ none ↦ none | some slot ↦ slot ]

  -- `v[i] = x`, an assignment to a living object
  unfoldable pub put : List (Option A) → ℕ → A → Option (List (Option A))
  put v i x = elim (at v i) [ none ↦ none | some _ ↦ some (set v i (some x)) ]

  -- `moveOldBufferToNew` into fresh storage of `n` slots
  unfoldable pub move_old : ℕ → List (Option A) → List (Option A)
  move_old n v = take (min (length v) n) v ++ replicate (n - min (length v) n) none

  -- `resizeBuffer`: at an equal size it destroys every element and keeps the storage
  unfoldable pub resize_buffer : ℕ → List (Option A) → List (Option A)
  resize_buffer n v =
      if length v == n then replicate n none else if n == 0 then [] else move_old n v

  -- `insertToUninitilizedBuffer`: construct copies of `xs` from slot `i` on
  unfoldable pub insert_at : ℕ → List A → List (Option A) → Option (List (Option A))
  insert_at i [] v = some v
  insert_at i (x ∷ xs) v =
      let rest = insert_at (i + 1) xs (set v i (some x)) in if ltb i (length v) then rest else none

  -- `assign (begin, end, beginToEnd)`
  unfoldable pub assign : List A → List (Option A) → Option (List (Option A))
  assign xs v = insert_at 0 xs (resize_buffer (length xs) v)

  -- The elements of `new T[n]{args...}`: an argument makes the first of them, and the others are
  -- value-initialised to `d`.
  unfoldable pub initial : Option A → A → ℕ → List A
  initial arg d zero = []
  initial none d (suc n) = d ∷ initial none d n
  initial (some x) d (suc n) = x ∷ initial none d n

  -- `constructN (mPointer+oldSize, newSize-oldSize, args...)`
  unfoldable pub construct_n : ℕ → Option A → A → List (Option A) → List (Option A)
  construct_n old arg d v = take old v ++ map some (initial arg d (length v - old))

  -- `resize (newSize, args...)`, with no argument or one
  unfoldable pub resize : ℕ → Option A → A → List (Option A) → List (Option A)
  resize n arg d v =
      if n == length v
      then v
      else if n == 0
      then []
      else if ltb (length v) n
      then construct_n (length v) arg d (resize_buffer n v)
      else resize_buffer n v

  -- `shrinkWithoutFree`: the elements cut off are not destroyed, and no longer reached
  unfoldable pub shrink_without_free : ℕ → List (Option A) → List (Option A)
  shrink_without_free n v = take (length v - n) v

  -- `expand (size, args...)`
  unfoldable pub expand : ℕ → Option A → A → List (Option A) → List (Option A)
  expand n arg d v = resize ((length v + n) % size_mod) arg d v

  -- `expand (begin, end, beginToEnd)`
  unfoldable pub expand_range : List A → List (Option A) → Option (List (Option A))
  expand_range xs v = insert_at (length v) xs (resize_buffer ((length v + length xs) % size_mod) v)

  -- The copy assignment, of another vector's elements.
  unfoldable pub copy_assign : List A → List (Option A) → Option (List (Option A))
  copy_assign other v = assign other v

  -- `swap`
  unfoldable pub swap : List (Option A) → List (Option A) → List (Option A) × List (Option A)
  swap this other = (other, this)

  -- The constructor from a range, and the copy constructor.
  unfoldable pub from_range : List A → Option (List (Option A))
  from_range xs = assign xs []

  -- The move constructor gives the new vector and what is left of the other one.
  unfoldable pub move_construct : List (Option A) → List (Option A) × List (Option A)
  move_construct other = (other, [])
