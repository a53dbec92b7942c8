-- ===== src/SharedPointer.antt =====
-- Base/SharedPointer.hpp: pointers that share the count of their copies. An object and a count are
-- known by their addresses, and `none` is the null pointer.
pub mod Counts
use ziqe.Prelude.{
  ℕ, zero, suc, ◌+◌, ◌%◌, List, [], ◌∷◌, ◌++◌, Option, none, some, Bool, true, false, not, ◌==◌,
  if◌then◌else◌,
}
use ziqe.Prelude.Fallible.{◌>>=◌}
use ziqe.Vector.{size_mod}

-- The `mReferenceCount` of every reference object, the next free address for one, and the objects
-- that have been handed to the deleter.
pub record Store : Type 0 where
  pub counts : ℕ → Option ℕ
  pub next_reference : ℕ
  pub deleted : List ℕ

-- `mPointer` and `mReference`
pub record SharedPointer : Type 0 where
  pub pointer : Option ℕ
  pub reference : Option ℕ

-- The constructors from nothing and from a pointer.
abbrev pub empty : SharedPointer
empty = record { pointer = none; reference = none }

unfoldable pub from_pointer : Option ℕ → SharedPointer
from_pointer p = record { pointer = p; reference = none }

unfoldable pub write_count : ℕ → ℕ → Store → Store
write_count r n s = record s { counts = λ q. if q == r then some n else s.counts q }

-- `increaseCount`
unfoldable pub increase_count : SharedPointer → Store → Option (SharedPointer × Store)
increase_count p s = elim p.pointer [
  | none ↦ some (p, s)
  | some object ↦ elim p.reference [
    | none ↦ some (
      record p { reference = some s.next_reference },
      record (write_count s.next_reference 1 s) { next_reference = suc s.next_reference },
    )
    | some r ↦ elim (s.counts r) [
      | none ↦ none
      | some n ↦ some (p, write_count r ((n + 1) % size_mod) s)
    ]
  ]
]

-- `deleteObject`, which finds the deleter in the reference object
unfoldable pub delete_object : ℕ → SharedPointer → Store → Option Store
delete_object object p s = elim p.reference [
  | none ↦ none
  | some r ↦ elim (s.counts r) [
    | none ↦ none
    | some n ↦ some (record s { deleted = s.deleted ++ object ∷ [] })
  ]
]

-- `decreaseCount`, without its parameter, which no caller sets
unfoldable pub decrease_count : SharedPointer → Store → Option (SharedPointer × Store)
decrease_count p s = elim p.pointer [
  | none ↦ some (p, s)
  | some object ↦ elim p.reference [
    | none ↦ (do s' ← delete_object object p s; some (empty, s'))
    | some r ↦ elim (s.counts r) [
      | none ↦ none
      | some zero ↦ (do s' ← delete_object object p s; some (empty, s'))
      | some (suc n) ↦ some (empty, s)
    ]
  ]
]

-- The destructor, by `decreaseCountAndDeleteReferece`.
unfoldable pub destroy : SharedPointer → Store → Option Store
destroy p s = do (_, s') ← decrease_count p s; some s'

-- The copy constructors.
unfoldable pub copy_construct : SharedPointer → Store → Option (SharedPointer × Store)
copy_construct other s = increase_count other s

-- The move constructors give the new pointer and what is left of the other one.
unfoldable pub move_construct : SharedPointer → SharedPointer × SharedPointer
move_construct other = (other, empty)

-- `swap`, which exchanges the references alone
unfoldable pub swap : SharedPointer → SharedPointer → SharedPointer × SharedPointer
swap this other =
    (record this { reference = other.reference }, record other { reference = this.reference })

-- `operator =` of a pointer of the same type
unfoldable pub move_assign : SharedPointer → SharedPointer → SharedPointer × SharedPointer
move_assign this other = swap this other

unfoldable pub copy_assign : SharedPointer → SharedPointer → SharedPointer
copy_assign this other = record this { reference = other.reference }

-- `operator =` of a pointer of another type
unfoldable pub convert_move_assign :
    SharedPointer → SharedPointer → Store → Option ((SharedPointer × SharedPointer) × Store)
convert_move_assign this other s = do (_, s') ← decrease_count this s; some ((other, empty), s')

unfoldable pub convert_copy_assign :
    SharedPointer → SharedPointer → Store → Option (SharedPointer × Store)
convert_copy_assign this other s = do (_, s') ← decrease_count this s; increase_count other s'

-- `getReferenceCount`
unfoldable pub get_reference_count : SharedPointer → Store → Option ℕ
get_reference_count p s = elim p.pointer [
  | none ↦ some 0
  | some object ↦ elim p.reference [
    | none ↦ some 1
    | some r ↦ elim (s.counts r) [ none ↦ none | some n ↦ some ((n + 1) % size_mod) ]
  ]
]

-- `setPointer`
unfoldable pub set_pointer : Option ℕ → SharedPointer → Store → Option (SharedPointer × Store)
set_pointer pointer p s = do
  (p', s') ← decrease_count p s
  some (record p' { pointer = pointer }, s')
