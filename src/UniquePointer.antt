-- ===== src/UniquePointer.antt =====
-- Base/UniquePointer.hpp: a pointer that owns its object. An object is known by its address, and the
-- objects that have been handed to the deleter are listed.
use ziqe.Prelude.{ℕ, List, [], ◌∷◌, ◌++◌, Option, none, some, Bool, true, false}

-- `operator bool`
unfoldable pub to_bool : Option ℕ → Bool
to_bool p = elim p [ none ↦ false | some object ↦ true ]

-- `reset`
unfoldable pub reset : Option ℕ → Option ℕ → List ℕ → Option ℕ × List ℕ
reset pointer none deleted = (pointer, deleted)
reset pointer (some old) deleted = (pointer, deleted ++ old ∷ [])

-- `release` gives the object and the pointer that is left.
unfoldable pub release : Option ℕ → Option ℕ × Option ℕ
release p = (p, none)

-- The move constructor gives the new pointer and what is left of the other one.
unfoldable pub move_construct : Option ℕ → Option ℕ × Option ℕ
move_construct other = (other, none)

-- `operator =` of another pointer: this one, the other one and the deleted objects afterwards
unfoldable pub move_assign : Option ℕ → Option ℕ → List ℕ → Option ℕ × Option ℕ × List ℕ
move_assign this other deleted = ((reset other this deleted).0, none, (reset other this deleted).1)

-- The destructor.
unfoldable pub destroy : Option ℕ → List ℕ → List ℕ
destroy p deleted = (reset none p deleted).1
