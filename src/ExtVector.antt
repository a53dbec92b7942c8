-- ===== src/ExtVector.antt =====
-- Base/ExtendedVector.hpp: a window from `index_begin` to `index_end` on a vector of bytes.
-- The assertions of the source only log, so they leave no trace here; indices are `uint64_t`.
pub mod Window
pub mod Buffer
use ziqe.Prelude.{
  ℕ, suc, ◌+◌, ◌-◌, ◌%◌, List, [], ◌∷◌, Option, none, some, Bool, ltb, leb, ◌==◌, if◌then◌else◌,
  not, length, min,
}
use ziqe.Prelude.Fallible.{◌>>=◌}
use ziqe.Vector
use ziqe.Vector.{size_mod}

pub record ExtVector : Type 0 where
  pub vector : List (Option ℕ)
  pub index_begin : ℕ
  pub index_end : ℕ

-- The constructor that takes a vector over.
unfoldable pub from_vector : List (Option ℕ) → ExtVector
from_vector v = record { vector = v; index_begin = 0; index_end = length v }

-- The default constructor.
abbrev pub empty : ExtVector
empty = record { vector = []; index_begin = 0; index_end = 0 }

-- `mIndexEnd - mIndexBegin`
unfoldable pub size : ExtVector → ℕ
size v = (v.index_end + size_mod - v.index_begin) % size_mod

unfoldable pub has_length : ℕ → ExtVector → Bool
has_length n v = leb n (size v)

-- `operator[]`, read and written
unfoldable pub at : ExtVector → ℕ → Option ℕ
at v i = Vector.at v.vector ((i + v.index_begin) % size_mod)

unfoldable pub put : ExtVector → ℕ → ℕ → Option ExtVector
put v i x = do
  changed ← Vector.put v.vector ((i + v.index_begin) % size_mod) x
  some (record v { vector = changed })

unfoldable pub increase_begin : ℕ → ExtVector → ExtVector
increase_begin n v = record v { index_begin = (v.index_begin + n) % size_mod }

unfoldable pub set_begin : ℕ → ExtVector → ExtVector
set_begin n v = record v { index_begin = n }

unfoldable pub set_end : ℕ → ExtVector → ExtVector
set_end n v = record v { index_end = n }

-- The loop of `insertVectorAtBegin`, which stores at `i`, `i + 1`, …
unfoldable pub store_from : ℕ → List ℕ → ExtVector → Option ExtVector
store_from i [] v = some v
store_from i (x ∷ xs) v = put v i x >>= λ v'. store_from (i + 1) xs v'

unfoldable pub insert_vector_at_begin : List ℕ → ExtVector → Option ExtVector
insert_vector_at_begin xs v = do v' ← store_from 0 xs v; some (increase_begin (length xs) v')

-- `expand`: the elements behind the window first, the underlying vector after them
unfoldable pub expand : ℕ → ExtVector → ExtVector
expand how_much v =
    let new_size = (size v + how_much) % size_mod in
    let underlying = length v.vector in
    let available = (underlying + size_mod - v.index_end) % size_mod in
    let virtual = min how_much available in
    let inside = not (v.index_end == underlying) in
    let left = if inside then (new_size + size_mod - virtual) % size_mod else new_size in
    let new_end = if inside then available - virtual else v.index_end in
    let grown = if ltb 0 left then Vector.expand how_much none 0 v.vector else v.vector in
    record v { vector = grown; index_end = new_end }
