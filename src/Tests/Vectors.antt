-- ===== src/Tests/Vectors.antt =====
-- Runs of Base/Vector.hpp and Base/ExtendedVector.hpp.
use ziqe.Prelude.{ℕ, arith, List, [], ◌∷◌, refl}
use ziqe.Vector.Elements.{filled}
use ziqe.ExtVector.{ExtVector}
use ziqe.ExtVector.Window.{Shows}

abbrev numbers : List ℕ
numbers = 7 ∷ 8 ∷ 9 ∷ []

-- A window on the first of three bytes.
abbrev narrow : ExtVector
narrow = record { vector = filled numbers; index_begin = 0; index_end = 1 }

abbrev narrow-Shows : Shows [] (7 ∷ []) (8 ∷ 9 ∷ []) narrow
narrow-Shows = record { holds = refl; begins = refl; ends = refl; fits = omega arith }
