-- ===== src/Tests/Lists.antt =====
-- Runs of Base/LinkedList.hpp.
use ziqe.Prelude.{ℕ, zero, suc, refl, arith, List, [], ◌∷◌, Option, some, none}
use ziqe.Prelude.Fallible.{Returns}
use ziqe.LinkedList.{Node, State, clear}
use ziqe.LinkedList.Sequence.{Represents}
use ziqe.LinkedList.Clearing.{clear-Represents}

abbrev cell : ℕ → Option (Node ℕ)
cell zero = some (record { previous = none; next = some 1; value = 10 })
cell (suc zero) = some (record { previous = some 0; next = none; value = 20 })
cell (suc (suc n)) = none

-- The list of 10 and 20.
abbrev two : State ℕ
two = record {
  heap = record { cells = cell; next_free = 2 };
  list = record { begin = some 0; before_end = some 1; size = 2 };
}

abbrev nodes : List (ℕ × ℕ)
nodes = (0, 10) ∷ (1, 20) ∷ []

abbrev two-Represents : Represents nodes two
two-Represents = record {
  begins = refl;
  ends = refl;
  counted = refl;
  chain = (refl, omega arith, (refl, omega arith, tt));
  distinct = ((λ e. omega (arith, e), tt), (tt, tt));
}

clear-Represents_example : Returns (clear two) (Represents [])
clear-Represents_example = clear-Represents nodes two two-Represents (omega arith)
