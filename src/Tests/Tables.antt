-- ===== src/Tests/Tables.antt =====
-- Runs of Base/HashTable.hpp, and of erasing and inserting in the middle of a list.
use mathlib.Core.Path.{subst}
use ziqe.Prelude.{
  ℕ, zero, suc, ◌==◌, ==_iff, ◌≡◌, refl, arith, List, [], ◌∷◌, Option, some, none, get_elem?,
}
use ziqe.Prelude.Fallible.{Returns}
use ziqe.LinkedList
use ziqe.LinkedList.{Iterator, Node, Heap, State}
use ziqe.LinkedList.Sequence.{Represents}
use ziqe.LinkedList.Removal.{Left}
use ziqe.LinkedList.Insertion.{Added}
use ziqe.LinkedList.Erasure.{erase-Represents, emplace_before-Represents}
use ziqe.Vector
use ziqe.HashTable.Lookup.{Valid}
use ziqe.HashTable.Ranges.{erase_range-both}
use ziqe.HashTable
use ziqe.HashTable.{Hashing, Entry, Table}
use ziqe.HashTable.Groups.{past_end, inside_more, inside_end, inside_past, Grouped, later, here}
use ziqe.HashTable.Entries.{some_injective}
use ziqe.HashTable.Contents.{content_of, update, remove}
use ziqe.HashTable.Map.{Holds, Finds, Inserted, insert-Holds}
use ziqe.HashTable.Updates.{size_with, size_without, insert_or_assign-Holds, erase-Holds}
use ziqe.HashTable.Runs.{
  Command, inserting, assigning, erasing, run_all, apply, apply_all, find-run_all,
}

-- Keys that are numbers.
instance numbers : Hashing ℕ
numbers = record {
  hash = λ n. n;
  is_equal = λ a b. a == b;
  is_equal_iff = λ a b. ((==_iff a b).0, (==_iff a b).1);
}

abbrev entry : ℕ → ℕ → ℕ → Entry ℕ ℕ
entry key content index = record { key = key; content = content; table_index = index }

abbrev cell : ℕ → Option (Node (Entry ℕ ℕ))
cell zero = some (record { previous = none; next = some 1; value = entry 4 40 0 })
cell (suc zero) = some (record { previous = some 0; next = some 2; value = entry 6 60 0 })
cell (suc (suc zero)) = some (record { previous = some 1; next = none; value = entry 3 30 1 })
cell (suc (suc (suc n))) = none

abbrev entries : List (ℕ × Entry ℕ ℕ)
entries = (0, entry 4 40 0) ∷ (1, entry 6 60 0) ∷ (2, entry 3 30 1) ∷ []

-- A table of two table indices with the keys 4, 6 and 3.
abbrev three : Table ℕ ℕ
three = record {
  table = some (some 0) ∷ some (some 2) ∷ [];
  keys = record {
    heap = record { cells = cell; next_free = 3 };
    list = record { begin = some 0; before_end = some 2; size = 3 };
  };
}

abbrev its : List Iterator
its = some 0 ∷ some 2 ∷ []

abbrev three-Represents : Represents entries three.keys
three-Represents = record {
  begins = refl;
  ends = refl;
  counted = refl;
  chain = (refl, omega arith, (refl, omega arith, (refl, omega arith, tt)));
  distinct = (
    (λ e. omega (arith, e), (λ e. omega (arith, e), tt)),
    ((λ e. omega (arith, e), tt), (tt, tt)),
  );
}

three-Grouped : (i : ℕ) (it : Iterator) → get_elem? its i ≡ some it → Grouped i entries it
three-Grouped zero it held = subst (Grouped 0 entries) (some_injective (some 0) it held) (
    here 0 (entry 4 40 0) _ refl (
      inside_more 1 (entry 6 60 0) _ refl
        (inside_past 2 (entry 3 30 1) [] (λ e. omega (arith, e)) past_end)))
three-Grouped (suc zero) it held = subst (Grouped 1 entries) (some_injective (some 2) it held) (
    later 0 (entry 4 40 0) _ (some 2) (λ e. omega (arith, e))
      (later 1 (entry 6 60 0) _ (some 2) (λ e. omega (arith, e))
        (here 2 (entry 3 30 1) [] refl inside_end)))
three-Grouped (suc (suc i)) it held = ground (arith, held)

three-Holds : Holds (λ k. content_of k entries) three
unfolding numbers
three-Holds = record {
  its = its;
  ns = entries;
  valid = record {
    table = refl;
    positive = omega arith;
    keys = three-Represents;
    placed = (refl, (refl, (refl, tt)));
    unique = (
      (λ e. omega (arith, e), (λ e. omega (arith, e), tt)),
      ((λ e. omega (arith, e), tt), (tt, tt)),
    );
    grouped = three-Grouped;
    small = omega arith;
  };
  agrees = λ k. refl;
}

erase-Represents_example :
    Left
      (some 2)
      ((0, entry 4 40 0) ∷ (2, entry 3 30 1) ∷ [])
      (LinkedList.erase (some 1) three.keys)
erase-Represents_example =
    erase-Represents ((0, entry 4 40 0) ∷ []) 1 (entry 6 60 0) ((2, entry 3 30 1) ∷ []) three.keys
      three-Represents (omega arith)

emplace_before-Represents_example :
    Added
      ((0, entry 4 40 0) ∷ (3, entry 8 80 0) ∷ (1, entry 6 60 0) ∷ (2, entry 3 30 1) ∷ [])
      three.keys
      (LinkedList.emplace_before (some 1) (entry 8 80 0) three.keys)
emplace_before-Represents_example =
    emplace_before-Represents (entry 8 80 0) ((0, entry 4 40 0) ∷ [])
      ((1, entry 6 60 0) ∷ (2, entry 3 30 1) ∷ []) three.keys three-Represents (omega arith)

insert-Holds_example :
    Returns
      (HashTable.insert 8 80 three)
      (Inserted 8 80 (λ k. content_of k entries) three (content_of 8 entries))
unfolding HashTable.size
insert-Holds_example = insert-Holds 8 80 (λ k. content_of k entries) three three-Holds (omega arith)

insert_or_assign-Holds_example : Returns (HashTable.insert_or_assign 4 80 three) (λ r.
    Finds 4 (some 80) r.0 r.1
    × Holds (update 4 80 (λ k. content_of k entries)) r.1
    × (HashTable.size r.1 ≡ size_with (content_of 4 entries) (HashTable.size three)))
unfolding HashTable.size
insert_or_assign-Holds_example =
    insert_or_assign-Holds 4 80 (λ k. content_of k entries) three three-Holds (omega arith)

erase-Holds_example : Returns (HashTable.erase 4 three) (λ r.
    Holds (remove 4 (λ k. content_of k entries)) r.1
    × (HashTable.size r.1 ≡ size_without (content_of 4 entries) (HashTable.size three)))
erase-Holds_example = erase-Holds 4 (λ k. content_of k entries) three three-Holds

abbrev empty : Heap (Entry ℕ ℕ)
empty = record { cells = λ n. none; next_free = 0 }

abbrev calls : List (Command ℕ ℕ)
calls = inserting 4 40 ∷ inserting 6 60 ∷ assigning 4 41 ∷ erasing 6 ∷ []

find-run_all_example :
    Returns
      (run_all calls (HashTable.new 2 empty))
      (λ t. Returns (HashTable.find 4 t) (λ it. Finds 4 (apply_all calls (λ k. none) 4) it t))
find-run_all_example = find-run_all 2 empty calls 4 (omega arith) (omega arith)

-- The calls leave 41 at the key 4, and nothing at the key 6.
calls_at_4 : apply_all calls (λ k. none) 4 ≡ some 41
unfolding apply_all apply update remove numbers
calls_at_4 = refl

calls_at_6 : apply_all calls (λ k. none) 6 ≡ none
unfolding apply_all apply update remove numbers
calls_at_6 = refl

abbrev pair_cell : ℕ → Option (Node (Entry ℕ ℕ))
pair_cell zero = some (record { previous = none; next = some 1; value = entry 4 40 0 })
pair_cell (suc zero) = some (record { previous = some 0; next = none; value = entry 3 30 1 })
pair_cell (suc (suc n)) = none

-- A table of two table indices with the keys 4 and 3.
abbrev pair : Table ℕ ℕ
pair = record {
  table = some (some 0) ∷ some (some 1) ∷ [];
  keys = record {
    heap = record { cells = pair_cell; next_free = 2 };
    list = record { begin = some 0; before_end = some 1; size = 2 };
  };
}

abbrev pair_entries : List (ℕ × Entry ℕ ℕ)
pair_entries = (0, entry 4 40 0) ∷ (1, entry 3 30 1) ∷ []

pair-Grouped :
    (i : ℕ) (it : Iterator)
    → get_elem? (some 0 ∷ some 1 ∷ []) i ≡ some it
    → Grouped i pair_entries it
pair-Grouped zero it held = subst (Grouped 0 pair_entries) (some_injective (some 0) it held) (
    here 0 (entry 4 40 0) _ refl (inside_past 1 (entry 3 30 1) [] (λ e. omega (arith, e)) past_end))
pair-Grouped (suc zero) it held = subst (Grouped 1 pair_entries) (some_injective (some 1) it held) (
    later 0 (entry 4 40 0) _ (some 1) (λ e. omega (arith, e))
      (here 1 (entry 3 30 1) [] refl inside_end))
pair-Grouped (suc (suc i)) it held = ground (arith, held)

pair-Valid : Valid (some 0 ∷ some 1 ∷ []) pair_entries pair
unfolding numbers
pair-Valid = record {
  table = refl;
  positive = omega arith;
  keys = record {
    begins = refl;
    ends = refl;
    counted = refl;
    chain = (refl, omega arith, (refl, omega arith, tt));
    distinct = ((λ e. omega (arith, e), tt), (tt, tt));
  };
  placed = (refl, (refl, tt));
  unique = ((λ e. omega (arith, e), tt), (tt, tt));
  grouped = pair-Grouped;
  small = omega arith;
}

erase_range-both_example :
    Returns
      (HashTable.erase_range (some 0) none pair)
      (λ u. Represents [] u.keys × (Vector.at u.table 1 ≡ some (some 1)))
erase_range-both_example =
    erase_range-both (some 0 ∷ some 1 ∷ []) 0 1 (entry 4 40 0) (entry 3 30 1) pair pair-Valid
      (λ e. omega (arith, e))
