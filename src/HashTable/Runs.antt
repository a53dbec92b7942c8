-- ===== src/HashTable/Runs.antt =====
-- Runs of Base/HashTable.hpp from a new table.
use mathlib.Core.Path.{subst}
use ziqe.Prelude.{
  ℕ, zero, suc, ◌+◌, ◌<◌, ◌≤◌, ◌≡◌, refl, sym, ap, List, [], ◌∷◌, Option, none, some, Bool, arith,
  length, get_elem?,
}
use ziqe.Prelude.Fallible.{◌>>=◌, Returns}
use ziqe.Vector.{size_mod, construct_n, initial, resize}
use ziqe.Vector.Elements.{filled, length-resize_buffer}
use ziqe.LinkedList.{Iterator, Heap}
use ziqe.HashTable.{Hashing, Entry, Table, new, size, insert, insert_or_assign, erase, find}
use ziqe.HashTable.Groups.{nowhere, Grouped}
use ziqe.HashTable.Lookup.{Valid}
use ziqe.HashTable.Contents.{update, remove, content_of}
use ziqe.HashTable.Entries.{some_injective}
use ziqe.HashTable.Map.{Holds, Finds, Inserted, insert-Holds, find-Holds}
use ziqe.HashTable.Updates.{size_with, size_without, insert_or_assign-Holds, erase-Holds}

length-initial {ℓ} : {A : Type ℓ} (d : A) (n : ℕ) → length (initial none d n) ≡ n
unfolding initial
length-initial d zero = refl
length-initial d (suc n) = ap suc (length-initial d n)

resize_new {ℓ} :
    {A : Type ℓ} (d : A) (n : ℕ) → 0 < n → resize n none d [] ≡ filled (initial none d n)
unfolding resize construct_n
resize_new {A} d n positive =
    let size = length-resize_buffer {A = A} n [] in ground (arith, size, positive)

nothing_found : (n i : ℕ) (it : Iterator) → get_elem? (initial none none n) i ≡ some it → it ≡ none
unfolding initial
nothing_found zero i it held = ground (arith, held)
nothing_found (suc n) zero it held = sym (some_injective none it held)
nothing_found (suc n) (suc i) it held = nothing_found n i it held

size_with_bound {κ} : {V : Type κ} (o : Option V) (n : ℕ) → size_with o n ≤ n + 1
size_with_bound none n = omega arith
size_with_bound (some d) n = omega arith

size_without_bound {κ} : {V : Type κ} (o : Option V) (n : ℕ) → size_without o n ≤ n + 1
size_without_bound none n = omega arith
size_without_bound (some d) n = omega arith

-- A call of `insert`, of `insertOrAssign` or of `erase` of a key.
pub data Command {ℓ κ} (K : Type ℓ) (V : Type κ) : Type (ℓ ⊔ κ) where
  inserting : K → V → Command K V
  assigning : K → V → Command K V
  erasing : K → Command K V

module _ {ℓ κ} {K : Type ℓ} {V : Type κ} ⦃hashing : Hashing K⦄ where
  unfoldable pub run : Command K V → Table K V → Option (Table K V)
  run (inserting key c) t = do r ← insert key c t; some r.1
  run (assigning key c) t = do r ← insert_or_assign key c t; some r.1
  run (erasing key) t = do r ← erase key t; some r.1

  unfoldable pub run_all : List (Command K V) → Table K V → Option (Table K V)
  run_all [] t = some t
  run_all (command ∷ commands) t = run command t >>= run_all commands

  -- What the call does to a map, and the calls in turn.
  unfoldable pub apply : Command K V → (K → Option V) → K → Option V
  apply (inserting key c) f = elim (f key) [ none ↦ update key c f | some d ↦ f ]
  apply (assigning key c) f = update key c f
  apply (erasing key) f = remove key f

  unfoldable pub apply_all : List (Command K V) → (K → Option V) → K → Option V
  apply_all [] f = f
  apply_all (command ∷ commands) f = apply_all commands (apply command f)

  -- A new table of at least one table index is valid, and empty.
  pub new-Valid :
      (n : ℕ) (h : Heap (Entry K V)) → 0 < n → (its : List Iterator) × Valid its [] (new n h)
  unfolding new
  new-Valid n h positive = (
    initial none none n,
    record {
      table = resize_new none n positive;
      positive = omega (arith, positive, length-initial {A = Iterator} none n);
      keys = record { begins = refl; ends = refl; counted = refl; chain = tt; distinct = tt };
      placed = tt;
      unique = tt;
      grouped = λ i it held. subst (Grouped i []) (sym (nothing_found n i it held)) nowhere;
      small = omega arith;
    },
  )

  -- A new table of at least one table index holds the empty map.
  pub new-Holds : (n : ℕ) (h : Heap (Entry K V)) → 0 < n → Holds (λ k. none) (new n h)
  unfolding content_of
  new-Holds n h positive =
      let (its, valid) = new-Valid n h positive in
      record { its = its; ns = []; valid = valid; agrees = λ k. refl }

  Inserted-Holds :
      (key : K) (c : V) (f : K → Option V) (t : Table K V) (o : Option V)
      (r : (Bool × Iterator) × Table K V)
      → Holds f t
      → Inserted key c f t o r
      → Holds (elim o [ none ↦ update key c f | some d ↦ f ]) r.1 × (size r.1 ≤ size t + 1)
  Inserted-Holds key c f t none r h made = (made.2, omega (arith, made.3))
  Inserted-Holds key c f t (some d) r h made =
      (subst (Holds f) (sym made.2) h, omega (arith, ap size made.2))

  run-Holds :
      (command : Command K V) (f : K → Option V) (t : Table K V)
      → Holds f t
      → size t + 1 < size_mod
      → Returns (run command t) (λ u. Holds (apply command f) u × (size u ≤ size t + 1))
  unfolding run apply
  run-Holds (inserting key c) f t h room =
      let (r, done, made) = insert-Holds key c f t h room in
      (r.1, rw done refl, Inserted-Holds key c f t (f key) r h made)
  run-Holds (assigning key c) f t h room =
      let (r, done, made) = insert_or_assign-Holds key c f t h room in
      (r.1, rw done refl, (made.1, omega (arith, made.2, size_with_bound (f key) (size t))))
  run-Holds (erasing key) f t h room =
      let (r, done, made) = erase-Holds key f t h in
      (r.1, rw done refl, (made.0, omega (arith, made.1, size_without_bound (f key) (size t))))

  -- Any such calls on a table that holds a map, of fewer than `2 ^ 64` entries with those that the calls
  -- could add, end without undefined behaviour in a table that holds the map after the same calls.
  pub run_all-Holds :
      (commands : List (Command K V)) (f : K → Option V) (t : Table K V)
      → Holds f t
      → size t + length commands < size_mod
      → Returns (run_all commands t) (Holds (apply_all commands f))
  unfolding run_all apply_all
  run_all-Holds [] f t h room = (t, refl, h)
  run_all-Holds (command ∷ commands) f t h room =
      let (u, done, (held, grown)) = run-Holds command f t h (omega (arith, room)) in
      let (w, done', held') =
        run_all-Holds commands (apply command f) u held (omega (arith, room, grown)) in
      (w, rw (done, ◌>>=◌) done', held')

  -- After any calls of `insert`, `insertOrAssign` and `erase` of a key on a new table, fewer than
  -- `2 ^ 64`, `find` of a key ends in the entry that the calls leave at the key, or in the end where
  -- they leave none. `erase` of a range is not among the calls.
  pub find-run_all :
      (n : ℕ) (heap : Heap (Entry K V)) (commands : List (Command K V)) (key : K)
      → 0 < n
      → length commands < size_mod
      → Returns
          (run_all commands (new n heap))
          (λ t. Returns (find key t) (λ it. Finds key (apply_all commands (λ k. none) key) it t))
  unfolding size new
  find-run_all n heap commands key positive room =
      let (t, done, held) =
        run_all-Holds commands (λ k. none) (new n heap) (new-Holds n heap positive)
          (omega (arith, room)) in
      (t, done, find-Holds key (apply_all commands (λ k. none)) t held)
