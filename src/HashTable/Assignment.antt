-- ===== src/HashTable/Assignment.antt =====
-- How the content of an entry of Base/HashTable.hpp is replaced.
use ziqe.Prelude.{ℕ, refl, List, [], ◌∷◌, ◌++◌, none, some, arith, length, length-append}
use ziqe.Prelude.Fallible.{Returns}
use ziqe.LinkedList
use ziqe.LinkedList.{Iterator, State}
use ziqe.LinkedList.Cells.{first, last}
use ziqe.LinkedList.Sequence.{node_at}
use ziqe.LinkedList.Values.{write-Represents}
use ziqe.HashTable.{Hashing, Entry, Table, set_content}
use ziqe.HashTable.Groups.{Past, past_other, Inside, inside_more, inside_past, Grouped, later, here}
use ziqe.HashTable.Lookup.{Placed, Absent, Unique, Valid}

module _ {ℓ κ} {K : Type ℓ} {V : Type κ} where
  Past-assign :
      (i p : ℕ) (e : Entry K V) (c : V) (ms ns : List (ℕ × Entry K V))
      → Past i (ms ++ (p, e) ∷ ns)
      → Past i (ms ++ (p, record e { content = c }) ∷ ns)
  Past-assign i p e c [] ns (past_other _ _ _ out rest) =
      past_other p (record e { content = c }) ns out rest
  Past-assign i p e c ((q, d) ∷ ms) ns (past_other _ _ _ out rest) =
      past_other q d (ms ++ (p, record e { content = c }) ∷ ns) out (Past-assign i p e c ms ns rest)

  Inside-assign :
      (i p : ℕ) (e : Entry K V) (c : V) (ms ns : List (ℕ × Entry K V))
      → Inside i (ms ++ (p, e) ∷ ns)
      → Inside i (ms ++ (p, record e { content = c }) ∷ ns)
  Inside-assign i p e c [] ns (inside_more _ _ _ in_group rest) =
      inside_more p (record e { content = c }) ns in_group rest
  Inside-assign i p e c [] ns (inside_past _ _ _ out rest) =
      inside_past p (record e { content = c }) ns out rest
  Inside-assign i p e c ((q, d) ∷ ms) ns (inside_more _ _ _ in_group rest) =
      inside_more q d (ms ++ (p, record e { content = c }) ∷ ns) in_group
        (Inside-assign i p e c ms ns rest)
  Inside-assign i p e c ((q, d) ∷ ms) ns (inside_past _ _ _ out rest) =
      inside_past q d (ms ++ (p, record e { content = c }) ∷ ns) out
        (Past-assign i p e c ms ns rest)

  Grouped-assign :
      (i p : ℕ) (e : Entry K V) (c : V) (ms ns : List (ℕ × Entry K V)) (it : Iterator)
      → Grouped i (ms ++ (p, e) ∷ ns) it
      → Grouped i (ms ++ (p, record e { content = c }) ∷ ns) it
  Grouped-assign i p e c [] ns it (later _ _ _ _ out g) =
      later p (record e { content = c }) ns it out g
  Grouped-assign i p e c [] ns _ (here _ _ _ in_group group) =
      here p (record e { content = c }) ns in_group group
  Grouped-assign i p e c ((q, d) ∷ ms) ns it (later _ _ _ _ out g) =
      later q d (ms ++ (p, record e { content = c }) ∷ ns) it out
        (Grouped-assign i p e c ms ns it g)
  Grouped-assign i p e c ((q, d) ∷ ms) ns _ (here _ _ _ in_group group) =
      here q d (ms ++ (p, record e { content = c }) ∷ ns) in_group
        (Inside-assign i p e c ms ns group)

module _ {ℓ κ} {K : Type ℓ} {V : Type κ} ⦃hashing : Hashing K⦄ where
  Placed-assign :
      (size p : ℕ) (e : Entry K V) (c : V) (ms ns : List (ℕ × Entry K V))
      → Placed size (ms ++ (p, e) ∷ ns)
      → Placed size (ms ++ (p, record e { content = c }) ∷ ns)
  Placed-assign size p e c [] ns placed = placed
  Placed-assign size p e c ((q, d) ∷ ms) ns placed =
      (placed.0, Placed-assign size p e c ms ns placed.1)

  Absent-assign :
      (k : K) (p : ℕ) (e : Entry K V) (c : V) (ms ns : List (ℕ × Entry K V))
      → Absent k (ms ++ (p, e) ∷ ns)
      → Absent k (ms ++ (p, record e { content = c }) ∷ ns)
  Absent-assign k p e c [] ns absent = absent
  Absent-assign k p e c ((q, d) ∷ ms) ns absent = (absent.0, Absent-assign k p e c ms ns absent.1)

  Unique-assign :
      (p : ℕ) (e : Entry K V) (c : V) (ms ns : List (ℕ × Entry K V))
      → Unique (ms ++ (p, e) ∷ ns)
      → Unique (ms ++ (p, record e { content = c }) ∷ ns)
  Unique-assign p e c [] ns unique = unique
  Unique-assign p e c ((q, d) ∷ ms) ns unique =
      (Absent-assign d.key p e c ms ns unique.0, Unique-assign p e c ms ns unique.1)

  -- Assigning the content of an entry of a valid table keeps the table valid.
  pub set_content-Valid :
      (c : V) (its : List Iterator) (ms : List (ℕ × Entry K V)) (p : ℕ) (e : Entry K V)
      (ns : List (ℕ × Entry K V)) (t : Table K V)
      → Valid its (ms ++ (p, e) ∷ ns) t
      → Returns (set_content p c t) (Valid its (ms ++ (p, record e { content = c }) ∷ ns))
  unfolding set_content
  set_content-Valid c its ms p e ns t v =
      let e' : Entry K V = record e { content = c } in
      let keys : State (Entry K V) = record t.keys {
        heap =
            LinkedList.write p
              (some (record { previous = last none ms; next = first ns none; value = e' }))
              t.keys.heap;
      } in
      (
        record t { keys = keys },
        rw (node_at ms p e ns t.keys v.keys) refl,
        record {
          table = v.table;
          positive = v.positive;
          keys = write-Represents e' ms p e ns t.keys v.keys;
          placed = Placed-assign (length its) p e c ms ns v.placed;
          unique = Unique-assign p e c ms ns v.unique;
          grouped = λ i it held. Grouped-assign i p e c ms ns it (v.grouped i it held);
          small =
              omega
                (arith, v.small, length-append ms ((p, e) ∷ ns), length-append ms ((p, e') ∷ ns));
        },
      )
