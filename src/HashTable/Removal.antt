-- ===== src/HashTable/Removal.antt =====
-- How an entry leaves the table and the list of keys of Base/HashTable.hpp.
use mathlib.Core.Path.{subst}
use ziqe.Prelude.{
  ℕ, ◌<◌, ◌≡◌, ◌≢◌, refl, sym, ◌∙◌, ap, List, ◌∷◌, ◌++◌, some, true, length, get_elem?, set, inl,
  inr, arith, length-append, length-set,
}
use ziqe.Prelude.Fallible.{◌>>=◌, Returns}
use ziqe.Vector
use ziqe.Vector.{size_mod}
use ziqe.Vector.Elements.{filled, put-filled, at-filled}
use ziqe.LinkedList.{Iterator, State, same}
use ziqe.LinkedList.Sequence.{Represents, node_at, same_refl}
use ziqe.LinkedList.Erasure.{after_erase, erase-Represents}
use ziqe.HashTable.{Hashing, Entry, Table, erase_at, update_erase_first}
use ziqe.HashTable.Groups.{Grouped, Grouped-delete}
use ziqe.HashTable.Lookup.{Placed, Valid, its_at}
use ziqe.HashTable.Entries.{
  some_injective, get_elem?-set_same, get_elem?-set_other, index_cases, Unique-delete,
  Placed-delete, Placed-at,
}
use ziqe.HashTable.Renewal.{same_cases, Grouped-at, renew}

module _ {ℓ κ} {K : Type ℓ} {V : Type κ} ⦃hashing : Hashing K⦄ where
  -- A table from which an entry between `ms` and `ns` has been taken.
  pub record Shrunk (ms ns : List (ℕ × Entry K V)) (r : Iterator × Table K V) : Type (ℓ ⊔ κ) where
    pub its : List Iterator
    pub next_iterator : r.0 ≡ after_erase ms ns
    pub valid : Valid its (ms ++ ns) r.1

  shrink :
      (its : List Iterator) (ms : List (ℕ × Entry K V)) (p : ℕ) (e : Entry K V)
      (ns : List (ℕ × Entry K V)) (t : Table K V)
      → Valid its (ms ++ (p, e) ∷ ns) t
      → (its' : List Iterator) (keys : State (Entry K V)) → length its' ≡ length its
      → Represents (ms ++ ns) keys
      → ((i : ℕ) (it : Iterator) → get_elem? its' i ≡ some it → Grouped i (ms ++ ns) it)
      → Valid its' (ms ++ ns) (record { table = filled its'; keys = keys })
  shrink its ms p e ns t v its' keys size represents grouped = record {
    table = refl;
    positive = omega (arith, size, v.positive);
    keys = represents;
    placed =
        subst (λ n. Placed n (ms ++ ns)) (sym size) (Placed-delete (length its) p e ms ns v.placed);
    unique = Unique-delete p e ms ns v.unique;
    grouped = grouped;
    small = omega (arith, v.small, length-append ms ns, length-append ms ((p, e) ∷ ns));
  }

  -- Where the iterator of no other index points to the entry, those of the other indices stay.
  others_stay :
      (its : List Iterator) (ms : List (ℕ × Entry K V)) (p : ℕ) (e : Entry K V)
      (ns : List (ℕ × Entry K V)) (t : Table K V)
      → Valid its (ms ++ (p, e) ∷ ns) t
      → (i : ℕ) (it : Iterator) → i ≢ e.table_index
      → get_elem? its i ≡ some it
      → Grouped i (ms ++ ns) it
  others_stay its ms p e ns t v i it apart held =
      Grouped-delete i p e ms ns it
        (λ eq. apart (sym (Grouped-at i p e ms ns v.keys.distinct it eq (v.grouped i it held)).1))
        (v.grouped i it held)

  -- The iterators after the first entry of an index has been erased.
  regroup :
      (its : List Iterator) (ms : List (ℕ × Entry K V)) (p : ℕ) (e : Entry K V)
      (ns : List (ℕ × Entry K V)) (t : Table K V)
      → Valid its (ms ++ (p, e) ∷ ns) t
      → e.table_index < length its
      → (x : Iterator) → Grouped e.table_index (ms ++ ns) x
      → (i : ℕ) (it : Iterator) → get_elem? (set its e.table_index x) i ≡ some it
      → Grouped i (ms ++ ns) it
  regroup its ms p e ns t v below x grouped i it found = elim (index_cases i e.table_index) [
    | inl eq ↦
        let there =
          subst (λ j. get_elem? (set its e.table_index x) j ≡ some x) (sym eq)
            (get_elem?-set_same its e.table_index x below) in
        subst (λ j. Grouped j (ms ++ ns) it) (sym eq)
          (subst (Grouped e.table_index (ms ++ ns)) (some_injective x it (sym there ∙ found))
            grouped)
    | inr apart ↦
        others_stay its ms p e ns t v i it apart
          (sym (get_elem?-set_other its e.table_index i x apart) ∙ found)
  ]

  -- The entry is the first of its index.
  erase_first :
      (its : List Iterator) (ms : List (ℕ × Entry K V)) (p : ℕ) (e : Entry K V)
      (ns : List (ℕ × Entry K V)) (t : Table K V)
      → Valid its (ms ++ (p, e) ∷ ns) t
      → e.table_index < length its
      → get_elem? its e.table_index ≡ some (some p)
      → (r : Iterator × State (Entry K V)) → r.0 ≡ after_erase ms ns
      → Represents (ms ++ ns) r.1
      → (u : Table K V) × (update_erase_first e.table_index r.0 (record t { keys = r.1 }) ≡ some u)
        × Shrunk ms ns (r.0, u)
  erase_first its ms p e ns t v below held r next represents =
      let t' : Table K V = record t { keys = r.1 } in
      let at =
        Grouped-at e.table_index p e ms ns v.keys.distinct (some p) refl
          (v.grouped e.table_index (some p) held) in
      let n = renew e.table_index ms ns t' represents at.0 at.2 in
      let put_run : Vector.put t.table e.table_index n.renewed
          ≡ some (filled (set its e.table_index n.renewed)) =
        subst
          (λ w.
            Vector.put w e.table_index n.renewed ≡ some (filled (set its e.table_index n.renewed)))
          (sym v.table) (put-filled its e.table_index n.renewed below) in
      let run : update_erase_first e.table_index (after_erase ms ns) t'
          ≡ some (record { table = filled (set its e.table_index n.renewed); keys = r.1 }) =
        n.update_run ∙ rw put_run refl in
      (
        record { table = filled (set its e.table_index n.renewed); keys = r.1 },
        ap (λ it. update_erase_first e.table_index it t') next ∙ run,
        record {
          its = set its e.table_index n.renewed;
          next_iterator = next;
          valid =
              shrink its ms p e ns t v (set its e.table_index n.renewed) r.1
                (length-set its e.table_index n.renewed) represents
                (regroup its ms p e ns t v below n.renewed n.grouped);
        },
      )

  -- The iterators after an entry that is not the first of its index has been erased.
  all_stay :
      (its : List Iterator) (ms : List (ℕ × Entry K V)) (p : ℕ) (e : Entry K V)
      (ns : List (ℕ × Entry K V)) (t : Table K V)
      → Valid its (ms ++ (p, e) ∷ ns) t
      → (it : Iterator) → get_elem? its e.table_index ≡ some it
      → it ≢ some p
      → (i : ℕ) (it' : Iterator) → get_elem? its i ≡ some it'
      → Grouped i (ms ++ ns) it'
  all_stay its ms p e ns t v it held apart i it' found = elim (index_cases i e.table_index) [
    | inl eq ↦
        let same_it = some_injective it it' (sym held ∙ (ap (get_elem? its) (sym eq) ∙ found)) in
        Grouped-delete i p e ms ns it' (λ eq'. apart (same_it ∙ eq')) (v.grouped i it' found)
    | inr other ↦ others_stay its ms p e ns t v i it' other found
  ]

  -- `erase` of the iterator to an entry of a valid table ends in a valid table without the entry,
  -- and returns the iterator that the list of keys returns.
  pub erase_at-Shrunk :
      (its : List Iterator) (ms : List (ℕ × Entry K V)) (p : ℕ) (e : Entry K V)
      (ns : List (ℕ × Entry K V)) (t : Table K V)
      → Valid its (ms ++ (p, e) ∷ ns) t
      → Returns (erase_at (some p) t) (Shrunk ms ns)
  unfolding erase_at
  erase_at-Shrunk its ms p e ns t v =
      let node = node_at ms p e ns t.keys v.keys in
      let placed = Placed-at (length its) p e ms ns v.placed in
      let below : e.table_index < length its = omega (arith, placed, v.positive) in
      let (it, held) = its_at its e.table_index below in
      let entry_run : Vector.at t.table e.table_index ≡ some it =
        ap (λ w. Vector.at w e.table_index) v.table ∙ (at-filled its e.table_index ∙ held) in
      let (r, run, left) =
        erase-Represents ms p e ns t.keys v.keys
          (omega (arith, v.small, length-append ms ((p, e) ∷ ns))) in
      elim (same_cases it p) [
        | inl eq ↦
            let (u, update_run, shrunk) =
              erase_first its ms p e ns t v below (held ∙ ap some eq) r left.0 left.1 in
            let first_run : same it (some p) ≡ true = ap (λ i. same i (some p)) eq ∙ same_refl p in
            (
              (r.0, u),
              rw (node, ◌>>=◌, entry_run, ◌>>=◌, run, ◌>>=◌, first_run, update_run) refl,
              shrunk,
            )
        | inr (apart, other_run) ↦
            let kept = all_stay its ms p e ns t v it held apart in
            (
              (r.0, record t { keys = r.1 }),
              rw (node, ◌>>=◌, entry_run, ◌>>=◌, run, ◌>>=◌, other_run) refl,
              record {
                its = its;
                next_iterator = left.0;
                valid =
                    subst (λ w. Valid its (ms ++ ns) (record { table = w; keys = r.1 }))
                      (sym v.table) (shrink its ms p e ns t v its r.1 refl left.1 kept);
              },
            )
      ]
