-- ===== src/HashTable/Ranges.antt =====
-- `erase (begin, end)` of Base/HashTable.hpp.
use ziqe.Prelude.{
  ℕ, ◌<◌, ◌≡◌, ◌≢◌, refl, sym, ◌∙◌, ap, List, [], ◌∷◌, Option, none, some, length, get_elem?, set,
  arith,
}
use ziqe.Prelude.Fallible.{◌>>=◌, Returns}
use ziqe.Vector
use ziqe.Vector.Elements.{filled, put-filled, at-filled}
use ziqe.LinkedList.{Iterator}
use ziqe.LinkedList.Sequence.{Represents, node_at, same_refl}
use ziqe.LinkedList.Clearing.{erase_whole}
use ziqe.HashTable.{Hashing, Entry, Table, erase_range, note_range, note_entry}
use ziqe.HashTable.Groups.{Grouped, later, here}
use ziqe.HashTable.Lookup.{Valid, its_at, not_index}
use ziqe.HashTable.Entries.{get_elem?-set_other}

module _ {ℓ κ} {K : Type ℓ} {V : Type κ} where
  Grouped-head :
      (i p : ℕ) (e : Entry K V) (ns : List (ℕ × Entry K V)) (it : Iterator)
      → e.table_index ≡ i
      → Grouped i ((p, e) ∷ ns) it
      → it ≡ some p
  Grouped-head i p e ns it indexed (later _ _ _ _ out g) = absurd (out indexed)
  Grouped-head i p e ns _ indexed (here _ _ _ in_group group) = refl

  Grouped-tail :
      (i p : ℕ) (e : Entry K V) (ns : List (ℕ × Entry K V)) (it : Iterator)
      → e.table_index ≢ i
      → Grouped i ((p, e) ∷ ns) it
      → Grouped i ns it
  Grouped-tail i p e ns it apart (later _ _ _ _ out g) = g
  Grouped-tail i p e ns _ apart (here _ _ _ in_group group) = absurd (apart in_group)

module _ {ℓ κ} {K : Type ℓ} {V : Type κ} ⦃hashing : Hashing K⦄ where
  -- The iterator of the table index of an entry.
  held_at :
      (its : List Iterator) (ns : List (ℕ × Entry K V)) (t : Table K V)
      → Valid its ns t
      → (i : ℕ) → i < length its
      → (it : Iterator) × (get_elem? its i ≡ some it) × Grouped i ns it
  held_at its ns t v i below =
      let (it, held) = its_at its i below in (it, held, v.grouped i it held)

  note_first :
      (p : ℕ) (e : Entry K V) (ns : List (ℕ × Entry K V)) (t : Table K V)
      → Represents ((p, e) ∷ ns) t.keys
      → Vector.at t.table e.table_index ≡ some (some p)
      → note_entry p none t ≡ some (some e.table_index, t)
  unfolding note_entry
  note_first p e ns t r at = rw (node_at [] p e ns t.keys r, ◌>>=◌, at, same_refl p) refl

  note_other :
      (p q : ℕ) (d e : Entry K V) (ns : List (ℕ × Entry K V)) (t : Table K V)
      (table : List (Option Iterator))
      → Represents ((p, d) ∷ (q, e) ∷ ns) t.keys
      → d.table_index ≢ e.table_index
      → Vector.put t.table d.table_index none ≡ some table
      → note_entry q (some d.table_index) t ≡ some (none, record t { table = table })
  unfolding note_entry
  note_other p q d e ns t table r apart put_run =
      let differ = not_index e.table_index d.table_index (λ eq. apart (sym eq)) in
      rw (node_at ((p, d) ∷ []) q e ns t.keys r, ◌>>=◌, differ, put_run) refl

  -- In a table of two entries with different table indices, `erase (begin, end)` of both empties the
  -- list of keys, and leaves the table with the iterator to the second entry.
  pub erase_range-both :
      (its : List Iterator) (p q : ℕ) (d e : Entry K V) (t : Table K V)
      → Valid its ((p, d) ∷ (q, e) ∷ []) t
      → d.table_index ≢ e.table_index
      → Returns
          (erase_range (some p) none t)
          (λ u. Represents [] u.keys × (Vector.at u.table e.table_index ≡ some (some q)))
  unfolding erase_range note_range
  erase_range-both its p q d e t v apart =
      let below_d : d.table_index < length its = omega (arith, v.placed.0, v.positive) in
      let below_e : e.table_index < length its = omega (arith, v.placed.1.0, v.positive) in
      let (x, held_d, group_d) = held_at its ((p, d) ∷ (q, e) ∷ []) t v d.table_index below_d in
      let (y, held_e, group_e) = held_at its ((p, d) ∷ (q, e) ∷ []) t v e.table_index below_e in
      let is_p = Grouped-head d.table_index p d ((q, e) ∷ []) x refl group_d in
      let is_q =
        Grouped-head e.table_index q e [] y refl
          (Grouped-tail e.table_index p d ((q, e) ∷ []) y apart group_e) in
      let at_d : Vector.at t.table d.table_index ≡ some (some p) =
        ap (λ w. Vector.at w d.table_index) v.table
        ∙ (at-filled its d.table_index ∙ (held_d ∙ ap some is_p)) in
      let its' = set its d.table_index none in
      let put_run : Vector.put t.table d.table_index none ≡ some (filled its') =
        ap (λ w. Vector.put w d.table_index none) v.table
        ∙ put-filled its d.table_index none below_d in
      let u : Table K V = record t { table = filled its' } in
      let node_p = node_at [] p d ((q, e) ∷ []) t.keys v.keys in
      let node_q = node_at ((p, d) ∷ []) q e [] t.keys v.keys in
      let noted : note_range 2 p none none t ≡ some (none, u) =
        rw
          (
            note_first p d ((q, e) ∷ []) t v.keys at_d,
            ◌>>=◌,
            node_p,
            ◌>>=◌,
            note_other p q d e [] t (filled its') v.keys apart put_run,
            ◌>>=◌,
            node_q,
          )
          refl in
      let noted' : note_range t.keys.list.size p none none t ≡ some (none, u) =
        ap (λ n. note_range n p none none t) v.keys.counted ∙ noted in
      let (keys, run, empty) = erase_whole p d ((q, e) ∷ []) t.keys v.keys (omega arith) in
      let still : Vector.at (filled its') e.table_index ≡ some (some q) =
        at-filled its' e.table_index
        ∙ (get_elem?-set_other its d.table_index e.table_index none (λ eq. apart (sym eq))
            ∙ (held_e ∙ ap some is_q)) in
      (record u { keys = keys }, rw (noted', ◌>>=◌, run) refl, (empty, still))
