-- ===== src/HashTable/Lookup.antt =====
-- The invariant of Base/HashTable.hpp, and `find` as a linear search of the list of keys.
use mathlib.Core.Path.{subst}
use ziqe.Prelude.{
  ℕ, zero, suc, ◌-◌, ◌%◌, ◌≤◌, ◌<◌, ◌≡◌, ◌≢◌, refl, sym, ◌∙◌, ap, List, [], ◌∷◌, none, some, true,
  false, length, get_elem?, if◌then◌else◌, ◌==◌, ==_iff, Bool-cases, inl, inr, arith,
}
use ziqe.Prelude.Fallible.{◌>>=◌}
use ziqe.Vector
use ziqe.Vector.{size_mod}
use ziqe.Vector.Elements.{filled, at-filled, length-filled}
use ziqe.LinkedList.{Iterator, Heap, State}
use ziqe.LinkedList.Cells.{first, Linked}
use ziqe.LinkedList.Sequence.{Represents}
use ziqe.HashTable.{Hashing, Entry, Table, table_iterator, walk, lookup_key_in_key_list, find}
use ziqe.HashTable.Groups.{
  Past, past_end, past_other, Inside, inside_more, inside_end, inside_past, Grouped, nowhere, later,
  here,
}

pub differs {ℓ} :
    {K : Type ℓ} ⦃hashing : Hashing K⦄ (a b : K) → a ≢ b → hashing.is_equal a b ≡ false
differs ⦃hashing⦄ a b apart = elim (Bool-cases (hashing.is_equal a b)) [
  | inl eq ↦ absurd (apart ((hashing.is_equal_iff a b).0 eq))
  | inr ne ↦ ne
]

-- The table has an entry for every index below its size.
pub its_at :
    (its : List Iterator) (i : ℕ) → i < length its → (it : Iterator) × (get_elem? its i ≡ some it)
its_at [] i h = absurd (omega arith)
its_at (x ∷ its) zero h = (x, refl)
its_at (x ∷ its) (suc i) h = its_at its i (omega arith)

pub not_index : (a b : ℕ) → a ≢ b → (a == b) ≡ false
not_index a b apart = ground (arith, apart)

module _ {ℓ κ} {K : Type ℓ} {V : Type κ} ⦃hashing : Hashing K⦄ where
  -- Every entry has the table index of its key.
  abbrev pub Placed : ℕ → List (ℕ × Entry K V) → Type 0
  Placed size [] = Unit
  Placed size ((p, e) ∷ ns) = (e.table_index ≡ hashing.hash e.key % size) × Placed size ns

  -- No entry has the key.
  abbrev pub Absent : K → List (ℕ × Entry K V) → Type ℓ
  Absent key [] = Unit
  Absent key ((p, e) ∷ ns) = (e.key ≢ key) × Absent key ns

  abbrev pub Unique : List (ℕ × Entry K V) → Type ℓ
  Unique [] = Unit
  Unique ((p, e) ∷ ns) = Absent e.key ns × Unique ns

  -- `ns` are the entries of the table, and `its` its iterators to the first entry of each index.
  pub record Valid (its : List Iterator) (ns : List (ℕ × Entry K V)) (t : Table K V)
      : Type (ℓ ⊔ κ) where
    pub table : t.table ≡ filled its
    pub positive : 0 < length its
    pub keys : Represents ns t.keys
    pub placed : Placed (length its) ns
    pub unique : Unique ns
    pub grouped : (i : ℕ) (it : Iterator) → get_elem? its i ≡ some it → Grouped i ns it
    pub small : length ns < size_mod

  -- The linear search: the address of the first entry with the key.
  unfoldable pub address_of : K → List (ℕ × Entry K V) → Iterator
  address_of key [] = none
  address_of key ((p, e) ∷ ns) = if hashing.is_equal e.key key then some p else address_of key ns

  -- An entry of another index has another key.
  other_key :
      (size i : ℕ) (key : K) (e : Entry K V)
      → e.table_index ≡ hashing.hash e.key % size
      → hashing.hash key % size ≡ i
      → e.table_index ≢ i
      → e.key ≢ key
  other_key size i key e placed at_index out eq =
      out (placed ∙ (ap (λ k. hashing.hash k % size) eq ∙ at_index))

  pub address_of-Past :
      (size i : ℕ) (key : K) (ns : List (ℕ × Entry K V))
      → Placed size ns
      → hashing.hash key % size ≡ i
      → Past i ns
      → address_of key ns ≡ none
  unfolding address_of
  address_of-Past size i key _ placed at_index past_end = refl
  address_of-Past size i key _ placed at_index (past_other p e ns out rest) =
      rw (differs e.key key (other_key size i key e placed.0 at_index out))
        (address_of-Past size i key ns placed.1 at_index rest)

  skipped :
      {key : K} (p : ℕ) (e : Entry K V) (ns : List (ℕ × Entry K V))
      → hashing.is_equal e.key key ≡ false
      → address_of key ns ≡ address_of key ((p, e) ∷ ns)
  unfolding address_of
  skipped p e ns ne = rw ne refl

  walk-step :
      (i : ℕ) (key : K) (h : Heap (Entry K V)) (fuel p q : ℕ) (e c : Entry K V) (b : Iterator)
      (next : Iterator)
      → h.cells p ≡ some (record { previous = b; next = some q; value = e })
      → h.cells q ≡ some (record { previous = some p; next = next; value = c })
      → hashing.is_equal e.key key ≡ false
      → c.table_index ≡ i
      → walk (suc fuel) p i key h ≡ walk fuel q i key h
  unfolding walk
  walk-step i key h fuel p q e c b next at_p at_q ne in_group =
      let follows : (c.table_index == i) ≡ true = (==_iff c.table_index i).1 in_group in
      rw (at_p, ne, at_q, ◌>>=◌, follows) refl

  walk-Inside :
      (size i : ℕ) (key : K) (h : Heap (Entry K V)) (fuel p : ℕ) (e : Entry K V)
      (ns : List (ℕ × Entry K V)) (b : Iterator)
      → Linked h b ((p, e) ∷ ns) none
      → Placed size ((p, e) ∷ ns)
      → hashing.hash key % size ≡ i
      → Inside i ns
      → length ns ≤ fuel
      → walk (suc fuel) p i key h ≡ some (address_of key ((p, e) ∷ ns))
  unfolding walk address_of
  walk-Inside size i key h fuel p e _ b chain placed at_index inside_end enough =
      elim (Bool-cases (hashing.is_equal e.key key)) [
        | inl eq ↦ rw (chain.0, eq) refl
        | inr ne ↦ rw (chain.0, ne) refl
      ]
  walk-Inside size i key h fuel p e _ b chain placed at_index (inside_past q c ns out past) enough =
      let other : (c.table_index == i) ≡ false = not_index c.table_index i out in
      let gone =
        address_of-Past size i key ((q, c) ∷ ns) placed.1 at_index (past_other q c ns out past) in
      elim (Bool-cases (hashing.is_equal e.key key)) [
        | inl eq ↦ rw (chain.0, eq) refl
        | inr ne ↦ rw (chain.0, ne, chain.2.0, ◌>>=◌, other) (ap some (sym gone))
      ]
  walk-Inside size i key h zero p e _ b chain placed at_index (inside_more q c ns in_group group)
        enough =
      absurd (omega arith)
  walk-Inside size i key h (suc fuel) p e _ b chain placed at_index
        (inside_more q c ns in_group group) enough =
      let next =
        walk-Inside size i key h fuel q c ns (some p) chain.2 placed.1 at_index group
          (omega arith) in
      elim (Bool-cases (hashing.is_equal e.key key)) [
        | inl eq ↦ rw (chain.0, eq) refl
        | inr ne ↦
            walk-step i key h (suc fuel) p q e c b (first ns none) chain.0 chain.2.0 ne in_group
            ∙ (next ∙ ap some (skipped p e ((q, c) ∷ ns) ne))
      ]

  lookup-Grouped :
      (size i : ℕ) (key : K) (ns : List (ℕ × Entry K V)) (s : State (Entry K V)) (b it : Iterator)
      → Linked s.heap b ns none
      → Placed size ns
      → hashing.hash key % size ≡ i
      → Grouped i ns it
      → length ns ≤ s.list.size
      → lookup_key_in_key_list it key s ≡ some (address_of key ns)
  unfolding lookup_key_in_key_list address_of
  lookup-Grouped size i key _ s b _ chain placed at_index nowhere enough = refl
  lookup-Grouped size i key _ s b it chain placed at_index (later p e ns _ out g) enough =
      rw (differs e.key key (other_key size i key e placed.0 at_index out))
        (lookup-Grouped size i key ns s (some p) it chain.2 placed.1 at_index g (omega arith))
  lookup-Grouped size i key _ s b _ chain placed at_index (here p e ns in_group group) enough =
      let fuel = s.list.size - 1 in
      let sized : s.list.size ≡ suc fuel = omega arith in
      let walked =
        walk-Inside size i key s.heap fuel p e ns b chain placed at_index group (omega arith) in
      let run : walk s.list.size p e.table_index key s.heap ≡ some (address_of key ((p, e) ∷ ns)) =
        subst (λ n. walk n p e.table_index key s.heap ≡ some (address_of key ((p, e) ∷ ns)))
          (sym sized)
          (subst (λ j. walk (suc fuel) p j key s.heap ≡ some (address_of key ((p, e) ∷ ns)))
            (sym in_group) walked) in
      rw chain.0 run

  -- What `find` and `insert` do first: the table index of a key, its iterator, and the search.
  pub record Searched (key : K) (its : List Iterator) (ns : List (ℕ × Entry K V)) (t : Table K V)
      : Type (ℓ ⊔ κ) where
    pub index : ℕ
    pub iterator : Iterator
    pub below : index < length its
    pub hashed : hashing.hash key % length its ≡ index
    pub index_run : table_iterator key t ≡ some index
    pub held : get_elem? its index ≡ some iterator
    pub entry_run : Vector.at t.table index ≡ some iterator
    pub search_run : lookup_key_in_key_list iterator key t.keys ≡ some (address_of key ns)

  pub search :
      (key : K) (its : List Iterator) (ns : List (ℕ × Entry K V)) (t : Table K V)
      → Valid its ns t
      → Searched key its ns t
  unfolding table_iterator
  search key its ns t v =
      let index = hashing.hash key % length its in
      let size : length t.table ≡ length its = ap length v.table ∙ length-filled its in
      let below : index < length its = omega (arith, v.positive) in
      let (it, held) = its_at its index below in
      record {
        index = index;
        iterator = it;
        below = below;
        hashed = refl;
        index_run = ground (arith, size, v.positive);
        held = held;
        entry_run = ap (λ t. Vector.at t index) v.table ∙ (at-filled its index ∙ held);
        search_run =
            lookup-Grouped (length its) index key ns t.keys none it v.keys.chain v.placed refl
              (v.grouped index it held) (omega (arith, v.keys.counted));
      }

  -- `find` on a valid table gives the iterator that a linear search of all entries gives.
  pub find-address_of :
      (key : K) (its : List Iterator) (ns : List (ℕ × Entry K V)) (t : Table K V)
      → Valid its ns t
      → find key t ≡ some (address_of key ns)
  unfolding find
  find-address_of key its ns t v =
      let f = search key its ns t v in rw (f.index_run, f.entry_run, f.search_run) refl
