-- ===== src/HashTable.antt =====
-- Base/HashTable.hpp: a table of iterators into one list of all keys, in which the entries of one
-- table index stand together. A table iterator is the index that it points to.
pub mod Groups
pub mod Lookup
pub mod Entries
pub mod Insertion
pub mod Renewal
pub mod Removal
pub mod Contents
pub mod Assignment
pub mod Map
pub mod Updates
pub mod Runs
pub mod Ranges
use ziqe.Prelude.{
  ℕ, zero, suc, ◌%◌, List, [], ◌∷◌, Option, none, some, Bool, true, false, not, ◌==◌, ◌≡◌, ◌↔◌,
  if◌then◌else◌, length,
}
use ziqe.Prelude.Fallible.{◌>>=◌}
use ziqe.Vector
use ziqe.LinkedList
use ziqe.LinkedList.{Iterator, Node, Heap, State, same}

-- The template parameters `_Hash` and `_IsEqual`.
pub record Hashing {ℓ} (K : Type ℓ) : Type ℓ where
  pub hash : K → ℕ
  pub is_equal : K → K → Bool
  pub is_equal_iff : (a b : K) → (is_equal a b ≡ true) ↔ (a ≡ b)

-- `PairType`
pub record Entry {ℓ κ} (K : Type ℓ) (V : Type κ) : Type (ℓ ⊔ κ) where
  pub key : K
  pub content : V
  pub table_index : ℕ

-- `mTable` and `mKeysList`
pub record Table {ℓ κ} (K : Type ℓ) (V : Type κ) : Type (ℓ ⊔ κ) where
  pub table : List (Option Iterator)
  pub keys : State (Entry K V)

-- The constructor, on a heap `h`.
unfoldable pub new {ℓ κ} : {K : Type ℓ} {V : Type κ} → ℕ → Heap (Entry K V) → Table K V
new table_size h = record {
  table = Vector.resize table_size none none [];
  keys = record { heap = h; list = LinkedList.new };
}

module _ {ℓ κ} {K : Type ℓ} {V : Type κ} ⦃hashing : Hashing K⦄ where
  -- `getTableIterator (hash (key))`; a remainder by 0 is undefined
  unfoldable pub table_iterator : K → Table K V → Option ℕ
  table_iterator key t =
      if length t.table == 0 then none else some (hashing.hash key % length t.table)

  -- The loop of `lookupKeyInKeyList`, from the node at `p` on.
  unfoldable pub walk : ℕ → ℕ → ℕ → K → Heap (Entry K V) → Option Iterator
  walk zero p index key h = none
  walk (suc fuel) p index key h = h.cells p >>= λ n. elim (hashing.is_equal n.value.key key) [
    | true ↦ some (some p)
    | false ↦ elim n.next [
      | none ↦ some none
      | some q ↦ h.cells q >>= λ m. elim (m.value.table_index == index) [
        | true ↦ walk fuel q index key h
        | false ↦ some none
      ]
    ]
  ]

  -- `lookupKeyInKeyList`; the list has `size` nodes, which bounds the rounds of the loop
  unfoldable pub lookup_key_in_key_list : Iterator → K → State (Entry K V) → Option Iterator
  lookup_key_in_key_list none key s = some none
  lookup_key_in_key_list (some p) key s = do
    n ← s.heap.cells p
    walk s.list.size p n.value.table_index key s.heap

  -- `find`
  unfoldable pub find : K → Table K V → Option Iterator
  find key t = do
    index ← table_iterator key t
    it ← Vector.at t.table index
    lookup_key_in_key_list it key t.keys

  -- `isExist`, and `count` of a table without multiple keys
  unfoldable pub is_exist : K → Table K V → Option Bool
  is_exist key t = do it ← find key t; some (not (same it none))

  unfoldable pub count : K → Table K V → Option ℕ
  count key t = do exists ← is_exist key t; some (if exists then 1 else 0)

  unfoldable pub size : Table K V → ℕ
  size t = t.keys.list.size

  unfoldable pub is_empty : Table K V → Bool
  is_empty t = size t == 0

  -- `updateEraseFirstHashEntryTableEntry`
  unfoldable pub update_erase_first : ℕ → Iterator → Table K V → Option (Table K V)
  update_erase_first index none t = do
    table ← Vector.put t.table index none
    some (record t { table = table })
  update_erase_first index (some p) t = do
    n ← t.keys.heap.cells p
    table ← Vector.put t.table index (if n.value.table_index == index then some p else none)
    some (record t { table = table })

  -- `erase` of an iterator
  unfoldable pub erase_at : Iterator → Table K V → Option (Iterator × Table K V)
  erase_at none t = none
  erase_at (some p) t = do
    n ← t.keys.heap.cells p
    entry ← Vector.at t.table n.value.table_index
    (next_entry, keys) ← LinkedList.erase (some p) t.keys
    t' ←
        (if same entry (some p)
          then update_erase_first n.value.table_index next_entry (record t { keys = keys })
          else some (record t { keys = keys }))
    some (next_entry, t')

  -- One round of the loop of `erase (begin, end)`, at the entry at `p`: `first` is the table index
  -- whose first entry has been met, if `isAFirstEntryRemoved`.
  unfoldable pub note_entry : ℕ → Option ℕ → Table K V → Option (Option ℕ × Table K V)
  note_entry p none t = do
    n ← t.keys.heap.cells p
    entry ← Vector.at t.table n.value.table_index
    some (if same entry (some p) then some n.value.table_index else none, t)
  note_entry p (some i) t = t.keys.heap.cells p >>= λ n. elim (n.value.table_index == i) [
    | true ↦ some (some i, t)
    | false ↦ (do table ← Vector.put t.table i none; some (none, record t { table = table }))
  ]

  -- The loop, from the entry at `p` on.
  unfoldable pub note_range :
      ℕ → ℕ → Iterator → Option ℕ → Table K V → Option (Option ℕ × Table K V)
  note_range zero p end first t = none
  note_range (suc fuel) p end first t = do
    (first', t') ← note_entry p first t
    n ← t'.keys.heap.cells p
    if same n.next end
        then some (first', t')
        else elim n.next [ none ↦ none | some q ↦ note_range fuel q end first' t' ]

  -- `erase (begin, end)`; the list has `size` nodes, which bounds the rounds of the loop
  unfoldable pub erase_range : Iterator → Iterator → Table K V → Option (Table K V)
  erase_range none none t = some t
  erase_range none (some q) t = none
  erase_range (some p) end t = if same (some p) end then some t else do
    (first, t') ← note_range t.keys.list.size p end none t
    t'' ← elim first [ none ↦ some t' | some i ↦ update_erase_first i end t' ]
    keys ← LinkedList.erase_range (some p) end t''.keys
    some (record t'' { keys = keys })

  -- `erase` of a key
  unfoldable pub erase : K → Table K V → Option (Iterator × Table K V)
  erase key t =
      find key t >>= λ it. elim it [ none ↦ some (none, t) | some p ↦ erase_at (some p) t ]

  -- The second half of `insert`: a new entry behind the first of its table index, or at the end.
  unfoldable pub add_entry : K → V → ℕ → Iterator → Table K V → Option (Iterator × Table K V)
  add_entry key content index none t = do
    (it, keys) ←
        LinkedList.emplace_before none
          (record { key = key; content = content; table_index = index }) t.keys
    table ← Vector.put t.table index it
    some (it, record { table = table; keys = keys })
  add_entry key content index (some first) t = do
    n ← t.keys.heap.cells first
    (it, keys) ←
        LinkedList.emplace_before n.next
          (record { key = key; content = content; table_index = index }) t.keys
    some (it, record t { keys = keys })

  -- `insert`: whether an entry was added, and the iterator to the entry of the key
  unfoldable pub insert : K → V → Table K V → Option ((Bool × Iterator) × Table K V)
  insert key content t = do
    index ← table_iterator key t
    first ← Vector.at t.table index
    entry ← lookup_key_in_key_list first key t.keys
    elim entry [
      | some p ↦ some ((false, some p), t)
      | none ↦ (do (it, t') ← add_entry key content index first t; some ((true, it), t'))
    ]

  -- `second` of the entry at `p` set to `content`
  unfoldable pub set_content : ℕ → V → Table K V → Option (Table K V)
  set_content p content t = do
    n ← t.keys.heap.cells p
    some (record t {
      keys = record t.keys {
        heap =
            LinkedList.write p (some (record n { value = record n.value { content = content } }))
              t.keys.heap;
      };
    })

  -- `insertOrAssign`
  unfoldable pub insert_or_assign : K → V → Table K V → Option (Iterator × Table K V)
  insert_or_assign key content t = insert key content t >>= λ r. elim r.0.0 [
    | true ↦ some (r.0.1, r.1)
    | false ↦ elim r.0.1 [
      | none ↦ none
      | some p ↦ (do t' ← set_content p content r.1; some (some p, t'))
    ]
  ]

  -- `operator[]`, `d` being a value-initialised element: the address of the entry whose `second`
  -- is returned
  unfoldable pub entry_of : K → V → Table K V → Option (ℕ × Table K V)
  entry_of key d t = insert key d t >>= λ r. elim r.0.1 [ none ↦ none | some p ↦ some (p, r.1) ]
