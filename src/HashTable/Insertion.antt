-- ===== src/HashTable/Insertion.antt =====
-- How a new entry enters the table and the list of keys of Base/HashTable.hpp.
use mathlib.Core.Path.{subst}
use ziqe.Prelude.{
  ℕ, ◌+◌, ◌%◌, ◌<◌, ◌≡◌, refl, sym, ◌∙◌, List, [], ◌∷◌, ◌++◌, none, some, length, get_elem?, set,
  inl, inr, arith, length-append, snoc_append, append_nil, length-set,
}
use ziqe.Prelude.Fallible.{◌>>=◌, Returns}
use ziqe.Vector
use ziqe.Vector.{size_mod}
use ziqe.Vector.Elements.{filled, put-filled}
use ziqe.LinkedList.{Iterator, State}
use ziqe.LinkedList.Sequence.{Represents, node_at}
use ziqe.LinkedList.Erasure.{emplace_before-Represents}
use ziqe.HashTable.{Hashing, Entry, Table, add_entry}
use ziqe.HashTable.Groups.{
  Past, inside_more, inside_end, Grouped, Grouped-Past, First, Grouped-First, First-Grouped,
  Grouped-insert, Grouped-snoc,
}
use ziqe.HashTable.Lookup.{Placed, Absent, Valid}
use ziqe.HashTable.Entries.{
  some_injective, get_elem?-set_same, get_elem?-set_other, index_cases, Unique-insert,
  Placed-insert,
}

module _ {ℓ κ} {K : Type ℓ} {V : Type κ} ⦃hashing : Hashing K⦄ where
  -- What is known of a table before the entry of an absent key is added.
  pub record Lacks (key : K) (index : ℕ) (its : List Iterator) (ns : List (ℕ × Entry K V))
      (t : Table K V) : Type (ℓ ⊔ κ) where
    pub valid : Valid its ns t
    pub hashed : hashing.hash key % length its ≡ index
    pub below : index < length its
    pub absent : Absent key ns
    pub room : length ns + 1 < size_mod

  -- A table to which the entry has been added, at some place of the list.
  pub record Grown (key : K) (content : V) (index : ℕ) (ns : List (ℕ × Entry K V))
      (r : Iterator × Table K V) : Type (ℓ ⊔ κ) where
    pub front : List (ℕ × Entry K V)
    pub back : List (ℕ × Entry K V)
    pub whole : ns ≡ front ++ back
    pub its : List Iterator
    pub fresh : ℕ
    pub fresh_iterator : r.0 ≡ some fresh
    pub valid :
        Valid its
          (front ++ (fresh, record { key = key; content = content; table_index = index }) ∷ back)
          r.1

  grow :
      (key : K) (content : V) (index : ℕ) (its : List Iterator) (ms ns : List (ℕ × Entry K V))
      (t : Table K V)
      → Lacks key index its (ms ++ ns) t
      → (its' : List Iterator) (q : ℕ) (keys : State (Entry K V)) → length its' ≡ length its
      → Represents
          (ms ++ (q, record { key = key; content = content; table_index = index }) ∷ ns)
          keys
      → ((i : ℕ) (it : Iterator)
          → get_elem? its' i ≡ some it
          → Grouped i
              (ms ++ (q, record { key = key; content = content; table_index = index }) ∷ ns)
              it)
      → Valid its'
          (ms ++ (q, record { key = key; content = content; table_index = index }) ∷ ns)
          (record { table = filled its'; keys = keys })
  grow key content index its ms ns t l its' q keys size represents grouped =
      let e : Entry K V = record { key = key; content = content; table_index = index } in
      record {
        table = refl;
        positive = omega (arith, size, l.valid.positive);
        keys = represents;
        placed =
            subst (λ n. Placed n (ms ++ (q, e) ∷ ns)) (sym size)
              (Placed-insert (length its) q e ms ns (sym l.hashed) l.valid.placed);
        unique = Unique-insert q e ms ns l.absent l.valid.unique;
        grouped = grouped;
        small = omega (arith, l.room, length-append ms ns, length-append ms ((q, e) ∷ ns));
      }

  Grouped-at_end :
      (key : K) (content : V) (index : ℕ) (its : List Iterator) (ns : List (ℕ × Entry K V))
      (t : Table K V)
      → Lacks key index its ns t
      → get_elem? its index ≡ some none
      → (q i : ℕ) (it : Iterator) → get_elem? (set its index (some q)) i ≡ some it
      → Grouped i (ns ++ (q, record { key = key; content = content; table_index = index }) ∷ []) it
  Grouped-at_end key content index its ns t l held q i it found =
      let e : Entry K V = record { key = key; content = content; table_index = index } in
      elim (index_cases i index) [
        | inl same ↦
            let there =
              subst (λ j. get_elem? (set its index (some q)) j ≡ some (some q)) (sym same)
                (get_elem?-set_same its index (some q) l.below) in
            let past =
              subst (λ j. Past j ns) (sym same)
                (Grouped-Past index ns (l.valid.grouped index none held)) in
            subst (Grouped i (ns ++ (q, e) ∷ [])) (some_injective (some q) it (sym there ∙ found))
              (First-Grouped i q e ns [] past (sym same) inside_end)
        | inr apart ↦
            Grouped-snoc i q e ns it (λ eq. apart (sym eq))
              (l.valid.grouped i it (sym (get_elem?-set_other its index i (some q) apart) ∙ found))
      ]

  Grouped-behind :
      (key : K) (content : V) (index p : ℕ) (its : List Iterator) (ns : List (ℕ × Entry K V))
      (t : Table K V)
      → Lacks key index its ns t
      → get_elem? its index ≡ some (some p)
      → (f : First index p ns) → (q i : ℕ) (it : Iterator) → get_elem? its i ≡ some it
      → Grouped i
          (f.front
            ++ (p, f.entry)
              ∷ (q, record { key = key; content = content; table_index = index })
              ∷ f.back)
          it
  Grouped-behind key content index p its ns t l held f q i it found =
      let e : Entry K V = record { key = key; content = content; table_index = index } in
      elim (index_cases i index) [
        | inl same ↦
            let there = subst (λ j. get_elem? its j ≡ some (some p)) (sym same) held in
            subst (λ j. Grouped j (f.front ++ (p, f.entry) ∷ (q, e) ∷ f.back) it) (sym same)
              (subst (Grouped index (f.front ++ (p, f.entry) ∷ (q, e) ∷ f.back))
                (some_injective (some p) it (sym there ∙ found))
                (First-Grouped index p f.entry f.front ((q, e) ∷ f.back) f.clear f.indexed
                  (inside_more q e f.back refl f.group)))
        | inr apart ↦
            Grouped-insert i p q f.entry e f.front f.back it (λ eq. apart (sym eq ∙ f.indexed))
              (λ eq. apart (sym eq))
              (subst (λ t. Grouped i t it) f.whole (l.valid.grouped i it found))
      ]

  -- Adding the entry of an absent key to a table with room.
  pub add_entry-Grown :
      (key : K) (content : V) (index : ℕ) (its : List Iterator) (ns : List (ℕ × Entry K V))
      (t : Table K V) (it : Iterator)
      → Lacks key index its ns t
      → get_elem? its index ≡ some it
      → Returns (add_entry key content index it t) (Grown key content index ns)
  unfolding add_entry
  add_entry-Grown key content index its ns t none l held =
      let e : Entry K V = record { key = key; content = content; table_index = index } in
      let q = t.keys.heap.next_free in
      let (r, run, made) =
        emplace_before-Represents e ns [] t.keys
          (subst (λ s. Represents s t.keys) (sym (append_nil ns)) l.valid.keys)
          (omega (arith, l.room)) in
      let table' : Vector.put t.table index r.0 ≡ some (filled (set its index (some q))) =
        subst (λ v. Vector.put v index r.0 ≡ some (filled (set its index (some q))))
          (sym l.valid.table)
          (subst (λ x. Vector.put (filled its) index x ≡ some (filled (set its index (some q))))
            (sym made.0) (put-filled its index (some q) l.below)) in
      let l' = subst (λ s. Lacks key index its s t) (sym (append_nil ns)) l in
      (
        (r.0, record { table = filled (set its index (some q)); keys = r.1 }),
        rw (run, ◌>>=◌, table') refl,
        record {
          front = ns;
          back = [];
          whole = sym (append_nil ns);
          its = set its index (some q);
          fresh = q;
          fresh_iterator = made.0;
          valid =
              grow key content index its ns [] t l' (set its index (some q)) q r.1
                (length-set its index (some q)) made.1
                (Grouped-at_end key content index its ns t l held q);
        },
      )
  add_entry-Grown key content index its ns t (some p) l held =
      let e : Entry K V = record { key = key; content = content; table_index = index } in
      let q = t.keys.heap.next_free in
      let f = Grouped-First index p ns (l.valid.grouped index (some p) held) in
      let front = f.front ++ (p, f.entry) ∷ [] in
      let whole : ns ≡ front ++ f.back = f.whole ∙ sym (snoc_append f.front (p, f.entry) f.back) in
      let l' = subst (λ s. Lacks key index its s t) whole l in
      let node =
        node_at f.front p f.entry f.back t.keys
          (subst (λ s. Represents s t.keys) f.whole l.valid.keys) in
      let (r, run, made) =
        emplace_before-Represents e front f.back t.keys l'.valid.keys
          (omega (arith, l'.room, length-append front f.back)) in
      (
        (r.0, record t { keys = r.1 }),
        rw (node, ◌>>=◌, run) refl,
        record {
          front = front;
          back = f.back;
          whole = whole;
          its = its;
          fresh = q;
          fresh_iterator = made.0;
          valid =
              subst (λ v. Valid its (front ++ (q, e) ∷ f.back) (record { table = v; keys = r.1 }))
                (sym l.valid.table)
                (grow key content index its front f.back t l' its q r.1 refl made.1 (λ i it found.
                  subst (λ s. Grouped i s it)
                    (sym (snoc_append f.front (p, f.entry) ((q, e) ∷ f.back)))
                    (Grouped-behind key content index p its ns t l held f q i it found)));
        },
      )
