-- ===== src/HashTable/Map.antt =====
-- Base/HashTable.hpp as a map from keys to contents.
use mathlib.Core.Path.{subst}
use ziqe.Prelude.{
  ℕ, ◌+◌, ◌<◌, ◌≡◌, refl, sym, ◌∙◌, ap, List, ◌∷◌, ◌++◌, Option, none, some, Bool, true, false,
  if◌then◌else◌, inl, inr, arith, length, length-append,
}
use ziqe.Prelude.Fallible.{◌>>=◌, Returns}
use ziqe.Vector.{size_mod}
use ziqe.LinkedList
use ziqe.LinkedList.{Iterator, same}
use ziqe.LinkedList.Sequence.{node_at}
use ziqe.HashTable.{Hashing, Entry, Table, find, is_exist, count, size, insert}
use ziqe.HashTable.Lookup.{Absent, Valid, address_of, search, find-address_of}
use ziqe.HashTable.Insertion.{Grown, add_entry-Grown}
use ziqe.HashTable.Contents.{
  content_of, update, content_of-Absent, content_of-middle, Located, locate,
}

module _ {ℓ κ} {K : Type ℓ} {V : Type κ} ⦃hashing : Hashing K⦄ where
  -- The table is valid, and its entries hold the contents that the map `f` gives.
  pub record Holds (f : K → Option V) (t : Table K V) : Type (ℓ ⊔ κ) where
    pub its : List Iterator
    pub ns : List (ℕ × Entry K V)
    pub valid : Valid its ns t
    pub agrees : (k : K) → content_of k ns ≡ f k

  -- An iterator to an entry of the table with the key and the content, and to none of them.
  abbrev pub Finds : K → Option V → Iterator → Table K V → Type (ℓ ⊔ κ)
  Finds key none it t = (it ≡ none) × Unit {ℓ ⊔ κ}
  Finds key (some c) it t =
      (e : Entry K V) × (LinkedList.value_at it t.keys.heap ≡ some e)
      × (e.key ≡ key)
      × (e.content ≡ c)

  pub value_at-Finds :
      (key : K) (c : V) (its : List Iterator) (ms : List (ℕ × Entry K V)) (p : ℕ) (e : Entry K V)
      (ns : List (ℕ × Entry K V)) (t : Table K V)
      → Valid its (ms ++ (p, e) ∷ ns) t
      → e.key ≡ key
      → e.content ≡ c
      → Finds key (some c) (some p) t
  unfolding LinkedList.value_at
  value_at-Finds key c its ms p e ns t v keyed holds =
      (e, rw (node_at ms p e ns t.keys v.keys) refl, keyed, holds)

  pub locate-Finds :
      (key : K) (f : K → Option V) (t : Table K V) (h : Holds f t) (l : Located key h.ns)
      → Finds key (some l.entry.content) (some l.address) t
  locate-Finds key f t h l =
      value_at-Finds key l.entry.content h.its l.front l.address l.entry l.back t
        (subst (λ s. Valid h.its s t) l.whole h.valid) l.keyed refl

  -- `find` on a table that holds a map ends in the iterator to the entry of the key, or in the end
  -- where the map has nothing at the key.
  pub find-Holds :
      (key : K) (f : K → Option V) (t : Table K V)
      → Holds f t
      → Returns (find key t) (λ it. Finds key (f key) it t)
  find-Holds key f t h =
      let run = find-address_of key h.its h.ns t h.valid in
      elim (locate key h.ns) [
        | inl (nowhere, absent) ↦ (
          none,
          run ∙ ap some nowhere,
          subst (λ o. Finds key o none t) (sym (content_of-Absent key h.ns absent) ∙ h.agrees key)
              (refl, tt),
        )
        | inr l ↦ (
          some l.address,
          run ∙ ap some l.addressed,
          subst (λ o. Finds key o (some l.address) t) (sym l.holds ∙ h.agrees key)
              (locate-Finds key f t h l),
        )
      ]

  -- `isExist` and `count` say whether the map has something at the key.
  pub count-Holds :
      (key : K) (f : K → Option V) (t : Table K V)
      → Holds f t
      → (is_exist key t ≡ some (elim (f key) [ none ↦ false | some c ↦ true ]))
        × (count key t ≡ some (elim (f key) [ none ↦ 0 | some c ↦ 1 ]))
  unfolding is_exist count
  count-Holds key f t h =
      let run = find-address_of key h.its h.ns t h.valid in
      elim (locate key h.ns) [
        | inl (nowhere, absent) ↦
            let at = sym (h.agrees key) ∙ content_of-Absent key h.ns absent in
            (rw (run, nowhere, ◌>>=◌, at) refl, rw (run, nowhere, ◌>>=◌, at) refl)
        | inr l ↦
            let at = sym (h.agrees key) ∙ l.holds in
            (rw (run, l.addressed, ◌>>=◌, at) refl, rw (run, l.addressed, ◌>>=◌, at) refl)
      ]

  pub Grown-Holds :
      (key : K) (c : V) (index : ℕ) (f : K → Option V) (t : Table K V) (h : Holds f t)
      (r : Iterator × Table K V)
      → Absent key h.ns
      → Grown key c index h.ns r
      → Finds key (some c) r.0 r.1 × Holds (update key c f) r.1 × (size r.1 ≡ size t + 1)
  unfolding update size
  Grown-Holds key c index f t h r absent g =
      let e : Entry K V = record { key = key; content = c; table_index = index } in
      let absent' = subst (Absent key) g.whole absent in
      (
        subst (λ it. Finds key (some c) it r.1) (sym g.fresh_iterator)
            (value_at-Finds key c g.its g.front g.fresh e g.back r.1 g.valid refl refl),
        record {
          its = g.its;
          ns = g.front ++ (g.fresh, e) ∷ g.back;
          valid = g.valid;
          agrees = λ k.
              content_of-middle k g.front g.fresh e g.back absent'
              ∙ ap (λ o. if hashing.is_equal key k then some c else o)
                  (ap (content_of k) (sym g.whole) ∙ h.agrees k);
        },
        omega (
          arith,
          h.valid.keys.counted,
          g.valid.keys.counted,
          ap length g.whole,
          length-append g.front g.back,
          length-append g.front ((g.fresh, e) ∷ g.back),
        ),
      )

  pub insert-Absent :
      (key : K) (c : V) (its : List Iterator) (ns : List (ℕ × Entry K V)) (t : Table K V)
      → Valid its ns t
      → address_of key ns ≡ none
      → Absent key ns
      → length ns + 1 < size_mod
      → (index : ℕ) × Returns
          (insert key c t)
          (λ r. (r.0.0 ≡ true) × Grown key c index ns (r.0.1, r.1))
  unfolding insert
  insert-Absent key c its ns t v nowhere absent room =
      let s = search key its ns t v in
      let (r, run, grown) =
        add_entry-Grown key c s.index its ns t s.iterator
          (record { valid = v; hashed = s.hashed; below = s.below; absent = absent; room = room })
          s.held in
      (
        s.index,
        (
          ((true, r.0), r.1),
          rw (s.index_run, ◌>>=◌, s.entry_run, ◌>>=◌, s.search_run, ◌>>=◌, nowhere, run) refl,
          (refl, grown),
        ),
      )

  pub insert_present :
      (key : K) (c : V) (its : List Iterator) (ns : List (ℕ × Entry K V)) (t : Table K V) (p : ℕ)
      → Valid its ns t
      → address_of key ns ≡ some p
      → insert key c t ≡ some ((false, some p), t)
  unfolding insert
  insert_present key c its ns t p v at =
      let s = search key its ns t v in
      rw (s.index_run, ◌>>=◌, s.entry_run, ◌>>=◌, s.search_run, ◌>>=◌, at) refl

  -- What `insert` ends in: a new entry where the map has nothing at the key, and else no change and
  -- the iterator to the entry with the key.
  abbrev pub Inserted :
      K → V → (K → Option V) → Table K V → Option V → (Bool × Iterator) × Table K V → Type (ℓ ⊔ κ)
  Inserted key c f t none r =
      (r.0.0 ≡ true)
      × Finds key (some c) r.0.1 r.1
      × Holds (update key c f) r.1
      × (size r.1 ≡ size t + 1)
  Inserted key c f t (some d) r = (r.0.0 ≡ false) × Finds key (some d) r.0.1 r.1 × (r.1 ≡ t)

  -- `insert` on a table that holds a map and has fewer than `2 ^ 64 - 1` entries returns without
  -- undefined behaviour. Where the map has nothing at the key, it adds an entry, and the table holds
  -- the updated map; where it has something, the table is unchanged and the old entry is returned.
  pub insert-Holds :
      (key : K) (c : V) (f : K → Option V) (t : Table K V)
      → Holds f t
      → size t + 1 < size_mod
      → Returns (insert key c t) (Inserted key c f t (f key))
  unfolding size
  insert-Holds key c f t h room = elim (locate key h.ns) [
    | inl (nowhere, absent) ↦
        let (index, (r, run, made)) =
          insert-Absent key c h.its h.ns t h.valid nowhere absent
            (omega (arith, room, h.valid.keys.counted)) in
        let g = Grown-Holds key c index f t h (r.0.1, r.1) absent made.1 in
        (
          r,
          run,
          subst (λ o. Inserted key c f t o r)
              (sym (content_of-Absent key h.ns absent) ∙ h.agrees key) (made.0, g.0, g.1, g.2),
        )
    | inr l ↦ (
      ((false, some l.address), t),
      insert_present key c h.its h.ns t l.address h.valid l.addressed,
      subst (λ o. Inserted key c f t o ((false, some l.address), t)) (sym l.holds ∙ h.agrees key)
          (refl, locate-Finds key f t h l, refl),
    )
  ]
