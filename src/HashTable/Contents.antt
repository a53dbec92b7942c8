-- ===== src/HashTable/Contents.antt =====
-- The contents of the keys in the list of keys of Base/HashTable.hpp.
use mathlib.Core.Path.{subst}
use ziqe.Prelude.{
  ℕ, ◌≡◌, ◌≢◌, refl, sym, ◌∙◌, ap, List, [], ◌∷◌, ◌++◌, Option, none, some, false, if◌then◌else◌,
  Bool-cases, inl, inr, ◌⊎◌,
}
use ziqe.HashTable.{Hashing, Entry}
use ziqe.HashTable.Lookup.{Absent, Unique, address_of, differs}
use ziqe.HashTable.Entries.{unequal}

module _ {ℓ κ} {K : Type ℓ} {V : Type κ} ⦃hashing : Hashing K⦄ where
  -- The content of a key.
  unfoldable pub content_of : K → List (ℕ × Entry K V) → Option V
  content_of key [] = none
  content_of key ((p, e) ∷ ns) =
      if hashing.is_equal e.key key then some e.content else content_of key ns

  -- The map `f` with `c` at `key`, and without `key`.
  unfoldable pub update : K → V → (K → Option V) → K → Option V
  update key c f k = if hashing.is_equal key k then some c else f k

  unfoldable pub remove : K → (K → Option V) → K → Option V
  remove key f k = if hashing.is_equal key k then none else f k

  pub content_of-Absent :
      (key : K) (ns : List (ℕ × Entry K V)) → Absent key ns → content_of key ns ≡ none
  unfolding content_of
  content_of-Absent key [] absent = refl
  content_of-Absent key ((p, e) ∷ ns) absent =
      rw (differs e.key key absent.0) (content_of-Absent key ns absent.1)

  Absent-middle :
      (k : K) (p : ℕ) (e : Entry K V) (ms ns : List (ℕ × Entry K V))
      → Absent k (ms ++ (p, e) ∷ ns)
      → e.key ≢ k
  Absent-middle k p e [] ns absent = absent.0
  Absent-middle k p e ((r, c) ∷ ms) ns absent = Absent-middle k p e ms ns absent.1

  pub Unique-Absent :
      (ms : List (ℕ × Entry K V)) (p : ℕ) (e : Entry K V) (ns : List (ℕ × Entry K V))
      → Unique (ms ++ (p, e) ∷ ns)
      → Absent e.key (ms ++ ns)
  Unique-Absent [] p e ns unique = unique.0
  Unique-Absent ((r, c) ∷ ms) p e ns unique =
      (λ eq. Absent-middle c.key p e ms ns unique.0 (sym eq), Unique-Absent ms p e ns unique.1)

  -- An entry of a key that no other entry has updates the contents.
  pub content_of-middle :
      (k : K) (ms : List (ℕ × Entry K V)) (q : ℕ) (e : Entry K V) (ns : List (ℕ × Entry K V))
      → Absent e.key (ms ++ ns)
      → content_of k (ms ++ (q, e) ∷ ns) ≡ update e.key e.content (λ j. content_of j (ms ++ ns)) k
  unfolding content_of update
  content_of-middle k [] q e ns absent = refl
  content_of-middle k ((r, c) ∷ ms) q e ns absent = elim (Bool-cases (hashing.is_equal c.key k)) [
    | inl eq ↦
        let other : hashing.is_equal e.key k ≡ false =
          differs e.key k (λ same. absent.0 ((hashing.is_equal_iff c.key k).0 eq ∙ sym same)) in
        rw (eq, other) refl
    | inr ne ↦ rw ne (content_of-middle k ms q e ns absent.1)
  ]

  -- Taking the entry out removes its key.
  pub content_of-delete :
      (k : K) (ms : List (ℕ × Entry K V)) (q : ℕ) (e : Entry K V) (ns : List (ℕ × Entry K V))
      → Absent e.key (ms ++ ns)
      → content_of k (ms ++ ns) ≡ remove e.key (λ j. content_of j (ms ++ (q, e) ∷ ns)) k
  unfolding update remove
  content_of-delete k ms q e ns absent = elim (Bool-cases (hashing.is_equal e.key k)) [
    | inl eq ↦ rw eq (
        content_of-Absent k (ms ++ ns)
          (subst (λ j. Absent j (ms ++ ns)) ((hashing.is_equal_iff e.key k).0 eq) absent))
    | inr ne ↦ let whole = content_of-middle k ms q e ns absent in rw ne (sym (rw ne at whole))
  ]

  -- Assigning the content of the entry updates its key.
  pub content_of-assign :
      (k : K) (ms : List (ℕ × Entry K V)) (q : ℕ) (e : Entry K V) (c : V)
      (ns : List (ℕ × Entry K V))
      → Absent e.key (ms ++ ns)
      → content_of k (ms ++ (q, record e { content = c }) ∷ ns)
        ≡ update e.key c (λ j. content_of j (ms ++ (q, e) ∷ ns)) k
  unfolding update
  content_of-assign k ms q e c ns absent =
      let new = content_of-middle k ms q (record e { content = c }) ns absent in
      let old = content_of-middle k ms q e ns absent in
      elim (Bool-cases (hashing.is_equal e.key k)) [
        | inl eq ↦ rw eq (rw eq at new)
        | inr ne ↦ rw ne ((rw ne at new) ∙ sym (rw ne at old))
      ]

  -- Removing a key that the map does not have.
  pub remove_nothing : (key : K) (f : K → Option V) → f key ≡ none → (k : K) → f k ≡ remove key f k
  unfolding remove
  remove_nothing key f nothing k = elim (Bool-cases (hashing.is_equal key k)) [
    | inl eq ↦ rw eq (ap f (sym ((hashing.is_equal_iff key k).0 eq)) ∙ nothing)
    | inr ne ↦ rw ne refl
  ]

  -- The entry of a key in a list.
  pub record Located (key : K) (ns : List (ℕ × Entry K V)) : Type (ℓ ⊔ κ) where
    pub front : List (ℕ × Entry K V)
    pub address : ℕ
    pub entry : Entry K V
    pub back : List (ℕ × Entry K V)
    pub whole : ns ≡ front ++ (address, entry) ∷ back
    pub keyed : entry.key ≡ key
    pub addressed : address_of key ns ≡ some address
    pub holds : content_of key ns ≡ some entry.content

  pub locate :
      (key : K) (ns : List (ℕ × Entry K V))
      → ((address_of key ns ≡ none) × Absent key ns) ⊎ Located key ns
  unfolding address_of content_of
  locate key [] = inl (refl, tt)
  locate key ((p, e) ∷ ns) = elim (Bool-cases (hashing.is_equal e.key key)) [
    | inl eq ↦ inr (record {
      front = [];
      address = p;
      entry = e;
      back = ns;
      whole = refl;
      keyed = (hashing.is_equal_iff e.key key).0 eq;
      addressed = rw eq refl;
      holds = rw eq refl;
    })
    | inr ne ↦ elim (locate key ns) [
      | inl (nowhere, absent) ↦ inl (rw ne nowhere, (unequal e.key key ne, absent))
      | inr l ↦ inr (record {
        front = (p, e) ∷ l.front;
        address = l.address;
        entry = l.entry;
        back = l.back;
        whole = ap (λ t. (p, e) ∷ t) l.whole;
        keyed = l.keyed;
        addressed = rw ne l.addressed;
        holds = rw ne l.holds;
      })
    ]
  ]

  -- The contents of the other entries are the map without the key.
  pub content_of-Located :
      (key : K) (f : K → Option V) (ns : List (ℕ × Entry K V)) (l : Located key ns)
      → Unique ns
      → ((k : K) → content_of k ns ≡ f k)
      → (k : K) → content_of k (l.front ++ l.back) ≡ remove key f k
  unfolding remove
  content_of-Located key f ns l unique agrees k =
      let absent = Unique-Absent l.front l.address l.entry l.back (subst Unique l.whole unique) in
      content_of-delete k l.front l.address l.entry l.back absent
      ∙ (ap (λ j. remove j (λ i. content_of i (l.front ++ (l.address, l.entry) ∷ l.back)) k) l.keyed
          ∙ ap (λ o. if hashing.is_equal key k then none else o)
              (ap (content_of k) (sym l.whole) ∙ agrees k))

  -- A key that no entry has is nowhere.
  pub address_of-Absent :
      (key : K) (ns : List (ℕ × Entry K V)) → Absent key ns → address_of key ns ≡ none
  unfolding address_of
  address_of-Absent key [] absent = refl
  address_of-Absent key ((p, e) ∷ ns) absent =
      rw (differs e.key key absent.0) (address_of-Absent key ns absent.1)
