-- ===== src/HashTable/Entries.antt =====
-- The keys and the table indices of the entries of Base/HashTable.hpp around one that enters or leaves.
use ziqe.Prelude.{
  ℕ, zero, suc, ◌%◌, ◌<◌, ◌≡◌, ◌≢◌, refl, sym, ap, List, [], ◌∷◌, ◌++◌, none, some, false, length,
  get_elem?, set, ◌==◌, ==_iff, Bool-cases, inl, inr, ◌⊎◌, arith,
}
use ziqe.HashTable.{Hashing, Entry}
use ziqe.HashTable.Lookup.{Placed, Absent, Unique, address_of}

pub some_injective {ℓ} : {A : Type ℓ} (a b : A) → some a ≡ some b → a ≡ b
some_injective a b e = ap (λ o. elim o [ none ↦ a | some x ↦ x ]) e

pub get_elem?-set_same {ℓ} :
    {A : Type ℓ} (xs : List A) (i : ℕ) (x : A) → i < length xs → get_elem? (set xs i x) i ≡ some x
get_elem?-set_same [] i x h = absurd (omega arith)
get_elem?-set_same (y ∷ xs) zero x h = refl
get_elem?-set_same (y ∷ xs) (suc i) x h = get_elem?-set_same xs i x (omega arith)

pub get_elem?-set_other {ℓ} :
    {A : Type ℓ} (xs : List A) (i j : ℕ) (x : A) → j ≢ i → get_elem? (set xs i x) j ≡ get_elem? xs j
get_elem?-set_other [] i j x apart = refl
get_elem?-set_other (y ∷ xs) zero zero x apart = absurd (apart refl)
get_elem?-set_other (y ∷ xs) zero (suc j) x apart = refl
get_elem?-set_other (y ∷ xs) (suc i) zero x apart = refl
get_elem?-set_other (y ∷ xs) (suc i) (suc j) x apart =
    get_elem?-set_other xs i j x (λ e. apart (ap suc e))

pub index_cases : (j i : ℕ) → (j ≡ i) ⊎ (j ≢ i)
index_cases j i = elim (Bool-cases (j == i)) [
  | inl eq ↦ inl ((==_iff j i).0 eq)
  | inr ne ↦ inr (λ e. ground (arith, ne, e))
]

pub some-none {ℓ} : {A : Type ℓ} (a : A) → some a ≢ none
some-none a e = ground (arith, e)

pub unequal {ℓ} :
    {K : Type ℓ} ⦃hashing : Hashing K⦄ (a b : K) → hashing.is_equal a b ≡ false → a ≢ b
unequal ⦃hashing⦄ a b ne eq = ground (arith, ne, (hashing.is_equal_iff a b).1 eq)

module _ {ℓ κ} {K : Type ℓ} {V : Type κ} ⦃hashing : Hashing K⦄ where
  pub Absent-insert :
      (k : K) (q : ℕ) (e : Entry K V) (ms ns : List (ℕ × Entry K V))
      → e.key ≢ k
      → Absent k (ms ++ ns)
      → Absent k (ms ++ (q, e) ∷ ns)
  Absent-insert k q e [] ns apart absent = (apart, absent)
  Absent-insert k q e ((p, d) ∷ ms) ns apart absent =
      (absent.0, Absent-insert k q e ms ns apart absent.1)

  pub Unique-insert :
      (q : ℕ) (e : Entry K V) (ms ns : List (ℕ × Entry K V))
      → Absent e.key (ms ++ ns)
      → Unique (ms ++ ns)
      → Unique (ms ++ (q, e) ∷ ns)
  Unique-insert q e [] ns absent unique = (absent, unique)
  Unique-insert q e ((p, d) ∷ ms) ns absent unique = (
    Absent-insert d.key q e ms ns (λ eq. absent.0 (sym eq)) unique.0,
    Unique-insert q e ms ns absent.1 unique.1,
  )

  pub Placed-insert :
      (size q : ℕ) (e : Entry K V) (ms ns : List (ℕ × Entry K V))
      → e.table_index ≡ hashing.hash e.key % size
      → Placed size (ms ++ ns)
      → Placed size (ms ++ (q, e) ∷ ns)
  Placed-insert size q e [] ns here placed = (here, placed)
  Placed-insert size q e ((p, d) ∷ ms) ns here placed =
      (placed.0, Placed-insert size q e ms ns here placed.1)

  -- A search that ends nowhere has passed no entry with the key.
  pub none-Absent : (key : K) (ns : List (ℕ × Entry K V)) → address_of key ns ≡ none → Absent key ns
  unfolding address_of
  none-Absent key [] e = tt
  none-Absent key ((p, d) ∷ ns) e = elim (Bool-cases (hashing.is_equal d.key key)) [
    | inl eq ↦ absurd (some-none p (rw eq at e))
    | inr ne ↦ (unequal d.key key ne, none-Absent key ns (rw ne at e))
  ]

  Absent-delete :
      (k : K) (p : ℕ) (e : Entry K V) (ms ns : List (ℕ × Entry K V))
      → Absent k (ms ++ (p, e) ∷ ns)
      → Absent k (ms ++ ns)
  Absent-delete k p e [] ns absent = absent.1
  Absent-delete k p e ((r, c) ∷ ms) ns absent = (absent.0, Absent-delete k p e ms ns absent.1)

  pub Unique-delete :
      (p : ℕ) (e : Entry K V) (ms ns : List (ℕ × Entry K V))
      → Unique (ms ++ (p, e) ∷ ns)
      → Unique (ms ++ ns)
  Unique-delete p e [] ns unique = unique.1
  Unique-delete p e ((r, c) ∷ ms) ns unique =
      (Absent-delete c.key p e ms ns unique.0, Unique-delete p e ms ns unique.1)

  pub Placed-delete :
      (size p : ℕ) (e : Entry K V) (ms ns : List (ℕ × Entry K V))
      → Placed size (ms ++ (p, e) ∷ ns)
      → Placed size (ms ++ ns)
  Placed-delete size p e [] ns placed = placed.1
  Placed-delete size p e ((r, c) ∷ ms) ns placed = (placed.0, Placed-delete size p e ms ns placed.1)

  pub Placed-at :
      (size p : ℕ) (e : Entry K V) (ms ns : List (ℕ × Entry K V))
      → Placed size (ms ++ (p, e) ∷ ns)
      → e.table_index ≡ hashing.hash e.key % size
  Placed-at size p e [] ns placed = placed.0
  Placed-at size p e ((r, c) ∷ ms) ns placed = Placed-at size p e ms ns placed.1
