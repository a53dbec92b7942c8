-- ===== src/LinkedList/Cells.antt =====
-- Chains of linked nodes on the heap of Base/LinkedList.hpp, and how writing one cell changes them.
use ziqe.Prelude.{
  ℕ, suc, ◌≤◌, ◌<◌, ◌≡◌, ◌≢◌, refl, ◌∙◌, List, [], ◌∷◌, Option, some, ◌==◌, ==_iff, arith,
  Bool-cases, inl, inr,
}
use ziqe.LinkedList.{Iterator, Node, Heap, write, allocate}

-- The first and the last address of a chain, and what is there when it is empty.
abbrev pub first {ℓ} : {A : Type ℓ} → List (ℕ × A) → Iterator → Iterator
first [] at_end = at_end
first ((p, x) ∷ ns) at_end = some p

abbrev pub last {ℓ} : {A : Type ℓ} → Iterator → List (ℕ × A) → Iterator
last before [] = before
last before ((p, x) ∷ ns) = last (some p) ns

-- The nodes `ns`, addresses with values, are linked in order between `before` and `behind`.
abbrev pub Linked {ℓ} : {A : Type ℓ} → Heap A → Iterator → List (ℕ × A) → Iterator → Type ℓ
Linked h before [] behind = Unit
Linked h before ((p, x) ∷ ns) behind =
    (h.cells p ≡ some (record { previous = before; next = first ns behind; value = x }))
    × (p < h.next_free)
    × Linked h (some p) ns behind

-- The address `p` is not one of the chain's.
abbrev pub Outside {ℓ} : {A : Type ℓ} → ℕ → List (ℕ × A) → Type 0
Outside p [] = Unit
Outside p ((q, x) ∷ ns) = (q ≢ p) × Outside p ns

abbrev pub Distinct {ℓ} : {A : Type ℓ} → List (ℕ × A) → Type 0
Distinct [] = Unit
Distinct ((p, x) ∷ ns) = Outside p ns × Distinct ns

module _ {ℓ} {A : Type ℓ} where
  pub write_other :
      (p q : ℕ) (n : Option (Node A)) (h : Heap A) → q ≢ p → (write p n h).cells q ≡ h.cells q
  unfolding write
  write_other p q n h apart = elim (Bool-cases (q == p)) [
    | inl eq ↦ absurd (apart ((==_iff q p).0 eq))
    | inr ne ↦ rw ne refl
  ]

  pub write_same : (p : ℕ) (n : Option (Node A)) (h : Heap A) → (write p n h).cells p ≡ n
  unfolding write
  write_same p n h = rw (==_iff p p).1 refl

  pub next_free-write :
      (p : ℕ) (n : Option (Node A)) (h : Heap A) → (write p n h).next_free ≡ h.next_free
  unfolding write
  next_free-write p n h = refl

  -- Writing outside of a chain leaves it linked.
  pub Linked-write :
      (p : ℕ) (n : Option (Node A)) (h : Heap A) (before behind : Iterator) (ns : List (ℕ × A))
      → Outside p ns
      → Linked h before ns behind
      → Linked (write p n h) before ns behind
  unfolding write
  Linked-write p n h before behind [] out chain = tt
  Linked-write p n h before behind ((q, x) ∷ ns) out chain = (
    write_other p q n h out.0 ∙ chain.0,
    chain.1,
    Linked-write p n h (some q) behind ns out.1 chain.2,
  )

  -- A fresh cell is outside of every chain.
  pub Linked-Outside :
      (h : Heap A) (before behind : Iterator) (ns : List (ℕ × A))
      → Linked h before ns behind
      → Outside h.next_free ns
  Linked-Outside h before behind [] chain = tt
  Linked-Outside h before behind ((q, x) ∷ ns) chain =
      (λ e. omega (arith, e, chain.1), Linked-Outside h (some q) behind ns chain.2)

  grow :
      (h h' : Heap A) (before behind : Iterator) (ns : List (ℕ × A))
      → ((q : ℕ) → q < h.next_free → h'.cells q ≡ h.cells q)
      → h.next_free ≤ h'.next_free
      → Linked h before ns behind
      → Linked h' before ns behind
  grow h h' before behind [] kept more chain = tt
  grow h h' before behind ((q, x) ∷ ns) kept more chain = (
    kept q chain.1 ∙ chain.0,
    omega (arith, more, chain.1),
    grow h h' (some q) behind ns kept more chain.2,
  )

  pub allocate_other :
      (n : Node A) (h : Heap A) (q : ℕ) → q < h.next_free → (allocate n h).cells q ≡ h.cells q
  unfolding allocate
  allocate_other n h q old = write_other h.next_free q (some n) h (λ e. omega (arith, old, e))

  pub allocate_same : (n : Node A) (h : Heap A) → (allocate n h).cells h.next_free ≡ some n
  unfolding allocate
  allocate_same n h = write_same h.next_free (some n) h

  -- Allocating a node leaves every chain linked.
  pub Linked-allocate :
      (n : Node A) (h : Heap A) (before behind : Iterator) (ns : List (ℕ × A))
      → Linked h before ns behind
      → Linked (allocate n h) before ns behind
  unfolding allocate
  Linked-allocate n h before behind ns chain =
      grow h (allocate n h) before behind ns (λ q old. allocate_other n h q old) (omega arith) chain

  pub next_free-allocate : (n : Node A) (h : Heap A) → (allocate n h).next_free ≡ suc h.next_free
  unfolding allocate
  next_free-allocate n h = refl
