-- ===== src/LinkedList/Sequence.antt =====
-- The sequence that a list of Base/LinkedList.hpp represents.
use ziqe.Prelude.{
  ℕ, ◌≡◌, ◌≢◌, refl, sym, ap, List, [], ◌∷◌, ◌++◌, none, some, true, false, ◌==◌, ==_iff, length,
  Bool-cases, inl, inr, ◌⊎◌,
}
use ziqe.LinkedList.{Iterator, Heap, State, same}
use ziqe.LinkedList.Cells.{first, last, Linked, Outside, Distinct}

-- `ns` are the addresses and the values of the list's nodes, in order.
pub record Represents {ℓ} {A : Type ℓ} (ns : List (ℕ × A)) (s : State A) : Type ℓ where
  pub begins : s.list.begin ≡ first ns none
  pub ends : s.list.before_end ≡ last none ns
  pub counted : s.list.size ≡ length ns
  pub chain : Linked s.heap none ns none
  pub distinct : Distinct ns

pub same_refl : (p : ℕ) → same (some p) (some p) ≡ true
same_refl p = (==_iff p p).1 refl

pub same_ne : (p q : ℕ) → q ≢ p → same (some p) (some q) ≡ false
same_ne p q apart = elim (Bool-cases (p == q)) [
  | inl eq ↦ absurd (apart (sym ((==_iff p q).0 eq)))
  | inr ne ↦ ne
]

module _ {ℓ} {A : Type ℓ} where
  pub first-append :
      (ms ns : List (ℕ × A)) (e : Iterator) → first (ms ++ ns) e ≡ first ms (first ns e)
  first-append [] ns e = refl
  first-append ((p, x) ∷ ms) ns e = refl

  pub last-append : (b : Iterator) (ms ns : List (ℕ × A)) → last b (ms ++ ns) ≡ last (last b ms) ns
  last-append b [] ns = refl
  last-append b ((p, x) ∷ ms) ns = last-append (some p) ms ns

  -- A chain of two parts, taken apart and put together.
  pub Linked-front :
      (h : Heap A) (b e : Iterator) (ms ns : List (ℕ × A))
      → Linked h b (ms ++ ns) e
      → Linked h b ms (first ns e)
  Linked-front h b e [] ns chain = tt
  Linked-front h b e ((p, x) ∷ ms) ns chain =
      (rw (first-append ms ns e) at chain.0, chain.1, Linked-front h (some p) e ms ns chain.2)

  pub Linked-back :
      (h : Heap A) (b e : Iterator) (ms ns : List (ℕ × A))
      → Linked h b (ms ++ ns) e
      → Linked h (last b ms) ns e
  Linked-back h b e [] ns chain = chain
  Linked-back h b e ((p, x) ∷ ms) ns chain = Linked-back h (some p) e ms ns chain.2

  pub Linked-join :
      (h : Heap A) (b e : Iterator) (ms ns : List (ℕ × A))
      → Linked h b ms (first ns e)
      → Linked h (last b ms) ns e
      → Linked h b (ms ++ ns) e
  Linked-join h b e [] ns left right = right
  Linked-join h b e ((p, x) ∷ ms) ns left right =
      (rw (first-append ms ns e) left.0, left.1, Linked-join h (some p) e ms ns left.2 right)

  pub Outside-front : (p : ℕ) (ms ns : List (ℕ × A)) → Outside p (ms ++ ns) → Outside p ms
  Outside-front p [] ns out = tt
  Outside-front p ((q, x) ∷ ms) ns out = (out.0, Outside-front p ms ns out.1)

  Outside-back : (p : ℕ) (ms ns : List (ℕ × A)) → Outside p (ms ++ ns) → Outside p ns
  Outside-back p [] ns out = out
  Outside-back p ((q, x) ∷ ms) ns out = Outside-back p ms ns out.1

  pub Distinct-front : (ms ns : List (ℕ × A)) → Distinct (ms ++ ns) → Distinct ms
  Distinct-front [] ns apart = tt
  Distinct-front ((p, x) ∷ ms) ns apart =
      (Outside-front p ms ns apart.0, Distinct-front ms ns apart.1)

  pub Distinct-back : (ms ns : List (ℕ × A)) → Distinct (ms ++ ns) → Distinct ns
  Distinct-back [] ns apart = apart
  Distinct-back ((p, x) ∷ ms) ns apart = Distinct-back ms ns apart.1

  -- The last address is outside of what stands before it.
  pub Distinct-last :
      (ms : List (ℕ × A)) (w : ℕ) (y : A) → Distinct (ms ++ (w, y) ∷ []) → Outside w ms
  Distinct-last [] w y apart = tt
  Distinct-last ((p, x) ∷ ms) w y apart =
      (λ e. (Outside-back p ms ((w, y) ∷ []) apart.0).0 (sym e), Distinct-last ms w y apart.1)

  Outside-snoc :
      (p f : ℕ) (x : A) (ns : List (ℕ × A)) → Outside p ns → f ≢ p → Outside p (ns ++ (f, x) ∷ [])
  Outside-snoc p f x [] out apart = (apart, tt)
  Outside-snoc p f x ((q, y) ∷ ns) out apart = (out.0, Outside-snoc p f x ns out.1 apart)

  pub Distinct-snoc :
      (f : ℕ) (x : A) (ns : List (ℕ × A))
      → Distinct ns
      → Outside f ns
      → Distinct (ns ++ (f, x) ∷ [])
  Distinct-snoc f x [] apart out = (tt, tt)
  Distinct-snoc f x ((p, y) ∷ ns) apart out =
      (Outside-snoc p f x ns apart.0 (λ e. out.0 (sym e)), Distinct-snoc f x ns apart.1 out.1)

  last_of :
      (p : ℕ) (x : A) (ns : List (ℕ × A))
      → (ms : List (ℕ × A)) × (w : ℕ) × (y : A) × ((p, x) ∷ ns ≡ ms ++ (w, y) ∷ [])
  last_of p x [] = ([], p, x, refl)
  last_of p x ((q, y) ∷ ns) =
      let (ms, w, z, e) = last_of q y ns in ((p, x) ∷ ms, w, z, ap (λ t. (p, x) ∷ t) e)

  -- A sequence is empty or ends with a last node.
  pub last_cases :
      (ns : List (ℕ × A))
      → (ns ≡ []) ⊎ ((ms : List (ℕ × A)) × (w : ℕ) × (y : A) × (ns ≡ ms ++ (w, y) ∷ []))
  last_cases [] = inl refl
  last_cases ((p, x) ∷ ns) = inr (last_of p x ns)

  -- The node at any place of a represented sequence.
  pub node_at :
      (ms : List (ℕ × A)) (w : ℕ) (y : A) (ns : List (ℕ × A)) (s : State A)
      → Represents (ms ++ (w, y) ∷ ns) s
      → s.heap.cells w ≡ some (record { previous = last none ms; next = first ns none; value = y })
  node_at ms w y ns s r = (Linked-back s.heap none none ms ((w, y) ∷ ns) r.chain).0
