-- ===== src/LinkedList/Erasure.antt =====
-- `erase` of one node and `emplace_before` of Base/LinkedList.hpp, wherever the node stands.
use mathlib.Core.Path.{subst}
use ziqe.Prelude.{
  ℕ, ◌+◌, ◌<◌, sym, ◌∙◌, ap, List, [], ◌∷◌, ◌++◌, none, some, arith, length, length-append, inl,
  inr, append_nil,
}
use ziqe.Vector.{size_mod}
use ziqe.LinkedList.{
  Iterator, State, emplace_before, emplace_back, emplace_front, erase, pop_front, pop_back,
}
use ziqe.LinkedList.Cells.{first, last}
use ziqe.LinkedList.Sequence.{Represents, last-append, last_cases}
use ziqe.LinkedList.Insertion.{Added, emplace_back-Represents, emplace_front-Represents}
use ziqe.LinkedList.Removal.{Left, pop_front-Represents, pop_back-Represents}
use ziqe.LinkedList.Middle.{emplace_middle, erase_middle}

module _ {ℓ} {A : Type ℓ} where
  -- The iterator that `erase` returns: to the node behind the erased one, or to the one before it
  -- where the last node was erased.
  abbrev pub after_erase : List (ℕ × A) → List (ℕ × A) → Iterator
  after_erase ms [] = last none ms
  after_erase ms ((q, z) ∷ qs) = some q

  -- `erase` of any node of a list that represents a sequence, of fewer than `2 ^ 64` nodes, leaves
  -- the sequence without it. It returns the iterator to the node behind the erased one, but the
  -- iterator to the node before it where it was the last.
  pub erase-Represents :
      (ms : List (ℕ × A)) (w : ℕ) (y : A) (ns : List (ℕ × A)) (s : State A)
      → Represents (ms ++ (w, y) ∷ ns) s
      → length ms + length ns + 1 < size_mod
      → Left (after_erase ms ns) (ms ++ ns) (erase (some w) s)
  unfolding pop_front pop_back
  erase-Represents ms w y [] s r small =
      let popped = pop_back-Represents w y ms s r (omega arith) in
      let at_end = r.ends ∙ last-append none ms ((w, y) ∷ []) in
      subst (λ t. Left (last none ms) t (erase (some w) s)) (sym (append_nil ms))
        (subst (λ it. Left (last none ms) ms (erase it s)) at_end popped)
  erase-Represents [] w y ((q, z) ∷ qs) s r small =
      subst (λ it. Left (some q) ((q, z) ∷ qs) (erase it s)) r.begins
        (pop_front-Represents w y ((q, z) ∷ qs) s r (omega arith))
  erase-Represents (m ∷ ms) w y ((q, z) ∷ qs) s r small = elim (last_cases (m ∷ ms)) [
    | inl e ↦ absurd (omega (arith, ap length e))
    | inr (ls, v, u, e) ↦
        let size = ap length e ∙ length-append ls ((v, u) ∷ []) in
        subst (λ t. Left (some q) (t ++ (q, z) ∷ qs) (erase (some w) s)) (sym e)
          (erase_middle u y z v w q ls qs s
            (subst (λ t. Represents (t ++ (w, y) ∷ (q, z) ∷ qs) s) e r)
            (omega (arith, small, size)))
  ]

  -- `emplace_before` of any place in a list that represents a sequence, of fewer than `2 ^ 64 - 1`
  -- nodes, puts a fresh node with the value at that place and returns the iterator to it.
  pub emplace_before-Represents :
      (x : A) (ms ns : List (ℕ × A)) (s : State A)
      → Represents (ms ++ ns) s
      → length ms + length ns + 1 < size_mod
      → Added (ms ++ (s.heap.next_free, x) ∷ ns) s (emplace_before (first ns none) x s)
  unfolding emplace_back emplace_front emplace_before
  emplace_before-Represents x ms [] s r room =
      let r' = subst (λ t. Represents t s) (append_nil ms) r in
      emplace_back-Represents x ms s r' (omega arith)
  emplace_before-Represents x [] ((q, z) ∷ qs) s r room =
      subst (λ it. Added ((s.heap.next_free, x) ∷ (q, z) ∷ qs) s (emplace_before it x s)) r.begins
        (emplace_front-Represents x ((q, z) ∷ qs) s r (omega arith))
  emplace_before-Represents x (m ∷ ms) ((q, z) ∷ qs) s r room = elim (last_cases (m ∷ ms)) [
    | inl e ↦ absurd (omega (arith, ap length e))
    | inr (ls, w, y, e) ↦
        let size = ap length e ∙ length-append ls ((w, y) ∷ []) in
        subst
          (λ t. Added (t ++ (s.heap.next_free, x) ∷ (q, z) ∷ qs) s (emplace_before (some q) x s))
          (sym e)
          (emplace_middle x y z w q ls qs s (subst (λ t. Represents (t ++ (q, z) ∷ qs) s) e r)
            (omega (arith, room, size)))
  ]
