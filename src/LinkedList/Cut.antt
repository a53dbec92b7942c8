-- ===== src/LinkedList/Cut.antt =====
-- Cutting a list of Base/LinkedList.hpp between two nodes, and joining the parts.
use mathlib.Core.List.{append_assoc}
use mathlib.Core.Path.{subst}
use ziqe.Prelude.{ℕ, ◌<◌, ◌≡◌, refl, sym, List, [], ◌∷◌, ◌++◌, none, some, false, arith}
use ziqe.LinkedList.{Iterator, Heap, same}
use ziqe.LinkedList.Cells.{first, last, Linked, Outside, Distinct}
use ziqe.LinkedList.Sequence.{
  same_ne, last-append, Linked-front, Linked-back, Linked-join, Outside-front, Distinct-back,
}

pub same_comm : (it it' : Iterator) → same it it' ≡ same it' it
same_comm none none = refl
same_comm none (some q) = refl
same_comm (some p) none = refl
same_comm (some p) (some q) = ground arith

module _ {ℓ} {A : Type ℓ} where
  pub Outside-join :
      (p : ℕ) (ms ns : List (ℕ × A)) → Outside p ms → Outside p ns → Outside p (ms ++ ns)
  Outside-join p [] ns left right = right
  Outside-join p ((q, x) ∷ ms) ns left right = (left.0, Outside-join p ms ns left.1 right)

  pub Outside-rest : (p : ℕ) (ms ns : List (ℕ × A)) → Outside p (ms ++ ns) → Outside p ns
  Outside-rest p [] ns out = out
  Outside-rest p ((q, x) ∷ ms) ns out = Outside-rest p ms ns out.1

  -- An address of a sequence is outside of what stands before it.
  pub Distinct-before :
      (ms : List (ℕ × A)) (w : ℕ) (y : A) (ns : List (ℕ × A))
      → Distinct (ms ++ (w, y) ∷ ns)
      → Outside w ms
  Distinct-before [] w y ns apart = tt
  Distinct-before ((p, x) ∷ ms) w y ns apart =
      (λ e. (Outside-rest p ms ((w, y) ∷ ns) apart.0).0 (sym e), Distinct-before ms w y ns apart.1)

  pub Distinct-insert :
      (f : ℕ) (x : A) (ms ns : List (ℕ × A))
      → Distinct (ms ++ ns)
      → Outside f (ms ++ ns)
      → Distinct (ms ++ (f, x) ∷ ns)
  Distinct-insert f x [] ns apart out = (out, apart)
  Distinct-insert f x ((p, y) ∷ ms) ns apart out = (
    Outside-join p ms ((f, x) ∷ ns) (Outside-front p ms ns apart.0)
        (λ e. out.0 (sym e), Outside-rest p ms ns apart.0),
    Distinct-insert f x ms ns apart.1 out.1,
  )

  pub Distinct-delete :
      (w : ℕ) (y : A) (ms ns : List (ℕ × A)) → Distinct (ms ++ (w, y) ∷ ns) → Distinct (ms ++ ns)
  Distinct-delete w y [] ns apart = apart.1
  Distinct-delete w y ((p, x) ∷ ms) ns apart = (
    Outside-join p ms ns (Outside-front p ms ((w, y) ∷ ns) apart.0)
        (Outside-rest p ms ((w, y) ∷ ns) apart.0).1,
    Distinct-delete w y ms ns apart.1,
  )

  pub last-other_than :
      (q w : ℕ) (z y : A) (ns : List (ℕ × A))
      → Outside q ((w, y) ∷ ns)
      → same (some q) (last (some w) ns) ≡ false
  last-other_than q w z y [] out = same_ne q w out.0
  last-other_than q w z y ((p, x) ∷ ns) out = last-other_than q p z x ns out.1

  pub first-other_than :
      (q v : ℕ) (z : A) (ms : List (ℕ × A)) (e : Iterator)
      → Outside q (ms ++ (v, z) ∷ [])
      → same (some q) (first (ms ++ (v, z) ∷ []) e) ≡ false
  first-other_than q v z [] e out = same_ne q v out.0
  first-other_than q v z ((p, x) ∷ ms) e out = same_ne q p out.0

  -- What is known of the nodes on both sides of a cut between `w` and `q`.
  pub record Cut (h : Heap A) (ms : List (ℕ × A)) (w : ℕ) (y : A) (q : ℕ) (z : A)
      (qs : List (ℕ × A)) : Type ℓ where
    pub found_left : h.cells w ≡ some (record { previous = last none ms; next = some q; value = y })
    pub used_left : w < h.next_free
    pub found_right :
        h.cells q ≡ some (record { previous = some w; next = first qs none; value = z })
    pub used_right : q < h.next_free
    pub start : Linked h none ms (some w)
    pub rest : Linked h (some q) qs none
    pub left_start : Outside w ms
    pub left_rest : Outside w ((q, z) ∷ qs)
    pub right_start : Outside q (ms ++ (w, y) ∷ [])
    pub right_rest : Outside q qs

  pub cut :
      (h : Heap A) (ms : List (ℕ × A)) (w : ℕ) (y : A) (q : ℕ) (z : A) (qs : List (ℕ × A))
      → Linked h none ((ms ++ (w, y) ∷ []) ++ (q, z) ∷ qs) none
      → Distinct ((ms ++ (w, y) ∷ []) ++ (q, z) ∷ qs)
      → Cut h ms w y q z qs
  cut h ms w y q z qs chain apart =
      let ws = ms ++ (w, y) ∷ [] in
      let left = Linked-front h none none ws ((q, z) ∷ qs) chain in
      let right = Linked-back h none none ws ((q, z) ∷ qs) chain in
      let at_w = Linked-back h none (some q) ms ((w, y) ∷ []) left in
      let straight = subst Distinct (append_assoc ms ((w, y) ∷ []) ((q, z) ∷ qs)) apart in
      let right' =
        subst (λ t. Linked h t ((q, z) ∷ qs) none) (last-append none ms ((w, y) ∷ [])) right in
      record {
        found_left = at_w.0;
        used_left = at_w.1;
        found_right = right'.0;
        used_right = right'.1;
        start = Linked-front h none (some q) ms ((w, y) ∷ []) left;
        rest = right'.2;
        left_start = Distinct-before ms w y ((q, z) ∷ qs) straight;
        left_rest = (Distinct-back ms ((w, y) ∷ (q, z) ∷ qs) straight).0;
        right_start = Distinct-before ws q z qs apart;
        right_rest = (Distinct-back ws ((q, z) ∷ qs) apart).0;
      }

  -- A chain up to the node `w`, and one behind it.
  pub sew :
      (h : Heap A) (ms : List (ℕ × A)) (w : ℕ) (y : A) (ns : List (ℕ × A))
      → Linked h none ms (some w)
      → h.cells w ≡ some (record { previous = last none ms; next = first ns none; value = y })
      → w < h.next_free
      → Linked h (some w) ns none
      → Linked h none ((ms ++ (w, y) ∷ []) ++ ns) none
  sew h ms w y ns start found used rest =
      Linked-join h none none (ms ++ (w, y) ∷ []) ns
        (Linked-join h none (first ns none) ms ((w, y) ∷ []) start (found, used, tt))
        (subst (λ t. Linked h t ns none) (sym (last-append none ms ((w, y) ∷ []))) rest)

  pub first_node :
      (ms : List (ℕ × A)) (w : ℕ) (y : A) (e e' : Iterator)
      → first (ms ++ (w, y) ∷ []) e ≡ first (ms ++ (w, y) ∷ []) e'
  first_node [] w y e e' = refl
  first_node ((p, x) ∷ ms) w y e e' = refl
