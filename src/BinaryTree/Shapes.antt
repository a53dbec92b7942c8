-- ===== src/BinaryTree/Shapes.antt =====
-- The trees that a store of Base/RedBlackTree.hpp holds, and the ends of their order.
use mathlib.Core.List.{append_assoc}
use ziqe.Prelude.{
  ℕ, zero, suc, ◌+◌, ◌≤◌, ◌<◌, ◌≡◌, refl, sym, ◌∙◌, ap, List, [], ◌∷◌, ◌++◌, none, some, arith,
}
use ziqe.Prelude.Fallible.{◌>>=◌, Returns}
use ziqe.BinaryTree.{
  Pointer, Node, Store, get_left, get_right, leftest_from, rightest_from, get_leftest_node,
  get_rightest_node,
}

-- A tree of addresses.
pub data Tree : Type 0 where
  leaf : Tree
  branch : Tree → ℕ → Tree → Tree

abbrev pub root : Tree → Pointer
root leaf = none
root (branch l p r) = some p

-- The addresses from left to right, and their number.
abbrev pub in_order : Tree → List ℕ
in_order leaf = []
in_order (branch l p r) = in_order l ++ p ∷ in_order r

abbrev pub size : Tree → ℕ
size leaf = 0
size (branch l p r) = suc (size l + size r)

-- The store holds the tree below the parent.
abbrev pub Holds : {K V : Type 0} → Store K V → Pointer → Tree → Type 0
Holds h parent leaf = Unit
Holds {K} {V} h parent (branch l p r) =
    (n : Node K V) × (h p ≡ some n)
    × (n.parent ≡ parent)
    × (n.left ≡ root l)
    × (n.right ≡ root r)
    × Holds h (some p) l
    × Holds h (some p) r

module _ {K V : Type 0} where
  -- The first round of the loop tests what the function tests before it.
  leftest_is :
      (fuel : ℕ) (p : ℕ) (h : Store K V) → get_leftest_node fuel p h ≡ leftest_from (suc fuel) p h
  unfolding get_leftest_node leftest_from
  leftest_is fuel p h = refl

  rightest_is :
      (fuel : ℕ) (p : ℕ) (h : Store K V) → get_rightest_node fuel p h ≡ rightest_from (suc fuel) p h
  unfolding get_rightest_node rightest_from
  rightest_is fuel p h = refl

  -- The first address of the order.
  leftest_from-first :
      (fuel : ℕ) (h : Store K V) (parent : Pointer) (l : Tree) (p : ℕ) (r : Tree)
      → size l < fuel
      → Holds h parent (branch l p r)
      → (q : ℕ) × (rest : List ℕ) × (leftest_from fuel p h ≡ some q)
        × (in_order (branch l p r) ≡ q ∷ rest)
  unfolding leftest_from get_left
  leftest_from-first zero h parent l p r enough held = absurd (omega arith)
  leftest_from-first (suc fuel) h parent leaf p r enough (n, at, up, left, right, below, behind) =
      (p, in_order r, rw (leftest_from, get_left, at, left, ◌>>=◌) refl, refl)
  leftest_from-first (suc fuel) h parent (branch ll lp lr) p r enough
        (n, at, up, left, right, below, behind) =
      let (q, rest, run, first) = leftest_from-first fuel h (some p) ll lp lr (omega arith) below in
      (
        q,
        rest ++ p ∷ in_order r,
        rw (leftest_from, get_left, at, left, ◌>>=◌) run,
        ap (λ s. s ++ p ∷ in_order r) first,
      )

  rightest_from-last :
      (fuel : ℕ) (h : Store K V) (parent : Pointer) (l : Tree) (p : ℕ) (r : Tree)
      → size r < fuel
      → Holds h parent (branch l p r)
      → (q : ℕ) × (rest : List ℕ) × (rightest_from fuel p h ≡ some q)
        × (in_order (branch l p r) ≡ rest ++ q ∷ [])
  unfolding rightest_from get_right
  rightest_from-last zero h parent l p r enough held = absurd (omega arith)
  rightest_from-last (suc fuel) h parent l p leaf enough (n, at, up, left, right, below, behind) =
      (p, in_order l, rw (rightest_from, get_right, at, right, ◌>>=◌) refl, refl)
  rightest_from-last (suc fuel) h parent l p (branch rl rp rr) enough
        (n, at, up, left, right, below, behind) =
      let (q, rest, run, last) = rightest_from-last fuel h (some p) rl rp rr (omega arith) behind in
      (
        q,
        in_order l ++ p ∷ rest,
        rw (rightest_from, get_right, at, right, ◌>>=◌) run,
        ap (λ s. in_order l ++ p ∷ s) last ∙ sym (append_assoc (in_order l) (p ∷ rest) (q ∷ [])),
      )

  -- In a store that holds a tree, and with as much fuel as it has nodes, `getLeftestNode` of the root
  -- returns the first node of the order and `getRightestNode` the last one.
  pub get_leftest_node-ends :
      (fuel : ℕ) (h : Store K V) (parent : Pointer) (l : Tree) (p : ℕ) (r : Tree)
      → size (branch l p r) ≤ fuel
      → Holds h parent (branch l p r)
      → Returns
          (get_leftest_node fuel p h)
          (λ q. (rest : List ℕ) × (in_order (branch l p r) ≡ q ∷ rest))
        × Returns
            (get_rightest_node fuel p h)
            (λ q. (rest : List ℕ) × (in_order (branch l p r) ≡ rest ++ q ∷ []))
  get_leftest_node-ends fuel h parent l p r enough held =
      let (q, rest, run, first) =
        leftest_from-first (suc fuel) h parent l p r (omega (arith, enough)) held in
      let (q', rest', run', last) =
        rightest_from-last (suc fuel) h parent l p r (omega (arith, enough)) held in
      (
        (q, leftest_is fuel p h ∙ run, (rest, first)),
        (q', rightest_is fuel p h ∙ run', (rest', last)),
      )
