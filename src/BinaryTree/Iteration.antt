-- ===== src/BinaryTree/Iteration.antt =====
-- `next` and the brothers of Base/RedBlackTree.hpp.
use ziqe.Prelude.{
  ℕ, ◌≤◌, ◌≡◌, ◌≢◌, refl, sym, ◌∙◌, ap, List, ◌∷◌, Option, some, true, false, ◌==◌, ==_iff,
  Bool-cases, inl, inr, if◌then◌else◌,
}
use ziqe.Prelude.Fallible.{◌>>=◌, Returns}
use ziqe.HashTable.Entries.{some_injective}
use ziqe.BinaryTree.{
  Pointer, Node, Store, is_this, get_parent, of_parent, with_parent, brother, get_brother,
  is_left_child, right_brother, get_leftest_node, next, next_below,
}
use ziqe.BinaryTree.Shapes.{Tree, leaf, branch, root, in_order, size, Holds, get_leftest_node-ends}

is_this-same : (p : ℕ) → is_this (some p) p ≡ true
is_this-same p = (==_iff p p).1 refl

is_this-other : (t : Tree) (p : ℕ) → root t ≢ some p → is_this (root t) p ≡ false
is_this-other leaf p apart = refl
is_this-other (branch l q r) p apart = elim (Bool-cases (q == p)) [
  | inl eq ↦ absurd (apart (ap some ((==_iff q p).0 eq)))
  | inr ne ↦ ne
]

module _ {K V : Type 0} where
  -- A function of the parent of a node in the store.
  of_parent-at :
      {A : Type 0} (f : Node K V → Option A) (p q : ℕ) (n m : Node K V) (h : Store K V)
      → h p ≡ some n
      → n.parent ≡ some q
      → h q ≡ some m
      → of_parent f p h ≡ f m
  unfolding of_parent
  of_parent-at f p q n m h at up above = rw (of_parent, at, ◌>>=◌, up, above) refl

  next-right_child :
      (fuel p q : ℕ) (n m : Node K V) (h : Store K V)
      → h p ≡ some n
      → n.parent ≡ some q
      → h q ≡ some m
      → m.right ≡ some p
      → next fuel p h ≡ (get_leftest_node fuel p h >>= λ r. some (some r))
  unfolding next next_below get_parent is_left_child right_brother of_parent
  next-right_child fuel p q n m h at up above right =
      rw
        (
          next,
          get_parent,
          at,
          ◌>>=◌,
          up,
          next_below,
          is_left_child,
          right_brother,
          of_parent,
          at,
          ◌>>=◌,
          up,
          above,
          right,
          is_this-same p,
        )
        refl

  next-left_child :
      (fuel p q : ℕ) (n m : Node K V) (h : Store K V)
      → h p ≡ some n
      → n.parent ≡ some q
      → h q ≡ some m
      → is_this m.right p ≡ false
      → next fuel p h ≡ some (some q)
  unfolding next next_below get_parent is_left_child right_brother of_parent
  next-left_child fuel p q n m h at up above other =
      rw
        (
          next, get_parent, at, ◌>>=◌, up, next_below, is_left_child, right_brother, of_parent, at,
          ◌>>=◌, up, above, other,
        )
        refl

  get_brother-at :
      (p q : ℕ) (n m : Node K V) (h : Store K V)
      → h p ≡ some n
      → n.parent ≡ some q
      → h q ≡ some m
      → get_brother p h ≡ some (if is_this m.left p then m.right else m.left)
  unfolding get_brother with_parent brother of_parent
  get_brother-at p q n m h at up above =
      rw (get_brother, with_parent, at, ◌>>=◌, up, brother, of_parent, at, ◌>>=◌, up, above) refl

  -- In a store that holds a tree whose root has two children at different addresses, `getBrother` of each
  -- child is the other one.
  pub get_brother-children :
      (h : Store K V) (parent : Pointer) (p a b : ℕ) (ll lr rl rr : Tree)
      → Holds h parent (branch (branch ll a lr) p (branch rl b rr))
      → a ≢ b
      → (get_brother a h ≡ some (some b)) × (get_brother b h ≡ some (some a))
  get_brother-children h parent p a b ll lr rl rr (m, above, up, left, right, a_held, b_held)
        apart =
      let (na, at_a, up_a, _, _, _, _) = a_held in
      let (nb, at_b, up_b, _, _, _, _) = b_held in
      (
        get_brother-at a p na m h at_a up_a above ∙ rw (left, is_this-same a, right) refl,
        get_brother-at b p nb m h at_b up_b above
            ∙ rw (left, is_this-other (branch ll a lr) b (λ e. apart (some_injective a b e))) refl,
      )

  -- In a store that holds a tree whose root has two children at different addresses, `next` goes from the
  -- left child to the root, past the nodes below the left child that are behind it in the order, and from
  -- the right child to the first node below the right child, which for a child without a left subtree is
  -- where it was: it never leaves the tree there.
  pub next-children :
      (fuel : ℕ) (h : Store K V) (parent : Pointer) (p a b : ℕ) (ll lr rl rr : Tree)
      → Holds h parent (branch (branch ll a lr) p (branch rl b rr))
      → a ≢ b
      → size (branch rl b rr) ≤ fuel
      → (next fuel a h ≡ some (some p))
        × Returns
            (next fuel b h)
            (λ r. (x : ℕ) × (rest : List ℕ) × (r ≡ some x) × (in_order (branch rl b rr) ≡ x ∷ rest))
  next-children fuel h parent p a b ll lr rl rr (m, above, up, left, right, a_held, b_held) apart
        enough =
      let (na, at_a, up_a, _, _, _, _) = a_held in
      let (nb, at_b, up_b, _, _, _, _) = b_held in
      let ((x, run, (rest, first)), others) =
        get_leftest_node-ends fuel h (some p) rl b rr enough b_held in
      (
        next-left_child fuel a p na m h at_a up_a above
            (rw right (is_this-other (branch rl b rr) a (λ e. apart (sym (some_injective b a e))))),
        (
          some x,
          next-right_child fuel b p nb m h at_b up_b above right ∙ rw (run, ◌>>=◌) refl,
          (x, rest, refl, first),
        ),
      )
