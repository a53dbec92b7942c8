-- ===== src/BinaryTree/Rotation.antt =====
-- `rotateLeft` of Base/RedBlackTree.hpp.
use ziqe.Prelude.{
  ℕ, ◌≡◌, ◌≢◌, refl, sym, ◌∙◌, none, some, ◌==◌, ==_iff, Bool-cases, inl, inr, if◌then◌else◌,
}
use ziqe.Prelude.Fallible.{◌>>=◌, Returns}
use ziqe.BinaryTree.{
  Node, Store, is_this, get_left, get_parent, of_parent, with_parent, is_left_child, is_left,
  update, set_right, set_left, set_parent, relink, rotate_left,
}

module _ {K V : Type 0} where
  -- A node is written and all others are left.
  Written : (Node K V → Node K V) → ℕ → Node K V → Store K V → Store K V → Type 0
  Written f p n h h' = (h' p ≡ some (f n)) × ((q : ℕ) → q ≢ p → h' q ≡ h q)

  update-Written :
      (f : Node K V → Node K V) (p : ℕ) (n : Node K V) (h : Store K V)
      → h p ≡ some n
      → Returns (update f p h) (Written f p n h)
  unfolding update Written
  update-Written f p n h at = (
    (λ q. if q == p then some (f n) else h q),
    rw (update, at, ◌>>=◌) refl,
    (
      rw ((==_iff p p).1 refl) refl,
      λ q apart. elim (Bool-cases (q == p)) [
        | inl eq ↦ absurd (apart ((==_iff q p).0 eq))
        | inr ne ↦ rw ne refl
      ],
    ),
  )

  -- The grandparent at `b` of a new node and the parent of the new node at `a`, before and after the
  -- writes that precede the one to the parent of the grandparent.
  start-Written :
      (a b : ℕ) (n g : Node K V) (h : Store K V)
      → a ≢ b
      → h a ≡ some n
      → h b ≡ some g
      → g.left ≡ none
      → (h3 : Store K V) × (rotate_left a b h ≡ (relink a b h3 >>= set_parent b (some a)))
        × (h3 a ≡ some (record n { left = some b }))
        × (h3 b ≡ some (record g { right = n.left }))
        × ((q : ℕ) → q ≢ a → q ≢ b → h3 q ≡ h q)
  unfolding rotate_left get_left set_right set_left Written
  start-Written a b n g h apart at_a at_b bare =
      let (h1, run1, (here1, others1)) =
        update-Written (λ x. record x { right = n.left }) b g h at_b in
      let (h3, run3, (here3, others3)) =
        update-Written (λ x. record x { left = some b }) a n h1 (others1 a apart ∙ at_a) in
      (
        h3,
        rw
            (
              rotate_left, get_left, at_a, ◌>>=◌, set_right, run1, ◌>>=◌, here1, ◌>>=◌, bare,
              set_left, run3,
            )
            refl,
        here3,
        others3 b (λ e. apart (sym e)) ∙ here1,
        λ q out_a out_b. others3 q out_a ∙ others1 q out_b,
      )

  -- `rotateLeft` of a grandparent that is the root and has no left child is undefined: it writes through
  -- the null pointer that is the parent of the grandparent.
  pub rotate_left-root :
      (a b : ℕ) (n g : Node K V) (h : Store K V)
      → a ≢ b
      → h a ≡ some n
      → h b ≡ some g
      → g.left ≡ none
      → g.parent ≡ none
      → rotate_left a b h ≡ none
  unfolding relink is_left with_parent get_parent
  rotate_left-root a b n g h apart at_a at_b bare top =
      let (h3, run, here_a, here_b, others) = start-Written a b n g h apart at_a at_b bare in
      run ∙ rw (relink, is_left, with_parent, here_b, ◌>>=◌, top, get_parent) refl

  relink-at :
      (a b q : ℕ) (g m : Node K V) (h : Store K V)
      → h b ≡ some g
      → g.parent ≡ some q
      → h q ≡ some m
      → relink a b h
        ≡ update
            (λ x.
              if is_this m.right b then record x { left = some a } else record x { right = some a })
            q
            h
  unfolding relink is_left with_parent is_left_child of_parent get_parent set_left set_right
  relink-at a b q g m h at up above = elim (Bool-cases (is_this m.right b)) [
    | inl is ↦
        rw
          (
            relink, is_left, with_parent, at, ◌>>=◌, up, is_left_child, of_parent, at, ◌>>=◌, up,
            above, is, get_parent,
          )
          refl
    | inr is_not ↦
        rw
          (
            relink, is_left, with_parent, at, ◌>>=◌, up, is_left_child, of_parent, at, ◌>>=◌, up,
            above, is_not, get_parent,
          )
          refl
  ]

  -- `rotateLeft` of a grandparent with a parent and without a left child, all at different addresses,
  -- returns. The new subtree is linked on the left of that parent when the grandparent was its right child,
  -- and else on the right, and the other link of the parent stays; the node above has still the parent that
  -- it had, while the grandparent has the node as its parent.
  pub rotate_left-links :
      (a b q : ℕ) (n g m : Node K V) (h : Store K V)
      → a ≢ b
      → a ≢ q
      → b ≢ q
      → h a ≡ some n
      → h b ≡ some g
      → h q ≡ some m
      → g.left ≡ none
      → g.parent ≡ some q
      → Returns (rotate_left a b h) (λ h'.
        (h' a ≡ some (record n { left = some b }))
        × (h' b ≡ some (record g { right = n.left; parent = some a }))
        × (h' q
            ≡ some (
                if is_this m.right b
                then record m { left = some a }
                else record m { right = some a })))
  unfolding set_parent Written
  rotate_left-links a b q n g m h a_b a_q b_q at_a at_b at_q bare up =
      let (h3, run, here_a, here_b, others) = start-Written a b n g h a_b at_a at_b bare in
      let at_q' : h3 q ≡ some m = others q (λ e. a_q (sym e)) (λ e. b_q (sym e)) ∙ at_q in
      let link = relink-at a b q (record g { right = n.left }) m h3 here_b up at_q' in
      let (h4, run4, (here4, others4)) =
        update-Written
          (λ x.
            if is_this m.right b then record x { left = some a } else record x { right = some a })
          q m h3 at_q' in
      let (h5, run5, (here5, others5)) =
        update-Written (λ x. record x { parent = some a }) b (record g { right = n.left }) h4
          (others4 b b_q ∙ here_b) in
      (
        h5,
        run ∙ rw (link, run4, ◌>>=◌, set_parent, run5) refl,
        (others5 a a_b ∙ (others4 a a_q ∙ here_a), here5, others5 q (λ e. b_q (sym e)) ∙ here4),
      )
