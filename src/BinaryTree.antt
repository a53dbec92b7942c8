-- ===== src/BinaryTree.antt =====
-- `BinaryTree::Node`, the iterators and the rotations of Base/RedBlackTree.hpp. A node is at an address
-- of a store, and `none` is the null pointer; the functions of a node take its address.
pub mod Shapes
pub mod Iteration
pub mod Rotation
use ziqe.Prelude.{ℕ, zero, suc, ◌==◌, Option, none, some, Bool, true, false, if◌then◌else◌}
use ziqe.Prelude.Fallible.{◌>>=◌}

abbrev pub Pointer : Type 0
Pointer = Option ℕ

-- `Color` of `RedBlackTreeNodeData`
pub data Color : Type 0 where
  red black : Color

-- `Node`, with the color of `mFields`
pub record Node (K V : Type 0) : Type 0 where
  pub key : K
  pub value : V
  pub parent : Pointer
  pub right : Pointer
  pub left : Pointer
  pub color : Color

abbrev pub Store : Type 0 → Type 0 → Type 0
Store K V = ℕ → Option (Node K V)

-- `pointer == this`
abbrev pub is_this : Pointer → ℕ → Bool
is_this none p = false
is_this (some q) p = q == p

module _ {K V : Type 0} where
  -- `getRight`, `getLeft` and `getParent`
  unfoldable pub get_right : ℕ → Store K V → Option Pointer
  get_right p h = do n ← h p; some n.right

  unfoldable pub get_left : ℕ → Store K V → Option Pointer
  get_left p h = do n ← h p; some n.left

  unfoldable pub get_parent : ℕ → Store K V → Option Pointer
  get_parent p h = do n ← h p; some n.parent

  -- A function of the parent, which is not to be null.
  unfoldable pub of_parent : {A : Type 0} → (Node K V → Option A) → ℕ → Store K V → Option A
  of_parent f p h = do n ← h p; q ← n.parent; m ← h q; f m

  -- The same behind the test of `hasParent`, with what it returns when there is none.
  unfoldable pub with_parent :
      {A : Type 0} → A → (ℕ → Store K V → Option A) → ℕ → Store K V → Option A
  with_parent default f p h = h p >>= λ n. elim n.parent [ none ↦ some default | some q ↦ f p h ]

  -- `_getBrother`, `_getRightBrother`, `_getLeftBrother` and `_getGrandparent`
  unfoldable pub brother : ℕ → Store K V → Option Pointer
  brother p h = of_parent (λ m. some (if is_this m.left p then m.right else m.left)) p h

  unfoldable pub right_brother : ℕ → Store K V → Option Pointer
  right_brother p h = of_parent (λ m. some m.right) p h

  unfoldable pub left_brother : ℕ → Store K V → Option Pointer
  left_brother p h = of_parent (λ m. some m.right) p h

  unfoldable pub grandparent : ℕ → Store K V → Option Pointer
  grandparent p h = of_parent (λ m. some m.parent) p h

  -- `getBrother`, `getRightBrother`, `getLeftBrother` and `getGrandparent`
  unfoldable pub get_brother : ℕ → Store K V → Option Pointer
  get_brother p h = with_parent none brother p h

  unfoldable pub get_right_brother : ℕ → Store K V → Option Pointer
  get_right_brother p h = with_parent none right_brother p h

  unfoldable pub get_left_brother : ℕ → Store K V → Option Pointer
  get_left_brother p h = with_parent none left_brother p h

  unfoldable pub get_grandparent : ℕ → Store K V → Option Pointer
  get_grandparent p h = with_parent none grandparent p h

  -- `_getUncle` and `getUncle`
  unfoldable pub uncle : ℕ → Store K V → Option Pointer
  uncle p h = do n ← h p; q ← n.parent; get_brother q h

  unfoldable pub get_uncle : ℕ → Store K V → Option Pointer
  get_uncle p h = with_parent none uncle p h

  -- `_isRight`, `_isLeft`, `isRight` and `isLeft`
  unfoldable pub is_right_child : ℕ → Store K V → Option Bool
  is_right_child p h = of_parent (λ m. some (is_this m.right p)) p h

  unfoldable pub is_left_child : ℕ → Store K V → Option Bool
  is_left_child p h = of_parent (λ m. some (is_this m.right p)) p h

  unfoldable pub is_right : ℕ → Store K V → Option Bool
  is_right p h = with_parent false is_right_child p h

  unfoldable pub is_left : ℕ → Store K V → Option Bool
  is_left p h = with_parent false is_left_child p h

  -- The loops of `getLeftestNode` and `getRightestNode`, each round of which goes one node down.
  unfoldable pub leftest_from : ℕ → ℕ → Store K V → Option ℕ
  leftest_from zero p h = none
  leftest_from (suc fuel) p h =
      get_left p h >>= λ l. elim l [ none ↦ some p | some q ↦ leftest_from fuel q h ]

  unfoldable pub rightest_from : ℕ → ℕ → Store K V → Option ℕ
  rightest_from zero p h = none
  rightest_from (suc fuel) p h =
      get_right p h >>= λ r. elim r [ none ↦ some p | some q ↦ rightest_from fuel q h ]

  unfoldable pub get_leftest_node : ℕ → ℕ → Store K V → Option ℕ
  get_leftest_node fuel p h =
      get_left p h >>= λ l. elim l [ none ↦ some p | some q ↦ leftest_from fuel q h ]

  unfoldable pub get_rightest_node : ℕ → ℕ → Store K V → Option ℕ
  get_rightest_node fuel p h =
      get_right p h >>= λ r. elim r [ none ↦ some p | some q ↦ rightest_from fuel q h ]

  -- The branch of `next` for a node with a parent, and `next` of an iterator at `p`.
  unfoldable pub next_below : ℕ → ℕ → Store K V → Option Pointer
  next_below fuel p h = do
    left ← is_left_child p h
    brother ← right_brother p h
    (if left
        then elim brother [
          | none ↦ get_parent p h
          | some q ↦ (do r ← get_leftest_node fuel q h; some (some r))
        ]
        else get_parent p h)

  unfoldable pub next : ℕ → ℕ → Store K V → Option Pointer
  next fuel p h =
      get_parent p h >>= λ q. elim q [ none ↦ get_right p h | some q ↦ next_below fuel p h ]

  -- The same of `previous`.
  unfoldable pub previous_below : ℕ → ℕ → Store K V → Option Pointer
  previous_below fuel p h = do
    right ← is_right_child p h
    brother ← left_brother p h
    (if right
        then elim brother [
          | none ↦ get_parent p h
          | some q ↦ (do r ← get_rightest_node fuel q h; some (some r))
        ]
        else get_parent p h)

  unfoldable pub previous : ℕ → ℕ → Store K V → Option Pointer
  previous fuel p h =
      get_parent p h >>= λ q. elim q [ none ↦ get_left p h | some q ↦ previous_below fuel p h ]

  -- Writes of the fields of a node.
  unfoldable pub update : (Node K V → Node K V) → ℕ → Store K V → Option (Store K V)
  update f p h = do n ← h p; some (λ q. if q == p then some (f n) else h q)

  unfoldable pub set_right : ℕ → Pointer → Store K V → Option (Store K V)
  set_right p v h = update (λ n. record n { right = v }) p h

  unfoldable pub set_left : ℕ → Pointer → Store K V → Option (Store K V)
  set_left p v h = update (λ n. record n { left = v }) p h

  unfoldable pub set_parent : ℕ → Pointer → Store K V → Option (Store K V)
  set_parent p v h = update (λ n. record n { parent = v }) p h

  -- What both rotations do to the parent of the grandparent.
  unfoldable pub relink : ℕ → ℕ → Store K V → Option (Store K V)
  relink node grandparent h = do
    left ← is_left grandparent h
    parent ← get_parent grandparent h
    q ← parent
    if left then set_left q (some node) h else set_right q (some node) h

  -- `rotateLeft`
  unfoldable pub rotate_left : ℕ → ℕ → Store K V → Option (Store K V)
  rotate_left node grandparent h = do
    moved ← get_left node h
    h1 ← set_right grandparent moved h
    left ← get_left grandparent h1
    h2 ← elim left [
      | none ↦ some h1
      | some l ↦ (do r ← get_right grandparent h1; q ← r; set_parent q (some grandparent) h1)
    ]
    h3 ← set_left node (some grandparent) h2
    h4 ← relink node grandparent h3
    set_parent grandparent (some node) h4

  -- `rotateRight`
  unfoldable pub rotate_right : ℕ → ℕ → Store K V → Option (Store K V)
  rotate_right node grandparent h = do
    moved ← get_right node h
    h1 ← set_left grandparent moved h
    right ← get_right grandparent h1
    h2 ← elim right [ none ↦ some h1 | some q ↦ set_parent q (some grandparent) h1 ]
    h3 ← set_right node (some grandparent) h2
    h4 ← relink node grandparent h3
    set_parent grandparent (some node) h4
