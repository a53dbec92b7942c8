-- ===== src/Tests/Trees.antt =====
-- Runs on the trees of Base/RedBlackTree.hpp.
use ziqe.Prelude.{ℕ, zero, suc, ◌≡◌, refl, List, [], ◌∷◌, ◌++◌, none, some, arith, if◌then◌else◌}
use ziqe.Prelude.Fallible.{Returns}
use ziqe.BinaryTree.{
  Pointer, Node, Store, is_this, black, get_leftest_node, get_rightest_node, next, rotate_left,
}
use ziqe.BinaryTree.Shapes.{Tree, leaf, branch, in_order, Holds, get_leftest_node-ends}
use ziqe.BinaryTree.Iteration.{next-children}
use ziqe.BinaryTree.Rotation.{rotate_left-links}

abbrev node : ℕ → Pointer → Pointer → Pointer → Node ℕ ℕ
node key parent left right = record {
  key = key;
  value = key;
  parent = parent;
  right = right;
  left = left;
  color = black;
}

-- The root is at 1, with its children at 0 and 2.
abbrev store : Store ℕ ℕ
store zero = some (node 10 (some 1) none none)
store (suc zero) = some (node 20 none (some 0) (some 2))
store (suc (suc zero)) = some (node 30 (some 1) none none)
store (suc (suc (suc p))) = none

abbrev low : Tree
low = branch leaf 0 leaf

abbrev high : Tree
high = branch leaf 2 leaf

store-Holds : Holds store none (branch low 1 high)
store-Holds = (
  node 20 none (some 0) (some 2),
  refl,
  refl,
  refl,
  refl,
  (node 10 (some 1) none none, refl, refl, refl, refl, tt, tt),
  (node 30 (some 1) none none, refl, refl, refl, refl, tt, tt),
)

get_leftest_node-ends_example :
    Returns
      (get_leftest_node 3 1 store)
      (λ q. (rest : List ℕ) × (in_order (branch low 1 high) ≡ q ∷ rest))
    × Returns
        (get_rightest_node 3 1 store)
        (λ q. (rest : List ℕ) × (in_order (branch low 1 high) ≡ rest ++ q ∷ []))
get_leftest_node-ends_example =
    get_leftest_node-ends 3 store none low 1 high (omega arith) store-Holds

next-children_example :
    (next 3 0 store ≡ some (some 1))
    × Returns
        (next 3 2 store)
        (λ r. (x : ℕ) × (rest : List ℕ) × (r ≡ some x) × (in_order high ≡ x ∷ rest))
next-children_example =
    next-children 3 store none 1 0 2 leaf leaf leaf leaf store-Holds (λ e. omega (arith, e))
      (omega arith)

-- The grandparent at 1 is the right child of 0 and has its right child at 2.
abbrev chain : Store ℕ ℕ
chain zero = some (node 10 none none (some 1))
chain (suc zero) = some (node 20 (some 0) none (some 2))
chain (suc (suc zero)) = some (node 30 (some 1) none none)
chain (suc (suc (suc p))) = none

rotate_left-links_example : Returns (rotate_left 2 1 chain) (λ h'.
    (h' 2 ≡ some (node 30 (some 1) (some 1) none))
    × (h' 1 ≡ some (node 20 (some 2) none none))
    × (h' 0
        ≡ some (
            if is_this (some 1) 1
            then node 10 none (some 2) (some 1)
            else node 10 none none (some 2))))
rotate_left-links_example =
    rotate_left-links 2 1 0 (node 30 (some 1) none none) (node 20 (some 0) none (some 2))
      (node 10 none none (some 1)) chain (λ e. omega (arith, e)) (λ e. omega (arith, e))
      (λ e. omega (arith, e)) refl refl refl refl refl
