-- ===== src/MerkleTree/Leaves.antt =====
-- `list_to_binary_tree` of crates/chia-sdk-driver/src/merkle_tree.rs: the leaves of the tree.
use chia_wallet_sdk.Prelude.{
  ℕ, zero, suc, ◌+◌, ◌-◌, ◌/◌, ◌≤◌, ◌<◌, ◌≡◌, refl, ap₂, ◌∙◌, List, [], ◌∷◌, ◌++◌, arith, length,
  take, drop, take-append-drop,
}
use chia_wallet_sdk.MerkleTree.{BinaryTree, list_to_binary_tree_from, list_to_binary_tree}

-- The leaves, from left to right.
abbrev pub leaves_of {ℓ} : {T : Type ℓ} → BinaryTree T → List T
leaves_of (BinaryTree.leaf t) = t ∷ []
leaves_of (BinaryTree.node l r) = leaves_of l ++ leaves_of r

module _ {ℓ} {T : Type ℓ} where
  pub length-drop : (n : ℕ) (xs : List T) → length (drop n xs) ≡ length xs - n
  length-drop zero xs = omega arith
  length-drop (suc n) [] = omega arith
  length-drop (suc n) (x ∷ xs) = omega (arith, length-drop n xs)

  pub length-take : (n : ℕ) (xs : List T) → n ≤ length xs → length (take n xs) ≡ n
  length-take zero xs h = refl
  length-take (suc n) [] h = elim h [ ]
  length-take (suc n) (x ∷ xs) h = omega (arith, length-take n xs (omega arith))

  leaves_of-list_to_binary_tree_from :
      (fuel : ℕ) (default : T) (xs : List T)
      → 0 < length xs
      → length xs ≤ fuel
      → leaves_of (list_to_binary_tree_from fuel default xs) ≡ xs
  unfolding list_to_binary_tree_from
  leaves_of-list_to_binary_tree_from zero default xs some_leaf enough = absurd (omega arith)
  leaves_of-list_to_binary_tree_from (suc fuel) default [] some_leaf enough = elim some_leaf [ ]
  leaves_of-list_to_binary_tree_from (suc fuel) default (x ∷ []) some_leaf enough = refl
  leaves_of-list_to_binary_tree_from (suc fuel) default (a ∷ b ∷ rest) some_leaf enough =
      let xs = a ∷ b ∷ rest in
      let n = (length xs + 1) / 2 in
      let left_length : length (take n xs) ≡ n = length-take n xs (omega arith) in
      let right_length : length (drop n xs) ≡ length xs - n = length-drop n xs in
      ap₂ ◌++◌
        (leaves_of-list_to_binary_tree_from fuel default (take n xs) (omega arith) (omega arith))
        (leaves_of-list_to_binary_tree_from fuel default (drop n xs) (omega arith) (omega arith))
      ∙ take-append-drop n xs

  -- The leaves of the tree of a list with an element are that list, in its order.
  pub leaves_of-list_to_binary_tree :
      (default x : T) (xs : List T) → leaves_of (list_to_binary_tree default (x ∷ xs)) ≡ x ∷ xs
  unfolding list_to_binary_tree
  leaves_of-list_to_binary_tree default x xs =
      leaves_of-list_to_binary_tree_from (length (x ∷ xs)) default (x ∷ xs) (omega arith)
        (omega arith)
