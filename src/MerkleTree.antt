-- ===== src/MerkleTree.antt =====
-- crates/chia-sdk-driver/src/merkle_tree.rs: the root and the proofs of a list of leaves. The hash and
-- the bytes of a hash are parameters.
use chia_wallet_sdk.Prelude.{
  ℕ, zero, suc, ◌+◌, ◌/◌, ◌%◌, ◌^◌, Option, none, some, List, [], ◌∷◌, ◌++◌, arith, ◌==◌,
  if◌then◌else◌, length, take, drop,
}
use chia_wallet_sdk.Prelude.IndexMap.{IndexMap, lookup, insert}
use chia_wallet_sdk.Protocol.{Bytes32, Bytes}
pub mod Leaves
pub mod Path
pub mod Proofs
pub mod Depth
pub mod Tests

-- A path and a proof.
abbrev pub Proof : Type 0
Proof = ℕ × List Bytes32

pub record MerkleTree : Type 0 where
  pub root : Bytes32
  pub proofs : IndexMap Proof

pub data BinaryTree {ℓ} (T : Type ℓ) : Type ℓ where
  leaf : T → BinaryTree T
  node : BinaryTree T → BinaryTree T → BinaryTree T

-- The halves are shorter than the list, so that its length is fuel enough.
unfoldable pub list_to_binary_tree_from {ℓ} : {T : Type ℓ} → ℕ → T → List T → BinaryTree T
list_to_binary_tree_from zero default objects = leaf default
list_to_binary_tree_from (suc fuel) default [] = leaf default
list_to_binary_tree_from (suc fuel) default (object ∷ []) = leaf object
list_to_binary_tree_from (suc fuel) default (a ∷ b ∷ rest) =
    let objects = a ∷ b ∷ rest in
    let midpoint = (length objects + 1) / 2 in
    node (list_to_binary_tree_from fuel default (take midpoint objects))
      (list_to_binary_tree_from fuel default (drop midpoint objects))

unfoldable pub list_to_binary_tree {ℓ} : {T : Type ℓ} → T → List T → BinaryTree T
list_to_binary_tree default objects = list_to_binary_tree_from (length objects) default objects

-- `path | (1 << n)`, on a `u32` for n below 32.
abbrev pub set_bit : ℕ → ℕ → ℕ
set_bit n path = if (path / 2 ^ n) % 2 == 1 then path else path + 2 ^ n

-- The loops over the proofs of the two halves.
unfoldable pub extend_left : Bytes32 → IndexMap Proof → IndexMap Proof → IndexMap Proof
extend_left right_root [] new_proofs = new_proofs
extend_left right_root ((name, (path, proof)) ∷ rest) new_proofs =
    extend_left right_root rest (insert name (path, proof ++ right_root ∷ []) new_proofs)

unfoldable pub extend_right : Bytes32 → IndexMap Proof → IndexMap Proof → IndexMap Proof
extend_right left_root [] new_proofs = new_proofs
extend_right left_root ((name, (path, proof)) ∷ rest) new_proofs =
    extend_right left_root rest
      (insert name (set_bit (length proof) path, proof ++ left_root ∷ []) new_proofs)

module _ (hash : Bytes → Bytes32) (to_bytes : Bytes32 → Bytes) where
  -- `sha256(&[HASH_LEAF_PREFIX, leaf])`
  abbrev pub leaf_hash : Bytes32 → Bytes32
  leaf_hash t = hash (1 ∷ to_bytes t)

  -- `sha256(&[HASH_TREE_PREFIX, left, right])`
  abbrev pub node_hash : Bytes32 → Bytes32 → Bytes32
  node_hash l r = hash (2 ∷ to_bytes l ++ to_bytes r)

  unfoldable pub build_merkle_tree_from_binary_tree : BinaryTree Bytes32 → Bytes32 × IndexMap Proof
  build_merkle_tree_from_binary_tree (leaf t) = (leaf_hash t, insert t (0, []) [])
  build_merkle_tree_from_binary_tree (node left right) =
      let (left_root, left_proofs) = build_merkle_tree_from_binary_tree left in
      let (right_root, right_proofs) = build_merkle_tree_from_binary_tree right in
      (
        node_hash left_root right_root,
        extend_right left_root right_proofs (extend_left right_root left_proofs []),
      )

  unfoldable pub build_merkle_tree : List Bytes32 → Bytes32 × IndexMap Proof
  build_merkle_tree leaves = build_merkle_tree_from_binary_tree (list_to_binary_tree 0 leaves)

  unfoldable pub new : List Bytes32 → MerkleTree
  new [] = record { root = 0; proofs = [] }
  new (l ∷ leaves) =
      let (root, proofs) = build_merkle_tree (l ∷ leaves) in record { root = root; proofs = proofs }

unfoldable pub get_proof : MerkleTree → Bytes32 → Option Proof
get_proof tree l = lookup l tree.proofs
