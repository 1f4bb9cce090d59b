-- ===== src/MerkleTree/Tests.antt =====
-- Runs of crates/chia-sdk-driver/src/merkle_tree.rs on three leaves, and its theorems at those inputs.
use chia_wallet_sdk.Prelude.{
  ◌+◌, ◌*◌, ◌≤◌, ◌≡◌, refl, none, some, List, [], ◌∷◌, arith, length, nat_eq,
}
use chia_wallet_sdk.Prelude.IndexMap.{lookup, insert}
use chia_wallet_sdk.Protocol.{Bytes32, Bytes}
use chia_wallet_sdk.MerkleTree.{
  Proof, MerkleTree, new, build_merkle_tree, build_merkle_tree_from_binary_tree,
  list_to_binary_tree, list_to_binary_tree_from, extend_left, extend_right, get_proof, leaf_hash,
  node_hash,
}
use chia_wallet_sdk.MerkleTree.Proofs.{Verifies, get_proof-Verifies, get_proof-none}
use chia_wallet_sdk.MerkleTree.Depth.{length-get_proof-le}

abbrev digits : Bytes → Bytes32
digits [] = 7
digits (b ∷ bytes) = b + 10 * digits bytes

abbrev one_byte : Bytes32 → Bytes
one_byte n = n ∷ []

abbrev three : List Bytes32
three = 11 ∷ 12 ∷ 13 ∷ []

abbrev tree : MerkleTree
unfolding new build_merkle_tree build_merkle_tree_from_binary_tree list_to_binary_tree
    list_to_binary_tree_from extend_left extend_right lookup insert get_proof
tree = new digits one_byte three

-- The last of three leaves is the right child of the root.
third_proof :
    get_proof (new digits one_byte three) 13
    ≡ some (
      1,
      node_hash digits one_byte (leaf_hash digits one_byte 11) (leaf_hash digits one_byte 12) ∷ [],
    )
unfolding tree
third_proof = refl

get_proof-Verifies_example :
    (proof : Proof) × (get_proof (new digits one_byte three) 12 ≡ some proof)
    × Verifies digits one_byte (new digits one_byte three).root 12 proof
get_proof-Verifies_example = get_proof-Verifies digits one_byte three 12 refl

get_proof-none_example : get_proof (new digits one_byte three) 14 ≡ none
get_proof-none_example = get_proof-none digits one_byte three 14 refl

length-get_proof-le_example :
    length
      (node_hash digits one_byte (leaf_hash digits one_byte 11) (leaf_hash digits one_byte 12) ∷ [])
    ≤ 2
length-get_proof-le_example =
    length-get_proof-le digits one_byte 2 three 13 1
      (node_hash digits one_byte (leaf_hash digits one_byte 11) (leaf_hash digits one_byte 12) ∷ [])
      (omega arith) third_proof
