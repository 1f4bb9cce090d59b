-- ===== src/MerkleTree/Depth.antt =====
-- The length of the proofs of crates/chia-sdk-driver/src/merkle_tree.rs, which keeps their paths within
-- a `u32`.
use chia_wallet_sdk.Prelude.{
  ℕ, zero, suc, ◌+◌, ◌*◌, ◌/◌, ◌^◌, ◌≤◌, ◌≡◌, max, List, [], ◌∷◌, some, arith, length,
  length-append, take, drop,
}
use chia_wallet_sdk.Prelude.IndexMap.{insert, Entries, Entries-imp, Entries-lookup}
use native.Mathlib.Nat.{pow-suc}
use chia_wallet_sdk.Protocol.{Bytes32, Bytes}
use chia_wallet_sdk.MerkleTree.{
  Proof, BinaryTree, leaf, node, list_to_binary_tree_from, list_to_binary_tree, extend_left,
  build_merkle_tree_from_binary_tree, build_merkle_tree, new, get_proof,
}
use chia_wallet_sdk.MerkleTree.Leaves.{length-take, length-drop}
use chia_wallet_sdk.MerkleTree.Proofs.{extend_left-Entries, extend_right-Entries}

abbrev depth {ℓ} : {T : Type ℓ} → BinaryTree T → ℕ
depth (leaf t) = 0
depth (node l r) = suc (max (depth l) (depth r))

depth-list_to_binary_tree_from {ℓ} :
    {T : Type ℓ} (n fuel : ℕ) (default : T) (xs : List T)
    → length xs ≤ 2 ^ n
    → depth (list_to_binary_tree_from fuel default xs) ≤ n
unfolding list_to_binary_tree_from
depth-list_to_binary_tree_from n zero default xs h = omega arith
depth-list_to_binary_tree_from n (suc fuel) default [] h = omega arith
depth-list_to_binary_tree_from n (suc fuel) default (x ∷ []) h = omega arith
depth-list_to_binary_tree_from zero (suc fuel) default (a ∷ b ∷ rest) h = absurd (omega arith)
depth-list_to_binary_tree_from (suc n) (suc fuel) default (a ∷ b ∷ rest) h =
    let xs = a ∷ b ∷ rest in
    let m = (length xs + 1) / 2 in
    let room : length xs ≤ 2 * 2 ^ n = omega (arith, pow-suc 2 n) in
    let left =
      depth-list_to_binary_tree_from n fuel default (take m xs)
        (omega (arith, length-take m xs (omega arith))) in
    let right =
      depth-list_to_binary_tree_from n fuel default (drop m xs) (omega (arith, length-drop m xs)) in
    omega (arith, left, right)

abbrev Within : ℕ → ℕ → Proof → Type 0
Within n l (path, proof) = length proof ≤ n

module _ (hash : Bytes → Bytes32) (to_bytes : Bytes32 → Bytes) where
  build-Within :
      (t : BinaryTree Bytes32)
      → Entries (Within (depth t)) (build_merkle_tree_from_binary_tree hash to_bytes t).1
  unfolding build_merkle_tree_from_binary_tree insert
  build-Within (leaf l) = (omega arith, tt)
  build-Within (node left right) =
      let l = build_merkle_tree_from_binary_tree hash to_bytes left in
      let r = build_merkle_tree_from_binary_tree hash to_bytes right in
      let deep = suc (max (depth left) (depth right)) in
      extend_right-Entries (Within (depth right)) (Within deep) l.0
        (λ k path proof h. omega (arith, length-append proof (l.0 ∷ []))) r.1
        (extend_left r.0 l.1 []) (build-Within right)
        (extend_left-Entries (Within (depth left)) (Within deep) r.0
          (λ k path proof h. omega (arith, length-append proof (r.0 ∷ []))) l.1 []
          (build-Within left) tt)

  new-Within :
      (n : ℕ) (leaves : List Bytes32)
      → length leaves ≤ 2 ^ n
      → Entries (Within n) (new hash to_bytes leaves).proofs
  unfolding new build_merkle_tree list_to_binary_tree
  new-Within n [] h = tt
  new-Within n (x ∷ xs) h =
      let t = list_to_binary_tree 0 (x ∷ xs) in
      let shallow = depth-list_to_binary_tree_from n (length (x ∷ xs)) 0 (x ∷ xs) h in
      Entries-imp (Within (depth t)) (Within n) (λ l proof g. omega (arith, g, shallow))
        (build_merkle_tree_from_binary_tree hash to_bytes t).1 (build-Within t)

  -- The proofs of at most 2 ^ n leaves have at most n hashes.
  pub length-get_proof-le :
      (n : ℕ) (leaves : List Bytes32) (l path : ℕ) (proof : List Bytes32)
      → length leaves ≤ 2 ^ n
      → get_proof (new hash to_bytes leaves) l ≡ some (path, proof)
      → length proof ≤ n
  unfolding get_proof
  length-get_proof-le n leaves l path proof h e =
      Entries-lookup (Within n) l (path, proof) (new hash to_bytes leaves).proofs
        (new-Within n leaves h) e
