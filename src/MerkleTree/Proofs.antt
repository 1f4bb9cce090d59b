-- ===== src/MerkleTree/Proofs.antt =====
-- `get_proof` of crates/chia-sdk-driver/src/merkle_tree.rs: every leaf has a proof that leads to the
-- root, and nothing else has one.
use chia_wallet_sdk.Prelude.{
  ℕ, suc, ◌*◌, ◌^◌, ◌<◌, ◌≡◌, refl, ap, ◌∙◌, true, false, ◌||◌, none, some, List, [], ◌∷◌, ◌++◌,
  arith, length, length-append, contains, contains-append, nat_eq,
}
use chia_wallet_sdk.Prelude.IndexMap.{
  IndexMap, lookup, insert, contains_key, contains_key_iff, lookup-insert, Entries, Entries-insert,
  Entries-lookup,
}
use native.Mathlib.Nat.{pow-suc}
use chia_wallet_sdk.Protocol.{Bytes32, Bytes}
use chia_wallet_sdk.MerkleTree.{
  Proof, BinaryTree, leaf, node, list_to_binary_tree, extend_left, extend_right, set_bit, leaf_hash,
  node_hash, build_merkle_tree_from_binary_tree, build_merkle_tree, new, get_proof,
}
use chia_wallet_sdk.MerkleTree.Leaves.{leaves_of, leaves_of-list_to_binary_tree}
use chia_wallet_sdk.MerkleTree.Path.{climb, climb-append_left, climb-append_right, set_bit_new}

module _ {κ} (Old New : ℕ → Proof → Type κ) (sibling : Bytes32) where
  pub extend_left-Entries :
      ((l path : ℕ) (proof : List Bytes32)
        → Old l (path, proof)
        → New l (path, proof ++ sibling ∷ []))
      → (proofs acc : IndexMap Proof) → Entries Old proofs
      → Entries New acc
      → Entries New (extend_left sibling proofs acc)
  unfolding extend_left
  extend_left-Entries step [] acc old done = done
  extend_left-Entries step ((l, (path, proof)) ∷ rest) acc old done =
      extend_left-Entries step rest (insert l (path, proof ++ sibling ∷ []) acc) old.1
        (Entries-insert New l (path, proof ++ sibling ∷ []) acc (step l path proof old.0) done)

  pub extend_right-Entries :
      ((l path : ℕ) (proof : List Bytes32)
        → Old l (path, proof)
        → New l (set_bit (length proof) path, proof ++ sibling ∷ []))
      → (proofs acc : IndexMap Proof) → Entries Old proofs
      → Entries New acc
      → Entries New (extend_right sibling proofs acc)
  unfolding extend_right
  extend_right-Entries step [] acc old done = done
  extend_right-Entries step ((l, (path, proof)) ∷ rest) acc old done =
      let entry : Proof = (set_bit (length proof) path, proof ++ sibling ∷ []) in
      extend_right-Entries step rest (insert l entry acc) old.1
        (Entries-insert New l entry acc (step l path proof old.0) done)

contains_key-extend_left :
    (l sibling : ℕ) (proofs acc : IndexMap Proof)
    → contains_key l (extend_left sibling proofs acc)
      ≡ (contains_key l proofs || contains_key l acc)
unfolding extend_left contains_key
contains_key-extend_left l sibling [] acc = refl
contains_key-extend_left l sibling ((name, (path, proof)) ∷ rest) acc = ground (
  arith,
  contains_key-extend_left l sibling rest (insert name (path, proof ++ sibling ∷ []) acc),
  lookup-insert name l (path, proof ++ sibling ∷ []) acc,
)

contains_key-extend_right :
    (l sibling : ℕ) (proofs acc : IndexMap Proof)
    → contains_key l (extend_right sibling proofs acc)
      ≡ (contains_key l proofs || contains_key l acc)
unfolding extend_right contains_key
contains_key-extend_right l sibling [] acc = refl
contains_key-extend_right l sibling ((name, (path, proof)) ∷ rest) acc =
    let entry : Proof = (set_bit (length proof) path, proof ++ sibling ∷ []) in
    ground (
      arith,
      contains_key-extend_right l sibling rest (insert name entry acc),
      lookup-insert name l entry acc,
    )

module _ (hash : Bytes → Bytes32) (to_bytes : Bytes32 → Bytes) where
  -- The proof of a leaf leads from its hash to the root.
  abbrev pub Verifies : Bytes32 → Bytes32 → Proof → Type 0
  Verifies root l (path, proof) =
      (path < 2 ^ length proof)
      × (climb hash to_bytes path proof (leaf_hash hash to_bytes l) ≡ root)

  two_pow-append :
      (proof : List Bytes32) (sibling : Bytes32)
      → 2 ^ length (proof ++ sibling ∷ []) ≡ 2 * 2 ^ length proof
  two_pow-append proof sibling =
      let longer : length (proof ++ sibling ∷ []) ≡ suc (length proof) =
        omega (arith, length-append proof (sibling ∷ [])) in
      rw longer (omega (arith, pow-suc 2 (length proof)))

  Verifies-left :
      (left right l path : ℕ) (proof : List Bytes32)
      → Verifies left l (path, proof)
      → Verifies (node_hash hash to_bytes left right) l (path, proof ++ right ∷ [])
  Verifies-left left right l path proof (low, root) = (
    omega (arith, two_pow-append proof right),
    climb-append_left hash to_bytes path proof right (leaf_hash hash to_bytes l) low
        ∙ ap (λ h. node_hash hash to_bytes h right) root,
  )

  Verifies-right :
      (left right l path : ℕ) (proof : List Bytes32)
      → Verifies right l (path, proof)
      → Verifies
          (node_hash hash to_bytes left right)
          l
          (set_bit (length proof) path, proof ++ left ∷ [])
  Verifies-right left right l path proof (low, root) = rw (set_bit_new (length proof) path low) (
    omega (arith, two_pow-append proof left),
    climb-append_right hash to_bytes path proof left (leaf_hash hash to_bytes l) low
        ∙ ap (λ h. node_hash hash to_bytes left h) root,
  )

  build-Verifies :
      (t : BinaryTree Bytes32)
      → let built = build_merkle_tree_from_binary_tree hash to_bytes t in
        Entries (Verifies built.0) built.1
  unfolding build_merkle_tree_from_binary_tree insert
  build-Verifies (leaf l) = ((omega arith, refl), tt)
  build-Verifies (node left right) =
      let l = build_merkle_tree_from_binary_tree hash to_bytes left in
      let r = build_merkle_tree_from_binary_tree hash to_bytes right in
      let root = node_hash hash to_bytes l.0 r.0 in
      extend_right-Entries (Verifies r.0) (Verifies root) l.0 (Verifies-right l.0 r.0) r.1
        (extend_left r.0 l.1 []) (build-Verifies right)
        (extend_left-Entries (Verifies l.0) (Verifies root) r.0 (Verifies-left l.0 r.0) l.1 []
          (build-Verifies left) tt)

  contains_key-build :
      (l : Bytes32) (t : BinaryTree Bytes32)
      → contains_key l (build_merkle_tree_from_binary_tree hash to_bytes t).1
        ≡ contains (leaves_of t) l
  unfolding build_merkle_tree_from_binary_tree
  contains_key-build l (leaf t) = unfold contains_key lookup insert in ground arith
  contains_key-build l (node left right) =
      let a = build_merkle_tree_from_binary_tree hash to_bytes left in
      let b = build_merkle_tree_from_binary_tree hash to_bytes right in
      let empty : contains_key {V = Proof} l [] ≡ false = unfold contains_key lookup in refl in
      ground (
        arith,
        contains_key-extend_right l a.0 b.1 (extend_left b.0 a.1 []),
        contains_key-extend_left l b.0 a.1 [],
        empty,
        contains_key-build l left,
        contains_key-build l right,
        contains-append (leaves_of left) (leaves_of right) l,
      )

  -- The proofs are for the leaves.
  contains_key-new :
      (leaves : List Bytes32) (l : Bytes32)
      → contains_key l (new hash to_bytes leaves).proofs ≡ contains leaves l
  unfolding new build_merkle_tree
  contains_key-new [] l = unfold contains_key lookup in refl
  contains_key-new (x ∷ xs) l =
      contains_key-build l (list_to_binary_tree 0 (x ∷ xs))
      ∙ ap (λ ls. contains ls l) (leaves_of-list_to_binary_tree 0 x xs)

  new-Verifies :
      (leaves : List Bytes32)
      → Entries (Verifies (new hash to_bytes leaves).root) (new hash to_bytes leaves).proofs
  unfolding new build_merkle_tree
  new-Verifies [] = tt
  new-Verifies (x ∷ xs) = build-Verifies (list_to_binary_tree 0 (x ∷ xs))

  -- Every leaf of the list has a proof: a path of as many bits as the proof has hashes, which leads
  -- from the hash of the leaf to the root.
  pub get_proof-Verifies :
      (leaves : List Bytes32) (l : Bytes32)
      → contains leaves l ≡ true
      → (proof : Proof) × (get_proof (new hash to_bytes leaves) l ≡ some proof)
        × Verifies (new hash to_bytes leaves).root l proof
  unfolding get_proof
  get_proof-Verifies leaves l h =
      let (proof, found) =
        contains_key_iff l (new hash to_bytes leaves).proofs (contains_key-new leaves l ∙ h) in
      let tree = new hash to_bytes leaves in
      (
        proof,
        found,
        Entries-lookup (Verifies tree.root) l proof tree.proofs (new-Verifies leaves) found,
      )

  -- Only the leaves of the list have proofs.
  pub get_proof-none :
      (leaves : List Bytes32) (l : Bytes32)
      → contains leaves l ≡ false
      → get_proof (new hash to_bytes leaves) l ≡ none
  unfolding get_proof contains_key
  get_proof-none leaves l h = ground (arith, contains_key-new leaves l)
