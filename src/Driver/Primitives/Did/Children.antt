-- ===== src/Driver/Primitives/Did/Children.antt =====
-- The child that crates/chia-sdk-driver/src/primitives/did.rs parses of a DID.
use chia_wallet_sdk.Prelude.{
  ℕ, ◌≡◌, refl, true, Option, some, List, ◌==◌, inl, inr, Option-cases, arith,
}
use chia_wallet_sdk.Protocol.{Bytes32, Coin, ok, Result-cases}
use chia_wallet_sdk.Conditions.{Condition}
use chia_wallet_sdk.Driver.Clvm.{Clvm, IsClvm, Codec}
use chia_wallet_sdk.Driver.Context.{Mods, extract}
use chia_wallet_sdk.Driver.Puzzle.{Puzzle, parse, parse-lem}
use chia_wallet_sdk.Driver.Puzzles.{
  SingletonStruct, SingletonArgs, SingletonSolution, DidArgs, DidSolution, Constructors,
}
use chia_wallet_sdk.Driver.Layer.{curried_args}
use chia_wallet_sdk.Driver.Layers.Singleton as SingletonLayers
use chia_wallet_sdk.Driver.Layers.Did.{DidLayer}
use chia_wallet_sdk.Driver.Layers.Did as DidLayers
use chia_wallet_sdk.Driver.Layers.Value as Value
use chia_wallet_sdk.Driver.Layers.Value.{ptr_layer, puzzle_layer}
use chia_wallet_sdk.Driver.Primitives.Cat.{CreateCoin, into_create_coin, filter_map}
use chia_wallet_sdk.Driver.Primitives.Outer.{outer_parsed}
use chia_wallet_sdk.Driver.Primitives.Did.{
  Did, Hashes, from_layers, into_layers, info_with_metadata, with_p2_puzzle_hash, inner_puzzle_hash,
  child_lineage_proof, wrapped_child, inner_layer, did_layers, hint_of, odd_of, child_from,
  parse_child,
}

module _ {T E M R : Type 0} (c : Clvm T E) (mods : Mods) (new : Constructors T)
    (new_did_args : T → Option Bytes32 → ℕ → SingletonStruct → M → DidArgs T M)
    (singleton_codec : Codec T E (SingletonArgs T))
    (singleton_solution_codec : Codec T E (SingletonSolution T))
    (did_codec : Codec T E (DidArgs T M)) (did_solution_codec : Codec T E (DidSolution R T))
    (lawful : IsClvm c) where
  -- A DID layer around a node pointer is parsed as one around the puzzle that it points to.
  inner_parsed :
      (p : Puzzle T) (l : DidLayer M T)
      → (inner_layer c mods new new_did_args singleton_codec singleton_solution_codec did_codec
            did_solution_codec ptr_layer).parse_puzzle
          p
        ≡ ok (some l)
      → (inner_layer c mods new new_did_args singleton_codec singleton_solution_codec did_codec
            did_solution_codec puzzle_layer).parse_puzzle
          p
        ≡ ok (
            some (record {
              launcher_id = l.launcher_id;
              recovery_list_hash = l.recovery_list_hash;
              num_verifications_required = l.num_verifications_required;
              metadata = l.metadata;
              inner_puzzle = parse c l.inner_puzzle;
            }))
  unfolding DidLayers.parse_puzzle Value.parse_puzzle extract
  inner_parsed p l h = elim (Result-cases (curried_args c did_codec mods.did_inner.hash p)) [
    | inr (failure, e) ↦ ground (arith, e)
    | inl (found, e) ↦ elim (Option-cases found) [
      | inl f ↦ ground (arith, e, f)
      | inr (args, f) ↦
          let (same, _) = parse-lem c lawful args.inner_puzzle in ground (arith, e, f, same)
    ]
  ]

  module _ (conditions_codec : Codec T E (List (Condition T))) (metadata_codec : Codec T E M)
      (hashes : Hashes) (metadata_hash : M → Bytes32) (coin_id : Coin → Bytes32) where
    -- The DID around a puzzle of its owner is taken for the child's parent.
    child_of_layers :
        (did : Did M) (coin : Coin) (k metadata_ptr : T) (conditions : List (Condition T))
        (created : CreateCoin) (hint : Bytes32) (p : T)
        → c.tree_hash k ≡ did.info.p2_puzzle_hash
        → odd_of (filter_map into_create_coin conditions) ≡ some created
        → hint_of created.memos ≡ some hint
        → metadata_codec.encode did.info.metadata ≡ ok metadata_ptr
        → c.tree_hash metadata_ptr ≡ metadata_hash did.info.metadata
        → coin
          ≡ (wrapped_child new hashes metadata_hash metadata_hash coin_id did hint
              did.info.metadata).coin
        → child_from c mods new new_did_args singleton_codec singleton_solution_codec did_codec
            did_solution_codec conditions_codec metadata_codec hashes did.coin coin
            (record { launcher_id = did.info.launcher_id; inner_puzzle = parse c p })
            (record {
              launcher_id = did.info.launcher_id;
              recovery_list_hash = did.info.recovery_list_hash;
              num_verifications_required = did.info.num_verifications_required;
              metadata = did.info.metadata;
              inner_puzzle = parse c k;
            })
            conditions
          ≡ ok (
              some (
                wrapped_child new hashes metadata_hash metadata_hash coin_id did hint
                  did.info.metadata))
    unfolding child_from wrapped_child from_layers info_with_metadata with_p2_puzzle_hash
        inner_puzzle_hash child_lineage_proof DidLayers.tree_hash DidLayers.with_metadata
    child_of_layers did coin k metadata_ptr conditions created hint p hashed odd hinted encoded
          hashed' same_coin =
        let (_, same) = parse-lem c lawful k in
        rw (odd, child_from)
          (rw hinted (rw encoded (rw same (rw hashed (rw hashed' (rw same_coin refl))))))

    -- The coin that follows a DID is parsed as what `wrapped_child` gives for the hint: if the parent's
    -- puzzle is parsed as the layers of the DID around a puzzle with its hash, its inner puzzle runs on
    -- the inner solution to conditions whose first coin with an odd amount has that hint, and the
    -- metadata is encoded with its hash.
    pub parse_child-wrapped_child :
        (did : Did M) (coin : Coin) (p : Puzzle T) (k t metadata_ptr output : T)
        (args : SingletonArgs T) (solution : SingletonSolution T) (conditions : List (Condition T))
        (created : CreateCoin) (hint : Bytes32)
        → (did_layers c mods new new_did_args singleton_codec singleton_solution_codec did_codec
              did_solution_codec).parse_puzzle
            p
          ≡ ok (some (into_layers did.info k))
        → c.tree_hash k ≡ did.info.p2_puzzle_hash
        → curried_args c singleton_codec mods.singleton_top_layer.hash p ≡ ok (some args)
        → extract singleton_solution_codec t ≡ ok solution
        → c.run_puzzle args.inner_puzzle solution.inner_solution ≡ ok output
        → extract conditions_codec output ≡ ok conditions
        → odd_of (filter_map into_create_coin conditions) ≡ some created
        → hint_of created.memos ≡ some hint
        → metadata_codec.encode did.info.metadata ≡ ok metadata_ptr
        → c.tree_hash metadata_ptr ≡ metadata_hash did.info.metadata
        → coin
          ≡ (wrapped_child new hashes metadata_hash metadata_hash coin_id did hint
              did.info.metadata).coin
        → parse_child c mods new new_did_args singleton_codec singleton_solution_codec did_codec
            did_solution_codec conditions_codec metadata_codec hashes did.coin p t coin
          ≡ ok (
              some (
                wrapped_child new hashes metadata_hash metadata_hash coin_id did hint
                  did.info.metadata))
    unfolding parse_child into_layers SingletonLayers.parse_solution
    parse_child-wrapped_child did coin p k t metadata_ptr output args solution conditions created
          hint parsed hashed found solved runs decoded odd hinted encoded hashed' same_coin =
        let (outer, inner) =
          outer_parsed c mods new singleton_codec singleton_solution_codec
            (inner_layer c mods new new_did_args singleton_codec singleton_solution_codec did_codec
              did_solution_codec ptr_layer)
            p args (into_layers did.info k) parsed found in
        let inner' =
          inner_parsed (parse c args.inner_puzzle) (into_layers did.info k).inner_puzzle inner in
        let (there, _) = parse-lem c lawful args.inner_puzzle in
        let child =
          child_of_layers did coin k metadata_ptr conditions created hint args.inner_puzzle hashed
            odd hinted encoded hashed' same_coin in
        let same_id : (did.info.launcher_id == did.info.launcher_id) ≡ true = ground arith in
        rw outer (rw inner' (rw same_id (rw solved (rw there (rw runs (rw decoded child))))))
