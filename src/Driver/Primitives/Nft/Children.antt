-- ===== src/Driver/Primitives/Nft/Children.antt =====
-- The child that crates/chia-sdk-driver/src/primitives/nft.rs parses of an NFT.
use chia_wallet_sdk.Prelude.{
  ◌≡◌, refl, ap, ◌∙◌, Option, none, some, List, inl, inr, Option-cases, arith,
}
use chia_wallet_sdk.Protocol.{Bytes32, Coin, ok, Result-cases}
use chia_wallet_sdk.Conditions.{Condition}
use chia_wallet_sdk.Driver.Clvm.{Clvm, IsClvm, Codec}
use chia_wallet_sdk.Driver.Context.{Mods, extract}
use chia_wallet_sdk.Driver.Puzzle.{Puzzle, parse, parse-lem}
use chia_wallet_sdk.Driver.Puzzles.{SingletonArgs, Constructors}
use chia_wallet_sdk.Driver.Layer.{curried_args}
use chia_wallet_sdk.Driver.Layers.Singleton as Singletons
use chia_wallet_sdk.Driver.Layers.NftState as States
use chia_wallet_sdk.Driver.Layers.NftState.{NftStateLayer, NewMetadataOutput}
use chia_wallet_sdk.Driver.Layers.NftOwnership.{NftOwnershipLayer}
use chia_wallet_sdk.Driver.Layers.NftOwnership as Ownerships
use chia_wallet_sdk.Driver.Layers.RoyaltyTransfer.{RoyaltyTransferLayer}
use chia_wallet_sdk.Driver.Layers.RoyaltyTransfer as Royalty
use chia_wallet_sdk.Driver.Layers.Value as Value
use chia_wallet_sdk.Driver.Layers.Value.{ptr_layer, puzzle_layer}
use chia_wallet_sdk.Driver.Primitives.Cat.{CreateCoin}
use chia_wallet_sdk.Driver.Primitives.Outer.{outer_parsed}
use chia_wallet_sdk.Driver.Primitives.Nft.{
  Nft, Hashes, from_layers, into_layers, info_with_metadata, with_p2_puzzle_hash, with_owner,
  inner_puzzle_hash, child_lineage_proof, wrapped_child, royalty_of,
}
use chia_wallet_sdk.Driver.Primitives.Nft.Parse.{
  Codecs, NftSolution, TransferNft, find_all, nothing_found, state_layer, nft_layers, update_owner,
  update_metadata, child_from, parse_child,
}

module _ {T E M : Type 0} (c : Clvm T E) (mods : Mods) (new : Constructors T)
    (codecs : Codecs T E M) (lawful : IsClvm c) where
  -- An ownership layer around a node pointer is parsed as one around the puzzle that it points to.
  ownership_parsed :
      (p : Puzzle T) (l : NftOwnershipLayer RoyaltyTransferLayer T)
      → Ownerships.parse_puzzle c mods new codecs.ownership_args codecs.ownership_solution
          (Royalty.royalty_transfer_layer c mods new codecs.royalty_args codecs.panicked)
          ptr_layer
          p
        ≡ ok (some l)
      → Ownerships.parse_puzzle c mods new codecs.ownership_args codecs.ownership_solution
          (Royalty.royalty_transfer_layer c mods new codecs.royalty_args codecs.panicked)
          puzzle_layer
          p
        ≡ ok (
            some (record {
              current_owner = l.current_owner;
              transfer_layer = l.transfer_layer;
              inner_puzzle = parse c l.inner_puzzle;
            }))
  unfolding Ownerships.parse_puzzle Value.parse_puzzle extract
  ownership_parsed p l h =
      elim (Result-cases (curried_args c codecs.ownership_args mods.nft_ownership_layer.hash p)) [
        | inr (failure, e) ↦ ground (arith, e)
        | inl (found, e) ↦ elim (Option-cases found) [
          | inl f ↦ ground (arith, e, f)
          | inr (args, f) ↦
              let (same, _) = parse-lem c lawful args.inner_puzzle in
              elim (Result-cases (
                Royalty.parse_puzzle c mods new codecs.royalty_args codecs.panicked
                  (parse c args.transfer_program))) [
                    | inr (failure, g) ↦ ground (arith, e, f, g)
                    | inl (transfer, g) ↦ elim (Option-cases transfer) [
                      | inl k ↦ ground (arith, e, f, g, k)
                      | inr (royalty, k) ↦ ground (arith, e, f, g, k, same)
                    ]
                  ]
        ]
      ]

  -- So is a state layer around it.
  state_parsed :
      (p : Puzzle T) (l : NftStateLayer M (NftOwnershipLayer RoyaltyTransferLayer T))
      → (state_layer c mods new codecs ptr_layer).parse_puzzle p ≡ ok (some l)
      → (state_layer c mods new codecs puzzle_layer).parse_puzzle p
        ≡ ok (
            some (record {
              metadata = l.metadata;
              metadata_updater_puzzle_hash = l.metadata_updater_puzzle_hash;
              inner_puzzle = record {
                current_owner = l.inner_puzzle.current_owner;
                transfer_layer = l.inner_puzzle.transfer_layer;
                inner_puzzle = parse c l.inner_puzzle.inner_puzzle;
              };
            }))
  unfolding States.parse_puzzle
  state_parsed p l h =
      elim (Result-cases (curried_args c codecs.state_args mods.nft_state_layer.hash p)) [
        | inr (failure, e) ↦ ground (arith, e)
        | inl (found, e) ↦ elim (Option-cases found) [
          | inl f ↦ ground (arith, e, f)
          | inr (args, f) ↦
              elim (Result-cases (
                Ownerships.parse_puzzle c mods new codecs.ownership_args codecs.ownership_solution
                  (Royalty.royalty_transfer_layer c mods new codecs.royalty_args codecs.panicked)
                  ptr_layer (parse c args.inner_puzzle))) [
                    | inr (failure, g) ↦ ground (arith, e, f, g)
                    | inl (ownership, g) ↦ elim (Option-cases ownership) [
                      | inl k ↦ ground (arith, e, f, g, k)
                      | inr (o, k) ↦
                          let there =
                            ownership_parsed (parse c args.inner_puzzle) o (g ∙ ap ok k) in
                          ground (arith, e, f, g, k, there)
                    ]
                  ]
        ]
      ]

  module _ (conditions_codec : Codec T E (List (Condition T)))
      (output_codec : Codec T E (NewMetadataOutput M T)) (hashes : Hashes)
      (metadata_hash : M → Bytes32) (coin_id : Coin → Bytes32) where
    -- The owner after a transfer, if there was one.
    abbrev pub owner_after : Option TransferNft → Nft M → Option Bytes32
    owner_after none nft = nft.info.current_owner
    owner_after (some t) nft = t.did_id

    -- The child of the layers around a puzzle, if the metadata is not updated.
    child_of_layers :
        (nft : Nft M) (j k : T) (created : CreateCoin) (transferred : Option TransferNft)
        → c.tree_hash j ≡ inner_puzzle_hash c mods hashes metadata_hash nft.info
        → created.amount ≡ nft.coin.amount
        → child_from c mods new codecs conditions_codec output_codec hashes metadata_hash coin_id
            nft.coin
            (record { launcher_id = nft.info.launcher_id; inner_puzzle = parse c j })
            (record {
              metadata = nft.info.metadata;
              metadata_updater_puzzle_hash = nft.info.metadata_updater_puzzle_hash;
              inner_puzzle = record {
                current_owner = nft.info.current_owner;
                transfer_layer = royalty_of nft.info;
                inner_puzzle = parse c k;
              };
            })
            (record { create_coin = some created; new_owner = transferred; new_metadata = none })
          ≡ ok (
              some (
                wrapped_child c mods hashes metadata_hash metadata_hash coin_id nft
                  created.puzzle_hash
                  (owner_after transferred nft)
                  nft.info.metadata))
    unfolding child_from update_owner update_metadata wrapped_child from_layers info_with_metadata
        with_owner with_p2_puzzle_hash child_lineage_proof inner_puzzle_hash
    child_of_layers nft j k created none hashed same_amount =
        let (_, same) = parse-lem c lawful j in rw same (rw hashed (rw same_amount refl))
    child_of_layers nft j k created (some t) hashed same_amount =
        let (_, same) = parse-lem c lawful j in rw same (rw hashed (rw same_amount refl))

    -- The child that is parsed of an NFT is what `wrapped_child` gives for the coin that it creates and
    -- the owner that it is transferred to: if the parent's puzzle is parsed as the layers of the NFT, its
    -- inner puzzle has their hash, and the puzzle of the owner runs on the solution of the innermost layer
    -- to conditions with a coin of the same, odd, amount and without an update of the metadata.
    pub parse_child-wrapped_nft :
        (nft : Nft M) (p : Puzzle T) (k t output : T) (args : SingletonArgs T)
        (solution : NftSolution T) (conditions : List (Condition T)) (created : CreateCoin)
        (transferred : Option TransferNft)
        → (nft_layers c mods new codecs ptr_layer).parse_puzzle p
          ≡ ok (some (into_layers nft.info k))
        → curried_args c codecs.singleton_args mods.singleton_top_layer.hash p ≡ ok (some args)
        → c.tree_hash args.inner_puzzle ≡ inner_puzzle_hash c mods hashes metadata_hash nft.info
        → (nft_layers c mods new codecs ptr_layer).parse_solution t ≡ ok solution
        → c.run_puzzle k solution.inner_solution.inner_solution.inner_solution ≡ ok output
        → extract conditions_codec output ≡ ok conditions
        → find_all nothing_found conditions
          ≡ record { create_coin = some created; new_owner = transferred; new_metadata = none }
        → created.amount ≡ nft.coin.amount
        → parse_child c mods new codecs conditions_codec output_codec hashes metadata_hash coin_id
            nft.coin p t
          ≡ ok (
              some (
                wrapped_child c mods hashes metadata_hash metadata_hash coin_id nft
                  created.puzzle_hash
                  (owner_after transferred nft)
                  nft.info.metadata))
    unfolding parse_child into_layers Singletons.parse_solution States.parse_solution
        Ownerships.parse_solution
    parse_child-wrapped_nft nft p k t output args solution conditions created transferred parsed
          found hashed solved runs decoded kept same_amount =
        let (outer, inner) =
          outer_parsed c mods new codecs.singleton_args codecs.singleton_solution
            (state_layer c mods new codecs ptr_layer) p args (into_layers nft.info k) parsed
            found in
        let inner' =
          state_parsed (parse c args.inner_puzzle) (into_layers nft.info k).inner_puzzle inner in
        let (there, _) = parse-lem c lawful k in
        let child =
          child_of_layers nft args.inner_puzzle k created transferred hashed same_amount in
        rw outer (rw inner' (rw solved (rw there (rw runs (rw decoded (rw kept child))))))
