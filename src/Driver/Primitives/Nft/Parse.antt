-- ===== src/Driver/Primitives/Nft/Parse.antt =====
-- How crates/chia-sdk-driver/src/primitives/nft.rs and nft/nft_info.rs parse an NFT and the child of one.
use chia_wallet_sdk.Prelude.{ℕ, ◌%◌, Option, none, some, List, [], ◌∷◌, ◌==◌, if◌then◌else◌}
use chia_wallet_sdk.Protocol.{Bytes32, Coin, Result, ok, err, ◌>>=◌}
use chia_wallet_sdk.Conditions.{Condition, create_coin, transfer_nft, update_nft_metadata}
use chia_wallet_sdk.Driver.Clvm.{Clvm, Codec, DriverError, missing_child, eval, try_to}
use chia_wallet_sdk.Driver.Context.{Mods, extract}
use chia_wallet_sdk.Driver.Puzzle.{Puzzle, ptr, curried_puzzle_hash}
use chia_wallet_sdk.Driver.Puzzles.{
  lineage, SingletonArgs, SingletonSolution, NftStateLayerArgs, NftStateLayerSolution,
  NftOwnershipLayerArgs, NftOwnershipLayerSolution, NftRoyaltyTransferPuzzleArgs, Constructors,
}
use chia_wallet_sdk.Driver.Layer.{Layer}
use chia_wallet_sdk.Driver.Wrapped.{if_some}
use chia_wallet_sdk.Driver.Layers.Value.{puzzle_layer}
use chia_wallet_sdk.Driver.Layers.Singleton.{SingletonLayer, singleton_layer}
use chia_wallet_sdk.Driver.Layers.NftState.{
  NftStateLayer, NewMetadataOutput, UpdateNftMetadata, nft_state_layer,
}
use chia_wallet_sdk.Driver.Layers.NftOwnership.{NftOwnershipLayer, nft_ownership_layer}
use chia_wallet_sdk.Driver.Layers.RoyaltyTransfer.{RoyaltyTransferLayer, royalty_transfer_layer}
use chia_wallet_sdk.Driver.Primitives.Cat.{CreateCoin}
use chia_wallet_sdk.Driver.Primitives.Nft.{
  Nft, NftInfo, NftLayers, Hashes, from_layers, inner_puzzle_hash, with_p2_puzzle_hash,
}

pub record TransferNft : Type 0 where
  pub did_id : Option Bytes32
  pub trade_prices : List (ℕ × Bytes32)
  pub did_inner_puzzle_hash : Option Bytes32

-- What the loop over the conditions keeps: the last of each kind.
pub record Found (T : Type 0) : Type 0 where
  pub create_coin : Option CreateCoin
  pub new_owner : Option TransferNft
  pub new_metadata : Option (UpdateNftMetadata T)

module _ {T : Type 0} where
  unfoldable pub find_one : Found T → Condition T → Found T
  find_one found (create_coin puzzle_hash amount memos) =
      if amount % 2 == 1
      then record found {
        create_coin = some (record { puzzle_hash = puzzle_hash; amount = amount; memos = memos });
      }
      else found
  find_one found (transfer_nft did_id trade_prices did_inner_puzzle_hash) = record found {
    new_owner = some (record {
      did_id = did_id;
      trade_prices = trade_prices;
      did_inner_puzzle_hash = did_inner_puzzle_hash;
    });
  }
  find_one found (update_nft_metadata updater_puzzle_reveal updater_solution) = record found {
    new_metadata = some (record {
      updater_puzzle_reveal = updater_puzzle_reveal;
      updater_solution = updater_solution;
    });
  }
  find_one found _ = found

  unfoldable pub find_all : Found T → List (Condition T) → Found T
  find_all found [] = found
  find_all found (condition ∷ conditions) = find_all (find_one found condition) conditions

  abbrev pub nothing_found : Found T
  nothing_found = record { create_coin = none; new_owner = none; new_metadata = none }

-- The codecs of the layers of an NFT, and what the panic of the royalty layer's solution leaves.
pub record Codecs (T E M : Type 0) : Type 0 where
  pub singleton_args : Codec T E (SingletonArgs T)
  pub singleton_solution : Codec T E (SingletonSolution T)
  pub state_args : Codec T E (NftStateLayerArgs T M)
  pub state_solution : Codec T E (NftStateLayerSolution T)
  pub ownership_args : Codec T E (NftOwnershipLayerArgs T)
  pub ownership_solution : Codec T E (NftOwnershipLayerSolution T)
  pub royalty_args : Codec T E NftRoyaltyTransferPuzzleArgs
  pub panicked : Result (DriverError E) (⊥)

-- The solution of an NFT around another solution.
abbrev pub NftSolution : Type 0 → Type 0
NftSolution S = SingletonSolution (NftStateLayerSolution (NftOwnershipLayerSolution S))

module _ {T E M : Type 0} (c : Clvm T E) (mods : Mods) (new : Constructors T)
    (codecs : Codecs T E M) where
  abbrev pub state_layer :
      {I : Type 0}
      → Layer T E I T
      → Layer T E
          (NftStateLayer M (NftOwnershipLayer RoyaltyTransferLayer I))
          (NftStateLayerSolution (NftOwnershipLayerSolution T))
  state_layer inner = nft_state_layer c mods codecs.state_args codecs.state_solution (
      nft_ownership_layer c mods new codecs.ownership_args codecs.ownership_solution
        (royalty_transfer_layer c mods new codecs.royalty_args codecs.panicked) inner)

  abbrev pub nft_layers : {I : Type 0} → Layer T E I T → Layer T E (NftLayers M I) (NftSolution T)
  nft_layers inner =
      singleton_layer c mods new codecs.singleton_args codecs.singleton_solution (state_layer inner)

  abbrev pub outer_layer : Layer T E (SingletonLayer (Puzzle T)) (SingletonSolution T)
  outer_layer =
      singleton_layer c mods new codecs.singleton_args codecs.singleton_solution puzzle_layer

  unfoldable pub parse : Puzzle T → Result (DriverError E) (Option (NftInfo M × Puzzle T))
  parse puzzle = if_some ((nft_layers puzzle_layer).parse_puzzle puzzle) λ layers.
      ok (
        some
          (from_layers curried_puzzle_hash layers, layers.inner_puzzle.inner_puzzle.inner_puzzle))

  module _ (conditions_codec : Codec T E (List (Condition T)))
      (output_codec : Codec T E (NewMetadataOutput M T)) (hashes : Hashes)
      (metadata_hash : M → Bytes32) (coin_id : Coin → Bytes32) where
    abbrev pub StateLayers : Type 0
    StateLayers = NftStateLayer M (NftOwnershipLayer RoyaltyTransferLayer (Puzzle T))

    unfoldable pub update_owner : Option TransferNft → StateLayers → StateLayers
    update_owner none layers = layers
    update_owner (some new_owner) layers = record layers {
      inner_puzzle = record layers.inner_puzzle { current_owner = new_owner.did_id };
    }

    unfoldable pub update_metadata :
        Option (UpdateNftMetadata T) → StateLayers → Result (DriverError E) StateLayers
    update_metadata none layers = ok layers
    update_metadata (some new_metadata) layers =
        try_to eval (c.run_puzzle new_metadata.updater_puzzle_reveal new_metadata.updater_solution)
        >>= λ output. extract output_codec output >>= λ parsed. ok (record layers {
          metadata = parsed.metadata_info.new_metadata;
          metadata_updater_puzzle_hash = parsed.metadata_info.new_updater_puzzle_hash;
        })

    abbrev pub child_of : Coin → SingletonLayer (Puzzle T) → CreateCoin → StateLayers → Nft M
    child_of parent_coin outer created layers =
        let info =
          with_p2_puzzle_hash
            (from_layers curried_puzzle_hash
              (record { launcher_id = outer.launcher_id; inner_puzzle = layers }))
            created.puzzle_hash in
        record {
          coin = record {
            parent_coin_info = coin_id parent_coin;
            puzzle_hash =
                hashes.singleton info.launcher_id
                  (inner_puzzle_hash c mods hashes metadata_hash info);
            amount = created.amount;
          };
          proof = lineage (record {
            parent_parent_coin_info = parent_coin.parent_coin_info;
            parent_inner_puzzle_hash = curried_puzzle_hash outer.inner_puzzle;
            parent_amount = parent_coin.amount;
          });
          info = info;
        }

    -- The child that the conditions of the parent's inner puzzle give.
    unfoldable pub child_from :
        Coin
        → SingletonLayer (Puzzle T)
        → StateLayers
        → Found T
        → Result (DriverError E) (Option (Nft M))
    child_from parent_coin outer layers found = elim found.create_coin [
      | none ↦ err missing_child
      | some created ↦
          update_metadata found.new_metadata (update_owner found.new_owner layers) >>= λ updated.
          ok (some (child_of parent_coin outer created updated))
    ]

    unfoldable pub parse_child : Coin → Puzzle T → T → Result (DriverError E) (Option (Nft M))
    parse_child parent_coin parent_puzzle parent_solution =
        if_some (outer_layer.parse_puzzle parent_puzzle) λ outer.
          if_some ((state_layer puzzle_layer).parse_puzzle outer.inner_puzzle) λ layers.
            (nft_layers puzzle_layer).parse_solution parent_solution >>= λ solution.
            try_to eval (
              c.run_puzzle (ptr layers.inner_puzzle.inner_puzzle)
                solution.inner_solution.inner_solution.inner_solution)
            >>= λ output. extract conditions_codec output >>= λ conditions.
                child_from parent_coin outer layers (find_all nothing_found conditions)
