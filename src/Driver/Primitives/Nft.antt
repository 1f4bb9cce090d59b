-- ===== src/Driver/Primitives/Nft.antt =====
-- crates/chia-sdk-driver/src/primitives/nft.rs, nft/nft_info.rs, nft/did_owner.rs and nft/nft_mint.rs: what
-- an NFT is, and how it is hashed. `Coin::coin_id` and the hash of the metadata are given.
use chia_wallet_sdk.Prelude.{ℕ, Option, none, some, List}
use chia_wallet_sdk.Protocol.{Bytes32, Coin}
use chia_wallet_sdk.Driver.Clvm.{Clvm}
use chia_wallet_sdk.Driver.Context.{Mods}
use chia_wallet_sdk.Driver.Puzzles.{LineageProof, Proof, lineage, NftStateLayerArgs}
use chia_wallet_sdk.Driver.Layers.Singleton.{SingletonLayer}
use chia_wallet_sdk.Driver.Layers.NftState.{NftStateLayer}
use chia_wallet_sdk.Driver.Layers.NftOwnership.{NftOwnershipLayer}
use chia_wallet_sdk.Driver.Layers.RoyaltyTransfer.{RoyaltyTransferLayer}
use chia_wallet_sdk.Driver.Layers.RoyaltyTransfer as Royalty
use chia_wallet_sdk.Driver.Primitives.Did.{DidInfo}
pub mod Parse
pub mod Spends
pub mod Children
mod Tests

pub record NftInfo (M : Type 0) : Type 0 where
  pub launcher_id : Bytes32
  pub metadata : M
  pub metadata_updater_puzzle_hash : Bytes32
  pub current_owner : Option Bytes32
  pub royalty_puzzle_hash : Bytes32
  pub royalty_ten_thousandths : ℕ
  pub p2_puzzle_hash : Bytes32

pub record Nft (M : Type 0) : Type 0 where
  pub coin : Coin
  pub proof : Proof
  pub info : NftInfo M

-- The layers of an NFT.
abbrev pub NftLayers : Type 0 → Type 0 → Type 0
NftLayers M I = SingletonLayer (NftStateLayer M (NftOwnershipLayer RoyaltyTransferLayer I))

module _ {M : Type 0} where
  unfoldable pub from_layers : {I : Type 0} → (I → Bytes32) → NftLayers M I → NftInfo M
  from_layers tree_hash layers =
      let state = layers.inner_puzzle in
      let ownership = state.inner_puzzle in
      record {
        launcher_id = layers.launcher_id;
        metadata = state.metadata;
        metadata_updater_puzzle_hash = state.metadata_updater_puzzle_hash;
        current_owner = ownership.current_owner;
        royalty_puzzle_hash = ownership.transfer_layer.royalty_puzzle_hash;
        royalty_ten_thousandths = ownership.transfer_layer.royalty_ten_thousandths;
        p2_puzzle_hash = tree_hash ownership.inner_puzzle;
      }

  abbrev pub royalty_of : NftInfo M → RoyaltyTransferLayer
  royalty_of info = record {
    launcher_id = info.launcher_id;
    royalty_puzzle_hash = info.royalty_puzzle_hash;
    royalty_ten_thousandths = info.royalty_ten_thousandths;
  }

  unfoldable pub into_layers : {I : Type 0} → NftInfo M → I → NftLayers M I
  into_layers info p2_puzzle = record {
    launcher_id = info.launcher_id;
    inner_puzzle = record {
      metadata = info.metadata;
      metadata_updater_puzzle_hash = info.metadata_updater_puzzle_hash;
      inner_puzzle = record {
        current_owner = info.current_owner;
        transfer_layer = royalty_of info;
        inner_puzzle = p2_puzzle;
      };
    };
  }

  unfoldable pub info_with_metadata : {N : Type 0} → NftInfo M → N → NftInfo N
  info_with_metadata info metadata = record {
    launcher_id = info.launcher_id;
    metadata = metadata;
    metadata_updater_puzzle_hash = info.metadata_updater_puzzle_hash;
    current_owner = info.current_owner;
    royalty_puzzle_hash = info.royalty_puzzle_hash;
    royalty_ten_thousandths = info.royalty_ten_thousandths;
    p2_puzzle_hash = info.p2_puzzle_hash;
  }

  unfoldable pub with_p2_puzzle_hash : NftInfo M → Bytes32 → NftInfo M
  with_p2_puzzle_hash info p2_puzzle_hash = record info { p2_puzzle_hash = p2_puzzle_hash }

  unfoldable pub with_owner : NftInfo M → Option Bytes32 → NftInfo M
  with_owner info owner = record info { current_owner = owner }

  unfoldable pub with_metadata : {N : Type 0} → Nft M → N → Nft N
  with_metadata nft metadata = record {
    coin = nft.coin;
    proof = nft.proof;
    info = info_with_metadata nft.info metadata;
  }

-- How an NFT is hashed: `ToTreeHash` of the arguments of the state layer, and `curry_tree_hash` of the
-- arguments of the other layers.
pub record Hashes : Type 0 where
  pub state : NftStateLayerArgs Bytes32 Bytes32 → Bytes32
  pub ownership : Option Bytes32 → Bytes32 → Bytes32 → Bytes32
  pub royalty : Bytes32 → Bytes32 → ℕ → Bytes32
  pub singleton : Bytes32 → Bytes32 → Bytes32

module _ {T E : Type 0} (c : Clvm T E) (mods : Mods) (hashes : Hashes) where
  module _ {M : Type 0} (metadata_hash : M → Bytes32) where
    unfoldable pub inner_puzzle_hash : NftInfo M → Bytes32
    inner_puzzle_hash info = c.curry_hash mods.nft_state_layer.hash (
        hashes.state (record {
          mod_hash = mods.nft_state_layer.hash;
          metadata = metadata_hash info.metadata;
          metadata_updater_puzzle_hash = info.metadata_updater_puzzle_hash;
          inner_puzzle =
              hashes.ownership info.current_owner
                (Royalty.tree_hash hashes.royalty (royalty_of info)) info.p2_puzzle_hash;
        }))

    unfoldable pub child_lineage_proof : Nft M → LineageProof
    child_lineage_proof nft = record {
      parent_parent_coin_info = nft.coin.parent_coin_info;
      parent_inner_puzzle_hash = inner_puzzle_hash nft.info;
      parent_amount = nft.coin.amount;
    }

  module _ {M N : Type 0} (metadata_hash : M → Bytes32) (new_metadata_hash : N → Bytes32)
      (coin_id : Coin → Bytes32) where
    unfoldable pub wrapped_child : Nft M → Bytes32 → Option Bytes32 → N → Nft N
    wrapped_child nft p2_puzzle_hash owner metadata =
        let info =
          info_with_metadata (with_owner (with_p2_puzzle_hash nft.info p2_puzzle_hash) owner)
            metadata in
        record {
          coin = record {
            parent_coin_info = coin_id nft.coin;
            puzzle_hash =
                hashes.singleton info.launcher_id (inner_puzzle_hash new_metadata_hash info);
            amount = nft.coin.amount;
          };
          proof = lineage (child_lineage_proof metadata_hash nft);
          info = info;
        }

pub record DidOwner : Type 0 where
  pub did_id : Bytes32
  pub inner_puzzle_hash : Bytes32

-- `hash` is `DidInfo::inner_puzzle_hash`.
unfoldable pub from_did_info : {M : Type 0} → (DidInfo M → Bytes32) → DidInfo M → DidOwner
from_did_info hash did_info = record {
  did_id = did_info.launcher_id;
  inner_puzzle_hash = hash did_info;
}

pub record NftMint (M : Type 0) : Type 0 where
  pub metadata : M
  pub metadata_updater_puzzle_hash : Bytes32
  pub royalty_puzzle_hash : Bytes32
  pub royalty_ten_thousandths : ℕ
  pub p2_puzzle_hash : Bytes32
  pub owner : Option DidOwner

module _ {M : Type 0} where
  unfoldable pub new_mint : Mods → M → Bytes32 → ℕ → Option DidOwner → NftMint M
  new_mint mods metadata p2_puzzle_hash royalty_ten_thousandths owner = record {
    metadata = metadata;
    metadata_updater_puzzle_hash = mods.nft_metadata_updater.hash;
    royalty_puzzle_hash = p2_puzzle_hash;
    royalty_ten_thousandths = royalty_ten_thousandths;
    p2_puzzle_hash = p2_puzzle_hash;
    owner = owner;
  }

  unfoldable pub with_royalty_puzzle_hash : NftMint M → Bytes32 → NftMint M
  with_royalty_puzzle_hash mint royalty_puzzle_hash = record mint {
    royalty_puzzle_hash = royalty_puzzle_hash;
  }

  unfoldable pub with_custom_metadata_updater : NftMint M → Bytes32 → NftMint M
  with_custom_metadata_updater mint metadata_updater_puzzle_hash = record mint {
    metadata_updater_puzzle_hash = metadata_updater_puzzle_hash;
  }
