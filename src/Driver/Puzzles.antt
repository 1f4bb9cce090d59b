-- ===== src/Driver/Puzzles.antt =====
-- The data types of the chia_puzzles crate that crates/chia-sdk-driver/src uses: what is curried into
-- its puzzles, and their solutions. `T` stands for CLVM values. Amounts and counts are numbers.
use chia_wallet_sdk.Prelude.{ℕ, ◌≡◌, Bool, Option, ◌==◌, ◌&&◌}
use chia_wallet_sdk.Prelude.Int.{ℤ}
use chia_wallet_sdk.Protocol.{Bytes32, Coin}
use chia_wallet_sdk.Conditions.{PublicKey}
use chia_wallet_sdk.Driver.Context.{Mods}

pub record LineageProof : Type 0 where
  pub parent_parent_coin_info : Bytes32
  pub parent_inner_puzzle_hash : Bytes32
  pub parent_amount : ℕ

pub record EveProof : Type 0 where
  pub parent_parent_coin_info : Bytes32
  pub parent_amount : ℕ

pub data Proof : Type 0 where
  lineage : LineageProof → Proof
  eve : EveProof → Proof

pub record CoinProof : Type 0 where
  pub parent_coin_info : Bytes32
  pub inner_puzzle_hash : Bytes32
  pub amount : ℕ

pub record CatArgs (T : Type 0) : Type 0 where
  pub mod_hash : Bytes32
  pub asset_id : Bytes32
  pub inner_puzzle : T

pub record CatSolution (S : Type 0) : Type 0 where
  pub inner_puzzle_solution : S
  pub lineage_proof : Option LineageProof
  pub prev_coin_id : Bytes32
  pub this_coin_info : Coin
  pub next_coin_proof : CoinProof
  pub prev_subtotal : ℤ
  pub extra_delta : ℤ

pub record SingletonStruct : Type 0 where
  pub mod_hash : Bytes32
  pub launcher_id : Bytes32
  pub launcher_puzzle_hash : Bytes32

pub record SingletonArgs (T : Type 0) : Type 0 where
  pub singleton_struct : SingletonStruct
  pub inner_puzzle : T

pub record SingletonSolution (S : Type 0) : Type 0 where
  pub lineage_proof : Proof
  pub amount : ℕ
  pub inner_solution : S

pub record DidArgs (T M : Type 0) : Type 0 where
  pub inner_puzzle : T
  pub recovery_list_hash : Option Bytes32
  pub num_verifications_required : ℕ
  pub singleton_struct : SingletonStruct
  pub metadata : M

-- `R` is a recovery.
pub data DidSolution (R S : Type 0) : Type 0 where
  spend : S → DidSolution R S
  recover : R → DidSolution R S

pub record NftStateLayerArgs (T M : Type 0) : Type 0 where
  pub mod_hash : Bytes32
  pub metadata : M
  pub metadata_updater_puzzle_hash : Bytes32
  pub inner_puzzle : T

pub record NftStateLayerSolution (S : Type 0) : Type 0 where
  pub inner_solution : S

pub record NftOwnershipLayerArgs (T : Type 0) : Type 0 where
  pub mod_hash : Bytes32
  pub current_owner : Option Bytes32
  pub transfer_program : T
  pub inner_puzzle : T

pub record NftOwnershipLayerSolution (S : Type 0) : Type 0 where
  pub inner_solution : S

pub record NftRoyaltyTransferPuzzleArgs : Type 0 where
  pub singleton_struct : SingletonStruct
  pub royalty_puzzle_hash : Bytes32
  pub royalty_ten_thousandths : ℕ

pub record StandardArgs : Type 0 where
  pub synthetic_key : PublicKey

pub record StandardSolution (T : Type 0) : Type 0 where
  pub original_public_key : Option PublicKey
  pub delegated_puzzle : T
  pub solution : T

-- The constructors of that crate.
pub record Constructors (T : Type 0) : Type 0 where
  pub new_singleton_struct : Bytes32 → SingletonStruct
  pub new_cat_args : Bytes32 → T → CatArgs T
  pub new_nft_ownership_args : Option Bytes32 → T → T → NftOwnershipLayerArgs T
  pub new_standard_args : PublicKey → StandardArgs

-- They fill in the hashes of the puzzles, and take the other fields from their arguments.
pub record IsConstructors {T : Type 0} (mods : Mods) (new : Constructors T) : Type 0 where
  pub singleton_struct :
      (launcher_id : Bytes32)
      → new.new_singleton_struct launcher_id ≡ record {
        mod_hash = mods.singleton_top_layer.hash;
        launcher_id = launcher_id;
        launcher_puzzle_hash = mods.singleton_launcher.hash;
      }
  pub cat_args :
      (asset_id : Bytes32) (inner_puzzle : T)
      → new.new_cat_args asset_id inner_puzzle
        ≡ record { mod_hash = mods.cat.hash; asset_id = asset_id; inner_puzzle = inner_puzzle }
  pub nft_ownership_args :
      (current_owner : Option Bytes32) (transfer_program inner_puzzle : T)
      → new.new_nft_ownership_args current_owner transfer_program inner_puzzle ≡ record {
        mod_hash = mods.nft_ownership_layer.hash;
        current_owner = current_owner;
        transfer_program = transfer_program;
        inner_puzzle = inner_puzzle;
      }
  pub standard_args : (key : PublicKey) → new.new_standard_args key ≡ record { synthetic_key = key }

-- The check of a singleton struct that the layers make.
abbrev pub is_singleton_struct : Mods → SingletonStruct → Bool
is_singleton_struct mods s =
    s.mod_hash == mods.singleton_top_layer.hash
    && s.launcher_puzzle_hash == mods.singleton_launcher.hash
