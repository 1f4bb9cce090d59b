-- ===== src/Driver/Primitives/Nft/Spends.antt =====
-- How crates/chia-sdk-driver/src/primitives/nft.rs, nft/nft_launcher.rs and nft/metadata_update.rs spend
-- and mint NFTs. SHA-256, the bytes of a hash and the hash of the arguments of a transfer are given.
use chia_wallet_sdk.Prelude.{ℕ, Option, none, some, List, [], ◌∷◌, ◌++◌}
use chia_wallet_sdk.Protocol.{Bytes32, Bytes, Coin}
use chia_wallet_sdk.Conditions.{
  Condition, create_coin, transfer_nft, update_nft_metadata, assert_puzzle_announcement,
  create_puzzle_announcement,
}
use chia_wallet_sdk.Conditions.Lists as Lists
use chia_wallet_sdk.Conditions.Lists.{Conditions, with_condition}
use chia_wallet_sdk.Driver.Clvm.{Clvm, Codec, eval, try_to}
use chia_wallet_sdk.Driver.Context.{
  Spend, Ctx, Mods, pure, lift, ◌>>=◌, alloc, extract, nft_metadata_updater,
}
use chia_wallet_sdk.Driver.Puzzles.{eve, Constructors}
use chia_wallet_sdk.Driver.Spends.{spend_layer}
use chia_wallet_sdk.Driver.Layers.Value.{ptr_layer}
use chia_wallet_sdk.Driver.Layers.NftState.{NewMetadataOutput}
use chia_wallet_sdk.Driver.Primitives.Launcher.{Launcher, LauncherSolution}
use chia_wallet_sdk.Driver.Primitives.Launcher as Launchers
use chia_wallet_sdk.Driver.Primitives.Nft.{
  Nft, NftInfo, Hashes, DidOwner, NftMint, into_layers, inner_puzzle_hash, wrapped_child,
}
use chia_wallet_sdk.Driver.Primitives.Nft.Parse.{Codecs, NftSolution, TransferNft, nft_layers}
use Prim.Native.String.{String}

unfoldable pub did_puzzle_assertion :
    (Bytes → Bytes32)
    → (Bytes32 → Bytes)
    → (TransferNft → Bytes32)
    → Bytes32
    → TransferNft
    → Bytes32
did_puzzle_assertion sha256 to_bytes transfer_hash nft_full_puzzle_hash new_nft_owner =
    sha256
      (to_bytes nft_full_puzzle_hash ++ (173 ∷ 76 ∷ []) ++ to_bytes (transfer_hash new_nft_owner))

abbrev pub transfer_condition : {T : Type 0} → TransferNft → Condition T
transfer_condition t = transfer_nft t.did_id t.trade_prices t.did_inner_puzzle_hash

pub data MetadataUpdate : Type 0 where
  new_data_uri new_metadata_uri new_license_uri : String → MetadataUpdate

-- The key and the value of an update.
unfoldable pub update_of : MetadataUpdate → String × String
update_of (new_data_uri uri) = ("u", uri)
update_of (new_metadata_uri uri) = ("mu", uri)
update_of (new_license_uri uri) = ("lu", uri)

unfoldable pub spend_update :
    {T E : Type 0}
    → Clvm T E
    → Mods
    → Codec T E (String × String)
    → MetadataUpdate
    → Ctx T E (Spend T)
spend_update c mods codec update = alloc codec (update_of update) >>= λ solution.
    nft_metadata_updater c mods >>= λ puzzle. pure (record { puzzle = puzzle; solution = solution })

module _ {T E M : Type 0} (c : Clvm T E) (mods : Mods) (new : Constructors T)
    (codecs : Codecs T E M) where
  abbrev pub solution_of : Nft M → T → NftSolution T
  solution_of nft inner_solution = record {
    lineage_proof = nft.proof;
    amount = nft.coin.amount;
    inner_solution = record { inner_solution = record { inner_solution = inner_solution } };
  }

  unfoldable pub spend : Nft M → Spend T → Ctx T E (Unit {0})
  spend nft inner_spend =
      spend_layer c (nft_layers c mods new codecs ptr_layer)
        (into_layers nft.info inner_spend.puzzle) (solution_of nft inner_spend.solution) nft.coin

  -- `inner` is a `SpendWithConditions`.
  unfoldable pub spend_with :
      (Conditions T → Ctx T E (Spend T)) → Nft M → Conditions T → Ctx T E (Unit {0})
  spend_with inner nft conditions = inner conditions >>= spend nft

  module _ (hashes : Hashes) (metadata_hash : M → Bytes32) (coin_id : Coin → Bytes32)
      (to_bytes : Bytes32 → Bytes) (inner : Conditions T → Ctx T E (Spend T)) where
    -- The condition that creates the next NFT, with its owner as the hint.
    abbrev pub recreate : Nft M → Bytes32 → Conditions T → Conditions T
    recreate nft p2_puzzle_hash conditions =
        with_condition conditions
          (create_coin p2_puzzle_hash nft.coin.amount (to_bytes p2_puzzle_hash ∷ []))

    unfoldable pub transfer : Nft M → Bytes32 → Conditions T → Ctx T E (Nft M)
    transfer nft p2_puzzle_hash extra_conditions =
        spend_with inner nft (recreate nft p2_puzzle_hash extra_conditions) >>= λ done. pure (
          wrapped_child c mods hashes metadata_hash metadata_hash coin_id nft p2_puzzle_hash
            nft.info.current_owner nft.info.metadata)

    -- `list_codec` encodes the list of the metadata, the updater's hash and the solution.
    module _ {N : Type 0} (new_metadata_hash : N → Bytes32)
        (list_codec : Codec T E (M × (Bytes32 × T)))
        (output_codec : Codec T E (NewMetadataOutput N T)) where
      unfoldable pub transfer_with_metadata :
          Nft M → Bytes32 → Spend T → Conditions T → Ctx T E (Nft N)
      transfer_with_metadata nft p2_puzzle_hash metadata_update extra_conditions =
          spend_with inner nft (
            with_condition (recreate nft p2_puzzle_hash extra_conditions)
              (update_nft_metadata metadata_update.puzzle metadata_update.solution))
          >>= λ done.
              alloc list_codec (
                nft.info.metadata,
                (nft.info.metadata_updater_puzzle_hash, metadata_update.solution),
              )
              >>= λ solution.
                  lift (try_to eval (c.run_puzzle metadata_update.puzzle solution)) >>= λ ptr.
                  lift (extract output_codec ptr) >>= λ output. pure (
                    wrapped_child c mods hashes metadata_hash new_metadata_hash coin_id nft
                      p2_puzzle_hash nft.info.current_owner output.metadata_info.new_metadata)

    module _ (sha256 : Bytes → Bytes32) (transfer_hash : TransferNft → Bytes32) where
      abbrev pub did_of : Option DidOwner → Option Bytes32
      did_of none = none
      did_of (some owner) = some owner.did_id

      abbrev pub transfer_to : Option DidOwner → TransferNft
      transfer_to none = record { did_id = none; trade_prices = []; did_inner_puzzle_hash = none }
      transfer_to (some owner) = record {
        did_id = some owner.did_id;
        trade_prices = [];
        did_inner_puzzle_hash = some owner.inner_puzzle_hash;
      }

      abbrev pub asserting : Coin → TransferNft → Conditions T → Conditions T
      asserting coin t conditions = with_condition conditions (
          assert_puzzle_announcement
            (did_puzzle_assertion sha256 to_bytes transfer_hash coin.puzzle_hash t))

      unfoldable pub transfer_to_did :
          Nft M → Bytes32 → Option DidOwner → Conditions T → Ctx T E (Conditions T × Nft M)
      transfer_to_did nft p2_puzzle_hash new_owner extra_conditions =
          spend_with inner nft (
            with_condition (recreate nft p2_puzzle_hash extra_conditions)
              (transfer_condition (transfer_to new_owner)))
          >>= λ done. pure (
            asserting nft.coin (transfer_to new_owner) Lists.new,
            wrapped_child c mods hashes metadata_hash metadata_hash coin_id nft p2_puzzle_hash
                (did_of new_owner) nft.info.metadata,
          )

      -- The key value list of the launcher is empty, and `launcher_codec` encodes that.
      module _ (launcher_codec : Codec T E (LauncherSolution (Unit {0})))
          (quote_codec : Codec T E (Conditions T)) where
        unfoldable pub mint_eve_nft :
            Launcher T → Bytes32 → M → Bytes32 → Bytes32 → ℕ → Ctx T E (Conditions T × Nft M)
        mint_eve_nft l p2_puzzle_hash metadata updater_puzzle_hash royalty_puzzle_hash
              royalty_ten_thousandths =
            let nft_info : NftInfo M = record {
              launcher_id = coin_id l.coin;
              metadata = metadata;
              metadata_updater_puzzle_hash = updater_puzzle_hash;
              current_owner = none;
              royalty_puzzle_hash = royalty_puzzle_hash;
              royalty_ten_thousandths = royalty_ten_thousandths;
              p2_puzzle_hash = p2_puzzle_hash;
            } in
            Launchers.spend c mods coin_id sha256 to_bytes hashes.singleton launcher_codec l
              (inner_puzzle_hash c mods hashes metadata_hash nft_info) tt
            >>= λ launched. pure (
              with_condition launched.0 (create_puzzle_announcement (to_bytes (coin_id l.coin))),
              record {
                coin = launched.1;
                proof = eve (record {
                  parent_parent_coin_info = l.coin.parent_coin_info;
                  parent_amount = l.coin.amount;
                });
                info = nft_info;
              },
            )

        -- The transfer to the owner, if there is one.
        abbrev pub owner_conditions : Option DidOwner → List (Condition T)
        owner_conditions none = []
        owner_conditions (some owner) = transfer_condition (transfer_to (some owner)) ∷ []

        abbrev pub owner_assertions : Coin → Option DidOwner → Conditions T
        owner_assertions coin none = Lists.new
        owner_assertions coin (some owner) = asserting coin (transfer_to (some owner)) Lists.new

        unfoldable pub mint_nft : Launcher T → NftMint M → Ctx T E (Conditions T × Nft M)
        mint_nft l mint =
            let conditions : Conditions T =
              Lists.extend
                (with_condition Lists.new
                  (create_coin mint.p2_puzzle_hash 1 (to_bytes mint.p2_puzzle_hash ∷ [])))
                (owner_conditions mint.owner) in
            alloc quote_codec conditions >>= λ inner_puzzle.
            mint_eve_nft l (c.tree_hash inner_puzzle) mint.metadata
              mint.metadata_updater_puzzle_hash mint.royalty_puzzle_hash
              mint.royalty_ten_thousandths
            >>= λ minted.
                spend minted.1 (record { puzzle = inner_puzzle; solution = c.nil }) >>= λ done.
                pure (
                  Lists.extend minted.0 (owner_assertions minted.1.coin mint.owner).conditions,
                  wrapped_child c mods hashes metadata_hash metadata_hash coin_id minted.1
                      mint.p2_puzzle_hash (did_of mint.owner) minted.1.info.metadata,
                )
