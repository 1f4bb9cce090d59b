-- ===== src/Driver/Primitives/Did.antt =====
-- crates/chia-sdk-driver/src/primitives/did.rs, did/did_info.rs and did/did_launcher.rs: DIDs, the
-- decentralised identities. `Coin::coin_id`, the bytes of a hash, the hashes of curried puzzles and the
-- hash of the metadata are given; `R` is a recovery.
use chia_wallet_sdk.Prelude.{
  ℕ, ◌%◌, ◌≡◌, Bool, true, false, not, Option, none, some, List, [], ◌∷◌, ◌++◌, length, ◌==◌,
  if◌then◌else◌,
}
use chia_wallet_sdk.Protocol.{Bytes32, Bytes, Coin, Result, ok, err, ◌>>=◌, bytes32_from}
use chia_wallet_sdk.Conditions.{Condition, create_coin}
use chia_wallet_sdk.Conditions.Lists as Lists
use chia_wallet_sdk.Conditions.Lists.{Conditions}
use chia_wallet_sdk.Driver.Clvm.{
  Clvm, Codec, DriverError, invalid_singleton_struct, missing_child, missing_hint, to_clvm, eval,
  try_to,
}
use chia_wallet_sdk.Driver.Context.{SpendContext, Spend, Ctx, Mods, pure, extract}
use chia_wallet_sdk.Driver.Context as Context
use chia_wallet_sdk.Driver.Puzzle.{Puzzle, ptr, curried_puzzle_hash}
use chia_wallet_sdk.Driver.Puzzles.{
  LineageProof, Proof, lineage, eve, SingletonStruct, SingletonArgs, SingletonSolution, DidArgs,
  DidSolution, Constructors,
}
use chia_wallet_sdk.Driver.Puzzles as Puzzles
use chia_wallet_sdk.Driver.Layer.{Layer}
use chia_wallet_sdk.Driver.Spends.{spend_layer}
use chia_wallet_sdk.Driver.Wrapped.{if_some}
use chia_wallet_sdk.Driver.Layers.Value.{ptr_layer, puzzle_layer}
use chia_wallet_sdk.Driver.Layers.Singleton.{SingletonLayer, singleton_layer}
use chia_wallet_sdk.Driver.Layers.Did.{DidLayer, did_layer}
use chia_wallet_sdk.Driver.Layers.Did as DidLayers
use chia_wallet_sdk.Driver.Primitives.Cat.{CreateCoin, into_create_coin, filter_map}
use chia_wallet_sdk.Driver.Primitives.Launcher.{Launcher, LauncherSolution}
use chia_wallet_sdk.Driver.Primitives.Launcher as Launcher
pub mod Children
mod Tests

pub record DidInfo (M : Type 0) : Type 0 where
  pub launcher_id : Bytes32
  pub recovery_list_hash : Option Bytes32
  pub num_verifications_required : ℕ
  pub metadata : M
  pub p2_puzzle_hash : Bytes32

pub record Did (M : Type 0) : Type 0 where
  pub coin : Coin
  pub proof : Proof
  pub info : DidInfo M

module _ {M : Type 0} where
  unfoldable pub from_layers :
      {I : Type 0} → (I → Bytes32) → SingletonLayer (DidLayer M I) → DidInfo M
  from_layers tree_hash layers = record {
    launcher_id = layers.launcher_id;
    recovery_list_hash = layers.inner_puzzle.recovery_list_hash;
    num_verifications_required = layers.inner_puzzle.num_verifications_required;
    metadata = layers.inner_puzzle.metadata;
    p2_puzzle_hash = tree_hash layers.inner_puzzle.inner_puzzle;
  }

  unfoldable pub into_layers : {I : Type 0} → DidInfo M → I → SingletonLayer (DidLayer M I)
  into_layers info p2_puzzle = record {
    launcher_id = info.launcher_id;
    inner_puzzle = record {
      launcher_id = info.launcher_id;
      recovery_list_hash = info.recovery_list_hash;
      num_verifications_required = info.num_verifications_required;
      metadata = info.metadata;
      inner_puzzle = p2_puzzle;
    };
  }

  unfoldable pub info_with_metadata : {N : Type 0} → DidInfo M → N → DidInfo N
  info_with_metadata info metadata = record {
    launcher_id = info.launcher_id;
    recovery_list_hash = info.recovery_list_hash;
    num_verifications_required = info.num_verifications_required;
    metadata = metadata;
    p2_puzzle_hash = info.p2_puzzle_hash;
  }

  unfoldable pub with_p2_puzzle_hash : DidInfo M → Bytes32 → DidInfo M
  with_p2_puzzle_hash info p2_puzzle_hash = record info { p2_puzzle_hash = p2_puzzle_hash }

  unfoldable pub with_metadata : {N : Type 0} → Did M → N → Did N
  with_metadata did metadata = record {
    coin = did.coin;
    proof = did.proof;
    info = info_with_metadata did.info metadata;
  }

-- The first memo that is a hash.
abbrev pub hint_of : List Bytes → Option Bytes32
hint_of [] = none
hint_of (memo ∷ memos) =
    let rest = hint_of memos in if length memo == 32 then some (bytes32_from 0 memo) else rest

-- The first coin with an odd amount.
abbrev pub odd_of : List CreateCoin → Option CreateCoin
odd_of [] = none
odd_of (created ∷ rest) =
    let later = odd_of rest in if created.amount % 2 == 1 then some created else later

-- How a DID is hashed: `DidArgs::curry_tree_hash` and `SingletonArgs::curry_tree_hash`.
pub record Hashes : Type 0 where
  pub did : Bytes32 → Option Bytes32 → ℕ → SingletonStruct → Bytes32 → Bytes32
  pub singleton : Bytes32 → Bytes32 → Bytes32

module _ {T : Type 0} (new : Constructors T) (hashes : Hashes) where
  module _ {M : Type 0} (metadata_hash : M → Bytes32) where
    unfoldable pub inner_puzzle_hash : DidInfo M → Bytes32
    inner_puzzle_hash info =
        hashes.did info.p2_puzzle_hash info.recovery_list_hash info.num_verifications_required
          (new.new_singleton_struct info.launcher_id) (metadata_hash info.metadata)

    unfoldable pub child_lineage_proof : Did M → LineageProof
    child_lineage_proof did = record {
      parent_parent_coin_info = did.coin.parent_coin_info;
      parent_inner_puzzle_hash = inner_puzzle_hash did.info;
      parent_amount = did.coin.amount;
    }

  module _ {M N : Type 0} (metadata_hash : M → Bytes32) (new_metadata_hash : N → Bytes32)
      (coin_id : Coin → Bytes32) where
    unfoldable pub wrapped_child : Did M → Bytes32 → N → Did N
    wrapped_child did p2_puzzle_hash metadata =
        let info = info_with_metadata (with_p2_puzzle_hash did.info p2_puzzle_hash) metadata in
        record {
          coin = record {
            parent_coin_info = coin_id did.coin;
            puzzle_hash =
                hashes.singleton info.launcher_id (inner_puzzle_hash new_metadata_hash info);
            amount = did.coin.amount;
          };
          proof = lineage (child_lineage_proof metadata_hash did);
          info = info;
        }

module _ {T E M R : Type 0} (c : Clvm T E) (mods : Mods) (new : Constructors T)
    (new_did_args : T → Option Bytes32 → ℕ → SingletonStruct → M → DidArgs T M)
    (singleton_codec : Codec T E (SingletonArgs T))
    (singleton_solution_codec : Codec T E (SingletonSolution T))
    (did_codec : Codec T E (DidArgs T M)) (did_solution_codec : Codec T E (DidSolution R T)) where
  -- The layers of a DID, whose recovery is of type `R`, around a node pointer or a parsed puzzle.
  abbrev pub inner_layer : {I : Type 0} → Layer T E I T → Layer T E (DidLayer M I) (DidSolution R T)
  inner_layer inner = did_layer c mods new new_did_args did_codec did_solution_codec inner

  abbrev pub did_layers :
      Layer T E (SingletonLayer (DidLayer M T)) (SingletonSolution (DidSolution R T))
  did_layers =
      singleton_layer c mods new singleton_codec singleton_solution_codec (inner_layer ptr_layer)

  abbrev pub solution_of : Did M → T → SingletonSolution (DidSolution R T)
  solution_of did inner_solution = record {
    lineage_proof = did.proof;
    amount = did.coin.amount;
    inner_solution = Puzzles.spend inner_solution;
  }

  unfoldable pub spend : Did M → Spend T → Ctx T E (Unit {0})
  spend did inner_spend =
      spend_layer c did_layers (into_layers did.info inner_spend.puzzle)
        (solution_of did inner_spend.solution) did.coin

  -- `inner` is a `SpendWithConditions`.
  unfoldable pub spend_with :
      (Conditions T → Ctx T E (Spend T)) → Did M → Conditions T → Ctx T E (Unit {0})
  spend_with inner did conditions =
      Context.◌>>=◌ (inner conditions) λ inner_spend. spend did inner_spend

  unfoldable pub parse : Puzzle T → Result (DriverError E) (Option (DidInfo M × Puzzle T))
  parse puzzle =
      let layers =
        singleton_layer c mods new singleton_codec singleton_solution_codec
          (inner_layer puzzle_layer) in
      if_some (layers.parse_puzzle puzzle)
        λ found. ok (some (from_layers curried_puzzle_hash found, found.inner_puzzle.inner_puzzle))

  module _ (hashes : Hashes) (metadata_hash : M → Bytes32) (coin_id : Coin → Bytes32)
      (to_bytes : Bytes32 → Bytes) (inner : Conditions T → Ctx T E (Spend T)) where
    -- The condition that creates the next DID, with its owner as the hint.
    abbrev pub recreate : Did M → Conditions T → Bytes32 → Bytes32 → Conditions T
    recreate did conditions new_inner_puzzle_hash p2_puzzle_hash =
        Lists.with_condition conditions
          (create_coin new_inner_puzzle_hash did.coin.amount (to_bytes p2_puzzle_hash ∷ []))

    unfoldable pub transfer : Did M → Bytes32 → Conditions T → Ctx T E (Did M)
    transfer did p2_puzzle_hash extra_conditions =
        let next =
          inner_puzzle_hash new hashes metadata_hash
            (with_p2_puzzle_hash did.info p2_puzzle_hash) in
        Context.◌>>=◌ (spend_with inner did (recreate did extra_conditions next p2_puzzle_hash))
          λ done. pure (
            wrapped_child new hashes metadata_hash metadata_hash coin_id did p2_puzzle_hash
              did.info.metadata)

    module _ {N : Type 0} (new_metadata_hash : N → Bytes32) where
      unfoldable pub update_with_metadata : Did M → N → Conditions T → Ctx T E (Did N)
      update_with_metadata did metadata extra_conditions =
          let next =
            inner_puzzle_hash new hashes new_metadata_hash (info_with_metadata did.info metadata) in
          Context.◌>>=◌
            (spend_with inner did (recreate did extra_conditions next did.info.p2_puzzle_hash))
            λ done. pure (
              wrapped_child new hashes metadata_hash new_metadata_hash coin_id did
                did.info.p2_puzzle_hash metadata)

    unfoldable pub update : Did M → Conditions T → Ctx T E (Did M)
    update did extra_conditions =
        update_with_metadata metadata_hash did did.info.metadata extra_conditions

    -- The eve DID of a launcher; the key value list is empty, and `launcher_codec` encodes that.
    module _ (sha256 : Bytes → Bytes32)
        (launcher_codec : Codec T E (LauncherSolution (Unit {0}))) where
      unfoldable pub create_eve_did :
          Launcher T → Bytes32 → Option Bytes32 → ℕ → M → Ctx T E (Conditions T × Did M)
      create_eve_did l p2_puzzle_hash recovery_list_hash num_verifications_required metadata =
          let did_info : DidInfo M = record {
            launcher_id = coin_id l.coin;
            recovery_list_hash = recovery_list_hash;
            num_verifications_required = num_verifications_required;
            metadata = metadata;
            p2_puzzle_hash = p2_puzzle_hash;
          } in
          Context.◌>>=◌
            (Launcher.spend c mods coin_id sha256 to_bytes hashes.singleton launcher_codec l
              (inner_puzzle_hash new hashes metadata_hash did_info) tt)
            λ launched. pure (
              launched.0,
              record {
                coin = launched.1;
                proof = eve (record {
                  parent_parent_coin_info = l.coin.parent_coin_info;
                  parent_amount = l.coin.amount;
                });
                info = did_info;
              },
            )

      unfoldable pub create_did :
          Bytes32 → Launcher T → Option Bytes32 → ℕ → M → Ctx T E (Conditions T × Did M)
      create_did inner_hash l recovery_list_hash num_verifications_required metadata =
          Context.◌>>=◌
            (create_eve_did l inner_hash recovery_list_hash num_verifications_required metadata)
            λ created. Context.◌>>=◌ (update created.1 Lists.new) λ did. pure (created.0, did)

  module _ (conditions_codec : Codec T E (List (Condition T))) (metadata_codec : Codec T E M)
      (hashes : Hashes) where
    abbrev pub outer_puzzle_layer : Layer T E (SingletonLayer (Puzzle T)) (SingletonSolution T)
    outer_puzzle_layer =
        singleton_layer c mods new singleton_codec singleton_solution_codec puzzle_layer

    abbrev pub outer_ptr_layer : Layer T E (SingletonLayer T) (SingletonSolution T)
    outer_ptr_layer = singleton_layer c mods new singleton_codec singleton_solution_codec ptr_layer

    -- The DID that a coin of a parsed parent is, given the hint of the coin.
    abbrev child_of :
        Coin → Coin → Bytes32 → SingletonLayer (Puzzle T) → DidLayer M (Puzzle T) → Bytes32 → Did M
    child_of parent_coin coin hint outer inner metadata_hash = record {
      coin = coin;
      proof = lineage (record {
        parent_parent_coin_info = parent_coin.parent_coin_info;
        parent_inner_puzzle_hash =
            DidLayers.tree_hash new.new_singleton_struct hashes.did (λ hash. hash)
              curried_puzzle_hash (DidLayers.with_metadata inner metadata_hash);
        parent_amount = parent_coin.amount;
      });
      info =
          with_p2_puzzle_hash
            (from_layers curried_puzzle_hash
              (record { launcher_id = outer.launcher_id; inner_puzzle = inner }))
            hint;
    }

    -- What a parsed DID does with the outputs of its inner puzzle.
    unfoldable pub child_from :
        Coin
        → Coin
        → SingletonLayer (Puzzle T)
        → DidLayer M (Puzzle T)
        → List (Condition T)
        → Result (DriverError E) (Option (Did M))
    child_from parent_coin coin outer inner conditions =
        elim (odd_of (filter_map into_create_coin conditions)) [
          | none ↦ err missing_child
          | some created ↦ elim (hint_of created.memos) [
            | none ↦ err missing_hint
            | some hint ↦ try_to to_clvm (metadata_codec.encode inner.metadata) >>= λ metadata_ptr.
                ok (some (child_of parent_coin coin hint outer inner (c.tree_hash metadata_ptr)))
          ]
        ]

    unfoldable pub parse_child :
        Coin → Puzzle T → T → Coin → Result (DriverError E) (Option (Did M))
    parse_child parent_coin parent_puzzle parent_solution coin =
        if_some (outer_puzzle_layer.parse_puzzle parent_puzzle) λ outer.
          if_some ((inner_layer puzzle_layer).parse_puzzle outer.inner_puzzle) λ inner.
            if not (outer.launcher_id == inner.launcher_id)
            then err invalid_singleton_struct
            else (outer_ptr_layer.parse_solution parent_solution >>= λ solution.
                try_to eval (c.run_puzzle (ptr outer.inner_puzzle) solution.inner_solution)
                >>= λ output. extract conditions_codec output >>= λ conditions.
                    child_from parent_coin coin outer inner conditions)
