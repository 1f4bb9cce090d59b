-- ===== src/Driver/Layers/Delegation.antt =====
-- crates/chia-sdk-driver/src/layers/datalayer/delegation_layer.rs.
use chia_wallet_sdk.Prelude.{◌≡◌, refl, ap, Option, some, List, ℕ, arith}
use chia_wallet_sdk.Protocol.{Bytes32, Result, ok}
use chia_wallet_sdk.Driver.Clvm.{Clvm, IsClvm, Codec, IsCodec, IsMod, DriverError}
use chia_wallet_sdk.Driver.Context.{Ctx, Mods, alloc, extract}
use chia_wallet_sdk.Driver.Puzzle.{Puzzle}
use chia_wallet_sdk.Driver.Layer.{Layer, IsLayer, IsHash, curried_args, curried_mod}
use chia_wallet_sdk.Driver.Wrapped.{if_some}
use chia_wallet_sdk.Driver.Lawful.{leaf-IsLayer, leaf-IsHash}

pub record DelegationLayer : Type 0 where
  pub launcher_id : Bytes32
  pub owner_puzzle_hash : Bytes32
  pub merkle_root : Bytes32

pub record DelegationLayerArgs : Type 0 where
  pub mod_hash : Bytes32
  pub launcher_id : Bytes32
  pub owner_puzzle_hash : Bytes32
  pub merkle_root : Bytes32

unfoldable pub new_args : Mods → Bytes32 → Bytes32 → Bytes32 → DelegationLayerArgs
new_args mods launcher_id owner_puzzle_hash merkle_root = record {
  mod_hash = mods.delegation_layer.hash;
  launcher_id = launcher_id;
  owner_puzzle_hash = owner_puzzle_hash;
  merkle_root = merkle_root;
}

pub record DelegationLayerSolution (T : Type 0) : Type 0 where
  pub merkle_proof : Option (ℕ × List Bytes32)
  pub puzzle_reveal : T
  pub puzzle_solution : T

module _ {T E : Type 0} (c : Clvm T E) (mods : Mods) (args_codec : Codec T E DelegationLayerArgs)
    (solution_codec : Codec T E (DelegationLayerSolution T)) where
  unfoldable pub parse_puzzle : Puzzle T → Result (DriverError E) (Option DelegationLayer)
  parse_puzzle puzzle =
      if_some (curried_args c args_codec mods.delegation_layer.hash puzzle) λ args. ok (
        some (record {
          launcher_id = args.launcher_id;
          owner_puzzle_hash = args.owner_puzzle_hash;
          merkle_root = args.merkle_root;
        }))

  unfoldable pub parse_solution : T → Result (DriverError E) (DelegationLayerSolution T)
  parse_solution solution = extract solution_codec solution

  unfoldable pub construct_puzzle : DelegationLayer → Ctx T E T
  construct_puzzle l =
      curried_mod c args_codec mods.delegation_layer
        (new_args mods l.launcher_id l.owner_puzzle_hash l.merkle_root)

  unfoldable pub construct_solution : DelegationLayer → (DelegationLayerSolution T) → Ctx T E T
  construct_solution l solution = alloc solution_codec solution

  abbrev pub delegation_layer : Layer T E DelegationLayer (DelegationLayerSolution T)
  delegation_layer = record {
    parse_puzzle = parse_puzzle;
    parse_solution = parse_solution;
    construct_puzzle = construct_puzzle;
    construct_solution = construct_solution;
  }

  -- The delegation layer is lawful.
  pub delegation_layer-IsLayer :
      IsClvm c
      → IsMod c mods.delegation_layer
      → IsCodec args_codec
      → IsCodec solution_codec
      → IsLayer c delegation_layer
  unfolding new_args parse_puzzle parse_solution construct_puzzle construct_solution
  delegation_layer-IsLayer lawful is_mod args_coded solution_coded =
      leaf-IsLayer c lawful mods.delegation_layer is_mod args_codec args_coded delegation_layer
        (λ l. new_args mods l.launcher_id l.owner_puzzle_hash l.merkle_root) (λ l. refl)
        solution_codec solution_coded (λ l p found. ground (arith, found)) (λ l s. refl) (λ t. refl)

  -- `ToTreeHash` of the arguments is given.
  module _ (args_hash : DelegationLayerArgs → Bytes32) where
    unfoldable pub curry_tree_hash : Bytes32 → Bytes32 → Bytes32 → Bytes32
    curry_tree_hash launcher_id owner_puzzle_hash merkle_root =
        c.curry_hash mods.delegation_layer.hash (
          args_hash (record {
            mod_hash = mods.delegation_layer.hash;
            launcher_id = launcher_id;
            owner_puzzle_hash = owner_puzzle_hash;
            merkle_root = merkle_root;
          }))

    pub curry_tree_hash-IsHash :
        IsClvm c
        → IsMod c mods.delegation_layer
        → IsCodec args_codec
        → ((a : DelegationLayerArgs) (encoded : T)
            → args_codec.encode a ≡ ok encoded
            → c.tree_hash encoded ≡ args_hash a)
        → IsHash c delegation_layer
            (λ l. curry_tree_hash l.launcher_id l.owner_puzzle_hash l.merkle_root)
    unfolding new_args construct_puzzle curry_tree_hash
    curry_tree_hash-IsHash lawful is_mod args_coded hashed =
        leaf-IsHash c lawful mods.delegation_layer is_mod args_codec args_coded delegation_layer
          (λ l. new_args mods l.launcher_id l.owner_puzzle_hash l.merkle_root) (λ l. refl)
          (λ l. curry_tree_hash l.launcher_id l.owner_puzzle_hash l.merkle_root)
          (λ l encoded e.
            ap (c.curry_hash mods.delegation_layer.hash)
              (hashed (new_args mods l.launcher_id l.owner_puzzle_hash l.merkle_root) encoded e))
