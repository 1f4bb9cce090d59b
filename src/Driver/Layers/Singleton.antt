-- ===== src/Driver/Layers/Singleton.antt =====
-- crates/chia-sdk-driver/src/layers/singleton_layer.rs.
use chia_wallet_sdk.Prelude.{refl, not, Option, some, if◌then◌else◌, arith}
use chia_wallet_sdk.Protocol.{Bytes32, Coin, Result, ok, err, ◌>>=◌}
use chia_wallet_sdk.Driver.Clvm.{
  Clvm, IsClvm, Codec, IsCodec, IsMod, DriverError, invalid_singleton_struct,
}
use chia_wallet_sdk.Driver.Context.{Ctx, Mods, extract}
use chia_wallet_sdk.Driver.Puzzle.{Puzzle, parse}
use chia_wallet_sdk.Driver.Puzzles.{
  LineageProof, SingletonArgs, SingletonSolution, Constructors, IsConstructors, is_singleton_struct,
}
use chia_wallet_sdk.Driver.Layer.{Layer, IsLayer, curried_args}
use chia_wallet_sdk.Driver.Wrapped.{if_some, wrapped, wrapped_solution}
use chia_wallet_sdk.Driver.Lawful.{around-IsLayer}

pub record SingletonLayer (I : Type 0) : Type 0 where
  pub launcher_id : Bytes32
  pub inner_puzzle : I

unfoldable pub lineage_proof : {I : Type 0} → (I → Bytes32) → SingletonLayer I → Coin → LineageProof
lineage_proof inner_hash l this_coin = record {
  parent_parent_coin_info = this_coin.parent_coin_info;
  parent_inner_puzzle_hash = inner_hash l.inner_puzzle;
  parent_amount = this_coin.amount;
}

module _ {T E : Type 0} (c : Clvm T E) (mods : Mods) (new : Constructors T)
    (args_codec : Codec T E (SingletonArgs T)) (solution_codec : Codec T E (SingletonSolution T))
    {I S : Type 0} (inner : Layer T E I S) where
  unfoldable pub parse_puzzle : Puzzle T → Result (DriverError E) (Option (SingletonLayer I))
  parse_puzzle puzzle =
      if_some (curried_args c args_codec mods.singleton_top_layer.hash puzzle) λ args.
        if not (is_singleton_struct mods args.singleton_struct)
        then err invalid_singleton_struct
        else if_some (inner.parse_puzzle (parse c args.inner_puzzle)) λ inner_puzzle. ok (
            some (record {
              launcher_id = args.singleton_struct.launcher_id;
              inner_puzzle = inner_puzzle;
            }))

  -- A solution with another inner solution.
  abbrev with_inner : {A B : Type 0} → SingletonSolution A → B → SingletonSolution B
  with_inner solution inner_solution = record {
    lineage_proof = solution.lineage_proof;
    amount = solution.amount;
    inner_solution = inner_solution;
  }

  unfoldable pub parse_solution : T → Result (DriverError E) (SingletonSolution S)
  parse_solution solution = extract solution_codec solution >>= λ s.
      inner.parse_solution s.inner_solution >>= λ inner_solution. ok (with_inner s inner_solution)

  abbrev args_of : Bytes32 → {A : Type 0} → A → SingletonArgs A
  args_of launcher_id inner_puzzle = record {
    singleton_struct = new.new_singleton_struct launcher_id;
    inner_puzzle = inner_puzzle;
  }

  unfoldable pub construct_puzzle : SingletonLayer I → Ctx T E T
  construct_puzzle l =
      wrapped c args_codec mods.singleton_top_layer inner l.inner_puzzle (args_of l.launcher_id)

  unfoldable pub construct_solution : SingletonLayer I → SingletonSolution S → Ctx T E T
  construct_solution l solution =
      wrapped_solution c solution_codec inner l.inner_puzzle solution.inner_solution
        (with_inner solution)

  abbrev pub singleton_layer : Layer T E (SingletonLayer I) (SingletonSolution S)
  singleton_layer = record {
    parse_puzzle = parse_puzzle;
    parse_solution = parse_solution;
    construct_puzzle = construct_puzzle;
    construct_solution = construct_solution;
  }

  -- A singleton around a lawful layer is a lawful layer.
  pub singleton_layer-IsLayer :
      IsClvm c
      → IsMod c mods.singleton_top_layer
      → IsConstructors mods new
      → IsCodec args_codec
      → IsCodec solution_codec
      → IsLayer c inner
      → IsLayer c singleton_layer
  unfolding parse_puzzle parse_solution construct_puzzle construct_solution
  singleton_layer-IsLayer lawful is_mod constructed args_coded solution_coded layered =
      around-IsLayer c lawful mods.singleton_top_layer is_mod args_codec args_coded inner
        singleton_layer (λ l. l.inner_puzzle) (λ l. args_of l.launcher_id) (λ l. refl) layered
        solution_codec (λ s. s.inner_solution) with_inner solution_coded
        (λ l p i found parsed.
          ground (arith, found, parsed, constructed.singleton_struct l.launcher_id))
        (λ l s. refl) (λ s t i found parsed. ground (arith, found, parsed))

  -- `ToTreeHash` of the arguments is given.
  module _ (args_hash : SingletonArgs Bytes32 → Bytes32) (inner_hash : I → Bytes32) where
    unfoldable pub tree_hash : SingletonLayer I → Bytes32
    tree_hash l = args_hash (args_of l.launcher_id (inner_hash l.inner_puzzle))
