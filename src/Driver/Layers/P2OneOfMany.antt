-- ===== src/Driver/Layers/P2OneOfMany.antt =====
-- crates/chia-sdk-driver/src/layers/p2_one_of_many.rs.
use chia_wallet_sdk.Prelude.{refl, Option, some, arith}
use chia_wallet_sdk.Protocol.{Bytes32, Result, ok}
use chia_wallet_sdk.Driver.Clvm.{Clvm, IsClvm, Codec, IsCodec, IsMod, DriverError}
use chia_wallet_sdk.Driver.Context.{Ctx, Mods, alloc, extract}
use chia_wallet_sdk.Driver.Puzzle.{Puzzle}
use chia_wallet_sdk.Driver.Layer.{Layer, IsLayer, curried_args, curried_mod}
use chia_wallet_sdk.Driver.Wrapped.{if_some}
use chia_wallet_sdk.Driver.Lawful.{leaf-IsLayer}

pub record P2OneOfMany : Type 0 where
  pub merkle_root : Bytes32

pub record P2OneOfManyArgs : Type 0 where
  pub merkle_root : Bytes32

pub record P2OneOfManySolution (T : Type 0) : Type 0 where
  pub merkle_proof : Bytes32
  pub puzzle : T
  pub solution : T

module _ {T E : Type 0} (c : Clvm T E) (mods : Mods) (args_codec : Codec T E P2OneOfManyArgs)
    (solution_codec : Codec T E (P2OneOfManySolution T)) where
  unfoldable pub parse_puzzle : Puzzle T → Result (DriverError E) (Option P2OneOfMany)
  parse_puzzle puzzle =
      if_some (curried_args c args_codec mods.p2_one_of_many.hash puzzle)
        λ args. ok (some (record { merkle_root = args.merkle_root }))

  unfoldable pub parse_solution : T → Result (DriverError E) (P2OneOfManySolution T)
  parse_solution solution = extract solution_codec solution

  unfoldable pub construct_puzzle : P2OneOfMany → Ctx T E T
  construct_puzzle l =
      curried_mod c args_codec mods.p2_one_of_many (record { merkle_root = l.merkle_root })

  unfoldable pub construct_solution : P2OneOfMany → (P2OneOfManySolution T) → Ctx T E T
  construct_solution l solution = alloc solution_codec solution

  abbrev pub p2_one_of_many : Layer T E P2OneOfMany (P2OneOfManySolution T)
  p2_one_of_many = record {
    parse_puzzle = parse_puzzle;
    parse_solution = parse_solution;
    construct_puzzle = construct_puzzle;
    construct_solution = construct_solution;
  }

  -- The p2 one of many layer is lawful.
  pub p2_one_of_many-IsLayer :
      IsClvm c
      → IsMod c mods.p2_one_of_many
      → IsCodec args_codec
      → IsCodec solution_codec
      → IsLayer c p2_one_of_many
  unfolding parse_puzzle parse_solution construct_puzzle construct_solution
  p2_one_of_many-IsLayer lawful is_mod args_coded solution_coded =
      leaf-IsLayer c lawful mods.p2_one_of_many is_mod args_codec args_coded p2_one_of_many
        (λ l. record { merkle_root = l.merkle_root }) (λ l. refl) solution_codec solution_coded
        (λ l p found. ground (arith, found)) (λ l s. refl) (λ t. refl)
