-- ===== src/Driver/Layers/P2DelegatedConditions.antt =====
-- crates/chia-sdk-driver/src/layers/p2_delegated_conditions_layer.rs.
use chia_wallet_sdk.Prelude.{◌≡◌, Option, some, List, arith}
use chia_wallet_sdk.Protocol.{Result, ok}
use chia_wallet_sdk.Conditions.{PublicKey, Condition}
use chia_wallet_sdk.Driver.Clvm.{Clvm, IsClvm, Codec, IsCodec, IsMod, DriverError}
use chia_wallet_sdk.Driver.Context.{SpendContext, Ctx, Mods, alloc, extract}
use chia_wallet_sdk.Driver.Puzzle.{Puzzle, parse}
use chia_wallet_sdk.Driver.Layer.{Layer, curried_args, curried_mod}
use chia_wallet_sdk.Driver.Wrapped.{if_some, curried_mod-parts}
use chia_wallet_sdk.Driver.Cache.{IsWf}

pub record P2DelegatedConditionsLayer : Type 0 where
  pub public_key : PublicKey

pub record P2DelegatedConditionsArgs : Type 0 where
  pub public_key : PublicKey

unfoldable pub new_args : PublicKey → P2DelegatedConditionsArgs
new_args public_key = record { public_key = public_key }

pub record P2DelegatedConditionsSolution (T : Type 0) : Type 0 where
  pub conditions : List (Condition T)

unfoldable pub new_solution : {T : Type 0} → List (Condition T) → P2DelegatedConditionsSolution T
new_solution conditions = record { conditions = conditions }

module _ {T E : Type 0} (c : Clvm T E) (mods : Mods)
    (args_codec : Codec T E P2DelegatedConditionsArgs)
    (solution_codec : Codec T E (P2DelegatedConditionsSolution T)) where
  unfoldable pub parse_puzzle :
      Puzzle T → Result (DriverError E) (Option P2DelegatedConditionsLayer)
  parse_puzzle puzzle =
      if_some (curried_args c args_codec mods.p2_delegated_conditions.hash puzzle)
        λ args. ok (some (record { public_key = args.public_key }))

  unfoldable pub parse_solution : T → Result (DriverError E) (P2DelegatedConditionsSolution T)
  parse_solution solution = extract solution_codec solution

  unfoldable pub construct_puzzle : P2DelegatedConditionsLayer → Ctx T E T
  construct_puzzle l = curried_mod c args_codec mods.p2_delegated_conditions (new_args l.public_key)

  unfoldable pub construct_solution :
      P2DelegatedConditionsLayer → (P2DelegatedConditionsSolution T) → Ctx T E T
  construct_solution l solution = alloc solution_codec solution

  abbrev pub p2_delegated_conditions_layer :
      Layer T E P2DelegatedConditionsLayer (P2DelegatedConditionsSolution T)
  p2_delegated_conditions_layer = record {
    parse_puzzle = parse_puzzle;
    parse_solution = parse_solution;
    construct_puzzle = construct_puzzle;
    construct_solution = construct_solution;
  }

  -- The puzzle of the layer is parsed as the layer.
  parse_puzzle-construct_puzzle :
      IsClvm c
      → IsMod c mods.p2_delegated_conditions
      → IsCodec args_codec
      → (l : P2DelegatedConditionsLayer) (s : SpendContext T) (t : T) → IsWf c s
      → (construct_puzzle l s).0 ≡ ok t
      → parse_puzzle (parse c t) ≡ ok (some l)
  unfolding new_args parse_puzzle construct_puzzle
  parse_puzzle-construct_puzzle lawful is_mod args_coded l s t w h =
      let parts =
        curried_mod-parts c args_codec lawful args_coded mods.p2_delegated_conditions is_mod
          (new_args l.public_key) s t w h in
      ground (arith, parts.0)
