-- ===== src/Driver/Primitives/Outer.antt =====
-- The outer layer of the singletons of crates/chia-sdk-driver/src/primitives, which their parsers take
-- off first.
use chia_wallet_sdk.Prelude.{◌≡◌, some, inl, inr, Option-cases, arith}
use chia_wallet_sdk.Protocol.{ok, Result-cases}
use chia_wallet_sdk.Driver.Clvm.{Clvm, Codec}
use chia_wallet_sdk.Driver.Context.{Mods}
use chia_wallet_sdk.Driver.Puzzle.{Puzzle, parse}
use chia_wallet_sdk.Driver.Puzzles.{SingletonArgs, SingletonSolution, Constructors}
use chia_wallet_sdk.Driver.Layer.{Layer, curried_args}
use chia_wallet_sdk.Driver.Layers.Singleton.{SingletonLayer, singleton_layer, parse_puzzle}
use chia_wallet_sdk.Driver.Layers.Value.{puzzle_layer}

-- A singleton around a layer is parsed as one around its inner puzzle, which is parsed as that layer.
pub outer_parsed :
    {T E I S : Type 0} (c : Clvm T E) (mods : Mods) (new : Constructors T)
    (args_codec : Codec T E (SingletonArgs T)) (solution_codec : Codec T E (SingletonSolution T))
    (inner : Layer T E I S) (p : Puzzle T) (args : SingletonArgs T) (l : SingletonLayer I)
    → (singleton_layer c mods new args_codec solution_codec inner).parse_puzzle p ≡ ok (some l)
    → curried_args c args_codec mods.singleton_top_layer.hash p ≡ ok (some args)
    → ((singleton_layer c mods new args_codec solution_codec puzzle_layer).parse_puzzle p
        ≡ ok (
            some
              (record { launcher_id = l.launcher_id; inner_puzzle = parse c args.inner_puzzle })))
      × (inner.parse_puzzle (parse c args.inner_puzzle) ≡ ok (some l.inner_puzzle))
unfolding parse_puzzle
outer_parsed c mods new args_codec solution_codec inner p args l h found =
    elim (Result-cases (inner.parse_puzzle (parse c args.inner_puzzle))) [
      | inr (failure, e) ↦ (ground (arith, found, e), ground (arith, found, e))
      | inl (parsed, e) ↦ elim (Option-cases parsed) [
        | inl f ↦ (ground (arith, found, e, f), ground (arith, found, e, f))
        | inr (layer, f) ↦ (ground (arith, found, e, f), ground (arith, found, e, f))
      ]
    ]
