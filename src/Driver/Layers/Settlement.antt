-- ===== src/Driver/Layers/Settlement.antt =====
-- crates/chia-sdk-driver/src/layers/settlement_layer.rs.
use chia_wallet_sdk.Prelude.{◌≡◌, refl, not, Option, none, some, ◌==◌, if◌then◌else◌, arith}
use chia_wallet_sdk.Protocol.{Result, ok}
use chia_wallet_sdk.Driver.Clvm.{Clvm, IsClvm, Codec, IsCodec, IsMod, DriverError}
use chia_wallet_sdk.Driver.Context.{Ctx, Mods, alloc, extract, puzzle}
use chia_wallet_sdk.Driver.Puzzle.{Puzzle, curried_puzzle_hash, parse-lem}
use chia_wallet_sdk.Driver.Layer.{Layer, IsLayer}
use chia_wallet_sdk.Driver.Wrapped.{puzzle-Keeps, puzzle_hash, alloc-Keeps, extract-alloc}

pub data SettlementLayer : Type 0 where
  settlement_layer : SettlementLayer

-- `P` is a `SettlementPaymentsSolution`.
module _ {T E P : Type 0} (c : Clvm T E) (mods : Mods) (solution_codec : Codec T E P) where
  unfoldable pub construct_puzzle : SettlementLayer → Ctx T E T
  construct_puzzle l = puzzle c mods.settlement_payments

  unfoldable pub construct_solution : SettlementLayer → P → Ctx T E T
  construct_solution l solution = alloc solution_codec solution

  unfoldable pub parse_puzzle : Puzzle T → Result (DriverError E) (Option SettlementLayer)
  parse_puzzle puzzle =
      if not (curried_puzzle_hash puzzle == mods.settlement_payments.hash)
      then ok none
      else ok (some settlement_layer)

  unfoldable pub parse_solution : T → Result (DriverError E) P
  parse_solution solution = extract solution_codec solution

  abbrev pub settlement : Layer T E SettlementLayer P
  settlement = record {
    parse_puzzle = parse_puzzle;
    parse_solution = parse_solution;
    construct_puzzle = construct_puzzle;
    construct_solution = construct_solution;
  }

  -- The settlement layer is lawful.
  pub settlement-IsLayer :
      IsClvm c → IsMod c mods.settlement_payments → IsCodec solution_codec → IsLayer c settlement
  unfolding parse_puzzle parse_solution construct_puzzle construct_solution
  settlement-IsLayer lawful is_mod solution_coded = record {
    parse_puzzle-construct_puzzle = λ l s t w h.
        let hashed = puzzle_hash c mods.settlement_payments is_mod s t w h in
        let (_, same) = parse-lem c lawful t in
        let all : settlement_layer ≡ l = elim l as (λ k. settlement_layer ≡ k) [
          | settlement_layer ↦ refl
        ] in
        ground (arith, hashed, same, all);
    construct_puzzle-Keeps = λ l. puzzle-Keeps c mods.settlement_payments is_mod;
    parse_solution-construct_solution =
        λ l solution s t w h. extract-alloc c solution_codec solution_coded solution s t h;
    construct_solution-Keeps = λ l solution. alloc-Keeps c solution_codec solution;
  }
