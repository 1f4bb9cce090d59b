-- ===== src/Driver/Layers/Oracle.antt =====
-- crates/chia-sdk-driver/src/layers/datalayer/oracle_layer.rs.
use chia_wallet_sdk.Prelude.{
  ◌≡◌, refl, not, Option, none, some, inl, inr, List, length, [], ◌∷◌, ◌==◌, ◌%◌, if◌then◌else◌, ℕ,
  arith,
}
use chia_wallet_sdk.Protocol.{Bytes32, Result, ok, err, ◌>>=◌, Result-cases}
use chia_wallet_sdk.Conditions.{Condition, create_coin, create_puzzle_announcement}
use chia_wallet_sdk.Driver.Clvm.{Clvm, Codec, DriverError, custom, to_clvm, try_to}
use chia_wallet_sdk.Driver.Context.{
  SpendContext, Spend, Ctx, Mods, pure, lift, alloc, extract, alloc_curried, puzzle,
}
use chia_wallet_sdk.Driver.Puzzle.{Puzzle, parse, parse_curried, as_raw}
use chia_wallet_sdk.Driver.Context as Context
use chia_wallet_sdk.Driver.Layer.{Layer, IsLayer}
use chia_wallet_sdk.Driver.Wrapped.{puzzle_hash}

pub record OracleLayer : Type 0 where
  pub oracle_puzzle_hash : Bytes32
  pub oracle_fee : ℕ

unfoldable pub new : Bytes32 → ℕ → Option OracleLayer
new oracle_puzzle_hash oracle_fee =
    if not (oracle_fee % 2 == 0)
    then none
    else some (record { oracle_puzzle_hash = oracle_puzzle_hash; oracle_fee = oracle_fee })

-- The coin that the first condition creates.
unfoldable pub of_first : {T : Type 0} → List (Condition T) → Option OracleLayer
of_first (create_coin puzzle_hash amount memos ∷ _) = new puzzle_hash amount
of_first _ = none

unfoldable pub conditions_of : {T : Type 0} → OracleLayer → List (Condition T)
conditions_of l =
    create_coin l.oracle_puzzle_hash l.oracle_fee [] ∷ create_puzzle_announcement (36 ∷ []) ∷ []

-- `quote_codec` encodes conditions as `clvm_quote!` does, and decodes them as `match_quote!` does.
module _ {T E : Type 0} (c : Clvm T E) (quote_codec : Codec T E (List (Condition T))) where
  unfoldable pub parse_puzzle : Puzzle T → Result (DriverError E) (Option OracleLayer)
  parse_puzzle puzzle = elim (as_raw puzzle) [
    | none ↦ ok none
    | some p ↦ extract quote_codec p.ptr >>= λ conditions.
        if not (length conditions == 2) then ok none else ok (of_first conditions)
  ]

  unfoldable pub parse_solution : T → Result (DriverError E) (Unit {0})
  parse_solution _ = ok tt

  unfoldable pub construct_puzzle : OracleLayer → Ctx T E T
  construct_puzzle l = lift (
      if l.oracle_fee % 2 == 1
      then err (custom "oracle fee must be even")
      else try_to to_clvm (quote_codec.encode (conditions_of l)))

  unfoldable pub construct_solution : OracleLayer → Unit {0} → Ctx T E T
  construct_solution l tt = pure c.nil

  abbrev pub oracle_layer : Layer T E OracleLayer (Unit {0})
  oracle_layer = record {
    parse_puzzle = parse_puzzle;
    parse_solution = parse_solution;
    construct_puzzle = construct_puzzle;
    construct_solution = construct_solution;
  }

  unfoldable pub spend : OracleLayer → Ctx T E (Spend T)
  spend l = Context.◌>>=◌ (construct_puzzle l) λ puzzle.
      Context.◌>>=◌ (construct_solution l tt)
        λ solution. pure (record { puzzle = puzzle; solution = solution })

  -- A puzzle is constructed only for an even fee, and is then the quoted conditions.
  construct_puzzle-parts :
      (l : OracleLayer) (s : SpendContext T) (t : T)
      → (construct_puzzle l s).0 ≡ ok t
      → (l.oracle_fee % 2 ≡ 0) × (quote_codec.encode (conditions_of l) ≡ ok t)
  unfolding construct_puzzle
  construct_puzzle-parts l s t h = elim (Result-cases (quote_codec.encode (conditions_of l))) [
    | inl (u, e) ↦ (ground (arith, e), ground (arith, e))
    | inr (failure, e) ↦ (ground (arith, e), ground (arith, e))
  ]

  -- The oracle layer is lawful, for a codec in which its own two conditions are decoded as they were encoded
  -- and no quote is taken for a curried puzzle.
  pub oracle_layer-IsLayer :
      ((l : OracleLayer) (t : T)
        → quote_codec.encode (conditions_of l) ≡ ok t
        → quote_codec.decode t ≡ ok (conditions_of l))
      → ((conditions : List (Condition T)) (t : T)
          → quote_codec.encode conditions ≡ ok t
          → c.uncurry t ≡ none)
      → IsLayer c oracle_layer
  unfolding parse_puzzle parse_solution construct_puzzle construct_solution of_first new
      conditions_of as_raw parse parse_curried extract
  oracle_layer-IsLayer coded is_raw = record {
    parse_puzzle-construct_puzzle = λ l s t w h.
        let (even, e) = construct_puzzle-parts l s t h in
        let decoded = coded l t e in
        let uncurried = is_raw (conditions_of l) t e in ground (arith, decoded, uncurried, even);
    construct_puzzle-Keeps = λ l s w. (w, refl);
    parse_solution-construct_solution = λ l solution s t w h. refl;
    construct_solution-Keeps = λ l solution s w. (w, refl);
  }
