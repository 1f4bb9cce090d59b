-- ===== src/Driver/Layers/Value.antt =====
-- The layers that leave their solution as it is: of any value with a codec
-- (crates/chia-sdk-driver/src/layer.rs), and of a parsed puzzle (crates/chia-sdk-driver/src/puzzle.rs).
use chia_wallet_sdk.Prelude.{refl, sym, Option, some, arith}
use chia_wallet_sdk.Protocol.{Result, ok, ◌>>=◌}
use chia_wallet_sdk.Driver.Clvm.{Clvm, IsClvm, Codec, IsCodec, DriverError}
use chia_wallet_sdk.Driver.Context.{Ctx, pure, alloc, extract}
use chia_wallet_sdk.Driver.Puzzle.{Puzzle, ptr, parse-lem}
use chia_wallet_sdk.Driver.Layer.{Layer, IsLayer, IsHash}
use chia_wallet_sdk.Driver.Wrapped.{alloc-Keeps, extract-alloc}

module _ {T E V : Type 0} (codec : Codec T E V) where
  unfoldable pub parse_puzzle : Puzzle T → Result (DriverError E) (Option V)
  parse_puzzle puzzle = extract codec (ptr puzzle) >>= λ value. ok (some value)

  unfoldable pub construct_puzzle : V → Ctx T E T
  construct_puzzle value = alloc codec value

  abbrev pub value_layer : Layer T E V T
  value_layer = record {
    parse_puzzle = parse_puzzle;
    parse_solution = ok;
    construct_puzzle = construct_puzzle;
    construct_solution = λ value solution. pure solution;
  }

  -- A value that a codec decodes as it was encoded is a lawful layer.
  pub value_layer-IsLayer : (c : Clvm T E) → IsClvm c → IsCodec codec → IsLayer c value_layer
  unfolding parse_puzzle construct_puzzle
  value_layer-IsLayer c lawful coded = record {
    parse_puzzle-construct_puzzle = λ l s t w h.
        let (same, _) = parse-lem c lawful t in
        let found = extract-alloc c codec coded l s t h in rw same (ground (arith, found));
    construct_puzzle-Keeps = alloc-Keeps c codec;
    parse_solution-construct_solution = λ l solution s t w h. sym h;
    construct_solution-Keeps = λ l solution s w. (w, refl);
  }

-- The layer of a node pointer, which is encoded as what it points to.
abbrev pub ptr_layer : {T E : Type 0} → Layer T E T T
ptr_layer = value_layer (record { encode = ok; decode = ok })

pub ptr_layer-IsLayer : {T E : Type 0} (c : Clvm T E) → IsClvm c → IsLayer c ptr_layer
ptr_layer-IsLayer c lawful =
    value_layer-IsLayer (record { encode = ok; decode = ok }) c lawful (λ a t h. ground (arith, h))

pub ptr_layer-IsHash : {T E : Type 0} (c : Clvm T E) → IsHash c ptr_layer c.tree_hash
unfolding construct_puzzle alloc
ptr_layer-IsHash c l s t w h = ground (arith, h)

module _ {T E : Type 0} where
  abbrev pub puzzle_layer : Layer T E (Puzzle T) T
  puzzle_layer = record {
    parse_puzzle = λ puzzle. ok (some puzzle);
    parse_solution = ok;
    construct_puzzle = λ puzzle. pure (ptr puzzle);
    construct_solution = λ puzzle solution. pure solution;
  }
