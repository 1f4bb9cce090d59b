-- ===== src/Driver/Layers/Cat.antt =====
-- crates/chia-sdk-driver/src/layers/cat_layer.rs.
use chia_wallet_sdk.Prelude.{◌≡◌, refl, ap, ◌∙◌, not, Option, some, ◌==◌, if◌then◌else◌, arith}
use chia_wallet_sdk.Protocol.{Bytes32, Result, ok, err, ◌>>=◌}
use chia_wallet_sdk.Driver.Clvm.{Clvm, IsClvm, Codec, IsCodec, IsMod, DriverError, invalid_mod_hash}
use chia_wallet_sdk.Driver.Context.{Ctx, Mods, extract}
use chia_wallet_sdk.Driver.Puzzle.{Puzzle, parse}
use chia_wallet_sdk.Driver.Puzzles.{CatArgs, CatSolution, Constructors, IsConstructors}
use chia_wallet_sdk.Driver.Layer.{Layer, IsLayer, IsHash, curried_args}
use chia_wallet_sdk.Driver.Wrapped.{if_some, wrapped, wrapped_solution}
use chia_wallet_sdk.Driver.Lawful.{around-IsLayer, around-IsHash}

pub record CatLayer (I : Type 0) : Type 0 where
  pub asset_id : Bytes32
  pub inner_puzzle : I

module _ {T E : Type 0} (c : Clvm T E) (mods : Mods) (new : Constructors T)
    (args_codec : Codec T E (CatArgs T)) (solution_codec : Codec T E (CatSolution T)) {I S : Type 0}
    (inner : Layer T E I S) where
  unfoldable pub parse_puzzle : Puzzle T → Result (DriverError E) (Option (CatLayer I))
  parse_puzzle puzzle = if_some (curried_args c args_codec mods.cat.hash puzzle) λ args.
      if not (args.mod_hash == mods.cat.hash)
      then err invalid_mod_hash
      else if_some (inner.parse_puzzle (parse c args.inner_puzzle)) λ inner_puzzle.
        ok (some (record { asset_id = args.asset_id; inner_puzzle = inner_puzzle }))

  -- A solution with another inner solution.
  abbrev with_inner : {A B : Type 0} → CatSolution A → B → CatSolution B
  with_inner solution inner_solution = record {
    inner_puzzle_solution = inner_solution;
    lineage_proof = solution.lineage_proof;
    prev_coin_id = solution.prev_coin_id;
    this_coin_info = solution.this_coin_info;
    next_coin_proof = solution.next_coin_proof;
    prev_subtotal = solution.prev_subtotal;
    extra_delta = solution.extra_delta;
  }

  unfoldable pub parse_solution : T → Result (DriverError E) (CatSolution S)
  parse_solution ptr = extract solution_codec ptr >>= λ solution.
      inner.parse_solution solution.inner_puzzle_solution >>= λ inner_solution.
      ok (with_inner solution inner_solution)

  unfoldable pub construct_puzzle : CatLayer I → Ctx T E T
  construct_puzzle l =
      wrapped c args_codec mods.cat inner l.inner_puzzle (new.new_cat_args l.asset_id)

  unfoldable pub construct_solution : CatLayer I → CatSolution S → Ctx T E T
  construct_solution l solution =
      wrapped_solution c solution_codec inner l.inner_puzzle solution.inner_puzzle_solution
        (with_inner solution)

  abbrev pub cat_layer : Layer T E (CatLayer I) (CatSolution S)
  cat_layer = record {
    parse_puzzle = parse_puzzle;
    parse_solution = parse_solution;
    construct_puzzle = construct_puzzle;
    construct_solution = construct_solution;
  }

  -- A CAT around a lawful layer is a lawful layer.
  pub cat_layer-IsLayer :
      IsClvm c
      → IsMod c mods.cat
      → IsConstructors mods new
      → IsCodec args_codec
      → IsCodec solution_codec
      → IsLayer c inner
      → IsLayer c cat_layer
  unfolding parse_puzzle parse_solution construct_puzzle construct_solution
  cat_layer-IsLayer lawful is_mod constructed args_coded solution_coded layered =
      around-IsLayer c lawful mods.cat is_mod args_codec args_coded inner cat_layer
        (λ l. l.inner_puzzle) (λ l. new.new_cat_args l.asset_id) (λ l. refl) layered solution_codec
        (λ s. s.inner_puzzle_solution) with_inner solution_coded
        (λ l p i found parsed. ground (arith, found, parsed, constructed.cat_args l.asset_id i))
        (λ l s. refl) (λ s t i found parsed. ground (arith, found, parsed))

  -- `CatArgs::curry_tree_hash` is given.
  module _ (curry_tree_hash : Bytes32 → Bytes32 → Bytes32) (inner_hash : I → Bytes32) where
    unfoldable pub tree_hash : CatLayer I → Bytes32
    tree_hash l = curry_tree_hash l.asset_id (inner_hash l.inner_puzzle)

    pub tree_hash-IsHash :
        IsClvm c
        → IsMod c mods.cat
        → IsCodec args_codec
        → IsHash c inner inner_hash
        → ((asset_id : Bytes32) (i encoded : T)
            → args_codec.encode (new.new_cat_args asset_id i) ≡ ok encoded
            → c.curry_hash mods.cat.hash (c.tree_hash encoded)
              ≡ curry_tree_hash asset_id (c.tree_hash i))
        → IsHash c cat_layer tree_hash
    unfolding tree_hash construct_puzzle
    tree_hash-IsHash lawful is_mod args_coded inner_hashes curried =
        around-IsHash c lawful mods.cat is_mod args_codec args_coded inner cat_layer
          (λ l. l.inner_puzzle) (λ l. new.new_cat_args l.asset_id) (λ l. refl) inner_hash
          inner_hashes tree_hash
          (λ l i encoded e h. curried l.asset_id i encoded e ∙ ap (curry_tree_hash l.asset_id) h)
