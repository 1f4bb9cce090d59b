-- ===== src/Driver/Layers/Standard.antt =====
-- crates/chia-sdk-driver/src/layers/standard_layer.rs.
use chia_wallet_sdk.Prelude.{◌≡◌, refl, ap, ◌∙◌, Option, none, some, [], ◌∷◌, ◌++◌, arith}
use chia_wallet_sdk.Protocol.{Bytes32, Coin, CoinSpend, Result, ok}
use chia_wallet_sdk.Conditions.{PublicKey}
use chia_wallet_sdk.Conditions.Lists.{Conditions}
use chia_wallet_sdk.Driver.Clvm.{Clvm, IsClvm, Codec, IsCodec, IsMod, DriverError}
use chia_wallet_sdk.Driver.Context.{SpendContext, Spend, Ctx, Mods, ◌>>=◌, alloc, extract, spend}
use chia_wallet_sdk.Driver.Cache.{IsWf, bind-ok}
use chia_wallet_sdk.Driver.Puzzle.{Puzzle, parse}
use chia_wallet_sdk.Driver.Puzzles.{StandardArgs, StandardSolution, Constructors, IsConstructors}
use chia_wallet_sdk.Driver.Layer.{
  Layer, IsLayer, IsHash, curried_args, curried_mod, construct_spend,
}
use chia_wallet_sdk.Driver.Spends.{IsSerialised, spend-lem, construct_spend-lem}
use chia_wallet_sdk.Driver.Wrapped.{if_some, alloc-Keeps, encode-alloc}
use chia_wallet_sdk.Driver.Lawful.{leaf-IsLayer, leaf-IsHash}

pub record StandardLayer : Type 0 where
  pub synthetic_key : PublicKey

-- `StandardArgs::curry_tree_hash` is given.
unfoldable pub tree_hash : (PublicKey → Bytes32) → StandardLayer → Bytes32
tree_hash curry_tree_hash l = curry_tree_hash l.synthetic_key

module _ {T E : Type 0} (c : Clvm T E) (mods : Mods) (new : Constructors T)
    (args_codec : Codec T E StandardArgs) (solution_codec : Codec T E (StandardSolution T)) where
  unfoldable pub construct_puzzle : StandardLayer → Ctx T E T
  construct_puzzle l =
      curried_mod c args_codec mods.standard (new.new_standard_args l.synthetic_key)

  unfoldable pub construct_solution : StandardLayer → StandardSolution T → Ctx T E T
  construct_solution l solution = alloc solution_codec solution

  unfoldable pub parse_puzzle : Puzzle T → Result (DriverError E) (Option StandardLayer)
  parse_puzzle puzzle =
      if_some (curried_args c args_codec mods.standard.hash puzzle)
        λ args. ok (some (record { synthetic_key = args.synthetic_key }))

  unfoldable pub parse_solution : T → Result (DriverError E) (StandardSolution T)
  parse_solution solution = extract solution_codec solution

  abbrev pub standard_layer : Layer T E StandardLayer (StandardSolution T)
  standard_layer = record {
    parse_puzzle = parse_puzzle;
    parse_solution = parse_solution;
    construct_puzzle = construct_puzzle;
    construct_solution = construct_solution;
  }

  -- A spend of the delegated puzzle, without the original key.
  abbrev pub delegated : T → T → StandardSolution T
  delegated delegated_puzzle solution = record {
    original_public_key = none;
    delegated_puzzle = delegated_puzzle;
    solution = solution;
  }

  unfoldable pub delegated_inner_spend : StandardLayer → Spend T → Ctx T E (Spend T)
  delegated_inner_spend l s = construct_spend c standard_layer l (delegated s.puzzle s.solution)

  -- `quote_codec` encodes conditions as `clvm_quote!` does.
  module _ (quote_codec : Codec T E (Conditions T)) where
    unfoldable pub spend_with_conditions : StandardLayer → Conditions T → Ctx T E (Spend T)
    spend_with_conditions l conditions = alloc quote_codec conditions >>= λ delegated_puzzle.
        construct_spend c standard_layer l (delegated delegated_puzzle c.nil)

    unfoldable pub spend_coin : StandardLayer → Coin → Conditions T → Ctx T E (Unit {0})
    spend_coin l coin conditions = spend_with_conditions l conditions >>= λ s. spend c coin s

  module _ (lawful : IsClvm c) (is_mod : IsMod c mods.standard) (args_coded : IsCodec args_codec)
      (constructed : IsConstructors mods new) where
    -- The standard layer is lawful.
    pub standard_layer-IsLayer : IsCodec solution_codec → IsLayer c standard_layer
    unfolding parse_puzzle parse_solution construct_puzzle construct_solution
    standard_layer-IsLayer solution_coded =
        leaf-IsLayer c lawful mods.standard is_mod args_codec args_coded standard_layer
          (λ l. new.new_standard_args l.synthetic_key) (λ l. refl) solution_codec solution_coded
          (λ l p found. ground (arith, found, constructed.standard_args l.synthetic_key))
          (λ l s. refl) (λ t. refl)

    module _ (quote_codec : Codec T E (Conditions T)) where
      spend_with_conditions-lem :
          IsCodec solution_codec
          → (l : StandardLayer) (conditions : Conditions T) (s : SpendContext T) (made : Spend T)
          → IsWf c s
          → (spend_with_conditions quote_codec l conditions s).0 ≡ ok made
          → (delegated_puzzle : T) × (quote_codec.encode conditions ≡ ok delegated_puzzle)
            × (parse_puzzle (parse c made.puzzle) ≡ ok (some l))
            × (parse_solution made.solution ≡ ok (delegated delegated_puzzle c.nil))
            × ((spend_with_conditions quote_codec l conditions s).1.coin_spends ≡ s.coin_spends)
      unfolding spend_with_conditions
      spend_with_conditions-lem solution_coded l conditions s made w h =
          let next : T → Ctx T E (Spend T) =
            λ p. construct_spend c standard_layer l (delegated p c.nil) in
          let (p, first, rest) = bind-ok c (alloc quote_codec conditions) next s made h in
          let after = (alloc quote_codec conditions s).1 in
          let (w', same) = alloc-Keeps c quote_codec conditions s w in
          let (parsed, parsed', _, same') =
            construct_spend-lem c standard_layer (standard_layer-IsLayer solution_coded) l
              (delegated p c.nil) after made w' rest in
          (
            p,
            encode-alloc c quote_codec conditions s p first,
            parsed,
            parsed',
            rw first (same' ∙ same),
          )

      -- A spend with conditions that succeeds in a well-formed context adds one coin spend, of the coin.
      -- Its puzzle is parsed as the layer, and its solution as a delegated puzzle without a solution, which
      -- is what the quoted conditions are encoded as.
      pub spend_coin-lem :
          IsCodec solution_codec
          → (l : StandardLayer) (coin : Coin) (conditions : Conditions T) (s : SpendContext T)
          → IsWf c s
          → (spend_coin quote_codec l coin conditions s).0 ≡ ok tt
          → (made : CoinSpend) × (made.coin ≡ coin)
            × ((puzzle solution delegated_puzzle : T) × IsSerialised c made puzzle solution
                × (quote_codec.encode conditions ≡ ok delegated_puzzle)
                × (parse_puzzle (parse c puzzle) ≡ ok (some l))
                × (parse_solution solution ≡ ok (delegated delegated_puzzle c.nil)))
            × ((spend_coin quote_codec l coin conditions s).1.coin_spends
                ≡ s.coin_spends ++ made ∷ [])
      unfolding spend_coin
      spend_coin-lem solution_coded l coin conditions s w h =
          let (sp, first, rest) =
            bind-ok c (spend_with_conditions quote_codec l conditions) (λ s. spend c coin s) s tt
              h in
          let (p, decoded, parsed, parsed', same) =
            spend_with_conditions-lem solution_coded l conditions s sp w first in
          let (made, of_coin, serialised, ends) =
            spend-lem c coin sp (spend_with_conditions quote_codec l conditions s).1 rest in
          (
            made,
            of_coin,
            (sp.puzzle, sp.solution, p, serialised, decoded, parsed, parsed'),
            rw first (ap (λ r. r.coin_spends) ends ∙ ap (λ r. r ++ made ∷ []) same),
          )

    pub tree_hash-IsHash :
        (curry_tree_hash : PublicKey → Bytes32)
        → ((key : PublicKey) (encoded : T)
            → args_codec.encode (new.new_standard_args key) ≡ ok encoded
            → c.curry_hash mods.standard.hash (c.tree_hash encoded) ≡ curry_tree_hash key)
        → IsHash c standard_layer (tree_hash curry_tree_hash)
    unfolding construct_puzzle tree_hash
    tree_hash-IsHash curry_tree_hash curried =
        leaf-IsHash c lawful mods.standard is_mod args_codec args_coded standard_layer
          (λ l. new.new_standard_args l.synthetic_key) (λ l. refl) (tree_hash curry_tree_hash)
          (λ l encoded e. curried l.synthetic_key encoded e)
