-- ===== src/Driver/Primitives/Cat/Children.antt =====
-- The children that crates/chia-sdk-driver/src/primitives/cat.rs parses of a CAT that it spent.
use chia_wallet_sdk.Prelude.{
  ◌≡◌, refl, some, List, [], ◌∷◌, ◌++◌, map, inl, inr, Option-cases, arith,
}
use chia_wallet_sdk.Protocol.{Bytes32, Coin, CoinSpend, ok, Result-cases}
use chia_wallet_sdk.Conditions.{Condition}
use chia_wallet_sdk.Driver.Clvm.{Clvm, IsClvm, Codec, IsCodec, IsMod}
use chia_wallet_sdk.Driver.Context.{SpendContext, Mods, extract}
use chia_wallet_sdk.Driver.Cache.{IsWf}
use chia_wallet_sdk.Driver.Puzzle.{Puzzle, parse, parse-lem}
use chia_wallet_sdk.Driver.Puzzles.{CatArgs, CatSolution, Constructors, IsConstructors}
use chia_wallet_sdk.Driver.Layer.{curried_args}
use chia_wallet_sdk.Driver.Spends.{IsSerialised, spend_layer-lem}
use chia_wallet_sdk.Driver.Layers.Cat.{CatLayer, cat_layer-IsLayer, parse_puzzle, parse_solution}
use chia_wallet_sdk.Driver.Layers.Value.{ptr_layer, ptr_layer-IsLayer}
use chia_wallet_sdk.Driver.Layers.Value as Value
use chia_wallet_sdk.Driver.Primitives.Cat.{
  Cat, CreateCoin, SingleCatSpend, into_create_coin, filter_map, child_lineage_proof, wrapped_child,
  spend_cat_layer, parent_cat_layer, layer_of, solution_of, spend, child_of, parse_children,
}

module _ {T E : Type 0} (c : Clvm T E) (mods : Mods) (new : Constructors T)
    (args_codec : Codec T E (CatArgs T)) (solution_codec : Codec T E (CatSolution T))
    (coin_id : Coin → Bytes32) (conditions_codec : Codec T E (List (Condition T)))
    (curry_tree_hash : Bytes32 → Bytes32 → Bytes32) (lawful : IsClvm c) where
  -- The puzzle of a CAT around a node pointer, as one of a CAT around the puzzle that it points to.
  parent_parsed :
      (p : Puzzle T) (l : CatLayer T)
      → (spend_cat_layer c mods new args_codec solution_codec coin_id).parse_puzzle p ≡ ok (some l)
      → (parent_cat_layer c mods new args_codec solution_codec coin_id conditions_codec
            curry_tree_hash).parse_puzzle
          p
        ≡ ok (some (record { asset_id = l.asset_id; inner_puzzle = parse c l.inner_puzzle }))
  unfolding parse_puzzle Value.parse_puzzle extract
  parent_parsed p l h = elim (Result-cases (curried_args c args_codec mods.cat.hash p)) [
    | inr (failure, e) ↦ ground (arith, e)
    | inl (found, e) ↦ elim (Option-cases found) [
      | inl f ↦ ground (arith, e, f)
      | inr (args, f) ↦
          let (same, _) = parse-lem c lawful args.inner_puzzle in ground (arith, e, f, same)
    ]
  ]

  -- What a child is created with, for a CAT around the puzzle that its hash is of.
  same_children :
      (cat : Cat) (inner : T)
      → c.tree_hash inner ≡ cat.p2_puzzle_hash
      → (created : List CreateCoin)
      → map
          (child_of c mods new args_codec solution_codec coin_id conditions_codec curry_tree_hash
            cat.coin
            (record { asset_id = cat.asset_id; inner_puzzle = parse c inner }))
          created
        ≡ map (λ k. wrapped_child coin_id curry_tree_hash cat k.puzzle_hash k.amount) created
  unfolding child_of wrapped_child child_lineage_proof
  same_children cat inner hashed [] = refl
  same_children cat inner hashed (k ∷ created) =
      let (_, same) = parse-lem c lawful inner in
      rw (same_children cat inner hashed created) (rw same (rw hashed refl))

  -- A CAT that is spent with success, in a well-formed context, adds one coin spend, of its coin. If its
  -- hash is that of the inner puzzle, which can be run on the inner solution, the children that are
  -- parsed of that spend are those that `wrapped_child` gives for the coins that the run creates.
  pub parse_children-spend :
      IsMod c mods.cat
      → IsConstructors mods new
      → IsCodec args_codec
      → IsCodec solution_codec
      → (cat : Cat) (single : SingleCatSpend T) (s : SpendContext T) (output : T)
        (conditions : List (Condition T))
      → IsWf c s
      → c.tree_hash single.inner_spend.puzzle ≡ cat.p2_puzzle_hash
      → c.run_puzzle single.inner_spend.puzzle single.inner_spend.solution ≡ ok output
      → extract conditions_codec output ≡ ok conditions
      → (spend c mods new args_codec solution_codec coin_id cat single s).0 ≡ ok tt
      → (made : CoinSpend) × (made.coin ≡ cat.coin)
        × ((spend c mods new args_codec solution_codec coin_id cat single s).1.coin_spends
            ≡ s.coin_spends ++ made ∷ [])
        × ((puzzle solution : T) × IsSerialised c made puzzle solution
            × (parse_children c mods new args_codec solution_codec coin_id conditions_codec
                  curry_tree_hash cat.coin
                  (parse c puzzle)
                  solution
                ≡ ok (
                    some (
                      map
                        (λ k. wrapped_child coin_id curry_tree_hash cat k.puzzle_hash k.amount)
                        (filter_map into_create_coin conditions)))))
  unfolding spend parse_children parse_solution
  parse_children-spend is_mod constructed args_coded solution_coded cat single s output conditions w
        hashed runs decoded h =
      let layer = spend_cat_layer c mods new args_codec solution_codec coin_id in
      let layered =
        cat_layer-IsLayer c mods new args_codec solution_codec ptr_layer lawful is_mod constructed
          args_coded solution_coded (ptr_layer-IsLayer c lawful) in
      let l = layer_of c mods new args_codec solution_codec coin_id cat single in
      let solution = solution_of c mods new args_codec solution_codec coin_id cat single in
      let (made, (of_coin, (p, t, serialised, parsed, parsed')), _, ends) =
        spend_layer-lem c layer layered l solution cat.coin s w h in
      let (there, _) = parse-lem c lawful single.inner_spend.puzzle in
      let puzzle_parsed = parent_parsed (parse c p) l parsed in
      let same =
        same_children cat single.inner_spend.puzzle hashed
          (filter_map into_create_coin conditions) in
      (
        made,
        of_coin,
        ends,
        (
          p,
          t,
          serialised,
          rw puzzle_parsed (rw parsed' (rw there (rw runs (rw decoded (rw same refl))))),
        ),
      )
