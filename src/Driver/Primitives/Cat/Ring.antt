-- ===== src/Driver/Primitives/Cat/Ring.antt =====
-- The ring of spends that `spend_all` of crates/chia-sdk-driver/src/primitives/cat.rs makes.
use chia_wallet_sdk.Prelude.{ℕ, ◌+◌, ◌≡◌, List, [], ◌∷◌, ◌++◌}
use chia_wallet_sdk.Prelude.Int.{ℤ, pos, ◌+ℤ◌}
use chia_wallet_sdk.Protocol.{Bytes32, Coin, CoinSpend, ok, err}
use chia_wallet_sdk.Driver.Clvm.{Clvm, Codec}
use chia_wallet_sdk.Driver.Context.{Mods}
use chia_wallet_sdk.Driver.Puzzles.{CatArgs, CatSolution, Constructors}
use chia_wallet_sdk.Driver.Spends.{IsSpendOf}
use chia_wallet_sdk.Driver.Primitives.Cat.{
  CatSpend, CreateCoin, spend_cat_layer, coins_of, less_coins,
}
use chia_wallet_sdk.Driver.Primitives.Cat.Neighbours.{first_or, last_or}
use chia_wallet_sdk.Driver.Primitives.Cat.Subtotals.{InI64}
use chia_wallet_sdk.Driver.Primitives.Cat.Loop.{Outputs, IsLoop, delta}

module _ {T E : Type 0} (c : Clvm T E) (mods : Mods) (new : Constructors T)
    (args_codec : Codec T E (CatArgs T)) (solution_codec : Codec T E (CatSolution T))
    (coin_id : Coin → Bytes32) (list_codec : Codec T E (List T))
    (create_coin_codec : Codec T E CreateCoin) where
  -- The sum of the amounts of the conditions that create a coin.
  abbrev pub created : List T → ℕ
  created [] = 0
  created (condition ∷ conditions) =
      elim (create_coin_codec.decode condition) [ ok coin ↦ coin.amount | err e ↦ 0 ]
      + created conditions

  -- The coin spend of a CAT, parsed with the coin id of the one before it, the coin and the inner
  -- puzzle hash of the one behind it, and a subtotal.
  abbrev pub IsLink : (prev next : CatSpend T) → ℤ → CatSpend T → CoinSpend → Type 0
  IsLink prev next subtotal s made =
      IsSpendOf c (spend_cat_layer c mods new args_codec solution_codec coin_id)
        (record { asset_id = s.cat.asset_id; inner_puzzle = s.inner_spend.puzzle })
        (record {
          lineage_proof = s.cat.lineage_proof;
          prev_coin_id = coin_id prev.cat.coin;
          this_coin_info = s.cat.coin;
          next_coin_proof = record {
            parent_coin_info = next.cat.coin.parent_coin_info;
            inner_puzzle_hash = c.tree_hash next.inner_spend.puzzle;
            amount = next.cat.coin.amount;
          };
          prev_subtotal = subtotal;
          extra_delta = s.extra_delta;
          inner_puzzle_solution = s.inner_spend.solution;
        })
        s.cat.coin made

  -- The coin spends of a ring, of which some CATs come `before`. Behind a CAT come the rest and then
  -- those before it, and the first and the last of these are its neighbours; a CAT alone is its own.
  -- The subtotal and what a CAT puts in are the next subtotal and what it takes out, that is, its
  -- extra delta and the coins that its inner spend creates.
  abbrev pub IsRing : List (CatSpend T) → ℤ → List (CatSpend T) → List CoinSpend → Type 0
  IsRing before subtotal [] [] = Unit {0}
  IsRing before subtotal (s ∷ rest) (made ∷ others) =
      InI64 subtotal
      × IsLink (last_or s (rest ++ before)) (first_or s (rest ++ before)) subtotal s made
      × ((conditions : List T) × (total : ℤ) × Outputs c mods new args_codec solution_codec coin_id
            list_codec create_coin_codec s conditions
          × (total +ℤ (s.extra_delta +ℤ pos (created conditions))
              ≡ subtotal +ℤ pos s.cat.coin.amount)
          × IsRing (before ++ s ∷ []) total rest others)
  IsRing before subtotal _ _ = ⊥

  abbrev IsPasses : List (CatSpend T) → ℕ → ℤ → List (CatSpend T) → List CoinSpend → Type 0
  IsPasses = IsLoop c mods new args_codec solution_codec coin_id list_codec create_coin_codec

  abbrev delta_between : CatSpend T → List T → ℤ
  delta_between = delta c mods new args_codec solution_codec coin_id list_codec create_coin_codec

  abbrev coins : List T → List CreateCoin
  coins = coins_of c mods new args_codec solution_codec coin_id list_codec create_coin_codec

  abbrev less : ℤ → List CreateCoin → ℤ
  less = less_coins c mods new args_codec solution_codec coin_id list_codec create_coin_codec
