-- ===== src/CoinSelection/Tests.antt =====
-- Runs of `select_coins` of crates/chia-sdk-utils/src/coin_selection.rs, with an alternating generator in
-- place of the seeded random one, and its theorems at those inputs.
use chia_wallet_sdk.Prelude.{
  ℕ, zero, suc, ◌+◌, ◌≡◌, refl, Bool, true, false, Option, some, List, [], ◌∷◌,
}
use chia_wallet_sdk.Prelude.IndexSet
use chia_wallet_sdk.Prelude.IndexSet.{IsNodup}
use chia_wallet_sdk.Protocol.{Coin, coin_eq, Result, ok, err}
use chia_wallet_sdk.CoinSelection.Select.{
  CoinSelectionError, insufficient_balance, total, select_coins, select_several, choose, exact_coin,
  sort_descending, insert_descending, smallest_coin_above, last_above, sum_largest_coins,
  sum_largest_from, u128_max,
}
use chia_wallet_sdk.CoinSelection.Knapsack.{
  knapsack_coin_algorithm, run_rounds, run_round, run_pass, try_coin, add_coin, skips,
}
use chia_wallet_sdk.CoinSelection.Totals.{IsSelection}
use chia_wallet_sdk.CoinSelection.Sound.{knapsack-IsSelection}
use chia_wallet_sdk.CoinSelection.Choice.{Outcome, select_coins-Outcome}

abbrev is_even : ℕ → Bool
is_even zero = true
is_even (suc zero) = false
is_even (suc (suc n)) = is_even n

abbrev alternate : ℕ → Bool × ℕ
alternate n = (is_even n, n + 1)

abbrev from_seed : ℕ → ℕ
from_seed seed = seed

abbrev coin_of : ℕ → Coin
coin_of amount = record { parent_coin_info = 1; puzzle_hash = 2; amount = amount }

abbrev purse : List Coin
purse = coin_of 10 ∷ coin_of 40 ∷ coin_of 25 ∷ coin_of 6 ∷ []

-- The operations, open.
abbrev run : List Coin → ℕ → Option (Result CoinSelectionError (List Coin))
unfolding select_coins select_several choose exact_coin sort_descending insert_descending
    smallest_coin_above last_above sum_largest_coins sum_largest_from knapsack_coin_algorithm
    run_rounds run_round run_pass try_coin add_coin skips total IndexSet.insert IndexSet.remove
    IndexSet.collect IndexSet.extend
run coins amount = select_coins alternate from_seed coins amount

run_exact : run purse 25 ≡ some (ok (coin_of 25 ∷ []))
unfolding run
run_exact = refl

run_poor : run purse 82 ≡ some (err (insufficient_balance 81))
unfolding run
run_poor = refl

purse-IsNodup : IsNodup purse
purse-IsNodup = (refl, (refl, (refl, (refl, tt))))

select_coins-Outcome_example : Outcome purse 50 (select_coins alternate from_seed purse 50)
select_coins-Outcome_example = select_coins-Outcome alternate from_seed purse 50 purse-IsNodup

-- The knapsack finds two coins of exactly the amount.
knapsack-IsSelection_example : IsSelection purse 35 501 (coin_of 10 ∷ coin_of 25 ∷ [])
unfolding run
knapsack-IsSelection_example =
    knapsack-IsSelection alternate purse 35 500 0 u128_max (coin_of 10 ∷ coin_of 25 ∷ [])
      purse-IsNodup refl
