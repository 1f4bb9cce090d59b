-- ===== src/CoinSelection/Knapsack.antt =====
-- `knapsack_coin_algorithm` of crates/chia-sdk-utils/src/coin_selection.rs, over a random generator of
-- Booleans.
use chia_wallet_sdk.Prelude.{
  ℕ, zero, suc, ◌+◌, ◌-◌, Bool, true, false, not, ◌&&◌, ◌||◌, Option, none, some, List, [], ◌∷◌,
  ◌==◌, ltb, if◌then◌else◌, length, contains,
}
use chia_wallet_sdk.Prelude.IndexSet
use chia_wallet_sdk.Protocol.{Coin, coin_eq}

-- The variables of the loops: those of one attempt, and the best result so far.
pub record Search (G : Type 0) : Type 0 where
  pub rng : G
  pub selected_coins : List Coin
  pub selected_sum : ℕ
  pub target_reached : Bool
  pub best_sum : ℕ
  pub best_coins : Option (List Coin)

-- How the body of the loop over the coins ends.
pub data Next (G : Type 0) : Type 0 where
  continue : Search G → Next G
  break : Search G → Next G
  return : List Coin → Next G

module _ {G : Type 0} (gen : G → Bool × G) (amount max_coins : ℕ) where
  -- Whether a coin is skipped, with the random draw of the first pass.
  unfoldable pub skips : ℕ → Coin → Search G → Bool × G
  skips pass coin s =
      let (draw, rng) = gen s.rng in
      if pass == 0
      then (not draw && (not (pass == 1) || contains s.selected_coins coin), rng)
      else (not (pass == 1) || contains s.selected_coins coin, s.rng)

  -- A coin is added; too large a sum is noted as the best, if it is, and taken back.
  unfoldable pub add_coin : Coin → Search G → Next G
  add_coin coin s =
      let selected = IndexSet.insert coin s.selected_coins in
      let sum = s.selected_sum + coin.amount in
      if sum == amount
      then return selected
      else if ltb amount sum
      then if ltb sum s.best_sum
        then continue (record s {
          target_reached = true;
          best_sum = sum;
          best_coins = some selected;
          selected_sum = sum - coin.amount;
          selected_coins = IndexSet.remove coin selected;
        })
        else continue
            (record s { target_reached = true; selected_sum = sum; selected_coins = selected })
      else continue (record s { selected_sum = sum; selected_coins = selected })

  -- The body of the loop over the coins.
  unfoldable pub try_coin : ℕ → Coin → Search G → Next G
  try_coin pass coin s =
      let (skip, rng) = skips pass coin s in
      let drawn : Search G = record s { rng = rng } in
      if skip
      then continue drawn
      else if ltb max_coins (length s.selected_coins)
      then break drawn
      else add_coin coin drawn

  unfoldable pub run_pass : ℕ → List Coin → Search G → Next G
  run_pass pass [] s = continue s
  run_pass pass (coin ∷ coins) s = elim (try_coin pass coin s) [
    | continue s' ↦ run_pass pass coins s'
    | break s' ↦ continue s'
    | return found ↦ return found
  ]

  -- One attempt: a random pass, and a pass over the coins that it left, unless it reached the target.
  unfoldable pub run_round : List Coin → Search G → Next G
  run_round coins s =
      let fresh : Search G = record s {
        selected_coins = [];
        selected_sum = 0;
        target_reached = false;
      } in
      elim (run_pass 0 coins fresh) [
        | continue s1 ↦ elim s1.target_reached [ true ↦ continue s1 | false ↦ run_pass 1 coins s1 ]
        | break s1 ↦ break s1
        | return found ↦ return found
      ]

  unfoldable pub run_rounds : ℕ → List Coin → Search G → Option (List Coin)
  run_rounds zero coins s = s.best_coins
  run_rounds (suc n) coins s = elim (run_round coins s) [
    | continue s' ↦ run_rounds n coins s'
    | break s' ↦ run_rounds n coins s'
    | return found ↦ some found
  ]

  unfoldable pub knapsack_coin_algorithm : G → List Coin → ℕ → Option (List Coin)
  knapsack_coin_algorithm rng coins max_amount = run_rounds 1000 coins (record {
    rng = rng;
    selected_coins = [];
    selected_sum = 0;
    target_reached = false;
    best_sum = max_amount;
    best_coins = none;
  })
