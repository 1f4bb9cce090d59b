-- ===== src/CoinSelection/Select.antt =====
-- `select_coins` of crates/chia-sdk-utils/src/coin_selection.rs. `none` is a panic. Of coins of the same
-- amount, which an unstable sort may leave in any order, the sort here keeps the order.
use chia_wallet_sdk.Prelude.{
  ℕ, ◌+◌, ◌-◌, ◌^◌, Bool, not, ◌&&◌, Option, none, some, List, [], ◌∷◌, ◌==◌, ltb, leb,
  if◌then◌else◌, length, select,
}
use chia_wallet_sdk.Prelude.IndexSet
use chia_wallet_sdk.Protocol.{Coin, coin_eq, Result, ok, err}
use chia_wallet_sdk.CoinSelection.Knapsack.{knapsack_coin_algorithm}

pub data CoinSelectionError : Type 0 where
  no_spendable_coins : CoinSelectionError
  insufficient_balance : ℕ → CoinSelectionError
  exceeded_max_coins : CoinSelectionError

unfoldable pub total : List Coin → ℕ
total [] = 0
total (c ∷ cs) = c.amount + total cs

-- The sort by amount, descending.
unfoldable pub insert_descending : Coin → List Coin → List Coin
insert_descending c [] = c ∷ []
insert_descending c (d ∷ ds) =
    if leb d.amount c.amount then c ∷ d ∷ ds else d ∷ insert_descending c ds

unfoldable pub sort_descending : List Coin → List Coin
sort_descending [] = []
sort_descending (c ∷ cs) = insert_descending c (sort_descending cs)

-- The first coin of exactly the amount.
unfoldable pub exact_coin : List Coin → ℕ → Option Coin
exact_coin [] amount = none
exact_coin (c ∷ cs) amount = if c.amount == amount then some c else exact_coin cs amount

-- The first coin from the end with at least the amount.
unfoldable pub last_above : List Coin → ℕ → Option Coin
last_above [] amount = none
last_above (c ∷ cs) amount = elim (last_above cs amount) [
  | some d ↦ some d
  | none ↦ if ltb c.amount amount then none else some c
]

unfoldable pub smallest_coin_above : List Coin → ℕ → Option (Option Coin)
smallest_coin_above [] amount = none
smallest_coin_above (c ∷ cs) amount =
    if ltb c.amount amount
    then some none
    else (elim (last_above (c ∷ cs) amount) [ none ↦ none | some d ↦ some (some d) ])

-- The loop of `sum_largest_coins`, with the coins and the sum selected so far.
unfoldable pub sum_largest_from : List Coin → ℕ → List Coin → ℕ → Option (List Coin)
sum_largest_from selected sum [] amount = none
sum_largest_from selected sum (c ∷ cs) amount =
    let selected' = IndexSet.insert c selected in
    let rest = sum_largest_from selected' (sum + c.amount) cs amount in
    if leb amount (sum + c.amount) then some selected' else rest

unfoldable pub sum_largest_coins : List Coin → ℕ → Option (List Coin)
sum_largest_coins coins amount = sum_largest_from [] 0 coins amount

abbrev pub u128_max : ℕ
u128_max = 2 ^ 128 - 1

abbrev pub max_coins : ℕ
max_coins = 500

-- The coins below the amount, as a set.
abbrev pub smaller_coins : List Coin → ℕ → List Coin
smaller_coins coins amount = IndexSet.collect (select (λ c. ltb c.amount amount) coins)

abbrev pub smaller_sum : List Coin → ℕ → ℕ
smaller_sum coins amount = total (select (λ c. ltb c.amount amount) coins)

module _ {G : Type 0} (gen : G → Bool × G) (seed_from_u64 : ℕ → G) where
  -- The knapsack, and the largest coins where it finds nothing.
  unfoldable pub select_several : List Coin → ℕ → Option (Result CoinSelectionError (List Coin))
  select_several coins amount =
      elim (knapsack_coin_algorithm gen amount max_coins (seed_from_u64 0) coins u128_max) [
        | some result ↦ some (ok result)
        | none ↦ elim (sum_largest_coins coins amount) [
          | none ↦ none
          | some summed ↦
              some (if leb (length summed) max_coins then ok summed else err exceeded_max_coins)
        ]
      ]

  -- The rest of `select_coins`, on the sorted coins, the coins below the amount and their sum.
  unfoldable pub choose :
      List Coin → ℕ → List Coin → ℕ → Option (Result CoinSelectionError (List Coin))
  choose coins amount smaller sum =
      if sum == amount && (ltb (length smaller) max_coins && not (amount == 0))
      then some (ok smaller)
      else if ltb sum amount
      then (elim (smallest_coin_above coins amount) [
        | some (some c) ↦ some (ok (c ∷ []))
        | _ ↦ none
      ])
      else if ltb amount sum
      then select_several coins amount
      else (elim (smallest_coin_above coins amount) [
        | none ↦ none
        | some none ↦ some (err exceeded_max_coins)
        | some (some c) ↦ some (ok (c ∷ []))
      ])

  unfoldable pub select_coins : List Coin → ℕ → Option (Result CoinSelectionError (List Coin))
  select_coins [] amount = some (err no_spendable_coins)
  select_coins (c ∷ cs) amount =
      if ltb (total (c ∷ cs)) amount
      then some (err (insufficient_balance (total (c ∷ cs))))
      else let sorted = sort_descending (c ∷ cs) in
        elim (exact_coin sorted amount) [
          | some coin ↦ some (ok (coin ∷ []))
          | none ↦ choose sorted amount (smaller_coins sorted amount) (smaller_sum sorted amount)
        ]
