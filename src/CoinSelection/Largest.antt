-- ===== src/CoinSelection/Largest.antt =====
-- `sum_largest_coins` of crates/chia-sdk-utils/src/coin_selection.rs.
use chia_wallet_sdk.Prelude.{
  ℕ, ◌+◌, ◌≤◌, ◌≡◌, refl, ◌∙◌, true, false, some, List, [], ◌∷◌, arith, leb, leb→le, length,
  contains, Bool-cases, inl, inr, All, contains_head, contains_tail,
}
use chia_wallet_sdk.Prelude.IndexSet
use chia_wallet_sdk.Prelude.IndexSet.{IsNodup}
use chia_wallet_sdk.Protocol.{Coin, coin_eq}
use chia_wallet_sdk.CoinSelection.Select.{total, sum_largest_from, sum_largest_coins}
use chia_wallet_sdk.CoinSelection.Totals.{IsSelection, total-insert_new}

-- What the loop over the largest coins has selected.
record Largest (coins rest selected : List Coin) (sum : ℕ) : Type 0 where
  summed : sum ≡ total selected
  distinct : IsNodup selected
  among : All (λ c. contains coins c ≡ true) selected
  unselected : All (λ c. contains selected c ≡ false) rest
  rest_distinct : IsNodup rest
  rest_among : All (λ c. contains coins c ≡ true) rest
  counted : length selected + length rest ≤ length coins

Largest-insert :
    (coins : List Coin) (c : Coin) (rest selected : List Coin) (sum : ℕ)
    → Largest coins (c ∷ rest) selected sum
    → Largest coins rest (IndexSet.insert c selected) (sum + c.amount)
Largest-insert coins c rest selected sum l =
    let sizes = total-insert_new c selected l.unselected.0 in
    record {
      summed = omega (arith, sizes.0, l.summed);
      distinct = IndexSet.insert-IsNodup c selected l.distinct;
      among = IndexSet.insert-All (λ c. contains coins c ≡ true) c selected l.rest_among.0 l.among;
      unselected = still rest l.unselected.1 l.rest_distinct.0;
      rest_distinct = l.rest_distinct.1;
      rest_among = l.rest_among.1;
      counted = omega (arith, sizes.1, l.counted);
    }
  where
    still :
        (ds : List Coin)
        → All (λ d. contains selected d ≡ false) ds
        → contains ds c ≡ false
        → All (λ d. contains (IndexSet.insert c selected) d ≡ false) ds
    still [] a n = tt
    still (d ∷ ds) a n =
        let different : coin_eq.beq c d ≡ false = ground (arith, n) in
        let new : contains ds c ≡ false = ground (arith, n) in
        (IndexSet.contains-insert c d selected ∙ (rw (a.0, different)), still ds a.1 new)

Largest-IsSelection :
    (coins rest selected : List Coin) (sum amount : ℕ)
    → Largest coins rest selected sum
    → amount ≤ sum
    → IsSelection coins amount (length coins) selected
Largest-IsSelection coins rest selected sum amount l le = record {
  enough = omega (arith, l.summed);
  distinct = l.distinct;
  among = l.among;
  few = omega (arith, l.counted);
}

-- With enough coins, at least one, the loop returns distinct coins that reach the amount.
sum_largest_from-lem :
    (coins : List Coin) (c : Coin) (rest selected : List Coin) (sum amount : ℕ)
    → Largest coins (c ∷ rest) selected sum
    → amount ≤ sum + total (c ∷ rest)
    → (found : List Coin) × (sum_largest_from selected sum (c ∷ rest) amount ≡ some found)
      × IsSelection coins amount (length coins) found
unfolding sum_largest_from total
sum_largest_from-lem coins c [] selected sum amount l le = (
  IndexSet.insert c selected,
  ground arith,
  Largest-IsSelection coins [] (IndexSet.insert c selected) (sum + c.amount) amount
      (Largest-insert coins c [] selected sum l) (omega arith),
)
sum_largest_from-lem coins c (d ∷ rest) selected sum amount l le =
    elim (Bool-cases (leb amount (sum + c.amount))) [
      | inl reached ↦ (
        IndexSet.insert c selected,
        rw reached,
        Largest-IsSelection coins (d ∷ rest) (IndexSet.insert c selected) (sum + c.amount) amount
            (Largest-insert coins c (d ∷ rest) selected sum l) (leb→le _ _ reached),
      )
      | inr short ↦
          let (found, e, selection) =
            sum_largest_from-lem coins d rest (IndexSet.insert c selected) (sum + c.amount) amount
              (Largest-insert coins c (d ∷ rest) selected sum l) (omega arith) in
          (found, rw short e, selection)
    ]

pub All-contains :
    (coins rest : List Coin)
    → ((c : Coin) → contains rest c ≡ true → contains coins c ≡ true)
    → All (λ c. contains coins c ≡ true) rest
All-contains coins [] sub = tt
All-contains coins (c ∷ rest) sub = (
  sub c (contains_head c rest),
  All-contains coins rest (λ d h. sub d (contains_tail c rest d h)),
)

pub sum_largest_coins-lem :
    (c : Coin) (cs : List Coin) (amount : ℕ)
    → IsNodup (c ∷ cs)
    → amount ≤ total (c ∷ cs)
    → (found : List Coin) × (sum_largest_coins (c ∷ cs) amount ≡ some found)
      × IsSelection (c ∷ cs) amount (length (c ∷ cs)) found
unfolding sum_largest_coins
sum_largest_coins-lem c cs amount n le =
    sum_largest_from-lem (c ∷ cs) c cs [] 0 amount
      (unfold total in
        record {
          summed = refl;
          distinct = tt;
          among = tt;
          unselected = fresh (c ∷ cs);
          rest_distinct = n;
          rest_among = All-contains (c ∷ cs) (c ∷ cs) (λ d h. h);
          counted = omega arith;
        })
      (omega arith)
  where
    fresh : (ds : List Coin) → All (λ d. contains [] d ≡ false) ds
    fresh [] = tt
    fresh (d ∷ ds) = (refl, fresh ds)
