-- ===== src/CoinSelection/Choice.antt =====
-- What `select_coins` of crates/chia-sdk-utils/src/coin_selection.rs returns, on every branch.
use chia_wallet_sdk.Prelude.{
  ℕ, ◌+◌, ◌≤◌, ◌<◌, ◌≡◌, refl, sym, ap, ◌∙◌, Bool, true, false, not, ◌&&◌, Option, none, some, List,
  [], ◌∷◌, arith, ◌==◌, ltb, leb, ltb→lt, leb→le, ==_iff, length, contains, Bool-cases,
  Option-cases, inl, inr, All-imp, contains_head, contains_tail,
}
use chia_wallet_sdk.Prelude.IndexSet.{IsNodup}
use chia_wallet_sdk.Protocol.{Coin, coin_eq, Result, ok, err}
use chia_wallet_sdk.CoinSelection.Select.{
  CoinSelectionError, no_spendable_coins, insufficient_balance, exceeded_max_coins, total,
  sort_descending, exact_coin, last_above, smallest_coin_above, max_coins, smaller_coins,
  smaller_sum, select_several, choose, select_coins, u128_max,
}
use chia_wallet_sdk.CoinSelection.Totals.{
  IsSelection, one_coin, total-sort_descending, contains-sort_descending, sort_descending-IsNodup,
}
use chia_wallet_sdk.CoinSelection.Knapsack.{knapsack_coin_algorithm}
use chia_wallet_sdk.CoinSelection.Sound.{knapsack-IsSelection}
use chia_wallet_sdk.CoinSelection.Largest.{sum_largest_coins-lem}
use chia_wallet_sdk.CoinSelection.Sorted.{
  IsDescending, sort_descending-IsDescending, length-sort_descending, smaller-IsSelection,
  first_is_above,
}

exact_coin_lem :
    (coins : List Coin) (amount : ℕ) (c : Coin)
    → exact_coin coins amount ≡ some c
    → (contains coins c ≡ true) × (c.amount ≡ amount)
unfolding exact_coin
exact_coin_lem [] amount c e = cc
exact_coin_lem (d ∷ ds) amount c e = elim (Bool-cases (d.amount == amount)) [
  | inl hit ↦
      let same : d ≡ c = ground arith in rw (← same) (contains_head d ds, (==_iff _ _).0 hit)
  | inr miss ↦
      let (has, at) = exact_coin_lem ds amount c (ground arith) in (contains_tail d ds c has, at)
]

last_above-some :
    (coins : List Coin) (amount : ℕ) (c : Coin)
    → last_above coins amount ≡ some c
    → (contains coins c ≡ true) × (amount ≤ c.amount)
unfolding last_above
last_above-some [] amount c e = cc
last_above-some (d ∷ ds) amount c e = elim (Option-cases (last_above ds amount)) [
  | inl empty ↦
      let same : d ≡ c = ground (arith, empty) in
      let le : amount ≤ d.amount = ground (arith, empty) in rw (← same) (contains_head d ds, le)
  | inr (f, found) ↦
      let same : f ≡ c = ground (arith, found) in
      let (has, le) = last_above-some ds amount f found in
      rw (← same) (contains_tail d ds f has, le)
]

-- What each result says of the coins and the amount.
abbrev pub Outcome : List Coin → ℕ → Option (Result CoinSelectionError (List Coin)) → Type 0
Outcome coins amount none = ⊥
Outcome coins amount (some (ok selected)) = IsSelection coins amount (max_coins + 1) selected
Outcome coins amount (some (err no_spendable_coins)) = coins ≡ []
Outcome coins amount (some (err (insufficient_balance balance))) =
    (balance ≡ total coins) × (total coins < amount)
Outcome coins amount (some (err exceeded_max_coins)) =
    (amount ≤ total coins) × (max_coins ≤ length coins)

no_coins : (coins : List Coin) → length coins ≡ 0 → coins ≡ []
no_coins [] e = refl
no_coins (c ∷ cs) e = absurd (omega (arith, e))

-- An outcome on the sorted coins is one on the coins.
Outcome-sort :
    (coins : List Coin) (amount : ℕ) (r : Option (Result CoinSelectionError (List Coin)))
    → Outcome (sort_descending coins) amount r
    → Outcome coins amount r
Outcome-sort coins amount none o = o
Outcome-sort coins amount (some (ok selected)) o = record {
  enough = o.enough;
  distinct = o.distinct;
  among = All-imp (λ c h. sym (contains-sort_descending coins c) ∙ h) selected o.among;
  few = o.few;
}
Outcome-sort coins amount (some (err no_spendable_coins)) o =
    no_coins coins (sym (length-sort_descending coins) ∙ ap length o)
Outcome-sort coins amount (some (err (insufficient_balance b))) o =
    rw (total-sort_descending coins) at o
Outcome-sort coins amount (some (err exceeded_max_coins)) o =
    (omega (arith, o, total-sort_descending coins), omega (arith, o, length-sort_descending coins))

module _ {G : Type 0} (gen : G → Bool × G) (seed_from_u64 : ℕ → G) where
  select_several-Outcome :
      (c : Coin) (cs : List Coin) (amount : ℕ)
      → IsNodup (c ∷ cs)
      → amount ≤ total (c ∷ cs)
      → Outcome (c ∷ cs) amount (select_several gen seed_from_u64 (c ∷ cs) amount)
  unfolding select_several
  select_several-Outcome c cs amount n le =
      elim (Option-cases
        (knapsack_coin_algorithm gen amount max_coins (seed_from_u64 0) (c ∷ cs) u128_max)) [
          | inl nothing ↦
              let (found, e, sel) = sum_largest_coins-lem c cs amount n le in
              elim (Bool-cases (leb (length found) max_coins)) [
                | inl fits ↦
                    let shape : select_several gen seed_from_u64 (c ∷ cs) amount ≡ some (ok found) =
                      ground (arith, nothing, e, fits) in
                    rw shape (record {
                      enough = sel.enough;
                      distinct = sel.distinct;
                      among = sel.among;
                      few = omega (arith, leb→le _ _ fits);
                    })
                | inr large ↦
                    let more : max_coins < length found = ground arith in
                    let shape : select_several gen seed_from_u64 (c ∷ cs) amount
                        ≡ some (err exceeded_max_coins) =
                      ground (arith, nothing, e, large) in
                    rw shape (le, omega (arith, sel.few))
              ]
          | inr (found, e) ↦
              let shape : select_several gen seed_from_u64 (c ∷ cs) amount ≡ some (ok found) =
                ground (arith, e) in
              rw shape (
                knapsack-IsSelection gen (c ∷ cs) amount max_coins (seed_from_u64 0) u128_max found
                  n e)
        ]

  -- The smallest coin above the amount exists where the first coin is one, and is one.
  smallest-Outcome :
      (c : Coin) (cs : List Coin) (amount : ℕ)
      → amount ≤ c.amount
      → (d : Coin) × (smallest_coin_above (c ∷ cs) amount ≡ some (some d))
        × Outcome (c ∷ cs) amount (some (ok (d ∷ [])))
  unfolding smallest_coin_above
  smallest-Outcome c cs amount le = elim (Option-cases (last_above (c ∷ cs) amount)) [
    | inl absent ↦ absurd (unfold last_above in ground (arith, absent))
    | inr (d, e) ↦
        let (has, above) = last_above-some (c ∷ cs) amount d e in
        (d, ground (arith, e), one_coin (c ∷ cs) amount (max_coins + 1) d has above (omega arith))
  ]

  choose-Outcome :
      (c : Coin) (cs : List Coin) (amount : ℕ) (smaller : List Coin) (sum : ℕ)
      → IsNodup (c ∷ cs)
      → amount ≤ total (c ∷ cs)
      → IsSelection (c ∷ cs) sum (length (c ∷ cs)) smaller
      → (sum < amount → amount ≤ c.amount)
      → Outcome (c ∷ cs) amount (choose gen seed_from_u64 (c ∷ cs) amount smaller sum)
  unfolding choose
  choose-Outcome c cs amount smaller sum n le sel below =
      elim (Bool-cases (sum == amount && (ltb (length smaller) max_coins && not (amount == 0)))) [
        | inl exact ↦
            let same : sum ≡ amount = ground (arith, exact) in
            let short : length smaller < max_coins = ground (arith, exact) in
            rw exact (record {
              enough = rw same at sel.enough;
              distinct = sel.distinct;
              among = sel.among;
              few = omega arith;
            })
        | inr inexact ↦ rw inexact (elim (Bool-cases (ltb sum amount)) [
          | inl small ↦
              let (d, e, good) = smallest-Outcome c cs amount (below (ltb→lt _ _ small)) in
              rw small (rw e good)
          | inr reached ↦ rw reached (elim (Bool-cases (ltb amount sum)) [
            | inl over ↦ rw over (select_several-Outcome c cs amount n le)
            | inr equal ↦ rw equal (elim (Bool-cases (ltb c.amount amount)) [
              | inl all_small ↦
                  let none_above : smallest_coin_above (c ∷ cs) amount ≡ some none =
                    unfold smallest_coin_above in ground (arith, all_small) in
                  let many : max_coins ≤ length smaller =
                    ground (arith, inexact, reached, equal, all_small) in
                  rw none_above (le, omega (arith, sel.few))
              | inr big ↦
                  let (d, e, good) = smallest-Outcome c cs amount (ground (arith, big)) in rw e good
            ])
          ])
        ])
      ]

  after_sort :
      (sorted : List Coin) (amount : ℕ)
      → 0 < length sorted
      → IsNodup sorted
      → IsDescending sorted
      → amount ≤ total sorted
      → Outcome sorted amount (
          choose gen seed_from_u64 sorted amount
            (smaller_coins sorted amount)
            (smaller_sum sorted amount))
  after_sort [] amount pos n s le = elim pos [ ]
  after_sort (c ∷ cs) amount pos n s le =
      choose-Outcome c cs amount (smaller_coins (c ∷ cs) amount) (smaller_sum (c ∷ cs) amount) n le
        (smaller-IsSelection (c ∷ cs) amount n) (first_is_above c cs amount s le)

  -- On distinct coins the selection does not panic, whatever the random draws. A success is a set of
  -- distinct spendable coins that reach the amount, of at most one more than 500 coins. The errors mean
  -- that there are no coins; that the balance, which the error names, is below the amount; or that the
  -- balance suffices and there are at least 500 coins.
  pub select_coins-Outcome :
      (coins : List Coin) (amount : ℕ)
      → IsNodup coins
      → Outcome coins amount (select_coins gen seed_from_u64 coins amount)
  unfolding select_coins
  select_coins-Outcome [] amount n = refl
  select_coins-Outcome (c ∷ cs) amount n = elim (Bool-cases (ltb (total (c ∷ cs)) amount)) [
    | inl poor ↦ rw poor (refl, ltb→lt _ _ poor)
    | inr rich ↦ rw rich (elim (Option-cases (exact_coin (sort_descending (c ∷ cs)) amount)) [
      | inl absent ↦ rw absent (
          Outcome-sort (c ∷ cs) amount
            (choose gen seed_from_u64 (sort_descending (c ∷ cs)) amount
              (smaller_coins (sort_descending (c ∷ cs)) amount)
              (smaller_sum (sort_descending (c ∷ cs)) amount))
            (after_sort (sort_descending (c ∷ cs)) amount
              (omega (arith, length-sort_descending (c ∷ cs))) (sort_descending-IsNodup (c ∷ cs) n)
              (sort_descending-IsDescending (c ∷ cs))
              (omega (arith, total-sort_descending (c ∷ cs), rich_enough rich))))
      | inr (d, e) ↦
          let (has, at) = exact_coin_lem (sort_descending (c ∷ cs)) amount d e in
          rw e (
            one_coin (c ∷ cs) amount (max_coins + 1) d
              (sym (contains-sort_descending (c ∷ cs) d) ∙ has) (omega (arith, at)) (omega arith))
    ])
  ]
    where
      rich_enough : ltb (total (c ∷ cs)) amount ≡ false → amount ≤ total (c ∷ cs)
      rich_enough h = ground arith
