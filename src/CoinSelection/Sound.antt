-- ===== src/CoinSelection/Sound.antt =====
-- What `knapsack_coin_algorithm` of crates/chia-sdk-utils/src/coin_selection.rs finds, by the invariant
-- of its loops.
use chia_wallet_sdk.Prelude.{
  ℕ, zero, suc, ◌+◌, ◌-◌, ◌≤◌, ◌<◌, ◌≡◌, refl, ◌∙◌, Bool, true, false, Option, none, some, List, [],
  ◌∷◌, arith, ◌==◌, ltb, ltb→lt, ==_iff, length, contains, Bool-cases, inl, inr, All, contains_head,
  contains_tail,
}
use chia_wallet_sdk.Prelude.IndexSet
use chia_wallet_sdk.Prelude.IndexSet.{IsNodup}
use chia_wallet_sdk.Protocol.{Coin, coin_eq}
use chia_wallet_sdk.CoinSelection.Select.{total}
use chia_wallet_sdk.CoinSelection.Totals.{IsSelection, total-insert_new, insert_new}
use chia_wallet_sdk.CoinSelection.Knapsack.{
  Search, Next, continue, break, return, skips, add_coin, try_coin, run_pass, run_round, run_rounds,
  knapsack_coin_algorithm,
}

abbrev BestOk : List Coin → ℕ → ℕ → Option (List Coin) → Type 0
BestOk coins amount most none = Unit
BestOk coins amount most (some best) = IsSelection coins amount most best

module _ {G : Type 0} (coins : List Coin) (amount max_coins : ℕ) where
  -- The invariant of the loops.
  record Inv (s : Search G) : Type 0 where
    summed : s.selected_sum ≡ total s.selected_coins
    distinct : IsNodup s.selected_coins
    among : All (λ c. contains coins c ≡ true) s.selected_coins
    few : length s.selected_coins ≤ max_coins + 1
    best : BestOk coins amount (max_coins + 1) s.best_coins

  abbrev Ensures : Next G → Type 0
  Ensures (continue s) = Inv s
  Ensures (break s) = Inv s
  Ensures (return found) = IsSelection coins amount (max_coins + 1) found

module _ {G : Type 0} (gen : G → Bool × G) (coins : List Coin) (amount max_coins : ℕ) where
  add_coin-Ensures :
      (coin : Coin) (s : Search G)
      → contains coins coin ≡ true
      → contains s.selected_coins coin ≡ false
      → length s.selected_coins ≤ max_coins
      → Inv coins amount max_coins s
      → Ensures coins amount max_coins (add_coin gen amount max_coins coin s)
  unfolding add_coin
  add_coin-Ensures coin s has fresh short inv = elim (Bool-cases (sum == amount)) [
    | inl exact ↦ rw exact (picked (omega (arith, (==_iff _ _).0 exact)))
    | inr other ↦ rw other (elim (Bool-cases (ltb amount sum)) [
      | inl over ↦ rw over (elim (Bool-cases (ltb sum s.best_sum)) [
        | inl better ↦ rw better (back (ltb→lt _ _ over))
        | inr worse ↦ rw worse grown
      ])
      | inr under ↦ rw under grown
    ])
  ]
    where
      sum : ℕ
      sum = s.selected_sum + coin.amount

      selected : List Coin
      selected = IndexSet.insert coin s.selected_coins

      sizes :
          (total selected ≡ total s.selected_coins + coin.amount)
          × (length selected ≡ length s.selected_coins + 1)
      sizes = total-insert_new coin s.selected_coins fresh

      distinct : IsNodup selected
      distinct = IndexSet.insert-IsNodup coin s.selected_coins inv.distinct

      among : All (λ c. contains coins c ≡ true) selected
      among = IndexSet.insert-All (λ c. contains coins c ≡ true) coin s.selected_coins has inv.among

      picked : amount ≤ sum → IsSelection coins amount (max_coins + 1) selected
      picked le = record {
        enough = omega (arith, sizes.0, inv.summed);
        distinct = distinct;
        among = among;
        few = omega (arith, sizes.1);
      }

      grown :
          {target : Bool}
          → Inv coins amount max_coins
              (record s { target_reached = target; selected_sum = sum; selected_coins = selected })
      grown = record {
        summed = omega (arith, sizes.0, inv.summed);
        distinct = distinct;
        among = among;
        few = omega (arith, sizes.1);
        best = inv.best;
      }

      restored : IndexSet.remove coin selected ≡ s.selected_coins
      restored =
          rw (insert_new coin s.selected_coins fresh)
            (IndexSet.remove-append_last coin s.selected_coins fresh)

      back :
          amount < sum
          → Inv coins amount max_coins (record s {
            target_reached = true;
            best_sum = sum;
            best_coins = some selected;
            selected_sum = sum - coin.amount;
            selected_coins = IndexSet.remove coin selected;
          })
      back over = record {
        summed = rw restored (omega (arith, inv.summed));
        distinct = rw restored inv.distinct;
        among = rw restored inv.among;
        few = rw restored inv.few;
        best = picked (omega arith);
      }

  -- A coin that was not selected and is not the one added is still not selected.
  abbrev StillFresh : Coin → Next G → Type 0
  StillFresh d (continue s) = contains s.selected_coins d ≡ false
  StillFresh d _ = Unit

  add_coin-StillFresh :
      (coin d : Coin) (s : Search G)
      → contains s.selected_coins coin ≡ false
      → contains s.selected_coins d ≡ false
      → coin_eq.beq coin d ≡ false
      → StillFresh d (add_coin gen amount max_coins coin s)
  unfolding add_coin
  add_coin-StillFresh coin d s fresh unselected different =
      elim (Bool-cases (s.selected_sum + coin.amount == amount)) [
        | inl exact ↦ rw exact tt
        | inr other ↦ rw other (elim (Bool-cases (ltb amount (s.selected_sum + coin.amount))) [
          | inl over ↦ rw over (elim (Bool-cases (ltb (s.selected_sum + coin.amount) s.best_sum)) [
            | inl better ↦ rw better back
            | inr worse ↦ rw worse kept
          ])
          | inr under ↦ rw under kept
        ])
      ]
    where
      kept : contains (IndexSet.insert coin s.selected_coins) d ≡ false
      kept = IndexSet.contains-insert coin d s.selected_coins ∙ (rw (unselected, different))

      back : contains (IndexSet.remove coin (IndexSet.insert coin s.selected_coins)) d ≡ false
      back =
          rw (insert_new coin s.selected_coins fresh)
            (rw (IndexSet.remove-append_last coin s.selected_coins fresh) unselected)

  redrawn :
      (rng : G) (s : Search G)
      → Inv coins amount max_coins s
      → Inv coins amount max_coins (record s { rng = rng })
  redrawn rng s inv = record {
    summed = inv.summed;
    distinct = inv.distinct;
    among = inv.among;
    few = inv.few;
    best = inv.best;
  }

  -- The second pass skips the coins that are selected.
  skips_selected :
      (coin : Coin) (s : Search G)
      → (skips gen amount max_coins 1 coin s).0 ≡ false
      → contains s.selected_coins coin ≡ false
  unfolding skips
  skips_selected coin s h = h

  -- The step of a pass, where a coin that is not skipped is not selected.
  try_coin-Ensures :
      (pass : ℕ) (coin : Coin) (s : Search G)
      → contains coins coin ≡ true
      → ((skips gen amount max_coins pass coin s).0 ≡ false
          → contains s.selected_coins coin ≡ false)
      → Inv coins amount max_coins s
      → Ensures coins amount max_coins (try_coin gen amount max_coins pass coin s)
  unfolding try_coin
  try_coin-Ensures pass coin s has fresh inv =
      let rng = (skips gen amount max_coins pass coin s).1 in
      elim (Bool-cases (skips gen amount max_coins pass coin s).0) [
        | inl skipped ↦ rw skipped (redrawn rng s inv)
        | inr taken ↦ rw taken (elim (Bool-cases (ltb max_coins (length s.selected_coins))) [
          | inl full ↦ rw full (redrawn rng s inv)
          | inr room ↦ rw room (
              add_coin-Ensures coin (record s { rng = rng }) has (fresh taken) (ground arith)
                (redrawn rng s inv))
        ])
      ]

  try_coin-StillFresh :
      (pass : ℕ) (coin d : Coin) (s : Search G)
      → contains s.selected_coins coin ≡ false
      → contains s.selected_coins d ≡ false
      → coin_eq.beq coin d ≡ false
      → StillFresh d (try_coin gen amount max_coins pass coin s)
  unfolding try_coin
  try_coin-StillFresh pass coin d s fresh unselected different =
      let rng = (skips gen amount max_coins pass coin s).1 in
      elim (Bool-cases (skips gen amount max_coins pass coin s).0) [
        | inl skipped ↦ rw skipped unselected
        | inr taken ↦ rw taken (elim (Bool-cases (ltb max_coins (length s.selected_coins))) [
          | inl full ↦ rw full tt
          | inr room ↦
              rw room
                (add_coin-StillFresh coin d (record s { rng = rng }) fresh unselected different)
        ])
      ]

  -- No coin of the rest of the first pass is selected yet.
  abbrev Unselected : List Coin → Search G → Type 0
  Unselected rest s = All (λ d. contains s.selected_coins d ≡ false) rest

  abbrev UnselectedAfter : List Coin → Next G → Type 0
  UnselectedAfter rest (continue s) = Unselected rest s
  UnselectedAfter rest _ = Unit

  try_coin-Unselected :
      (pass : ℕ) (coin : Coin) (rest : List Coin) (s : Search G)
      → contains s.selected_coins coin ≡ false
      → Unselected rest s
      → contains rest coin ≡ false
      → UnselectedAfter rest (try_coin gen amount max_coins pass coin s)
  try_coin-Unselected pass coin [] s fresh un other =
      none_left (try_coin gen amount max_coins pass coin s)
    where
      none_left : (n : Next G) → UnselectedAfter [] n
      none_left (continue s') = tt
      none_left (break s') = tt
      none_left (return found) = tt
  try_coin-Unselected pass coin (d ∷ rest) s fresh un other =
      both (try_coin gen amount max_coins pass coin s)
        (try_coin-StillFresh pass coin d s fresh un.0 (ground (arith, other)))
        (try_coin-Unselected pass coin rest s fresh un.1 (ground (arith, other)))
    where
      both : (n : Next G) → StillFresh d n → UnselectedAfter rest n → UnselectedAfter (d ∷ rest) n
      both (continue s') f u = (f, u)
      both (break s') f u = tt
      both (return found) f u = tt

  run_first_pass :
      (rest : List Coin) (s : Search G)
      → All (λ c. contains coins c ≡ true) rest
      → IsNodup rest
      → Unselected rest s
      → Inv coins amount max_coins s
      → Ensures coins amount max_coins (run_pass gen amount max_coins 0 rest s)
  unfolding run_pass
  run_first_pass [] s has distinct un inv = inv
  run_first_pass (coin ∷ rest) s has distinct un inv =
      step (try_coin gen amount max_coins 0 coin s)
        (try_coin-Ensures 0 coin s has.0 (λ _. un.0) inv)
        (try_coin-Unselected 0 coin rest s un.0 un.1 distinct.0)
        (λ s' un' inv'. run_first_pass rest s' has.1 distinct.1 un' inv')
    where
      step :
          (n : Next G)
          → Ensures coins amount max_coins n
          → UnselectedAfter rest n
          → ((s' : Search G)
              → Unselected rest s'
              → Inv coins amount max_coins s'
              → Ensures coins amount max_coins (run_pass gen amount max_coins 0 rest s'))
          → Ensures coins amount max_coins (elim n [
            | continue s' ↦ run_pass gen amount max_coins 0 rest s'
            | break s' ↦ continue s'
            | return found ↦ return found
          ])
      step (continue s') e u k = k s' u e
      step (break s') e u k = e
      step (return found) e u k = e

  run_second_pass :
      (rest : List Coin) (s : Search G)
      → All (λ c. contains coins c ≡ true) rest
      → Inv coins amount max_coins s
      → Ensures coins amount max_coins (run_pass gen amount max_coins 1 rest s)
  unfolding run_pass
  run_second_pass [] s has inv = inv
  run_second_pass (coin ∷ rest) s has inv =
      step (try_coin gen amount max_coins 1 coin s)
        (try_coin-Ensures 1 coin s has.0 (skips_selected coin s) inv)
        (λ s' inv'. run_second_pass rest s' has.1 inv')
    where
      step :
          (n : Next G)
          → Ensures coins amount max_coins n
          → ((s' : Search G)
              → Inv coins amount max_coins s'
              → Ensures coins amount max_coins (run_pass gen amount max_coins 1 rest s'))
          → Ensures coins amount max_coins (elim n [
            | continue s' ↦ run_pass gen amount max_coins 1 rest s'
            | break s' ↦ continue s'
            | return found ↦ return found
          ])
      step (continue s') e k = k s' e
      step (break s') e k = e
      step (return found) e k = e

  -- The selection that a search ends with, if any.
  abbrev FoundOk : Option (List Coin) → Type 0
  FoundOk = BestOk coins amount (max_coins + 1)

  abbrev RoundOk : Next G → Type 0
  RoundOk (continue s) = BestOk coins amount (max_coins + 1) s.best_coins
  RoundOk (break s) = BestOk coins amount (max_coins + 1) s.best_coins
  RoundOk (return found) = IsSelection coins amount (max_coins + 1) found

  round_of_pass : (n : Next G) → Ensures coins amount max_coins n → RoundOk n
  round_of_pass (continue s) e = e.best
  round_of_pass (break s) e = e.best
  round_of_pass (return found) e = e

  All-contains :
      (rest : List Coin)
      → ((c : Coin) → contains rest c ≡ true → contains coins c ≡ true)
      → All (λ c. contains coins c ≡ true) rest
  All-contains [] sub = tt
  All-contains (c ∷ rest) sub =
      (sub c (contains_head c rest), All-contains rest (λ d h. sub d (contains_tail c rest d h)))

  nothing_selected : (rest : List Coin) (s : Search G) → s.selected_coins ≡ [] → Unselected rest s
  nothing_selected [] s e = tt
  nothing_selected (c ∷ rest) s e = (rw e, nothing_selected rest s e)

  run_round-RoundOk :
      (s : Search G)
      → IsNodup coins
      → BestOk coins amount (max_coins + 1) s.best_coins
      → RoundOk (run_round gen amount max_coins coins s)
  unfolding run_round
  run_round-RoundOk s distinct best =
      after (run_pass gen amount max_coins 0 coins fresh)
        (run_first_pass coins fresh has distinct (nothing_selected coins fresh refl) start)
    where
      fresh : Search G
      fresh = record s { selected_coins = []; selected_sum = 0; target_reached = false }

      has : All (λ c. contains coins c ≡ true) coins
      has = All-contains coins (λ c h. h)

      start : Inv coins amount max_coins fresh
      start =
          unfold total in
          record { summed = refl; distinct = tt; among = tt; few = omega arith; best = best }

      second :
          (reached : Bool) (s1 : Search G)
          → Inv coins amount max_coins s1
          → RoundOk (elim reached [
            | true ↦ continue s1
            | false ↦ run_pass gen amount max_coins 1 coins s1
          ])
      second true s1 inv = inv.best
      second false s1 inv = round_of_pass _ (run_second_pass coins s1 has inv)

      after :
          (n : Next G)
          → Ensures coins amount max_coins n
          → RoundOk (elim n [
            | continue s1 ↦ elim s1.target_reached [
              | true ↦ continue s1
              | false ↦ run_pass gen amount max_coins 1 coins s1
            ]
            | break s1 ↦ break s1
            | return found ↦ return found
          ])
      after (continue s1) e = second s1.target_reached s1 e
      after (break s1) e = e.best
      after (return found) e = e

  run_rounds-FoundOk :
      (n : ℕ) (s : Search G)
      → IsNodup coins
      → BestOk coins amount (max_coins + 1) s.best_coins
      → FoundOk (run_rounds gen amount max_coins n coins s)
  unfolding run_rounds
  run_rounds-FoundOk zero s distinct best = best
  run_rounds-FoundOk (suc n) s distinct best =
      after (run_round gen amount max_coins coins s) (run_round-RoundOk s distinct best)
        (λ s' b. run_rounds-FoundOk n s' distinct b)
    where
      after :
          (r : Next G)
          → RoundOk r
          → ((s' : Search G)
              → BestOk coins amount (max_coins + 1) s'.best_coins
              → FoundOk (run_rounds gen amount max_coins n coins s'))
          → FoundOk (elim r [
            | continue s' ↦ run_rounds gen amount max_coins n coins s'
            | break s' ↦ run_rounds gen amount max_coins n coins s'
            | return found ↦ some found
          ])
      after (continue s') b k = k s' b
      after (break s') b k = k s' b
      after (return found) b k = b

  -- Whatever the random draws, on distinct coins the knapsack returns distinct coins among those given
  -- that reach the amount, and at most one more of them than its maximum.
  pub knapsack-IsSelection :
      (rng : G) (max_amount : ℕ) (found : List Coin)
      → IsNodup coins
      → knapsack_coin_algorithm gen amount max_coins rng coins max_amount ≡ some found
      → IsSelection coins amount (max_coins + 1) found
  unfolding knapsack_coin_algorithm
  knapsack-IsSelection rng max_amount found distinct e =
      let all =
        run_rounds-FoundOk 1000
          (record {
            rng = rng;
            selected_coins = [];
            selected_sum = 0;
            target_reached = false;
            best_sum = max_amount;
            best_coins = none;
          })
          distinct tt in
      rw e at all
