-- ===== src/Simulator/Accepts.antt =====
-- `Simulator::new_transaction` of crates/chia-sdk-test/src/simulator.rs: exactly which bundles pass,
-- and what a refusal leaves behind.
use chia_wallet_sdk.Prelude.{
  ℕ, ◌≡◌, ◌≢◌, ◌↔◌, refl, ◌⊎◌, inl, inr, Bool, true, false, ◌||◌, none, some, List, [], ◌∷◌, map,
  arith, contains, contains_head, contains_tail, nat_eq, All, All-contains,
}
use chia_wallet_sdk.Prelude.IndexMap.{IndexMap, Entries, lookup, contains_key}
use chia_wallet_sdk.Protocol.{
  Bytes32, CoinState, SpendBundle, SpendConditions, ConsensusConstants, ok, err, Result-cases,
}
use chia_wallet_sdk.Simulator.{External, Simulator}
use chia_wallet_sdk.Simulator.Transaction.{
  Plan, SimulatorError, no_changes, removed_state, validate_removals, same_set, plan_transaction,
  new_transaction,
}
use chia_wallet_sdk.Simulator.Changes.{spent_ids, removed_Entries}
use chia_wallet_sdk.Simulator.Outputs.{created_ids, added_keys}
use chia_wallet_sdk.Simulator.Spends.{
  Validates, changes, plan_of, plan_parts, new_transaction_parts, new_transaction_spends, SpentFrom,
}

-- A removal passes: the coin is unspent, and known or added.
abbrev Removable : IndexMap CoinState → IndexMap CoinState → Bytes32 → CoinState → Type 0
Removable states added id cs =
    (cs.spent_height ≡ none) × ((contains_key id states || contains_key id added) ≡ true)

validate_removals_total :
    (states : IndexMap CoinState) (height : ℕ) (added m : IndexMap CoinState)
    → Entries (Removable states added) m
    → (r : IndexMap CoinState) × (validate_removals states height added m ≡ ok r)
unfolding validate_removals
validate_removals_total states height added [] h = ([], refl)
validate_removals_total states height added ((id, cs) ∷ m) h =
    let (r, e) = validate_removals_total states height added m h.1 in
    ((id, record cs { spent_height = some height }) ∷ r, ground (arith, e))

-- The spend of this coin is possible: it is known and unspent, or it is unknown and created here.
abbrev pub spendable : IndexMap CoinState → List Bytes32 → Bytes32 → Bool
spendable states created id = elim (lookup id states) [
  | none ↦ contains created id
  | some cs ↦ elim cs.spent_height [ none ↦ true | some _ ↦ false ]
]

module _ {R : Type 0} (x : External R) (s : Simulator R) (bundle : SpendBundle)
    (constants : ConsensusConstants) where
  pub record Accepts (spends : List SpendConditions) : Type 0 where
    pub nonempty : bundle.coin_spends ≢ []
    pub same_puzzles :
        same_set
          (map (λ spend. spend.puzzle_hash) spends)
          (map (λ cs. cs.coin.puzzle_hash) bundle.coin_spends)
        ≡ true
    pub all_spendable :
        All (λ id. spendable s.coin_states (created_ids x spends) id ≡ true) (spent_ids spends)

  spendable_of_SpentFrom :
      (spends : List SpendConditions) (id : Bytes32) (cs : CoinState)
      → SpentFrom x s bundle constants spends id cs
      → spendable s.coin_states (created_ids x spends) id ≡ true
  spendable_of_SpentFrom spends id cs h = ground arith

  All-of-success :
      (spends : List SpendConditions) (u : IndexMap CoinState)
      → Validates x s bundle constants spends
      → (new_transaction x s bundle constants).0 ≡ ok u
      → (ids : List Bytes32)
      → ((id : Bytes32) → contains ids id ≡ true → contains (spent_ids spends) id ≡ true)
      → All (λ id. spendable s.coin_states (created_ids x spends) id ≡ true) ids
  All-of-success spends u v e [] sub = tt
  All-of-success spends u v e (id ∷ ids) sub =
      let (cs, _, from) =
        new_transaction_spends x s bundle constants spends u id v e
          (sub id (contains_head id ids)) in
      (
        spendable_of_SpentFrom spends id cs from,
        All-of-success spends u v e ids (λ k c. sub k (contains_tail id ids k c)),
      )

  Removable-of-spendable :
      (all : List SpendConditions) (spends : List SpendConditions)
      → All (λ id. spendable s.coin_states (created_ids x all) id ≡ true) (spent_ids spends)
      → All
          (λ spend.
            Removable s.coin_states
              (changes x s bundle constants all).added_coins
              spend.coin_id
              (removed_state x s.coin_states s.height spend))
          spends
  unfolding contains_key removed_state
  Removable-of-spendable all [] h = tt
  Removable-of-spendable all (spend ∷ spends) h = (
    ground (arith, h.0, added_keys x s.coin_states s.height all no_changes spend.coin_id),
    Removable-of-spendable all spends h.1,
  )

  plan_of_Accepts :
      (spends : List SpendConditions)
      → Validates x s bundle constants spends
      → Accepts spends
      → (p : Plan) × (plan_transaction x s bundle constants ≡ ok p)
  unfolding plan_transaction
  plan_of_Accepts spends v a =
      let ch = changes x s bundle constants spends in
      let (removed, e) =
        validate_removals_total s.coin_states s.height ch.added_coins ch.removed_coins (
          removed_Entries x (Removable s.coin_states ch.added_coins) s.coin_states s.height spends
            no_changes (Removable-of-spendable spends spends a.all_spendable) tt) in
      (plan_of x s bundle constants ch removed, ground (arith, e, v, a.same_puzzles))

  -- A bundle that consensus validates is accepted exactly when it has a spend, its coins have the
  -- puzzle hashes that consensus found, and each spent coin is unspent if it is known and created by
  -- the bundle if it is not.
  pub new_transaction_iff :
      (spends : List SpendConditions)
      → Validates x s bundle constants spends
      → ((u : IndexMap CoinState) × ((new_transaction x s bundle constants).0 ≡ ok u))
        ↔ Accepts spends
  unfolding new_transaction
  new_transaction_iff spends v = (accepted, succeeds)
    where
      accepted :
          (u : IndexMap CoinState) × ((new_transaction x s bundle constants).0 ≡ ok u)
          → Accepts spends
      accepted (u, e) =
          let (p, planned, _, _) = new_transaction_parts x s bundle constants u e in
          let (_, _, _, nonempty, same) = plan_parts x s bundle constants spends p v planned in
          record {
            nonempty = nonempty;
            same_puzzles = same;
            all_spendable = All-of-success spends u v e (spent_ids spends) (λ id c. c);
          }

      succeeds :
          Accepts spends
          → (u : IndexMap CoinState) × ((new_transaction x s bundle constants).0 ≡ ok u)
      succeeds a =
          let (p, planned) = plan_of_Accepts spends v a in (p.updates, ground (arith, planned))

  new_transaction_cases :
      ((u : IndexMap CoinState) × ((new_transaction x s bundle constants).0 ≡ ok u))
      ⊎ ((e : SimulatorError) × (new_transaction x s bundle constants ≡ (err e, s)))
  unfolding new_transaction
  new_transaction_cases = elim (Result-cases (plan_transaction x s bundle constants)) [
    | inl (p, e) ↦ inl (p.updates, ground (arith, e))
    | inr (e, h) ↦ inr (e, ground (arith, h))
  ]

  refused :
      (spends : List SpendConditions) (id : Bytes32)
      → Validates x s bundle constants spends
      → contains (spent_ids spends) id ≡ true
      → spendable s.coin_states (created_ids x spends) id ≡ false
      → (e : SimulatorError) × (new_transaction x s bundle constants ≡ (err e, s))
  refused spends id v c bad = elim new_transaction_cases [
    | inl ok_u ↦
        let good : spendable s.coin_states (created_ids x spends) id ≡ true =
          All-contains (λ id. spendable s.coin_states (created_ids x spends) id ≡ true)
            (spent_ids spends) id ((new_transaction_iff spends v).0 ok_u).all_spendable c in
        cc
    | inr failed ↦ failed
  ]

  -- A bundle that spends a coin which is already spent is refused, and the state is unchanged.
  pub new_transaction_double_spend :
      (spends : List SpendConditions) (id : Bytes32) (old : CoinState) (height : ℕ)
      → Validates x s bundle constants spends
      → contains (spent_ids spends) id ≡ true
      → lookup id s.coin_states ≡ some old
      → old.spent_height ≡ some height
      → (e : SimulatorError) × (new_transaction x s bundle constants ≡ (err e, s))
  new_transaction_double_spend spends id old height v c known spent =
      refused spends id v c (ground arith)

  -- A bundle that spends a coin which is neither known nor created by it is refused, and the state is
  -- unchanged.
  pub new_transaction_unknown :
      (spends : List SpendConditions) (id : Bytes32)
      → Validates x s bundle constants spends
      → contains (spent_ids spends) id ≡ true
      → lookup id s.coin_states ≡ none
      → contains (created_ids x spends) id ≡ false
      → (e : SimulatorError) × (new_transaction x s bundle constants ≡ (err e, s))
  new_transaction_unknown spends id v c unknown created = refused spends id v c (ground arith)
