-- ===== src/Simulator/Spends.antt =====
-- `Simulator::new_transaction` of crates/chia-sdk-test/src/simulator.rs as a whole: which bundles it
-- accepts, and what each coin's state is afterwards.
use chia_wallet_sdk.Prelude.{
  ◌≡◌, ◌≢◌, ap, ◌∙◌, ◌⊎◌, inl, inr, true, false, ◌||◌, none, some, List, [], ◌∷◌, map, arith,
  contains, nat_eq, All, Option-cases,
}
use mathlib.Core.Option
use chia_wallet_sdk.Prelude.IndexMap.{
  IndexMap, Entries, or_else, lookup, extend, contains_key, contains_key_iff, lookup-extend,
  extend-IsMap, Entries-lookup,
}
use chia_wallet_sdk.Protocol.{
  Bytes32, CoinState, SpendBundle, SpendConditions, ConsensusConstants, ok,
}
use chia_wallet_sdk.Simulator.{External, Simulator, create_block}
use chia_wallet_sdk.Simulator.Transaction.{
  Changes, Plan, no_changes, removed_state, collect_changes, validate_removals, same_set,
  plan_transaction, apply_plan, new_transaction, puzzle_solutions_of,
}
use chia_wallet_sdk.Simulator.Changes.{
  spent_ids, spend_at, removed_IsMap, removed_other, removed_has, removed_Entries, IsFresh,
  collect_changes-AddedOk, lookup-validate_removals, validate_removals-IsMap,
  validate_removals-Entries,
}
use chia_wallet_sdk.Simulator.Outputs.{created_ids, added_keys}

module _ {R : Type 0} (x : External R) (s : Simulator R) (bundle : SpendBundle)
    (constants : ConsensusConstants) where
  -- Consensus accepts the bundle, with these conditions.
  abbrev pub Validates : List SpendConditions → Type 0
  Validates spends =
      x.validate_clvm_and_signature bundle 7_700_000_000 constants s.height ≡ ok spends

  abbrev pub changes : List SpendConditions → Changes
  changes spends = collect_changes x s.coin_states s.height spends no_changes

  -- What a plan holds, once the removals passed.
  abbrev pub plan_of : Changes → IndexMap CoinState → Plan
  plan_of ch removed = record {
    updates = extend ch.added_coins removed;
    hints = ch.added_hints;
    puzzle_solutions = puzzle_solutions_of x bundle.coin_spends [];
  }

  pub plan_parts :
      (spends : List SpendConditions) (p : Plan)
      → Validates spends
      → plan_transaction x s bundle constants ≡ ok p
      → (removed : IndexMap CoinState) × (validate_removals s.coin_states s.height
            (changes spends).added_coins
            (changes spends).removed_coins
          ≡ ok removed)
        × (p ≡ plan_of (changes spends) removed)
        × (bundle.coin_spends ≢ [])
        × (same_set
              (map (λ spend. spend.puzzle_hash) spends)
              (map (λ cs. cs.coin.puzzle_hash) bundle.coin_spends)
            ≡ true)
  unfolding plan_transaction
  plan_parts spends p v e = ground arith

  -- A successful transaction writes its plan.
  pub new_transaction_parts :
      (u : IndexMap CoinState)
      → (new_transaction x s bundle constants).0 ≡ ok u
      → (p : Plan) × (plan_transaction x s bundle constants ≡ ok p)
        × (u ≡ p.updates)
        × ((new_transaction x s bundle constants).1 ≡ apply_plan x s p)
  unfolding new_transaction
  new_transaction_parts u e = ground arith

  -- What a coin's removed state is: its known state, or a new coin of this height.
  abbrev RemovedFrom : Bytes32 → CoinState → Type 0
  RemovedFrom id cs =
      (lookup id s.coin_states ≡ some cs)
      ⊎ ((lookup id s.coin_states ≡ none) × (cs.created_height ≡ some s.height))

  removed_from :
      (spends : List SpendConditions) → Entries RemovedFrom (changes spends).removed_coins
  removed_from spends =
      removed_Entries x RemovedFrom s.coin_states s.height spends no_changes (each spends) tt
    where
      one :
          (spend : SpendConditions)
          → RemovedFrom spend.coin_id (removed_state x s.coin_states s.height spend)
      one spend = elim (Option-cases (lookup spend.coin_id s.coin_states)) [
        | inl e ↦ inr (e, unfold removed_state in rw (e, removed_state))
        | inr (cs, e) ↦ inl (unfold removed_state in rw (e, removed_state))
      ]

      each :
          (spends : List SpendConditions)
          → All
              (λ spend. RemovedFrom spend.coin_id (removed_state x s.coin_states s.height spend))
              spends
      each [] = tt
      each (spend ∷ rest) = (one spend, each rest)

  -- The state that a spent coin had: unspent, and known before or created by the bundle.
  abbrev pub SpentFrom : List SpendConditions → Bytes32 → CoinState → Type 0
  SpentFrom spends id cs =
      (cs.spent_height ≡ none)
      × ((lookup id s.coin_states ≡ some cs)
          ⊎ ((lookup id s.coin_states ≡ none)
              × (cs.created_height ≡ some s.height)
              × (contains (created_ids x spends) id ≡ true)))

  spent_from :
      (spends : List SpendConditions) (removed : IndexMap CoinState) (id : Bytes32)
      → validate_removals s.coin_states s.height
          (changes spends).added_coins
          (changes spends).removed_coins
        ≡ ok removed
      → contains (spent_ids spends) id ≡ true
      → (cs : CoinState) × (lookup id removed ≡ some (spend_at s.height cs))
        × SpentFrom spends id cs
  unfolding contains_key
  spent_from spends removed id e c =
      let rem = (changes spends).removed_coins in
      let added = (changes spends).added_coins in
      let (cs, found) =
        contains_key_iff id rem (removed_has x s.coin_states s.height spends no_changes id c) in
      let here = lookup-validate_removals s.coin_states s.height added rem removed id e in
      let before = Entries-lookup RemovedFrom id cs rem (removed_from spends) found in
      let checked =
        Entries-lookup
          (λ id cs.
            (cs.spent_height ≡ none)
            × ((contains_key id s.coin_states || contains_key id added) ≡ true))
          id cs rem (validate_removals-Entries s.coin_states s.height added rem removed e) found in
      (
        cs,
        here ∙ ap (Option.map (spend_at s.height)) found,
        (checked.0, ground (arith, added_keys x s.coin_states s.height spends no_changes id)),
      )

  updates_at :
      (spends : List SpendConditions) (removed : IndexMap CoinState) (id : Bytes32)
      → validate_removals s.coin_states s.height
          (changes spends).added_coins
          (changes spends).removed_coins
        ≡ ok removed
      → lookup id (apply_plan x s (plan_of (changes spends) removed)).coin_states
        ≡ or_else
            (or_else (lookup id removed) (lookup id (changes spends).added_coins))
            (lookup id s.coin_states)
  unfolding apply_plan create_block
  updates_at spends removed id e =
      let ch = changes spends in
      let removed-IsMap =
        validate_removals-IsMap s.coin_states s.height ch.added_coins ch.removed_coins removed e
          (removed_IsMap x s.coin_states s.height spends no_changes tt) in
      let added-IsMap =
        (collect_changes-AddedOk x s.coin_states s.height spends no_changes (tt, tt)).0 in
      lookup-extend id s.coin_states (extend ch.added_coins removed)
        (extend-IsMap ch.added_coins removed added-IsMap)
      ∙ ap (λ o. or_else o (lookup id s.coin_states))
          (lookup-extend id ch.added_coins removed removed-IsMap)

  -- What an accepted bundle leaves under an id, by the maps that it collected.
  after_lookup :
      (spends : List SpendConditions) (u : IndexMap CoinState) (id : Bytes32)
      → Validates spends
      → (new_transaction x s bundle constants).0 ≡ ok u
      → (removed : IndexMap CoinState) × (validate_removals s.coin_states s.height
            (changes spends).added_coins
            (changes spends).removed_coins
          ≡ ok removed)
        × (lookup id (new_transaction x s bundle constants).1.coin_states
            ≡ or_else
                (or_else (lookup id removed) (lookup id (changes spends).added_coins))
                (lookup id s.coin_states))
  after_lookup spends u id v e =
      let (p, planned, _, wrote) = new_transaction_parts u e in
      let (removed, checked, shape, _, _) = plan_parts spends p v planned in
      (
        removed,
        checked,
        (ap (λ t. lookup id t.coin_states) wrote
              ∙ ap (λ q. lookup id (apply_plan x s q).coin_states) shape)
            ∙ updates_at spends removed id checked,
      )

  -- A coin that no spend names is not among the removed ones.
  not_removed :
      (spends : List SpendConditions) (removed : IndexMap CoinState) (id : Bytes32)
      → validate_removals s.coin_states s.height
          (changes spends).added_coins
          (changes spends).removed_coins
        ≡ ok removed
      → contains (spent_ids spends) id ≡ false
      → lookup id removed ≡ none
  unfolding lookup
  not_removed spends removed id checked c =
      let ch = changes spends in
      lookup-validate_removals s.coin_states s.height ch.added_coins ch.removed_coins removed id
        checked
      ∙ ap (Option.map (spend_at s.height))
          (removed_other x s.coin_states s.height spends no_changes id c)

  -- Each coin that an accepted bundle spends is afterwards recorded as spent at the height before the
  -- bundle, otherwise as it was; it was unspent, and was known or is itself created by the bundle.
  pub new_transaction_spends :
      (spends : List SpendConditions) (u : IndexMap CoinState) (id : Bytes32)
      → Validates spends
      → (new_transaction x s bundle constants).0 ≡ ok u
      → contains (spent_ids spends) id ≡ true
      → (cs : CoinState) × (lookup id (new_transaction x s bundle constants).1.coin_states
          ≡ some (spend_at s.height cs))
        × SpentFrom spends id cs
  new_transaction_spends spends u id v e c =
      let (removed, checked, reads) = after_lookup spends u id v e in
      let (cs, here, from) = spent_from spends removed id checked c in (cs, reads ∙ (rw here), from)

  -- Each coin that an accepted bundle creates and does not spend is afterwards recorded under its own
  -- id as unspent and created at the height before the bundle.
  pub new_transaction_creates :
      (spends : List SpendConditions) (u : IndexMap CoinState) (id : Bytes32)
      → Validates spends
      → (new_transaction x s bundle constants).0 ≡ ok u
      → contains (spent_ids spends) id ≡ false
      → contains (created_ids x spends) id ≡ true
      → (cs : CoinState) × (lookup id (new_transaction x s bundle constants).1.coin_states
          ≡ some cs)
        × IsFresh x s.height id cs
  unfolding contains_key lookup
  new_transaction_creates spends u id v e c made =
      let (removed, checked, reads) = after_lookup spends u id v e in
      let added = (changes spends).added_coins in
      let (cs, here) =
        contains_key_iff id added
          (added_keys x s.coin_states s.height spends no_changes id ∙ made) in
      (
        cs,
        reads ∙ (rw (not_removed spends removed id checked c, here)),
        Entries-lookup (IsFresh x s.height) id cs added
            (collect_changes-AddedOk x s.coin_states s.height spends no_changes (tt, tt)).1 here,
      )

  -- A coin that an accepted bundle neither spends nor creates keeps its state, or stays unknown.
  pub new_transaction_keeps :
      (spends : List SpendConditions) (u : IndexMap CoinState) (id : Bytes32)
      → Validates spends
      → (new_transaction x s bundle constants).0 ≡ ok u
      → contains (spent_ids spends) id ≡ false
      → contains (created_ids x spends) id ≡ false
      → lookup id (new_transaction x s bundle constants).1.coin_states ≡ lookup id s.coin_states
  unfolding contains_key lookup
  new_transaction_keeps spends u id v e c made =
      let (removed, checked, reads) = after_lookup spends u id v e in
      reads
      ∙ ground (
        arith,
        not_removed spends removed id checked c,
        added_keys x s.coin_states s.height spends no_changes id,
      )
