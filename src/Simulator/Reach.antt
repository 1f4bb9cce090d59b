-- ===== src/Simulator/Reach.antt =====
-- Transactions of crates/chia-sdk-test/src/simulator.rs keep the simulator well formed, and so is every
-- state that its operations reach.
use chia_wallet_sdk.Prelude.{
  ℕ, ◌+◌, ◌%◌, ◌≤◌, ◌<◌, ◌≡◌, refl, inl, inr, true, some, List, [], ◌∷◌, arith, contains, nat_eq,
  Option-cases, All, length-append, All-of-contains,
}
use chia_wallet_sdk.Prelude.IndexMap.{
  IndexMap, Entries, lookup, extend, contains_key, contains_key-extend_left,
  contains_key-extend_right, Entries-of-lookup, extend-IsMap, Entries-extend, Entries-imp,
  Entries-lookup,
}
use chia_wallet_sdk.Protocol.{
  Bytes32, Coin, CoinState, SpendBundle, SpendConditions, ConsensusConstants, ok, Result-cases,
  u32_size,
}
use chia_wallet_sdk.Simulator.{
  External, Simulator, create_block, with_seed, insert_coin, new_coin, hint_coin,
}
use chia_wallet_sdk.Simulator.Transaction.{
  Plan, no_changes, removed_state, validate_removals, apply_plan, new_transaction, plan_transaction,
}
use chia_wallet_sdk.Simulator.Changes.{
  spend_at, IsFresh, collect_changes-AddedOk, removed_Entries, validate_removals_map, removed_IsMap,
  validate_removals-IsMap,
}
use chia_wallet_sdk.Simulator.Outputs.{added_hints_lem, added_keys, contains-hinted_ids}
use chia_wallet_sdk.Simulator.Spends.{Validates, changes, plan_of, plan_parts}
use chia_wallet_sdk.Simulator.Hints.{hints-IsMap}
use chia_wallet_sdk.Simulator.Invariant.{
  LawfulIds, HeightsOk-suc, StateOk, AllKnown, AllKnown-mono, IsWf, with_seed-IsWf,
  insert_coin-IsWf, new_coin-IsWf, hint_coin-IsWf,
}

-- A removed coin before its removal: unspent, or spent earlier, and created by now.
abbrev CreatedBy : {R : Type 0} → External R → ℕ → Bytes32 → CoinState → Type 0
CreatedBy x height id cs =
    (x.coin_id cs.coin ≡ id)
    × (created : ℕ) × (cs.created_height ≡ some created)
    × (created ≤ height)

module _ {R : Type 0} (x : External R) (lawful : LawfulIds x) (s : Simulator R)
    (bundle : SpendBundle) (constants : ConsensusConstants) where
  removed_created :
      (spends : List SpendConditions)
      → Validates x s bundle constants spends
      → IsWf x s
      → Entries (CreatedBy x s.height) (changes x s bundle constants spends).removed_coins
  removed_created spends v w =
      removed_Entries x (CreatedBy x s.height) s.coin_states s.height spends no_changes
        (each spends (lawful bundle _ constants s.height spends v)) tt
    where
      one :
          (spend : SpendConditions)
          → x.coin_id (record {
            parent_coin_info = spend.parent_id;
            puzzle_hash = spend.puzzle_hash;
            amount = spend.coin_amount;
          })
            ≡ spend.coin_id
          → CreatedBy x s.height spend.coin_id (removed_state x s.coin_states s.height spend)
      one spend same = elim (Option-cases (lookup spend.coin_id s.coin_states)) [
        | inl e ↦ unfold removed_state in rw (e, removed_state) (same, s.height, refl, omega arith)
        | inr (cs, e) ↦
            let known =
              Entries-lookup (StateOk x s.height) spend.coin_id cs s.coin_states w.states_ok e in
            unfold removed_state in rw (e, removed_state) (known.0, known.1.0, known.1.1, known.1.2)
      ]

      each :
          (spends : List SpendConditions)
          → All
              (λ spend.
                x.coin_id (record {
                  parent_coin_info = spend.parent_id;
                  puzzle_hash = spend.puzzle_hash;
                  amount = spend.coin_amount;
                })
                ≡ spend.coin_id)
              spends
          → All
              (λ spend.
                CreatedBy x s.height spend.coin_id (removed_state x s.coin_states s.height spend))
              spends
      each [] h = tt
      each (spend ∷ rest) h = (one spend h.0, each rest h.1)

  updates_ok :
      (spends : List SpendConditions) (removed : IndexMap CoinState)
      → Validates x s bundle constants spends
      → IsWf x s
      → validate_removals s.coin_states s.height
          (changes x s bundle constants spends).added_coins
          (changes x s bundle constants spends).removed_coins
        ≡ ok removed
      → Entries
          (StateOk x (s.height + 1))
          (extend (changes x s bundle constants spends).added_coins removed)
  updates_ok spends removed v w e =
      let ch = changes x s bundle constants spends in
      Entries-extend (StateOk x (s.height + 1)) ch.added_coins removed
        (Entries-imp (IsFresh x s.height) (StateOk x (s.height + 1)) fresh ch.added_coins
          (collect_changes-AddedOk x s.coin_states s.height spends no_changes (tt, tt)).1)
        (validate_removals_map (CreatedBy x s.height) (StateOk x (s.height + 1)) s.coin_states
          s.height ch.added_coins ch.removed_coins removed e spent (removed_created spends v w))
    where
      fresh : (id : ℕ) (cs : CoinState) → IsFresh x s.height id cs → StateOk x (s.height + 1) id cs
      fresh id cs (same, unspent, created) = (same, (s.height, created, omega arith, rw unspent tt))

      spent :
          (id : ℕ) (cs : CoinState)
          → CreatedBy x s.height id cs
          → StateOk x (s.height + 1) id (spend_at s.height cs)
      spent id cs (same, c, created, le) = (same, (c, created, omega arith, (le, omega arith)))

  -- The coins that the new hints list are among the added coins.
  added_hints_known :
      (spends : List SpendConditions)
      → Entries
          (λ hint ids. AllKnown x (changes x s bundle constants spends).added_coins ids)
          (changes x s bundle constants spends).added_hints
  unfolding lookup contains_key
  added_hints_known spends =
      let ch = changes x s bundle constants spends in
      Entries-of-lookup (λ hint ids. AllKnown x ch.added_coins ids) ch.added_hints
        (hints-IsMap x s.coin_states s.height spends no_changes tt)
        (λ hint ids e.
          All-of-contains (λ id. contains_key id ch.added_coins ≡ true) ids (known hint ids e))
    where
      known :
          (hint : Bytes32) (ids : List Bytes32)
          → lookup hint (changes x s bundle constants spends).added_hints ≡ some ids
          → (id : Bytes32) → contains ids id ≡ true
          → contains_key id (changes x s bundle constants spends).added_coins ≡ true
      known hint ids e id c = ground (
        arith,
        added_hints_lem x s.coin_states s.height spends no_changes hint id,
        contains-hinted_ids x hint id spends,
        added_keys x s.coin_states s.height spends no_changes id,
      )

  apply_plan-IsWf :
      (spends : List SpendConditions) (removed : IndexMap CoinState)
      → Validates x s bundle constants spends
      → s.height + 1 < u32_size
      → IsWf x s
      → validate_removals s.coin_states s.height
          (changes x s bundle constants spends).added_coins
          (changes x s bundle constants spends).removed_coins
        ≡ ok removed
      → IsWf x (
          apply_plan x s
            (plan_of x s bundle constants (changes x s bundle constants spends) removed))
  unfolding apply_plan create_block
  apply_plan-IsWf spends removed v small w e =
      let ch = changes x s bundle constants spends in
      let updates = extend ch.added_coins removed in
      let added-IsMap =
        (collect_changes-AddedOk x s.coin_states s.height spends no_changes (tt, tt)).0 in
      let removed_map =
        validate_removals-IsMap s.coin_states s.height ch.added_coins ch.removed_coins removed e
          (removed_IsMap x s.coin_states s.height spends no_changes tt) in
      let next : (s.height + 1) % u32_size ≡ s.height + 1 = omega arith in
      record {
        chain = omega (arith, length-append s.header_hashes ((x.fill s.rng).0 ∷ []));
        keyed = extend-IsMap s.coin_states updates w.keyed;
        states_ok = rw next (
            Entries-extend (StateOk x (s.height + 1)) s.coin_states updates
              (Entries-imp (StateOk x s.height) (StateOk x (s.height + 1))
                (λ id cs ok_cs. (ok_cs.0, HeightsOk-suc s.height cs ok_cs.1)) s.coin_states
                w.states_ok)
              (updates_ok spends removed v w e));
        hints_keyed = extend-IsMap s.hinted_coins ch.added_hints w.hints_keyed;
        hints_known =
            Entries-extend (λ hint ids. AllKnown x (extend s.coin_states updates) ids)
              s.hinted_coins ch.added_hints
              (AllKnown-mono x s.coin_states (extend s.coin_states updates)
                (λ id c. contains_key-extend_left id s.coin_states updates c) s.hinted_coins
                w.hints_known)
              (AllKnown-mono x ch.added_coins (extend s.coin_states updates)
                (λ id c.
                  contains_key-extend_right id s.coin_states updates
                    (extend-IsMap ch.added_coins removed added-IsMap)
                    (contains_key-extend_left id ch.added_coins removed c))
                ch.added_hints (added_hints_known spends));
      }

  valid_of_plan :
      (p : Plan)
      → plan_transaction x s bundle constants ≡ ok p
      → (spends : List SpendConditions) × Validates x s bundle constants spends
  unfolding plan_transaction
  valid_of_plan p e =
      elim (Result-cases (x.validate_clvm_and_signature bundle 7_700_000_000 constants s.height)) [
        | inl valid ↦ valid
        | inr (code, refused) ↦ absurd (ground (arith, refused))
      ]

  -- A transaction keeps the simulator well formed, whether it is accepted or refused, while the height
  -- is below the largest `u32`.
  pub new_transaction-IsWf :
      s.height + 1 < u32_size → IsWf x s → IsWf x (new_transaction x s bundle constants).1
  unfolding new_transaction
  new_transaction-IsWf small w = elim (Result-cases (plan_transaction x s bundle constants)) [
    | inl (p, e) ↦
        let (spends, v) = valid_of_plan p e in
        let (removed, checked, shape, _, _) = plan_parts x s bundle constants spends p v e in
        rw (e, new_transaction) (rw shape (apply_plan-IsWf spends removed v small w checked))
    | inr (e, h) ↦ rw (h, new_transaction) w
  ]

-- The operations that change a simulator.
pub data Step {R : Type 0} (x : External R) (s : Simulator R) : Simulator R → Type 0 where
  inserts : (coin : Coin) → Step x s (insert_coin x s coin)
  mints : (puzzle_hash : Bytes32) (amount : ℕ) → Step x s (new_coin x s puzzle_hash amount).1
  hints :
      (coin_id hint : Bytes32)
      → contains_key coin_id s.coin_states ≡ true
      → Step x s (hint_coin s coin_id hint)
  transacts :
      (bundle : SpendBundle) (constants : ConsensusConstants)
      → s.height + 1 < u32_size
      → Step x s (new_transaction x s bundle constants).1

pub data Reach {R : Type 0} (x : External R) : Simulator R → Type 0 where
  starts : (seed : ℕ) → Reach x (with_seed x seed)
  steps : {s t : Simulator R} → Reach x s → Step x s t → Reach x t

Step-IsWf :
    {R : Type 0} {x : External R} {s t : Simulator R}
    → LawfulIds x
    → Step x s t
    → IsWf x s
    → IsWf x t
Step-IsWf {x} {s} lawful (inserts coin) w = insert_coin-IsWf x s coin w
Step-IsWf {x} {s} lawful (mints puzzle_hash amount) w = new_coin-IsWf x s puzzle_hash amount w
Step-IsWf {x} {s} lawful (hints coin_id hint known) w = hint_coin-IsWf x s coin_id hint known w
Step-IsWf {x} {s} lawful (transacts bundle constants small) w =
    new_transaction-IsWf x lawful s bundle constants small w

-- Every state that a simulator reaches by inserting coins, minting coins, hinting known coins and
-- processing transactions, at heights below the largest `u32`, is well formed: there is one header hash
-- for each height, each coin state stands under the id of its coin, was created by now, and is unspent
-- or was spent between its creation and the present height, and every hinted coin is known.
pub Reach-IsWf :
    {R : Type 0} {x : External R} {s : Simulator R} → LawfulIds x → Reach x s → IsWf x s
Reach-IsWf {x} lawful (starts seed) = with_seed-IsWf x seed
Reach-IsWf lawful (steps r step) = Step-IsWf lawful step (Reach-IsWf lawful r)
