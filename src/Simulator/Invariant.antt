-- ===== src/Simulator/Invariant.antt =====
-- The well-formedness of the simulator of crates/chia-sdk-test/src/simulator.rs, kept by each of its
-- operations, and so true of every state that they reach.
use chia_wallet_sdk.Prelude.{
  ℕ, ◌+◌, ◌≤◌, ◌<◌, ◌≡◌, refl, subst, inl, inr, true, Option, none, some, List, [], arith, nat_eq,
  Option-cases, All, All-imp, length,
}
use chia_wallet_sdk.Prelude.IndexMap.{
  IndexMap, IsMap, Entries, lookup, insert, contains_key, contains_key-insert, insert-IsMap,
  Entries-insert, Entries-imp, Entries-lookup,
}
use chia_wallet_sdk.Prelude.IndexSet
use chia_wallet_sdk.Protocol.{
  Bytes32, Coin, CoinState, SpendBundle, SpendConditions, ConsensusConstants, ok,
}
use chia_wallet_sdk.Simulator.{External, Simulator, with_seed, insert_coin, new_coin, hint_coin}

-- A coin is spent no earlier than it was created, and before the present height.
abbrev pub SpentOk : ℕ → ℕ → Option ℕ → Type 0
SpentOk height created none = Unit {0}
SpentOk height created (some spent) = (created ≤ spent) × (spent < height)

abbrev pub HeightsOk : ℕ → CoinState → Type 0
HeightsOk height cs =
    (created : ℕ) × (cs.created_height ≡ some created)
    × (created ≤ height)
    × SpentOk height created cs.spent_height

pub HeightsOk-suc : (height : ℕ) (cs : CoinState) → HeightsOk height cs → HeightsOk (height + 1) cs
HeightsOk-suc height cs (created, e, le, spent) = elim (Option-cases cs.spent_height) [
  | inl unspent ↦ (created, e, omega arith, rw unspent tt)
  | inr (h, at) ↦
      let known : SpentOk height created (some h) = subst (SpentOk height created) at spent in
      (created, e, omega arith, rw at (known.0, omega arith))
]

module _ {R : Type 0} (x : External R) where
  -- What consensus promises of the conditions that it returns: the id of each spend is that of its
  -- coin.
  abbrev pub LawfulIds : Type 0
  LawfulIds =
      (bundle : SpendBundle) (cost : ℕ) (constants : ConsensusConstants) (height : ℕ)
      (spends : List SpendConditions)
      → x.validate_clvm_and_signature bundle cost constants height ≡ ok spends
      → All
          (λ spend.
            x.coin_id (record {
              parent_coin_info = spend.parent_id;
              puzzle_hash = spend.puzzle_hash;
              amount = spend.coin_amount;
            })
            ≡ spend.coin_id)
          spends

  abbrev pub StateOk : ℕ → Bytes32 → CoinState → Type 0
  StateOk height id cs = (x.coin_id cs.coin ≡ id) × HeightsOk height cs

  -- Every id in the list has a coin state.
  abbrev pub AllKnown : IndexMap CoinState → List Bytes32 → Type 0
  AllKnown states = All (λ id. contains_key id states ≡ true)

  pub record IsWf (s : Simulator R) : Type 0 where
    pub chain : length s.header_hashes ≡ s.height + 1
    pub keyed : IsMap s.coin_states
    pub states_ok : Entries (StateOk s.height) s.coin_states
    pub hints_keyed : IsMap s.hinted_coins
    pub hints_known : Entries (λ hint ids. AllKnown s.coin_states ids) s.hinted_coins

  -- A map that has gained keys knows what it knew.
  pub AllKnown-mono :
      (old new : IndexMap CoinState)
      → ((id : ℕ) → contains_key id old ≡ true → contains_key id new ≡ true)
      → (hints : IndexMap (List Bytes32)) → Entries (λ hint ids. AllKnown old ids) hints
      → Entries (λ hint ids. AllKnown new ids) hints
  AllKnown-mono old new more hints h =
      Entries-imp (λ hint ids. AllKnown old ids) (λ hint ids. AllKnown new ids)
        (λ hint ids known. All-imp more ids known) hints h

  -- A fresh simulator is well formed.
  pub with_seed-IsWf : (seed : ℕ) → IsWf (with_seed x seed)
  unfolding with_seed
  with_seed-IsWf seed = record {
    chain = omega arith;
    keyed = tt;
    states_ok = tt;
    hints_keyed = tt;
    hints_known = tt;
  }

  pub insert_coin-IsWf : (s : Simulator R) (coin : Coin) → IsWf s → IsWf (insert_coin x s coin)
  unfolding insert_coin
  insert_coin-IsWf s coin w = record {
    chain = w.chain;
    keyed = insert-IsMap _ _ s.coin_states w.keyed;
    states_ok =
        Entries-insert (StateOk s.height) _ _ s.coin_states
          (refl, (s.height, refl, omega arith, tt)) w.states_ok;
    hints_keyed = w.hints_keyed;
    hints_known =
        AllKnown-mono s.coin_states _ (λ id. contains_key-insert _ id _ s.coin_states)
          s.hinted_coins w.hints_known;
  }

  pub new_coin-IsWf :
      (s : Simulator R) (puzzle_hash : Bytes32) (amount : ℕ)
      → IsWf s
      → IsWf (new_coin x s puzzle_hash amount).1
  unfolding new_coin
  new_coin-IsWf s puzzle_hash amount w =
      insert_coin-IsWf (record s { rng = (x.fill s.rng).1 }) _
        (record {
          chain = w.chain;
          keyed = w.keyed;
          states_ok = w.states_ok;
          hints_keyed = w.hints_keyed;
          hints_known = w.hints_known;
        })

  -- A hint for a known coin.
  pub hint_coin-IsWf :
      (s : Simulator R) (coin_id hint : Bytes32)
      → contains_key coin_id s.coin_states ≡ true
      → IsWf s
      → IsWf (hint_coin s coin_id hint)
  unfolding hint_coin
  hint_coin-IsWf s coin_id hint known w = elim (Option-cases (lookup hint s.hinted_coins)) [
    | inl e ↦ rw (e, hint_coin) (put [] tt)
    | inr (ids, e) ↦
        rw (e, hint_coin)
          (put ids (
            Entries-lookup (λ hint ids. AllKnown s.coin_states ids) hint ids s.hinted_coins
              w.hints_known e))
  ]
    where
      put :
          (ids : List Bytes32)
          → AllKnown s.coin_states ids
          → IsWf
              (record s { hinted_coins = insert hint (IndexSet.insert coin_id ids) s.hinted_coins })
      put ids all = record {
        chain = w.chain;
        keyed = w.keyed;
        states_ok = w.states_ok;
        hints_keyed = insert-IsMap _ _ s.hinted_coins w.hints_keyed;
        hints_known =
            Entries-insert (λ hint ids. AllKnown s.coin_states ids) hint _ s.hinted_coins
              (IndexSet.insert-All (λ id. contains_key id s.coin_states ≡ true) coin_id ids known
                all)
              w.hints_known;
      }
