-- ===== src/Simulator/Transaction.antt =====
-- `Simulator::new_transaction` of crates/chia-sdk-test/src/simulator.rs.
use chia_wallet_sdk.Prelude.{
  ℕ, Bool, true, ◌&&◌, not, Option, none, some, List, [], ◌∷◌, map, length, ◌==◌, if◌then◌else◌,
  contains, nat_eq,
}
use chia_wallet_sdk.Prelude.IndexMap.{IndexMap, lookup, insert, extend, contains_key}
use chia_wallet_sdk.Prelude.IndexSet
use chia_wallet_sdk.Protocol.{
  Bytes32, Bytes, Coin, CoinState, CoinSpend, SpendBundle, NewCoin, SpendConditions,
  ConsensusConstants, ErrorCode, invalid_spend_bundle, unknown_unspent, double_spend, Result, ok,
  err, bytes32_from, ◌>>=◌,
}
use chia_wallet_sdk.Simulator.{External, Simulator, create_block}

pub data SimulatorError : Type 0 where
  io : SimulatorError
  validation : ErrorCode → SimulatorError
  signer : ℕ → SimulatorError
  missing_key : SimulatorError

abbrev map_err {ℓ} : {A : Type ℓ} → Result ErrorCode A → Result SimulatorError A
map_err (ok a) = ok a
map_err (err e) = err (validation e)

-- The maps that the loop over the spends fills.
pub record Changes : Type 0 where
  pub removed_coins : IndexMap CoinState
  pub added_coins : IndexMap CoinState
  pub added_hints : IndexMap (List Bytes32)

abbrev pub no_changes : Changes
no_changes = record { removed_coins = []; added_coins = []; added_hints = [] }

-- `entry(hint).or_insert_with(IndexSet::new).insert(coin_id)`.
unfoldable pub add_hint : Bytes32 → Bytes32 → IndexMap (List Bytes32) → IndexMap (List Bytes32)
add_hint hint coin_id m = elim (lookup hint m) [
  | none ↦ insert hint (IndexSet.insert coin_id []) m
  | some ids ↦ insert hint (IndexSet.insert coin_id ids) m
]

-- A hint counts if it has 32 bytes.
unfoldable pub add_first_memo :
    Option Bytes → Bytes32 → IndexMap (List Bytes32) → IndexMap (List Bytes32)
unfolding add_hint bytes32_from
add_first_memo none coin_id m = m
add_first_memo (some hint) coin_id m =
    if length hint == 32 then add_hint (bytes32_from 0 hint) coin_id m else m

-- `puzzle_hashes != bundle_puzzle_hashes` compares sets.
abbrev pub all_in : List Bytes32 → List Bytes32 → Bool
all_in [] ys = true
all_in (x ∷ xs) ys = contains ys x && all_in xs ys

unfoldable pub same_set : List Bytes32 → List Bytes32 → Bool
same_set xs ys = all_in xs ys && all_in ys xs

-- Everything that a valid transaction writes, before it is written.
pub record Plan : Type 0 where
  pub updates : IndexMap CoinState
  pub hints : IndexMap (List Bytes32)
  pub puzzle_solutions : IndexMap (Bytes × Bytes)

unfoldable pub validate_removals :
    IndexMap CoinState
    → ℕ
    → IndexMap CoinState
    → IndexMap CoinState
    → Result SimulatorError (IndexMap CoinState)
validate_removals states height added [] = ok []
validate_removals states height added ((id, cs) ∷ rest) =
    if not (contains_key id states) && not (contains_key id added)
    then err (validation unknown_unspent)
    else (elim cs.spent_height [
      | some _ ↦ err (validation double_spend)
      | none ↦ validate_removals states height added rest >>= λ rest'.
          ok ((id, record cs { spent_height = some height }) ∷ rest')
    ])

module _ {R : Type 0} (x : External R) where
  unfoldable pub puzzle_solutions_of :
      List CoinSpend → IndexMap (Bytes × Bytes) → IndexMap (Bytes × Bytes)
  puzzle_solutions_of [] m = m
  puzzle_solutions_of (cs ∷ rest) m =
      puzzle_solutions_of rest (insert (x.coin_id cs.coin) (cs.puzzle_reveal, cs.solution) m)

  -- One output of the spend `parent`.
  unfoldable pub add_coin : ℕ → Bytes32 → NewCoin → Changes → Changes
  add_coin height parent new_coin ch =
      let coin : Coin = record {
        parent_coin_info = parent;
        puzzle_hash = new_coin.puzzle_hash;
        amount = new_coin.amount;
      } in
      record ch {
        added_coins =
            insert (x.coin_id coin)
              (record { coin = coin; spent_height = none; created_height = some height })
              ch.added_coins;
        added_hints = add_first_memo new_coin.hint (x.coin_id coin) ch.added_hints;
      }

  unfoldable pub add_coins : ℕ → Bytes32 → List NewCoin → Changes → Changes
  add_coins height parent [] ch = ch
  add_coins height parent (c ∷ cs) ch = add_coins height parent cs (add_coin height parent c ch)

  -- `get(&spend.coin_id).copied().unwrap_or(CoinState::new(coin, None, Some(self.height)))`.
  unfoldable pub removed_state : IndexMap CoinState → ℕ → SpendConditions → CoinState
  removed_state states height spend = elim (lookup spend.coin_id states) [
    | some cs ↦ cs
    | none ↦ record {
      coin = record {
        parent_coin_info = spend.parent_id;
        puzzle_hash = spend.puzzle_hash;
        amount = spend.coin_amount;
      };
      spent_height = none;
      created_height = some height;
    }
  ]

  -- The loop over the spends: additions and removals.
  unfoldable pub collect_changes : IndexMap CoinState → ℕ → List SpendConditions → Changes → Changes
  collect_changes states height [] ch = ch
  collect_changes states height (spend ∷ spends) ch =
      let added = add_coins height spend.coin_id spend.create_coin ch in
      collect_changes states height spends (record added {
        removed_coins =
            insert spend.coin_id (removed_state states height spend) added.removed_coins;
      })

  -- The checks and the data of a transaction; nothing is written on an error.
  unfoldable pub plan_transaction :
      Simulator R → SpendBundle → ConsensusConstants → Result SimulatorError Plan
  plan_transaction s bundle constants = elim bundle.coin_spends [
    | [] ↦ err (validation invalid_spend_bundle)
    | _ ↦
        map_err (x.validate_clvm_and_signature bundle 7_700_000_000 constants s.height)
        >>= λ spends.
            if not (
              same_set (map (λ spend. spend.puzzle_hash) spends)
                (map (λ cs. cs.coin.puzzle_hash) bundle.coin_spends))
            then err (validation invalid_spend_bundle)
            else (let ch = collect_changes s.coin_states s.height spends no_changes in
                validate_removals s.coin_states s.height ch.added_coins ch.removed_coins
                >>= λ removed. ok (record {
                  updates = extend ch.added_coins removed;
                  hints = ch.added_hints;
                  puzzle_solutions = puzzle_solutions_of bundle.coin_spends [];
                }))
  ]

  -- The writes of a transaction that passed its checks.
  unfoldable pub apply_plan : Simulator R → Plan → Simulator R
  apply_plan s p =
      let s' = create_block x s in
      record s' {
        coin_states = extend s'.coin_states p.updates;
        hinted_coins = extend s'.hinted_coins p.hints;
        puzzle_and_solutions = extend s'.puzzle_and_solutions p.puzzle_solutions;
      }

  unfoldable pub new_transaction :
      Simulator R
      → SpendBundle
      → ConsensusConstants
      → Result SimulatorError (IndexMap CoinState) × Simulator R
  new_transaction s bundle constants = elim (plan_transaction s bundle constants) [
    | err e ↦ (err e, s)
    | ok p ↦ (ok p.updates, apply_plan s p)
  ]
