-- ===== src/Simulator/Tests.antt =====
-- Runs of crates/chia-sdk-test/src/simulator.rs on a small chain, and its theorems at those inputs. The
-- consensus code is replaced by one that reads a spend's outputs from its solution.
use chia_wallet_sdk.Prelude.{
  ℕ, zero, suc, ◌+◌, ◌*◌, ◌≡◌, ◌↔◌, refl, true, false, none, some, List, [], ◌∷◌, map, arith,
  contains, nat_eq, All, if◌then◌else◌,
}
use chia_wallet_sdk.Prelude.IndexMap.{IndexMap, IsMap, lookup, insert, extend, contains_key, values}
use chia_wallet_sdk.Protocol.{
  Bytes, Bytes32, Coin, CoinState, CoinSpend, SpendBundle, NewCoin, SpendConditions,
  ConsensusConstants, Result, ok, err, bytes32_from,
}
use chia_wallet_sdk.Simulator.{
  External, Simulator, with_seed, insert_coin, create_block, hint_coin, hinted_coins,
  lookup_puzzle_hashes,
}
use chia_wallet_sdk.Simulator.Transaction.{
  SimulatorError, new_transaction, plan_transaction, apply_plan, collect_changes, add_coins,
  add_coin, add_first_memo, removed_state, validate_removals, same_set, puzzle_solutions_of,
}
use chia_wallet_sdk.Simulator.Changes.{spend_at, IsFresh}
use chia_wallet_sdk.Simulator.Spends.{
  SpentFrom, new_transaction_spends, new_transaction_creates, new_transaction_keeps,
}
use chia_wallet_sdk.Simulator.Accepts.{
  Accepts, new_transaction_iff, new_transaction_double_spend, new_transaction_unknown,
}
use chia_wallet_sdk.Simulator.Hints.{contains-hinted_coins-new_transaction}
use chia_wallet_sdk.Simulator.Invariant.{LawfulIds, IsWf}
use chia_wallet_sdk.Simulator.Reach.{Step, Reach, Reach-IsWf}
use chia_wallet_sdk.Simulator.Lookups.{wanted, puzzle_hash_states_lem}

abbrev pad : ℕ → Bytes → Bytes
pad zero bytes = bytes
pad (suc n) bytes = 0 ∷ pad n bytes

abbrev pub id_of : Coin → Bytes32
id_of c = c.parent_coin_info * 1_000_000 + c.puzzle_hash * 1_000 + c.amount

-- Each pair of numbers of a solution is the puzzle hash and the amount of an output, which is hinted to
-- its puzzle hash.
abbrev outputs : Bytes → List NewCoin
outputs (ph ∷ amount ∷ rest) =
    record { puzzle_hash = ph; amount = amount; hint = some (pad 31 (ph ∷ [])) } ∷ outputs rest
outputs _ = []

abbrev conditions_of : CoinSpend → SpendConditions
conditions_of cs = record {
  coin_id = id_of cs.coin;
  parent_id = cs.coin.parent_coin_info;
  puzzle_hash = cs.coin.puzzle_hash;
  coin_amount = cs.coin.amount;
  create_coin = outputs cs.solution;
}

abbrev pub chain : External ℕ
chain = record {
  with_seed = λ seed. seed;
  fill = λ r. (r, r + 1);
  coin_id = id_of;
  validate_clvm_and_signature =
      λ bundle cost constants height. ok (map conditions_of bundle.coin_spends);
}

ids_ok :
    (spends : List CoinSpend)
    → All
        (λ spend.
          chain.coin_id (record {
            parent_coin_info = spend.parent_id;
            puzzle_hash = spend.puzzle_hash;
            amount = spend.coin_amount;
          })
          ≡ spend.coin_id)
        (map conditions_of spends)
ids_ok [] = tt
ids_ok (cs ∷ rest) = (refl, ids_ok rest)

pub chain-LawfulIds : LawfulIds chain
chain-LawfulIds bundle cost constants height spends e =
    let same : map conditions_of bundle.coin_spends ≡ spends = cc in
    rw (← same) (ids_ok bundle.coin_spends)

abbrev pub mainnet : ConsensusConstants
mainnet = record {
  genesis_challenge = 99;
  agg_sig_me_additional_data = 1;
  agg_sig_parent_additional_data = 2;
  agg_sig_puzzle_additional_data = 3;
  agg_sig_amount_additional_data = 4;
  agg_sig_puzzle_amount_additional_data = 5;
  agg_sig_parent_amount_additional_data = 6;
  agg_sig_parent_puzzle_additional_data = 7;
}

abbrev pub coin_a : Coin
coin_a = record { parent_coin_info = 5; puzzle_hash = 20; amount = 100 }

abbrev spend_of : Coin → Bytes → CoinSpend
spend_of c bytes = record { coin = c; puzzle_reveal = 1 ∷ []; solution = bytes }

abbrev bundle_of : List CoinSpend → SpendBundle
bundle_of spends = record { coin_spends = spends; aggregated_signature = [] }

-- One coin of puzzle hash 20, on a chain of one block.
pub start : Simulator ℕ
unfolding with_seed insert_coin
start = insert_coin chain (with_seed chain 7) coin_a

-- Pays 60 to puzzle hash 21 and 40 to puzzle hash 22.
abbrev pub payment : SpendBundle
payment = bundle_of (spend_of coin_a (21 ∷ 60 ∷ 22 ∷ 40 ∷ []) ∷ [])

abbrev payment_conditions : List SpendConditions
payment_conditions = map conditions_of payment.coin_spends

abbrev coin_b : Coin
coin_b = record { parent_coin_info = id_of coin_a; puzzle_hash = 21; amount = 60 }

-- The operations, open.
abbrev run : Simulator ℕ → SpendBundle → Result SimulatorError (IndexMap CoinState) × Simulator ℕ
unfolding new_transaction plan_transaction apply_plan collect_changes add_coins add_coin
    add_first_memo removed_state validate_removals same_set puzzle_solutions_of create_block lookup
    insert extend contains_key
run s bundle = new_transaction chain s bundle mainnet

abbrev states : Result SimulatorError (IndexMap CoinState) → IndexMap CoinState
states (ok m) = m
states (err e) = []

pub paid : Simulator ℕ
unfolding run start
paid = (run start payment).1

paid_height : paid.height ≡ 1
unfolding paid
paid_height = refl

accepted : (new_transaction chain start payment mainnet).0 ≡ ok (states (run start payment).0)
unfolding run start
accepted = refl

new_transaction_spends_example :
    (cs : CoinState) × (lookup
        (id_of coin_a)
        (new_transaction chain start payment mainnet).1.coin_states
      ≡ some (spend_at start.height cs))
    × SpentFrom chain start payment mainnet payment_conditions (id_of coin_a) cs
new_transaction_spends_example =
    new_transaction_spends chain start payment mainnet payment_conditions
      (states (run start payment).0) (id_of coin_a) refl accepted refl

new_transaction_creates_example :
    (cs : CoinState) × (lookup
        (id_of coin_b)
        (new_transaction chain start payment mainnet).1.coin_states
      ≡ some cs)
    × IsFresh chain start.height (id_of coin_b) cs
new_transaction_creates_example =
    new_transaction_creates chain start payment mainnet payment_conditions
      (states (run start payment).0) (id_of coin_b) refl accepted refl refl

new_transaction_keeps_example :
    lookup 77 (new_transaction chain start payment mainnet).1.coin_states
    ≡ lookup 77 start.coin_states
new_transaction_keeps_example =
    new_transaction_keeps chain start payment mainnet payment_conditions
      (states (run start payment).0) 77 refl accepted refl refl

new_transaction_iff_example :
    ((u : IndexMap CoinState) × ((new_transaction chain start payment mainnet).0 ≡ ok u))
    ↔ Accepts chain start payment mainnet payment_conditions
new_transaction_iff_example =
    new_transaction_iff chain start payment mainnet payment_conditions refl

new_transaction_double_spend_example :
    (e : SimulatorError) × (new_transaction chain paid payment mainnet ≡ (err e, paid))
unfolding paid
new_transaction_double_spend_example =
    new_transaction_double_spend chain paid payment mainnet payment_conditions (id_of coin_a)
      (record { coin = coin_a; spent_height = some 0; created_height = some 0 }) 0 refl refl refl
      refl

abbrev stray : SpendBundle
stray = bundle_of (spend_of (record { parent_coin_info = 6; puzzle_hash = 20; amount = 1 }) [] ∷ [])

new_transaction_unknown_example :
    (e : SimulatorError) × (new_transaction chain start stray mainnet ≡ (err e, start))
unfolding run start
new_transaction_unknown_example =
    new_transaction_unknown chain start stray mainnet (map conditions_of stray.coin_spends)
      6_020_001 refl refl refl refl

-- A coin that was hinted to puzzle hash 21 before the payment is forgotten, since the payment hints
-- another coin to it.
hinted_before : Simulator ℕ
unfolding start hint_coin
hinted_before = hint_coin start (id_of coin_a) 21

hinted_accepted :
    (new_transaction chain hinted_before payment mainnet).0
    ≡ ok (states (run hinted_before payment).0)
unfolding run hinted_before
hinted_accepted = refl

contains-hinted_coins-new_transaction_example :
    contains
      (hinted_coins (new_transaction chain hinted_before payment mainnet).1 21)
      (id_of coin_a)
    ≡ false
unfolding bytes32_from
contains-hinted_coins-new_transaction_example =
    contains-hinted_coins-new_transaction chain hinted_before payment mainnet payment_conditions
      (states (run hinted_before payment).0) 21 (id_of coin_a) refl hinted_accepted

paid-Reach : Reach chain paid
unfolding paid
paid-Reach =
    Reach.steps (Reach.steps (Reach.starts 7) (Step.inserts coin_a))
      (Step.transacts payment mainnet (omega arith))

Reach-IsWf_example : IsWf chain paid
Reach-IsWf_example = Reach-IsWf chain-LawfulIds paid-Reach

puzzle_hash_states_lem_example :
    (found : IndexMap CoinState) × (lookup_puzzle_hashes paid (21 ∷ []) true ≡ some (values found))
    × IsMap found
    × ((id : Bytes32)
        → lookup id found
          ≡ (if wanted paid (21 ∷ []) true id then lookup id paid.coin_states else none))
puzzle_hash_states_lem_example =
    puzzle_hash_states_lem chain paid (Reach-IsWf chain-LawfulIds paid-Reach) (21 ∷ []) true
