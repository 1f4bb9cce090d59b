-- ===== src/Simulator.antt =====
-- crates/chia-sdk-test/src/simulator.rs: the state of the simulated blockchain, its queries and the
-- operations that add coins and hints. Transactions are in the child `Transaction`.
pub mod Transaction
pub mod Changes
pub mod Outputs
pub mod Spends
pub mod Accepts
pub mod Hints
pub mod Invariant
pub mod Reach
pub mod Lookups
pub mod Tests
use chia_wallet_sdk.Prelude.{
  ℕ, zero, suc, ◌+◌, ◌%◌, ◌≡◌, Bool, true, false, Option, none, some, List, [], ◌∷◌, ◌++◌,
  get_elem?, select, ◌==◌, if◌then◌else◌, contains, nat_eq,
}
use mathlib.Core.Option
use chia_wallet_sdk.Prelude.IndexMap.{IndexMap, lookup, insert, values}
use chia_wallet_sdk.Prelude.IndexSet
use chia_wallet_sdk.Protocol.{
  Bytes32, Bytes, Coin, CoinState, SpendBundle, SpendConditions, ConsensusConstants, ErrorCode,
  Result, u32_size,
}

-- What the simulator calls: the random generator, the id of a coin (a hash), and the consensus code
-- that runs a bundle's puzzles and checks its signature.
pub record External (R : Type 0) : Type 0 where
  pub with_seed : ℕ → R
  -- `Rng::fill` of 32 bytes.
  pub fill : R → Bytes32 × R
  pub coin_id : Coin → Bytes32
  -- The bundle, the highest cost, the constants, and the height.
  pub validate_clvm_and_signature :
      SpendBundle → ℕ → ConsensusConstants → ℕ → Result ErrorCode (List SpendConditions)

pub record Simulator (R : Type 0) : Type 0 where
  pub rng : R
  pub height : ℕ
  pub header_hashes : List Bytes32
  pub coin_states : IndexMap CoinState
  pub hinted_coins : IndexMap (List Bytes32)
  pub puzzle_and_solutions : IndexMap (Bytes × Bytes)

abbrev pub last {ℓ} : {A : Type ℓ} → List A → Option A
last [] = none
last (x ∷ []) = some x
last (x ∷ y ∷ ys) = last (y ∷ ys)

-- `coin_states.insert(*coin_id, self.coin_states[coin_id])`; `none` is the panic on a missing key.
unfoldable pub insert_state :
    IndexMap CoinState → Bytes32 → IndexMap CoinState → Option (IndexMap CoinState)
insert_state all id acc = elim (lookup id all) [ none ↦ none | some cs ↦ some (insert id cs acc) ]

-- The loop over the coin states, whose rest is the third argument.
unfoldable pub collect_matching :
    IndexMap CoinState
    → List Bytes32
    → IndexMap CoinState
    → IndexMap CoinState
    → Option (IndexMap CoinState)
collect_matching all phs [] acc = some acc
collect_matching all phs ((id, cs) ∷ rest) acc =
    elim (if contains phs cs.coin.puzzle_hash then insert_state all id acc else some acc) [
      | none ↦ none
      | some acc' ↦ collect_matching all phs rest acc'
    ]

unfoldable pub collect_ids :
    IndexMap CoinState → List Bytes32 → IndexMap CoinState → Option (IndexMap CoinState)
collect_ids all [] acc = some acc
collect_ids all (id ∷ ids) acc = elim (insert_state all id acc) [
  | none ↦ none
  | some acc' ↦ collect_ids all ids acc'
]

-- The loop over the hints among the puzzle hashes.
unfoldable pub collect_hinted :
    IndexMap CoinState
    → IndexMap (List Bytes32)
    → List Bytes32
    → IndexMap CoinState
    → Option (IndexMap CoinState)
collect_hinted all hinted [] acc = some acc
collect_hinted all hinted (ph ∷ phs) acc = elim (lookup ph hinted) [
  | none ↦ collect_hinted all hinted phs acc
  | some ids ↦ elim (collect_ids all ids acc) [
    | none ↦ none
    | some acc' ↦ collect_hinted all hinted phs acc'
  ]
]

module _ {R : Type 0} (x : External R) where
  unfoldable pub with_seed : ℕ → Simulator R
  with_seed seed =
      let (header_hash, rng) = x.fill (x.with_seed seed) in
      record {
        rng = rng;
        height = 0;
        header_hashes = header_hash ∷ [];
        coin_states = [];
        hinted_coins = [];
        puzzle_and_solutions = [];
      }

  unfoldable pub new : Simulator R
  unfolding with_seed
  new = with_seed 1337

  unfoldable pub insert_coin : Simulator R → Coin → Simulator R
  insert_coin s coin = record s {
    coin_states =
        insert (x.coin_id coin)
          (record { coin = coin; spent_height = none; created_height = some s.height })
          s.coin_states;
  }

  unfoldable pub new_coin : Simulator R → Bytes32 → ℕ → Coin × Simulator R
  unfolding insert_coin
  new_coin s puzzle_hash amount =
      let (parent_coin_info, rng) = x.fill s.rng in
      let coin : Coin = record {
        parent_coin_info = parent_coin_info;
        puzzle_hash = puzzle_hash;
        amount = amount;
      } in
      (coin, insert_coin (record s { rng = rng }) coin)

  unfoldable pub create_block : Simulator R → Simulator R
  create_block s =
      let (header_hash, rng) = x.fill s.rng in
      record s {
        rng = rng;
        header_hashes = s.header_hashes ++ header_hash ∷ [];
        height = (s.height + 1) % u32_size;
      }

module _ {R : Type 0} where
  -- `none` is the panic of `unwrap` on an empty chain.
  unfoldable pub header_hash : Simulator R → Option Bytes32
  header_hash s = last s.header_hashes

  unfoldable pub header_hash_of : Simulator R → ℕ → Option Bytes32
  header_hash_of s height = get_elem? s.header_hashes height

  unfoldable pub hint_coin : Simulator R → Bytes32 → Bytes32 → Simulator R
  hint_coin s coin_id hint = record s {
    hinted_coins = elim (lookup hint s.hinted_coins) [
      | none ↦ insert hint (IndexSet.insert coin_id []) s.hinted_coins
      | some ids ↦ insert hint (IndexSet.insert coin_id ids) s.hinted_coins
    ];
  }

  unfoldable pub coin_state : Simulator R → Bytes32 → Option CoinState
  coin_state s coin_id = lookup coin_id s.coin_states

  unfoldable pub children : Simulator R → Bytes32 → List CoinState
  children s coin_id = select (λ cs. cs.coin.parent_coin_info == coin_id) (values s.coin_states)

  unfoldable pub hinted_coins : Simulator R → Bytes32 → List Bytes32
  hinted_coins s hint = elim (lookup hint s.hinted_coins) [ none ↦ [] | some ids ↦ ids ]

  unfoldable pub puzzle_reveal : Simulator R → Bytes32 → Option Bytes
  puzzle_reveal s coin_id = elim (lookup coin_id s.puzzle_and_solutions) [
    | none ↦ none
    | some (p, _) ↦ some p
  ]

  unfoldable pub solution : Simulator R → Bytes32 → Option Bytes
  solution s coin_id = elim (lookup coin_id s.puzzle_and_solutions) [
    | none ↦ none
    | some (_, r) ↦ some r
  ]

  -- `coin_ids` is the iteration order of a set.
  unfoldable pub lookup_coin_ids : Simulator R → List Bytes32 → List CoinState
  lookup_coin_ids s [] = []
  lookup_coin_ids s (id ∷ ids) =
      let rest = lookup_coin_ids s ids in
      elim (lookup id s.coin_states) [ none ↦ rest | some cs ↦ cs ∷ rest ]

  -- The map that `lookup_puzzle_hashes` builds.
  unfoldable pub puzzle_hash_states :
      Simulator R → List Bytes32 → Bool → Option (IndexMap CoinState)
  puzzle_hash_states s phs include_hints =
      elim (collect_matching s.coin_states phs s.coin_states []) [
        | none ↦ none
        | some acc ↦
            if include_hints then collect_hinted s.coin_states s.hinted_coins phs acc else some acc
      ]

  unfoldable pub lookup_puzzle_hashes : Simulator R → List Bytes32 → Bool → Option (List CoinState)
  unfolding puzzle_hash_states
  lookup_puzzle_hashes s phs include_hints =
      Option.map values (puzzle_hash_states s phs include_hints)
