-- ===== src/PeerSimulator/Handlers.antt =====
-- The handlers of crates/chia-sdk-test/src/peer_simulator/ws_connection.rs that answer a wallet's
-- queries. They read the simulator and may add subscriptions. `none` is a panic.
use chia_wallet_sdk.Prelude.{
  ℕ, ◌+◌, ◌%◌, Bool, true, false, ◌&&◌, not, max, Option, none, some, List, [], ◌∷◌, ◌==◌, ltb, leb,
  if◌then◌else◌, nat_eq, length, take, select,
}
use mathlib.Core.Option
use chia_wallet_sdk.Prelude.IndexSet
use chia_wallet_sdk.Protocol.{Bytes32, SocketAddr, CoinState, u32_size, option_beq}
use chia_wallet_sdk.Simulator.{
  Simulator, coin_state, puzzle_reveal, solution, children, lookup_coin_ids, lookup_puzzle_hashes,
  header_hash_of, last,
}
use chia_wallet_sdk.PeerSimulator.Subscriptions.{
  Subscriptions, subscription_count, add_coin_subscriptions, add_puzzle_subscriptions,
}
use chia_wallet_sdk.PeerSimulator.Messages.{
  SimulatorConfig, CoinStateFilters, RequestCoinState, RequestPuzzleState, Response,
  respond_to_coin_updates, respond_to_ph_updates, respond_puzzle_solution, reject_puzzle_solution,
  respond_children, respond_coin_state, reject_coin_state, respond_puzzle_state,
  reject_puzzle_state, reorg, exceeded_subscription_limit,
}

abbrev pub or_zero : Option ℕ → ℕ
or_zero none = 0
or_zero (some n) = n

-- The height at which a coin last changed.
abbrev pub last_change : CoinState → ℕ
last_change cs = max (or_zero cs.created_height) (or_zero cs.spent_height)

abbrev pub is_some {ℓ} : {A : Type ℓ} → Option A → Bool
is_some none = false
is_some (some a) = true

-- `previous_height.map_or(0, |height| height + 1)`, on a `u32`.
abbrev pub min_height_of : Option ℕ → ℕ
min_height_of none = 0
min_height_of (some height) = (height + 1) % u32_size

-- A stable sort by the height of the last change.
unfoldable pub insert_by_change : CoinState → List CoinState → List CoinState
insert_by_change cs [] = cs ∷ []
insert_by_change cs (c ∷ rest) =
    if leb (last_change cs) (last_change c) then cs ∷ c ∷ rest else c ∷ insert_by_change cs rest

unfoldable pub sort_by_change : List CoinState → List CoinState
sort_by_change [] = []
sort_by_change (cs ∷ rest) = insert_by_change cs (sort_by_change rest)

-- `while coin_states.last() changed at the height { coin_states.pop() }`.
unfoldable pub pop_at : ℕ → List CoinState → List CoinState
pop_at height [] = []
pop_at height (cs ∷ rest) = elim (pop_at height rest) [
  | [] ↦ if last_change cs == height then [] else cs ∷ []
  | c ∷ more ↦ cs ∷ c ∷ more
]

-- The filter of `request_puzzle_state`.
abbrev pub passes : CoinStateFilters → ℕ → CoinState → Bool
passes filters min_height cs =
    if not (is_some cs.spent_height) && not filters.include_unspent
    then false
    else if is_some cs.spent_height && not filters.include_spent
    then false
    else leb min_height (last_change cs)

-- The states that fit one response, and the height at which the next one goes on.
unfoldable pub next_height_of : SimulatorConfig → List CoinState → Option ℕ
next_height_of config states =
    if ltb config.puzzle_state_batch_size (length states)
    then Option.map last_change (last states)
    else none

unfoldable pub page_of : SimulatorConfig → List CoinState → List CoinState × Option ℕ
page_of config states = elim (next_height_of config states) [
  | none ↦ (states, none)
  | some height ↦ (pop_at height states, some height)
]

module _ {R : Type 0} where
  unfoldable pub register_for_coin_updates :
      SocketAddr → List Bytes32 → ℕ → Simulator R → Subscriptions → Response × Subscriptions
  register_for_coin_updates peer coin_ids min_height s subs =
      let ids = IndexSet.collect coin_ids in
      let states = select (λ cs. leb min_height (last_change cs)) (lookup_coin_ids s ids) in
      (respond_to_coin_updates coin_ids min_height states, add_coin_subscriptions subs peer ids)

  unfoldable pub register_for_ph_updates :
      SocketAddr
      → List Bytes32
      → ℕ
      → Simulator R
      → Subscriptions
      → Option (Response × Subscriptions)
  register_for_ph_updates peer puzzle_hashes min_height s subs =
      let phs = IndexSet.collect puzzle_hashes in
      Option.map
        (λ found. (
          respond_to_ph_updates puzzle_hashes min_height
              (select (λ cs. leb min_height (last_change cs)) found),
          add_puzzle_subscriptions subs peer phs,
        ))
        (lookup_puzzle_hashes s phs true)

  unfoldable pub request_puzzle_solution : Bytes32 → ℕ → Simulator R → Response
  request_puzzle_solution coin_name height s =
      let reject = reject_puzzle_solution coin_name height in
      elim (coin_state s coin_name) [
        | none ↦ reject
        | some cs ↦
            if not (option_beq cs.spent_height (some height))
            then reject
            else (elim (puzzle_reveal s coin_name) [
              | none ↦ reject
              | some program ↦ elim (solution s coin_name) [
                | none ↦ reject
                | some arguments ↦ respond_puzzle_solution coin_name height program arguments
              ]
            ])
      ]

  unfoldable pub request_children : Bytes32 → Simulator R → Response
  request_children coin_name s = respond_children (children s coin_name)

  -- The peer is on this chain: it names the header hash of its height, or the genesis challenge.
  unfoldable pub on_chain : SimulatorConfig → Simulator R → Option ℕ → Bytes32 → Bool
  on_chain config s none header_hash = header_hash == config.constants.genesis_challenge
  on_chain config s (some height) header_hash =
      option_beq (some header_hash) (header_hash_of s height)

  unfoldable pub request_coin_state :
      SocketAddr
      → RequestCoinState
      → SimulatorConfig
      → Simulator R
      → Subscriptions
      → Response × Subscriptions
  request_coin_state peer request config s subs =
      let ids = IndexSet.collect request.coin_ids in
      let min_height = min_height_of request.previous_height in
      if not (on_chain config s request.previous_height request.header_hash)
      then (reject_coin_state reorg, subs)
      else if ltb config.max_subscriptions (subscription_count subs peer + length ids)
          && request.subscribe
      then (reject_coin_state exceeded_subscription_limit, subs)
      else (
        respond_coin_state request.coin_ids
            (select (λ cs. leb min_height (last_change cs)) (lookup_coin_ids s ids)),
        if request.subscribe then add_coin_subscriptions subs peer ids else subs,
      )

  unfoldable pub request_puzzle_state :
      SocketAddr
      → RequestPuzzleState
      → SimulatorConfig
      → Simulator R
      → Subscriptions
      → Option (Response × Subscriptions)
  request_puzzle_state peer request config s subs =
      let phs = IndexSet.collect request.puzzle_hashes in
      let min_height = min_height_of request.previous_height in
      if not (on_chain config s request.previous_height request.header_hash)
      then some (reject_coin_state reorg, subs)
      else if ltb config.max_subscriptions (subscription_count subs peer + length phs)
          && request.subscribe_when_finished
      then some (reject_puzzle_state exceeded_subscription_limit, subs)
      else (elim (lookup_puzzle_hashes s phs request.filters.include_hinted) [
        | none ↦ none
        | some found ↦
            let sorted = sort_by_change (select (passes request.filters min_height) found) in
            let (states, next_height) =
              page_of config (take (config.max_response_coins + 1) sorted) in
            let height : ℕ = elim next_height [ none ↦ s.height | some h ↦ h ] in
            Option.map
              (λ hash. (
                respond_puzzle_state (record {
                  height = height;
                  header_hash = hash;
                  puzzle_hashes = request.puzzle_hashes;
                  coin_states = states;
                  is_finished = not (is_some next_height);
                }),
                if request.subscribe_when_finished && not (is_some next_height)
                    then add_puzzle_subscriptions subs peer phs
                    else subs,
              ))
              (header_hash_of s height)
      ])
