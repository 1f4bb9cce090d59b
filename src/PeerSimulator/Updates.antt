-- ===== src/PeerSimulator/Updates.antt =====
-- `new_transaction` and `send_transaction` of crates/chia-sdk-test/src/peer_simulator/ws_connection.rs:
-- who is told of what when a transaction is accepted.
use chia_wallet_sdk.Prelude.{
  ◌||◌, Option, none, some, List, [], ◌∷◌, if◌then◌else◌, contains, nat_eq,
}
use chia_wallet_sdk.Prelude.IndexMap.{IndexMap, lookup, insert, keys, contains_key}
use chia_wallet_sdk.Prelude.IndexSet
use chia_wallet_sdk.Protocol.{
  Bytes32, SocketAddr, CoinState, coin_state_eq, SpendBundle, ConsensusConstants, ErrorCode,
  unknown, Result, ok, err,
}
use chia_wallet_sdk.Simulator.{External, Simulator, coin_state, hinted_coins, header_hash}
use chia_wallet_sdk.Simulator.Transaction.{SimulatorError, validation}
use chia_wallet_sdk.Simulator.Transaction
use chia_wallet_sdk.PeerSimulator.Subscriptions.{Subscriptions, peers, coins_of, puzzles_of}
use chia_wallet_sdk.PeerSimulator.Messages.{
  SimulatorConfig, Response, transaction_ack, Notice, new_peak_wallet, coin_state_update,
}

module _ {R : Type 0} (s : Simulator R) where
  -- One update, by its coin id: is the coin or its puzzle hash watched?
  unfoldable pub add_subscribed :
      List Bytes32 → List Bytes32 → Bytes32 → List CoinState → List CoinState
  add_subscribed coins puzzles id acc = elim (coin_state s id) [
    | none ↦ acc
    | some cs ↦
        if contains coins id || contains puzzles cs.coin.puzzle_hash
        then IndexSet.insert cs acc
        else acc
  ]

  unfoldable pub collect_subscribed :
      List Bytes32 → List Bytes32 → List Bytes32 → List CoinState → List CoinState
  collect_subscribed coins puzzles [] acc = acc
  collect_subscribed coins puzzles (id ∷ ids) acc =
      collect_subscribed coins puzzles ids (add_subscribed coins puzzles id acc)

  -- One coin hinted by a watched puzzle hash: `coin_states.extend(simulator.coin_state(coin_id))`.
  unfoldable pub add_hinted : IndexMap CoinState → Bytes32 → List CoinState → List CoinState
  add_hinted updates id acc = elim (coin_state s id) [
    | none ↦ acc
    | some cs ↦ if contains_key id updates then IndexSet.insert cs acc else acc
  ]

  unfoldable pub collect_hinted :
      IndexMap CoinState → List Bytes32 → List CoinState → List CoinState
  collect_hinted updates [] acc = acc
  collect_hinted updates (id ∷ ids) acc = collect_hinted updates ids (add_hinted updates id acc)

  unfoldable pub collect_hints : IndexMap CoinState → List Bytes32 → List CoinState → List CoinState
  collect_hints updates [] acc = acc
  collect_hints updates (hint ∷ hints) acc =
      collect_hints updates hints (collect_hinted updates (hinted_coins s hint) acc)

  -- The coin states that one peer is sent.
  unfoldable pub states_for : Subscriptions → IndexMap CoinState → SocketAddr → List CoinState
  states_for subs updates peer =
      collect_hints updates (puzzles_of subs peer)
        (collect_subscribed (coins_of subs peer) (puzzles_of subs peer) (keys updates) [])

  -- The loop over the subscribed peers.
  unfoldable pub peer_updates :
      Subscriptions
      → IndexMap CoinState
      → List SocketAddr
      → IndexMap (List CoinState)
      → IndexMap (List CoinState)
  peer_updates subs updates [] acc = acc
  peer_updates subs updates (peer ∷ rest) acc =
      peer_updates subs updates rest
        (elim (states_for subs updates peer) [ [] ↦ acc | cs ∷ more ↦ insert peer (cs ∷ more) acc ])

module _ {R : Type 0} (x : External R) where
  unfoldable pub new_transaction :
      Simulator R
      → Subscriptions
      → SpendBundle
      → ConsensusConstants
      → Result SimulatorError (IndexMap (List CoinState)) × Simulator R
  new_transaction s subs bundle constants =
      let (result, s') = Transaction.new_transaction x s bundle constants in
      (
        elim result [
          | ok updates ↦ ok (peer_updates s' subs updates (peers subs) [])
          | err e ↦ err e
        ],
        s',
      )

  -- The error code of a refusal.
  abbrev pub error_code : SimulatorError → ErrorCode
  error_code (validation code) = code
  error_code _ = unknown

  -- The notices to the connected peers: the new peak to each, then its updates, if it has any.
  unfoldable pub notices :
      Simulator R
      → Bytes32
      → IndexMap (List CoinState)
      → List SocketAddr
      → List (SocketAddr × Notice)
  notices s hash updates [] = []
  notices s hash updates (addr ∷ rest) =
      let others = notices s hash updates rest in
      (addr, new_peak_wallet hash s.height 0 s.height) ∷ (elim (lookup addr updates) [
        | none ↦ others
        | some states ↦ (addr, coin_state_update s.height s.height hash states) ∷ others
      ])

  -- `name` is the hash of a bundle, and `connected` the peers of the peer map. `none` is a panic.
  unfoldable pub send_transaction :
      (SpendBundle → Bytes32)
      → SimulatorConfig
      → Simulator R
      → Subscriptions
      → List SocketAddr
      → SpendBundle
      → Option (Response × List (SocketAddr × Notice) × Simulator R)
  send_transaction name config s subs connected bundle =
      let (result, s') = new_transaction s subs bundle config.constants in
      elim result [
        | err e ↦ some (transaction_ack (name bundle) 3 (some (error_code e)), [], s')
        | ok updates ↦ elim (header_hash s') [
          | none ↦ none
          | some hash ↦
              some (transaction_ack (name bundle) 1 none, notices s' hash updates connected, s')
        ]
      ]
