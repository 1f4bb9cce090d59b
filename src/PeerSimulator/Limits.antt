-- ===== src/PeerSimulator/Limits.antt =====
-- The subscription limit and the replies of crates/chia-sdk-test/src/peer_simulator/ws_connection.rs.
use chia_wallet_sdk.Prelude.{
  ℕ, ◌≤◌, ◌≡◌, ◌↔◌, Bool, true, false, Option, some, List, arith, Option-cases, inl, inr, nat_eq,
}
use chia_wallet_sdk.Prelude.IndexSet
use chia_wallet_sdk.Protocol.{Bytes32, SocketAddr, SpendBundle, ok}
use chia_wallet_sdk.Simulator.{External, Simulator}
use chia_wallet_sdk.PeerSimulator.Subscriptions.{
  Subscriptions, subscription_count, subscription_count-add_coin, subscription_count-add_puzzle,
}
use chia_wallet_sdk.PeerSimulator.Messages.{
  SimulatorConfig, Request, RequestCoinState, RequestPuzzleState, Response, type_of,
  reject_coin_state, reject_puzzle_state, reject_puzzle_solution,
}
use chia_wallet_sdk.PeerSimulator.Handlers
use chia_wallet_sdk.PeerSimulator.Updates
use chia_wallet_sdk.PeerSimulator.Connection.{Node, Handled, Reply, handle_message}

abbrev pub WithinLimits : SimulatorConfig → Subscriptions → Type 0
WithinLimits config subs =
    (peer : SocketAddr) → subscription_count subs peer ≤ config.max_subscriptions

module _ {R : Type 0} where
  request_coin_state-WithinLimits :
      (peer : SocketAddr) (request : RequestCoinState) (config : SimulatorConfig) (s : Simulator R)
      (subs : Subscriptions)
      → WithinLimits config subs
      → WithinLimits config (Handlers.request_coin_state peer request config s subs).1
  unfolding Handlers.request_coin_state
  request_coin_state-WithinLimits peer request config s subs w who =
      ground (
        arith,
        w who,
        subscription_count-add_coin subs peer who (IndexSet.collect request.coin_ids),
      )

  request_puzzle_state-WithinLimits :
      (peer : SocketAddr) (request : RequestPuzzleState) (config : SimulatorConfig)
      (s : Simulator R) (subs after : Subscriptions) (r : Response)
      → WithinLimits config subs
      → Handlers.request_puzzle_state peer request config s subs ≡ some (r, after)
      → WithinLimits config after
  unfolding Handlers.request_puzzle_state
  request_puzzle_state-WithinLimits peer request config s subs after r w e who = ground (
    arith,
    w who,
    subscription_count-add_puzzle subs peer who (IndexSet.collect request.puzzle_hashes),
  )

-- Requests that the limit applies to: all but the two older registrations, which do not check it.
abbrev pub limited : Request → Bool
limited (Request.register_for_coin_updates ids min_height) = false
limited (Request.register_for_ph_updates phs min_height) = false
limited _ = true

abbrev pub is_reject : Response → Bool
is_reject (reject_puzzle_solution coin_name height) = true
is_reject (reject_coin_state reason) = true
is_reject (reject_puzzle_state reason) = true
is_reject _ = false

module _ {R : Type 0} (x : External R) (name : SpendBundle → Bytes32) (config : SimulatorConfig)
    (addr : SocketAddr) (connected : List SocketAddr) (id : Option ℕ) where
  -- Every message but the two older registrations keeps each peer's subscriptions within the limit.
  pub handle_message-WithinLimits :
      (request : Request) (n : Node R) (h : Handled R)
      → handle_message x name config addr connected id request n ≡ some (ok h)
      → limited request ≡ true
      → WithinLimits config n.subscriptions
      → WithinLimits config h.node.subscriptions
  unfolding handle_message
  handle_message-WithinLimits (Request.send_transaction bundle) n h e l w who =
      ground (arith, w who)
  handle_message-WithinLimits (Request.register_for_coin_updates ids m) n h e l w who = cc
  handle_message-WithinLimits (Request.register_for_ph_updates phs m) n h e l w who = cc
  handle_message-WithinLimits (Request.request_puzzle_solution coin_name height) n h e l w who =
      ground (arith, w who)
  handle_message-WithinLimits (Request.request_children coin_name) n h e l w who =
      ground (arith, w who)
  handle_message-WithinLimits (Request.request_coin_state request) n h e l w who =
      ground (
        arith,
        request_coin_state-WithinLimits addr request config n.simulator n.subscriptions w who,
      )
  handle_message-WithinLimits (Request.request_puzzle_state request) n h e l w who =
      elim (Option-cases
        (Handlers.request_puzzle_state addr request config n.simulator n.subscriptions)) [
          | inl panics ↦ ground (arith, panics)
          | inr ((body, subs), made) ↦ ground (
            arith,
            made,
            request_puzzle_state-WithinLimits addr request config n.simulator n.subscriptions subs
                body w made who,
          )
        ]
  handle_message-WithinLimits (Request.other msg_type) n h e l w who = cc

  -- The type of a reply fits its body.
  abbrev pub Fits : Reply → Type 0
  Fits r = (r.id ≡ id) × ((type_of r.body ≡ r.msg_type) ↔ (is_reject r.body ≡ false))

  -- Every reply carries the id of its request, and its message type is that of its body exactly if the
  -- body is no rejection: rejections go out under the type of the response that they refuse.
  pub handle_message_reply :
      (request : Request) (n : Node R) (h : Handled R)
      → handle_message x name config addr connected id request n ≡ some (ok h)
      → Fits h.reply
  unfolding handle_message
  handle_message_reply (Request.send_transaction bundle) n h e =
      unfold Updates.send_transaction in ground arith
  handle_message_reply (Request.register_for_coin_updates ids m) n h e =
      unfold Handlers.register_for_coin_updates in ground arith
  handle_message_reply (Request.register_for_ph_updates phs m) n h e =
      unfold Handlers.register_for_ph_updates in ground arith
  handle_message_reply (Request.request_puzzle_solution coin_name height) n h e =
      unfold Handlers.request_puzzle_solution in ground arith
  handle_message_reply (Request.request_children coin_name) n h e =
      unfold Handlers.request_children in ground arith
  handle_message_reply (Request.request_coin_state request) n h e =
      unfold Handlers.request_coin_state in ground arith
  handle_message_reply (Request.request_puzzle_state request) n h e =
      unfold Handlers.request_puzzle_state in ground arith
  handle_message_reply (Request.other msg_type) n h e = cc
