-- ===== src/PeerSimulator/Connection.antt =====
-- `handle_message` of crates/chia-sdk-test/src/peer_simulator/ws_connection.rs: the dispatch on the
-- type of a request. Messages stand in place of their bytes.
use chia_wallet_sdk.Prelude.{ℕ, Option, some, List, []}
use mathlib.Core.Option
use chia_wallet_sdk.Protocol.{Bytes32, SocketAddr, SpendBundle, Result, ok, err}
use chia_wallet_sdk.Simulator.{External, Simulator}
use chia_wallet_sdk.PeerSimulator.Subscriptions.{Subscriptions}
use chia_wallet_sdk.PeerSimulator.Messages.{
  SimulatorConfig, Request, Response, MessageType, Notice, ack_type, coin_updates_type,
  ph_updates_type, puzzle_solution_type, children_type, coin_state_type, puzzle_state_type,
}
use chia_wallet_sdk.PeerSimulator.Updates
use chia_wallet_sdk.PeerSimulator.Handlers

-- What the connections share.
pub record Node (R : Type 0) : Type 0 where
  pub simulator : Simulator R
  pub subscriptions : Subscriptions

-- A response as it is sent: its message type, the id of the request, and its body.
pub record Reply : Type 0 where
  pub msg_type : MessageType
  pub id : Option ℕ
  pub body : Response

-- The node after a message, the reply to the sender, and the notices to the connected peers.
pub record Handled (R : Type 0) : Type 0 where
  pub node : Node R
  pub reply : Reply
  pub notices : List (SocketAddr × Notice)

abbrev pub reply_with :
    {R : Type 0} → Node R → MessageType → Option ℕ → Response × Subscriptions → Handled R
reply_with n t id (body, subs) = record {
  node = record n { subscriptions = subs };
  reply = record { msg_type = t; id = id; body = body };
  notices = [];
}

module _ {R : Type 0} (x : External R) (name : SpendBundle → Bytes32)
    (config : SimulatorConfig) where
  -- `none` is a panic, which ends the connection's task; an error ends the connection.
  unfoldable pub handle_message :
      SocketAddr → List SocketAddr → Option ℕ → Request → Node R → Option (Result ℕ (Handled R))
  handle_message addr connected id (Request.send_transaction bundle) n =
      Option.map
        (λ sent. ok (record {
          node = record n { simulator = sent.2 };
          reply = record { msg_type = ack_type; id = id; body = sent.0 };
          notices = sent.1;
        }))
        (Updates.send_transaction x name config n.simulator n.subscriptions connected bundle)
  handle_message addr connected id (Request.register_for_coin_updates ids min_height) n = some (
      ok (
        reply_with n coin_updates_type id
          (Handlers.register_for_coin_updates addr ids min_height n.simulator n.subscriptions)))
  handle_message addr connected id (Request.register_for_ph_updates phs min_height) n =
      Option.map (λ r. ok (reply_with n ph_updates_type id r))
        (Handlers.register_for_ph_updates addr phs min_height n.simulator n.subscriptions)
  handle_message addr connected id (Request.request_puzzle_solution coin_name height) n = some (
      ok (
        reply_with n puzzle_solution_type id
          (Handlers.request_puzzle_solution coin_name height n.simulator, n.subscriptions)))
  handle_message addr connected id (Request.request_children coin_name) n = some (
      ok (
        reply_with n children_type id
          (Handlers.request_children coin_name n.simulator, n.subscriptions)))
  handle_message addr connected id (Request.request_coin_state request) n = some (
      ok (
        reply_with n coin_state_type id
          (Handlers.request_coin_state addr request config n.simulator n.subscriptions)))
  handle_message addr connected id (Request.request_puzzle_state request) n =
      Option.map (λ r. ok (reply_with n puzzle_state_type id r))
        (Handlers.request_puzzle_state addr request config n.simulator n.subscriptions)
  handle_message addr connected id (Request.other msg_type) n = some (err msg_type)
