-- ===== src/PeerSimulator/Messages.antt =====
-- The messages that crates/chia-sdk-test/src/peer_simulator/ws_connection.rs reads and writes, in place
-- of their bytes, and the configuration of crates/chia-sdk-test/src/peer_simulator/simulator_config.rs.
use chia_wallet_sdk.Prelude.{ℕ, Bool, Option, List}
use chia_wallet_sdk.Protocol.{Bytes32, Bytes, CoinState, SpendBundle, ConsensusConstants, ErrorCode}

pub record SimulatorConfig : Type 0 where
  pub constants : ConsensusConstants
  pub max_subscriptions : ℕ
  pub max_response_coins : ℕ
  pub puzzle_state_batch_size : ℕ

abbrev pub default_config : ConsensusConstants → SimulatorConfig
default_config mainnet = record {
  constants = mainnet;
  max_subscriptions = 200_000;
  max_response_coins = 100_000;
  puzzle_state_batch_size = 30_000;
}

pub record CoinStateFilters : Type 0 where
  pub include_spent : Bool
  pub include_unspent : Bool
  pub include_hinted : Bool
  pub min_amount : ℕ

pub record RequestCoinState : Type 0 where
  pub coin_ids : List Bytes32
  pub previous_height : Option ℕ
  pub header_hash : Bytes32
  pub subscribe : Bool

pub record RequestPuzzleState : Type 0 where
  pub puzzle_hashes : List Bytes32
  pub previous_height : Option ℕ
  pub header_hash : Bytes32
  pub filters : CoinStateFilters
  pub subscribe_when_finished : Bool

-- The body of a request, by its message type. `other` is any type that the node does not support.
pub data Request : Type 0 where
  send_transaction : SpendBundle → Request
  register_for_coin_updates : (coin_ids : List Bytes32) → (min_height : ℕ) → Request
  register_for_ph_updates : (puzzle_hashes : List Bytes32) → (min_height : ℕ) → Request
  request_puzzle_solution : (coin_name : Bytes32) → (height : ℕ) → Request
  request_children : (coin_name : Bytes32) → Request
  request_coin_state : RequestCoinState → Request
  request_puzzle_state : RequestPuzzleState → Request
  other : ℕ → Request

pub data RejectStateReason : Type 0 where
  reorg exceeded_subscription_limit : RejectStateReason

pub record RespondPuzzleState : Type 0 where
  pub height : ℕ
  pub header_hash : Bytes32
  pub puzzle_hashes : List Bytes32
  pub coin_states : List CoinState
  pub is_finished : Bool

-- The body of a response.
pub data Response : Type 0 where
  transaction_ack : (txid : Bytes32) → (status : ℕ) → (error : Option ErrorCode) → Response
  respond_to_coin_updates : List Bytes32 → (min_height : ℕ) → List CoinState → Response
  respond_to_ph_updates : List Bytes32 → (min_height : ℕ) → List CoinState → Response
  respond_puzzle_solution : (coin_name : Bytes32) → (height : ℕ) → Bytes → Bytes → Response
  reject_puzzle_solution : (coin_name : Bytes32) → (height : ℕ) → Response
  respond_children : List CoinState → Response
  respond_coin_state : List Bytes32 → List CoinState → Response
  reject_coin_state : RejectStateReason → Response
  respond_puzzle_state : RespondPuzzleState → Response
  reject_puzzle_state : RejectStateReason → Response

-- The types of the messages that the node sends.
pub data MessageType : Type 0 where
  ack_type coin_updates_type ph_updates_type puzzle_solution_type : MessageType
  children_type coin_state_type puzzle_state_type : MessageType
  reject_puzzle_solution_type reject_coin_state_type reject_puzzle_state_type : MessageType

-- The type that the protocol gives to a body.
abbrev pub type_of : Response → MessageType
type_of (transaction_ack txid status error) = ack_type
type_of (respond_to_coin_updates ids min states) = coin_updates_type
type_of (respond_to_ph_updates phs min states) = ph_updates_type
type_of (respond_puzzle_solution name height p r) = puzzle_solution_type
type_of (reject_puzzle_solution name height) = reject_puzzle_solution_type
type_of (respond_children states) = children_type
type_of (respond_coin_state ids states) = coin_state_type
type_of (reject_coin_state reason) = reject_coin_state_type
type_of (respond_puzzle_state r) = puzzle_state_type
type_of (reject_puzzle_state reason) = reject_puzzle_state_type

-- What the node sends on its own accord.
pub data Notice : Type 0 where
  new_peak_wallet : (header_hash : Bytes32) → (height weight fork : ℕ) → Notice
  coin_state_update : (height fork : ℕ) → (peak_hash : Bytes32) → List CoinState → Notice
