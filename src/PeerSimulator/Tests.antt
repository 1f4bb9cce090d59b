-- ===== src/PeerSimulator/Tests.antt =====
-- Requests to crates/chia-sdk-test/src/peer_simulator/ws_connection.rs on a chain of two
-- blocks, and the theorems of the peer simulator at those inputs.
use chia_wallet_sdk.Prelude.{
  ℕ, ◌<◌, ◌≡◌, refl, true, false, ◌||◌, Option, some, none, List, [], ◌∷◌, arith, nat_eq, All,
  contains, select, if◌then◌else◌, ◌==◌,
}
use chia_wallet_sdk.Prelude.IndexMap.{lookup, insert}
use chia_wallet_sdk.Prelude.IndexSet
use chia_wallet_sdk.Protocol.{
  Bytes32, SocketAddr, CoinState, SpendBundle, coin_state_eq, Result, ok,
}
use chia_wallet_sdk.Simulator.{
  Simulator, lookup_puzzle_hashes, puzzle_hash_states, collect_matching, collect_hinted,
  insert_state, hinted_coins, header_hash_of, lookup_coin_ids,
}
use chia_wallet_sdk.Simulator.Tests.{chain, mainnet}
use chia_wallet_sdk.PeerSimulator.Subscriptions.{
  Subscriptions, coins_of, add_coin_subscriptions, contains-coins_of-add, subscription_count,
  add_puzzle_subscriptions,
}
use chia_wallet_sdk.PeerSimulator.Messages.{
  SimulatorConfig, CoinStateFilters, Request, RequestCoinState, RequestPuzzleState,
  RespondPuzzleState, Response, respond_puzzle_state,
}
use chia_wallet_sdk.PeerSimulator.Handlers
use chia_wallet_sdk.PeerSimulator.Messages
use chia_wallet_sdk.PeerSimulator.Handlers.{last_change, request_puzzle_state}
use chia_wallet_sdk.PeerSimulator.Connection.{Node, Handled, handle_message}
use chia_wallet_sdk.PeerSimulator.Limits.{
  WithinLimits, Fits, handle_message-WithinLimits, handle_message_reply,
}
use chia_wallet_sdk.PeerSimulator.Pages.{answer, before, request_puzzle_state_page, page_gap}

abbrev nobody : Subscriptions
nobody = record { coin_subscriptions = []; puzzle_subscriptions = [] }

-- One state to a page.
abbrev config : SimulatorConfig
config = record {
  constants = mainnet;
  max_subscriptions = 5;
  max_response_coins = 10;
  puzzle_state_batch_size = 1;
}

abbrev peer : SocketAddr
peer = 3

abbrev no_filters : CoinStateFilters
no_filters = record {
  include_spent = true;
  include_unspent = true;
  include_hinted = false;
  min_amount = 0;
}

abbrev ask : Option ℕ → Bytes32 → RequestPuzzleState
ask previous hash = record {
  puzzle_hashes = 20 ∷ 21 ∷ 22 ∷ [];
  previous_height = previous;
  header_hash = hash;
  filters = no_filters;
  subscribe_when_finished = true;
}

-- Two coins, created at heights 0 and 1.
abbrev coin_at : ℕ → CoinState
coin_at height = record {
  coin = record { parent_coin_info = 5; puzzle_hash = 20; amount = 10 };
  spent_height = none;
  created_height = some height;
}

abbrev two_coins : Simulator ℕ
two_coins = record {
  rng = 9;
  height = 1;
  header_hashes = 7 ∷ 8 ∷ [];
  coin_states = (1, coin_at 0) ∷ (2, coin_at 1) ∷ [];
  hinted_coins = [];
  puzzle_and_solutions = [];
}

abbrev node : Node ℕ
node = record { simulator = two_coins; subscriptions = nobody }

abbrev request : Request
request =
    Request.request_coin_state
      (record { coin_ids = 1 ∷ 2 ∷ []; previous_height = none; header_hash = 99; subscribe = true })

abbrev name : SpendBundle → Bytes32
name bundle = 0

abbrev handle : Request → Node ℕ → Option (Result ℕ (Handled ℕ))
unfolding handle_message Handlers.request_coin_state Handlers.on_chain lookup_coin_ids
    subscription_count add_coin_subscriptions
handle r n = handle_message chain name config peer (peer ∷ []) (some 8) r n

handled : Option (Result ℕ (Handled ℕ))
unfolding handle
handled = handle request node

abbrev handled_node : Option (Result ℕ (Handled ℕ)) → Handled ℕ
handled_node (some (ok h)) = h
handled_node _ = record {
  node = node;
  reply = record { msg_type = Messages.ack_type; id = none; body = Response.respond_children [] };
  notices = [];
}

handled_ok :
    handle_message chain name config peer (peer ∷ []) (some 8) request node
    ≡ some (ok (handled_node handled))
unfolding handle handled
handled_ok = refl

none_yet : WithinLimits config nobody
unfolding subscription_count lookup
none_yet who = omega arith

handle_message-WithinLimits_example : WithinLimits config (handled_node handled).node.subscriptions
handle_message-WithinLimits_example =
    handle_message-WithinLimits chain name config peer (peer ∷ []) (some 8) request node
      (handled_node handled) handled_ok refl none_yet

handle_message_reply_example :
    Fits chain name config peer (peer ∷ []) (some 8) (handled_node handled).reply
handle_message_reply_example =
    handle_message_reply chain name config peer (peer ∷ []) (some 8) request node
      (handled_node handled) handled_ok

contains-coins_of-add_example :
    contains {A = Bytes32} (coins_of (add_coin_subscriptions nobody peer (7 ∷ 9 ∷ [])) peer) 9 ≡ (
      contains {A = Bytes32} (coins_of nobody peer) 9
      || (if peer == peer then contains {A = Bytes32} (7 ∷ 9 ∷ []) 9 else false))
contains-coins_of-add_example = contains-coins_of-add nobody peer peer (7 ∷ 9 ∷ []) 9

abbrev ask_page : RequestPuzzleState → Option (Response × Subscriptions)
unfolding request_puzzle_state Handlers.on_chain Handlers.sort_by_change Handlers.insert_by_change
    Handlers.page_of Handlers.next_height_of Handlers.pop_at lookup_puzzle_hashes puzzle_hash_states
    collect_matching collect_hinted hinted_coins header_hash_of subscription_count lookup insert
    IndexSet.collect insert_state
ask_page r = request_puzzle_state peer r config two_coins nobody

abbrev first_page : RespondPuzzleState
first_page = record {
  height = 1;
  header_hash = 8;
  puzzle_hashes = 20 ∷ 21 ∷ 22 ∷ [];
  coin_states = coin_at 0 ∷ [];
  is_finished = false;
}

abbrev second_page : RespondPuzzleState
second_page = record {
  height = 1;
  header_hash = 8;
  puzzle_hashes = 20 ∷ 21 ∷ 22 ∷ [];
  coin_states = [];
  is_finished = true;
}

first_answer :
    request_puzzle_state peer (ask none 99) config two_coins nobody
    ≡ some (respond_puzzle_state first_page, nobody)
unfolding ask_page
first_answer = refl

abbrev watching : Subscriptions
unfolding add_puzzle_subscriptions
watching = add_puzzle_subscriptions nobody peer (20 ∷ 21 ∷ 22 ∷ [])

second_answer :
    request_puzzle_state peer (ask (some 1) 8) config two_coins nobody
    ≡ some (respond_puzzle_state second_page, watching)
unfolding ask_page watching
second_answer = refl

request_puzzle_state_page_example :
    (found : List CoinState) × (lookup_puzzle_hashes two_coins
        (IndexSet.collect (20 ∷ 21 ∷ 22 ∷ []))
        false
      ≡ some found)
    × (first_page.coin_states ≡ (
        if first_page.is_finished
        then answer peer (ask none 99) config two_coins nobody nobody first_page found
        else select
            (before first_page.height)
            (answer peer (ask none 99) config two_coins nobody nobody first_page found)))
request_puzzle_state_page_example =
    request_puzzle_state_page peer (ask none 99) config two_coins nobody nobody first_page
      first_answer (omega arith)

page_gap_example :
    (found : List CoinState) × (cs : CoinState) × (lookup_puzzle_hashes two_coins
        (IndexSet.collect (20 ∷ 21 ∷ 22 ∷ []))
        false
      ≡ some found)
    × (contains (answer peer (ask none 99) config two_coins nobody nobody first_page found) cs
        ≡ true)
    × (last_change cs ≡ first_page.height)
    × All (λ c. last_change c < first_page.height) first_page.coin_states
    × All (λ c. first_page.height < last_change c) second_page.coin_states
page_gap_example =
    page_gap peer (ask none 99) (ask (some 1) 8) config two_coins two_coins nobody nobody nobody
      watching first_page second_page first_answer refl refl (omega arith) second_answer
