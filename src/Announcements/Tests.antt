-- ===== src/Announcements/Tests.antt =====
-- `debug_announcements` of crates/chia-sdk-test/src/announcements.rs on two spends.
use chia_wallet_sdk.Prelude.{ℕ, ◌+◌, ◌*◌, ◌≡◌, ◌↔◌, refl, true, Option, none, some, List, [], ◌∷◌}
use chia_wallet_sdk.Protocol.{Bytes32, Bytes, Coin, CoinSpend}
use chia_wallet_sdk.Conditions.{Condition}
use chia_wallet_sdk.Announcements.{
  Announcements, Decoders, add_condition, add_conditions, announcements_for_spend,
  all_announcements, announcement_id, any_message, created_index, asserted_known, all_known,
  debug_announcements,
}
use chia_wallet_sdk.Announcements.Checks.{Asserts, created_ids, debug_announcements_iff}

abbrev sum : Bytes → Bytes32
sum [] = 0
sum (b ∷ bytes) = b + 10 * sum bytes

abbrev one_byte : Bytes32 → Bytes
one_byte n = n ∷ []

abbrev id_of : Coin → Bytes32
id_of c = c.amount

-- A solution of one byte is the message of a coin announcement; one of two bytes asserts the second.
abbrev output : Bytes → List (Condition ℕ)
output (message ∷ []) = Condition.create_coin_announcement (message ∷ []) ∷ []
output (a ∷ id ∷ rest) = Condition.assert_coin_announcement id ∷ []
output [] = []

abbrev message_of : Condition ℕ → Option Bytes
message_of (Condition.create_coin_announcement message) = some message
message_of _ = none

abbrev assertion_of : Condition ℕ → Option Bytes32
assertion_of (Condition.assert_coin_announcement id) = some id
assertion_of _ = none

abbrev decoders : Decoders (Condition ℕ)
decoders = record {
  output_of = λ s. some (output s.solution);
  create_coin = message_of;
  create_puzzle = λ c. none;
  assert_coin = assertion_of;
  assert_puzzle = λ c. none;
}

abbrev spend_of : ℕ → Bytes → CoinSpend
spend_of amount bytes = record {
  coin = record { parent_coin_info = 1; puzzle_hash = 2; amount = amount };
  puzzle_reveal = [];
  solution = bytes;
}

-- The first spend asserts what the second creates.
abbrev matched : List CoinSpend
matched = spend_of 3 (0 ∷ 54 ∷ []) ∷ spend_of 4 (5 ∷ []) ∷ []

matched_run : debug_announcements sum one_byte id_of decoders matched ≡ true
unfolding add_condition add_conditions announcements_for_spend all_announcements announcement_id
    any_message created_index asserted_known all_known debug_announcements
matched_run = refl

debug_announcements_iff_example :
    (debug_announcements sum one_byte id_of decoders matched ≡ true) ↔ (
      (all : List (CoinSpend × Announcements)) × (all_announcements decoders matched ≡ some all)
      × Asserts sum one_byte
          (λ s. id_of s.coin)
          (λ a. a.created_coin)
          (λ a. a.asserted_coin)
          (created_ids sum one_byte
            (λ s. id_of s.coin)
            (λ a. a.created_coin)
            (λ a. a.asserted_coin)
            all)
          all
      × Asserts sum one_byte
          (λ s. s.coin.puzzle_hash)
          (λ a. a.created_puzzle)
          (λ a. a.asserted_puzzle)
          (created_ids sum one_byte
            (λ s. s.coin.puzzle_hash)
            (λ a. a.created_puzzle)
            (λ a. a.asserted_puzzle)
            all)
          all)
debug_announcements_iff_example = debug_announcements_iff sum one_byte id_of decoders matched
