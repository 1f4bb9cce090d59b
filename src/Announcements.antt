-- ===== src/Announcements.antt =====
-- crates/chia-sdk-test/src/announcements.rs: whether the announcements that coin spends assert are
-- created by one of them. The hash, the coin id, and the decoding of conditions are parameters.
use chia_wallet_sdk.Prelude.{
  ℕ, suc, ◌+◌, Bool, true, false, ◌&&◌, ◌||◌, not, Option, none, some, List, [], ◌∷◌, ◌++◌,
  if◌then◌else◌, arith, ◌==◌,
}
use chia_wallet_sdk.Protocol.{Bytes32, Bytes, Coin, CoinSpend}
pub mod Checks
pub mod Tests

pub record Announcements : Type 0 where
  pub created_coin : List Bytes
  pub asserted_coin : List Bytes32
  pub created_puzzle : List Bytes
  pub asserted_puzzle : List Bytes32

abbrev pub empty : Announcements
empty = record { created_coin = []; asserted_coin = []; created_puzzle = []; asserted_puzzle = [] }

-- The conditions that a spend puts out, as CLVM values `T`, and the decoders of four of them.
pub record Decoders (T : Type 0) : Type 0 where
  pub output_of : CoinSpend → Option (List T)
  pub create_coin : T → Option Bytes
  pub create_puzzle : T → Option Bytes
  pub assert_coin : T → Option Bytes32
  pub assert_puzzle : T → Option Bytes32

module _ {T : Type 0} (decoders : Decoders T) where
  unfoldable pub add_condition : T → Announcements → Announcements
  add_condition condition a = elim (decoders.create_coin condition) [
    | some message ↦ record a { created_coin = a.created_coin ++ message ∷ [] }
    | none ↦ elim (decoders.create_puzzle condition) [
      | some message ↦ record a { created_puzzle = a.created_puzzle ++ message ∷ [] }
      | none ↦ elim (decoders.assert_coin condition) [
        | some id ↦ record a { asserted_coin = a.asserted_coin ++ id ∷ [] }
        | none ↦ elim (decoders.assert_puzzle condition) [
          | some id ↦ record a { asserted_puzzle = a.asserted_puzzle ++ id ∷ [] }
          | none ↦ a
        ]
      ]
    ]
  ]

  unfoldable pub add_conditions : List T → Announcements → Announcements
  add_conditions [] a = a
  add_conditions (condition ∷ conditions) a = add_conditions conditions (add_condition condition a)

  unfoldable pub announcements_for_spend : CoinSpend → Option Announcements
  announcements_for_spend coin_spend = elim (decoders.output_of coin_spend) [
    | none ↦ none
    | some conditions ↦ some (add_conditions conditions empty)
  ]

  -- The spends with their announcements, if all can be extracted.
  unfoldable pub all_announcements : List CoinSpend → Option (List (CoinSpend × Announcements))
  all_announcements [] = some []
  all_announcements (s ∷ spends) = elim (announcements_for_spend s) [
    | none ↦ none
    | some a ↦ elim (all_announcements spends) [ none ↦ none | some rest ↦ some ((s, a) ∷ rest) ]
  ]

module _ (sha256 : Bytes → Bytes32) (to_bytes : Bytes32 → Bytes) where
  unfoldable pub announcement_id : Bytes32 → Bytes → Bytes32
  announcement_id coin_info message = sha256 (to_bytes coin_info ++ message)

  -- Whether one of the messages has the id.
  unfoldable pub any_message : Bytes32 → Bytes32 → List Bytes → Bool
  any_message id coin_info [] = false
  any_message id coin_info (message ∷ messages) =
      id == announcement_id coin_info message || any_message id coin_info messages

  -- One of the two kinds of announcements: what they are hashed with, what a spend creates and asserts.
  module _ (info : CoinSpend → Bytes32) (created : Announcements → List Bytes)
      (asserted : Announcements → List Bytes32) where
    -- The index of the first spend that creates the announcement.
    unfoldable pub created_index : Bytes32 → ℕ → List (CoinSpend × Announcements) → Option ℕ
    created_index id i [] = none
    created_index id i ((s, a) ∷ rest) =
        if any_message id (info s) (created a) then some i else created_index id (i + 1) rest

    -- Whether each asserted announcement is created.
    unfoldable pub asserted_known : List (CoinSpend × Announcements) → List Bytes32 → Bool
    asserted_known all [] = true
    asserted_known all (id ∷ ids) = elim (created_index id 0 all) [
      | none ↦ false
      | some index ↦ asserted_known all ids
    ]

    unfoldable pub all_known :
        List (CoinSpend × Announcements) → List (CoinSpend × Announcements) → Bool
    all_known all [] = true
    all_known all ((s, a) ∷ rest) = asserted_known all (asserted a) && all_known all rest

  module _ (coin_id : Coin → Bytes32) {T : Type 0} (decoders : Decoders T) where
    -- Whether it returns; it panics otherwise.
    unfoldable pub debug_announcements : List CoinSpend → Bool
    debug_announcements coin_spends = elim (all_announcements decoders coin_spends) [
      | none ↦ false
      | some all ↦
          all_known (λ s. coin_id s.coin) (λ a. a.created_coin) (λ a. a.asserted_coin) all all
          && all_known (λ s. s.coin.puzzle_hash) (λ a. a.created_puzzle) (λ a. a.asserted_puzzle)
              all all
    ]
