-- ===== src/Signer/Tests.antt =====
-- Runs of crates/chia-sdk-signer, with a CLVM of lists of conditions in place of the real one, and its
-- theorems at those inputs.
use chia_wallet_sdk.Prelude.{
  ℕ, ◌+◌, ◌≡◌, refl, Bool, List, [], ◌∷◌, map, if◌then◌else◌, arith, ◌==◌,
}
use chia_wallet_sdk.Protocol.{Bytes32, Bytes, Coin, CoinSpend, ok, err}
use chia_wallet_sdk.Conditions.{Condition, AggSig, AggSigKind}
use chia_wallet_sdk.Signer.{
  AggSigConstants, new, infinity_public_key, Clvm, info_of, from_condition, final_message,
  required_of,
}
use chia_wallet_sdk.Signer.Messages.{
  domain_of, domain_string-from_condition, domain_string-injective,
}
use chia_wallet_sdk.Signer.Required.{agg_sigs, any_inf, required_of_lem}

-- The hash of one byte of data and a tag.
abbrev sha : Bytes → Bytes32
sha (a ∷ b ∷ bytes) = 1_000 + b
sha _ = 0

abbrev one_byte : Bytes32 → Bytes
one_byte n = n ∷ []

abbrev id_of : Coin → Bytes32
id_of c = c.parent_coin_info + c.puzzle_hash + c.amount

abbrev infinite : ℕ → Bool
infinite key = key == 0

-- A program is the key of one signature condition.
abbrev clvm : Clvm ℕ Bytes ℕ
clvm = record {
  to_clvm = λ a bytes. ok (bytes, a + 1);
  run_puzzle = λ a p s. ok (p, a);
  conditions_from_clvm = λ a output. ok (map (λ key. Condition.agg_sig_me key (9 ∷ [])) output);
}

abbrev coin_a : Coin
coin_a = record { parent_coin_info = 1; puzzle_hash = 2; amount = 3 }

abbrev spend_of : Bytes → CoinSpend
spend_of program = record { coin = coin_a; puzzle_reveal = program; solution = [] }

abbrev constants : AggSigConstants
unfolding new
constants = new sha one_byte 5

abbrev sig_of : AggSigKind → AggSig
sig_of kind = record { kind = kind; public_key = 8; message = 4 ∷ [] }

abbrev conditions : List (Condition Bytes)
conditions = Condition.assert_ephemeral ∷ Condition.agg_sig_me 0 [] ∷ []

message_run :
    final_message id_of one_byte one_byte
      (from_condition id_of one_byte one_byte coin_a (sig_of AggSigKind.puzzle_amount) constants)
    ≡ 4 ∷ 2 ∷ 3 ∷ 1_046 ∷ []
unfolding final_message from_condition info_of constants
message_run = refl

domain_string-from_condition_example :
    (from_condition id_of one_byte one_byte coin_a
      (sig_of AggSigKind.parent)
      (new sha one_byte 5)).domain_string
    ≡ domain_of sha one_byte 5 AggSigKind.parent
domain_string-from_condition_example =
    domain_string-from_condition sha id_of one_byte one_byte 5 coin_a (sig_of AggSigKind.parent)

domain_string-injective_example : AggSigKind.amount ≡ AggSigKind.amount
domain_string-injective_example =
    domain_string-injective sha id_of one_byte one_byte 5 (λ a b e. omega arith)
      (λ a e. omega arith) coin_a coin_a (sig_of AggSigKind.amount) (sig_of AggSigKind.amount) refl

required_of_lem_example :
    required_of id_of one_byte one_byte infinite clvm coin_a conditions constants ≡ (
      if any_inf infinite (agg_sigs conditions)
      then err infinity_public_key
      else ok (
          map
            (λ sig. from_condition id_of one_byte one_byte coin_a sig constants)
            (agg_sigs conditions)))
required_of_lem_example =
    required_of_lem id_of one_byte one_byte infinite clvm coin_a conditions constants
