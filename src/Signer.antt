-- ===== src/Signer.antt =====
-- crates/chia-sdk-signer: which signatures a coin spend needs, and of what messages. The hash, the coin
-- id, the bytes of hashes and numbers, the test of a key for infinity, and the CLVM codecs and
-- interpreter are parameters.
use chia_wallet_sdk.Prelude.{
  ℕ, Bool, true, false, Option, none, some, List, [], ◌∷◌, ◌++◌, if◌then◌else◌, arith,
}
use chia_wallet_sdk.Protocol.{
  Bytes32, Bytes, Coin, CoinSpend, ConsensusConstants, Result, ok, err, ◌>>=◌,
}
use chia_wallet_sdk.Conditions.{Condition, AggSig, AggSigKind, PublicKey, into_agg_sig}
pub mod Messages
pub mod Required
pub mod Tests

pub record AggSigConstants : Type 0 where
  pub me : Bytes32
  pub parent : Bytes32
  pub puzzle : Bytes32
  pub amount : Bytes32
  pub parent_amount : Bytes32
  pub puzzle_amount : Bytes32
  pub parent_puzzle : Bytes32

-- `hash` of the additional data and one byte.
unfoldable pub new : (Bytes → Bytes32) → (Bytes32 → Bytes) → Bytes32 → AggSigConstants
new sha256 to_bytes agg_sig_me =
    let tagged : ℕ → Bytes32 = λ byte. sha256 (to_bytes agg_sig_me ++ byte ∷ []) in
    record {
      me = agg_sig_me;
      parent = tagged 43;
      puzzle = tagged 44;
      amount = tagged 45;
      puzzle_amount = tagged 46;
      parent_amount = tagged 47;
      parent_puzzle = tagged 48;
    }

unfoldable pub from_constants : ConsensusConstants → AggSigConstants
from_constants constants = record {
  me = constants.agg_sig_me_additional_data;
  parent = constants.agg_sig_parent_additional_data;
  puzzle = constants.agg_sig_puzzle_additional_data;
  amount = constants.agg_sig_amount_additional_data;
  puzzle_amount = constants.agg_sig_puzzle_amount_additional_data;
  parent_amount = constants.agg_sig_parent_amount_additional_data;
  parent_puzzle = constants.agg_sig_parent_puzzle_additional_data;
}

pub record RequiredSignature : Type 0 where
  pub public_key : PublicKey
  pub raw_message : Bytes
  pub appended_info : Bytes
  pub domain_string : Option Bytes32

pub data SignerError (E : Type 0) : Type 0 where
  eval : E → SignerError E
  to_clvm_error : E → SignerError E
  from_clvm_error : E → SignerError E
  infinity_public_key : SignerError E

-- The allocator `A` of CLVM values `T`, with the codecs and the interpreter.
pub record Clvm (A T E : Type 0) : Type 0 where
  pub to_clvm : A → Bytes → Result E (T × A)
  pub run_puzzle : A → T → T → Result E (T × A)
  pub conditions_from_clvm : A → T → Result E (List (Condition T))

-- The error conversion of `?`.
abbrev pub map_err : {E F X : Type 0} → (E → F) → Result E X → Result F X
map_err f (ok a) = ok a
map_err f (err e) = err (f e)

module _ (coin_id : Coin → Bytes32) (to_bytes : Bytes32 → Bytes) (u64_to_bytes : ℕ → Bytes) where
  -- What is appended for each kind, and its domain string.
  unfoldable pub info_of : Coin → AggSigKind → AggSigConstants → Bytes × Option Bytes32
  info_of coin AggSigKind.parent constants = (to_bytes coin.parent_coin_info, some constants.parent)
  info_of coin AggSigKind.puzzle constants = (to_bytes coin.puzzle_hash, some constants.puzzle)
  info_of coin AggSigKind.amount constants = (u64_to_bytes coin.amount, some constants.amount)
  info_of coin AggSigKind.puzzle_amount constants =
      (to_bytes coin.puzzle_hash ++ u64_to_bytes coin.amount, some constants.puzzle_amount)
  info_of coin AggSigKind.parent_amount constants =
      (to_bytes coin.parent_coin_info ++ u64_to_bytes coin.amount, some constants.parent_amount)
  info_of coin AggSigKind.parent_puzzle constants =
      (to_bytes coin.parent_coin_info ++ to_bytes coin.puzzle_hash, some constants.parent_puzzle)
  info_of coin AggSigKind.unsafe constants = ([], none)
  info_of coin AggSigKind.me constants = (to_bytes (coin_id coin), some constants.me)

  unfoldable pub from_condition : Coin → AggSig → AggSigConstants → RequiredSignature
  from_condition coin condition constants =
      let (appended_info, domain_string) = info_of coin condition.kind constants in
      record {
        public_key = condition.public_key;
        raw_message = condition.message;
        appended_info = appended_info;
        domain_string = domain_string;
      }

  unfoldable pub final_message : RequiredSignature → Bytes
  final_message required =
      let message = required.raw_message ++ required.appended_info in
      elim required.domain_string [
        | none ↦ message
        | some domain_string ↦ message ++ to_bytes domain_string
      ]

  module _ {A T E : Type 0} (is_inf : PublicKey → Bool) (clvm : Clvm A T E) where
    -- The loop over the conditions.
    unfoldable pub required_of :
        Coin
        → List (Condition T)
        → AggSigConstants
        → Result (SignerError E) (List RequiredSignature)
    required_of coin [] constants = ok []
    required_of coin (condition ∷ conditions) constants =
        let rest = required_of coin conditions constants in
        elim (into_agg_sig condition) [
          | none ↦ rest
          | some agg_sig ↦
              if is_inf agg_sig.public_key
              then err infinity_public_key
              else (rest >>= λ result. ok (from_condition coin agg_sig constants ∷ result))
        ]

    unfoldable pub from_coin_spend :
        A → CoinSpend → AggSigConstants → Result (SignerError E) (List RequiredSignature × A)
    from_coin_spend allocator coin_spend constants =
        map_err to_clvm_error (clvm.to_clvm allocator coin_spend.puzzle_reveal) >>= λ p.
        map_err to_clvm_error (clvm.to_clvm p.1 coin_spend.solution) >>= λ s.
        map_err eval (clvm.run_puzzle s.1 p.0 s.0) >>= λ output.
        map_err from_clvm_error (clvm.conditions_from_clvm output.1 output.0) >>= λ conditions.
        required_of coin_spend.coin conditions constants >>= λ result. ok (result, output.1)

    unfoldable pub from_coin_spends :
        A → List CoinSpend → AggSigConstants → Result (SignerError E) (List RequiredSignature × A)
    from_coin_spends allocator [] constants = ok ([], allocator)
    from_coin_spends allocator (coin_spend ∷ coin_spends) constants =
        from_coin_spend allocator coin_spend constants >>= λ first.
        from_coin_spends first.1 coin_spends constants >>= λ rest. ok (first.0 ++ rest.0, rest.1)
