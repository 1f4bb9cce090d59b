-- ===== src/Signer/Messages.antt =====
-- The domain strings of crates/chia-sdk-signer/src/agg_sig_constants.rs and required_signature.rs.
use chia_wallet_sdk.Prelude.{ℕ, ◌≡◌, ◌≢◌, sym, ◌∙◌, Option, none, some, [], ◌∷◌, ◌++◌, arith}
use chia_wallet_sdk.Protocol.{Bytes32, Bytes, Coin}
use chia_wallet_sdk.Conditions.{AggSig, AggSigKind, kind_opcode}
use chia_wallet_sdk.Signer.{new, info_of, from_condition}

-- What the domain string of a kind is to be: the network's data for `me`, and otherwise the hash of
-- that data with the kind's opcode.
abbrev pub domain_of : (Bytes → Bytes32) → (Bytes32 → Bytes) → Bytes32 → AggSigKind → Option Bytes32
domain_of sha256 to_bytes agg_sig_me AggSigKind.unsafe = none
domain_of sha256 to_bytes agg_sig_me AggSigKind.me = some agg_sig_me
domain_of sha256 to_bytes agg_sig_me kind =
    some (sha256 (to_bytes agg_sig_me ++ kind_opcode kind ∷ []))

module _ (sha256 : Bytes → Bytes32) (coin_id : Coin → Bytes32) (to_bytes : Bytes32 → Bytes)
    (u64_to_bytes : ℕ → Bytes) (agg_sig_me : Bytes32) where
  -- The domain string of a required signature is that of its kind: the tags of the constants agree with
  -- the opcodes of the conditions.
  pub domain_string-from_condition :
      (coin : Coin) (condition : AggSig)
      → (from_condition coin_id to_bytes u64_to_bytes coin condition
          (new sha256 to_bytes agg_sig_me)).domain_string
        ≡ domain_of sha256 to_bytes agg_sig_me condition.kind
  unfolding from_condition info_of new kind_opcode
  domain_string-from_condition coin condition = ground arith

  same_kind :
      ((a b : ℕ)
        → sha256 (to_bytes agg_sig_me ++ a ∷ []) ≡ sha256 (to_bytes agg_sig_me ++ b ∷ [])
        → a ≡ b)
      → ((a : ℕ) → sha256 (to_bytes agg_sig_me ++ a ∷ []) ≢ agg_sig_me)
      → (k l : AggSigKind)
      → domain_of sha256 to_bytes agg_sig_me k ≡ domain_of sha256 to_bytes agg_sig_me l
      → k ≡ l
  unfolding kind_opcode
  same_kind injective fresh k l e = grind arith

  -- Where the tagged hashes of the network's data differ from each other and from the data, signatures
  -- with the same domain string are of the same kind.
  pub domain_string-injective :
      ((a b : ℕ)
        → sha256 (to_bytes agg_sig_me ++ a ∷ []) ≡ sha256 (to_bytes agg_sig_me ++ b ∷ [])
        → a ≡ b)
      → ((a : ℕ) → sha256 (to_bytes agg_sig_me ++ a ∷ []) ≢ agg_sig_me)
      → (coin other : Coin) (condition another : AggSig)
      → (from_condition coin_id to_bytes u64_to_bytes coin condition
          (new sha256 to_bytes agg_sig_me)).domain_string
        ≡ (from_condition coin_id to_bytes u64_to_bytes other another
            (new sha256 to_bytes agg_sig_me)).domain_string
      → condition.kind ≡ another.kind
  domain_string-injective injective fresh coin other condition another e =
      same_kind injective fresh condition.kind another.kind (
        sym (domain_string-from_condition coin condition)
        ∙ e
        ∙ domain_string-from_condition other another)
