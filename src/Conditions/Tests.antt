-- ===== src/Conditions/Tests.antt =====
-- The signature conditions of crates/chia-sdk-types/src/condition/agg_sig.rs at concrete inputs.
use chia_wallet_sdk.Prelude.{ℕ, [], ◌∷◌}
use chia_wallet_sdk.Conditions.{Condition, into_agg_sig}
use chia_wallet_sdk.Conditions.AggSigs.{Converts, into_agg_sig-Converts}

abbrev unsafe_signature : Condition ℕ
unsafe_signature = Condition.agg_sig_unsafe 3 (7 ∷ [])

into_agg_sig-Converts_example : Converts unsafe_signature (into_agg_sig unsafe_signature)
into_agg_sig-Converts_example = into_agg_sig-Converts unsafe_signature
