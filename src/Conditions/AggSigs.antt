-- ===== src/Conditions/AggSigs.antt =====
-- The signature conditions of crates/chia-sdk-types/src/condition/agg_sig.rs.
use chia_wallet_sdk.Prelude.{ℕ, ◌≡◌, Bool, true, false, ◌&&◌, leb, Option, none, some, arith}
use chia_wallet_sdk.Conditions.{Condition, AggSig, kind_opcode, into_agg_sig, is_agg_sig, opcode}

-- The opcodes of the signature conditions.
abbrev pub is_agg_sig_opcode : Option ℕ → Bool
is_agg_sig_opcode none = false
is_agg_sig_opcode (some n) = leb 43 n && leb n 50

-- What the conversion says of a condition: that its opcode is that of the kind, or is none of theirs.
abbrev pub Converts : {T : Type 0} → Condition T → Option AggSig → Type 0
Converts c none = (is_agg_sig c ≡ false) × (is_agg_sig_opcode (opcode c) ≡ false)
Converts c (some sig) = (is_agg_sig c ≡ true) × (opcode c ≡ some (kind_opcode sig.kind))

-- A condition converts to a signature condition exactly if it is one, which it is exactly if its opcode
-- is one of 43 to 50; and the kind has the opcode of the condition.
pub into_agg_sig-Converts : {T : Type 0} (c : Condition T) → Converts c (into_agg_sig c)
unfolding into_agg_sig is_agg_sig opcode kind_opcode
into_agg_sig-Converts c = ground arith
