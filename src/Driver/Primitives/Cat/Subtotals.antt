-- ===== src/Driver/Primitives/Cat/Subtotals.antt =====
-- The arithmetic of the subtotals in `spend_all` of crates/chia-sdk-driver/src/primitives/cat.rs.
use chia_wallet_sdk.Prelude.{ℕ, ◌+◌, ◌<◌, ◌≤◌, ◌≡◌}
use chia_wallet_sdk.Prelude.Int.{ℤ, pos, pos_part, neg_part, ◌+ℤ◌, ◌-ℤ◌, int_laws}

pub add-zero : (x : ℤ) → x +ℤ pos 0 ≡ x
add-zero x = grind int_laws

pub regroup :
    (left whole : ℤ) (a b : ℕ) → left +ℤ pos b ≡ whole -ℤ pos a → left +ℤ pos (a + b) ≡ whole
regroup left whole a b h = grind int_laws

pub balanced :
    (subtotal delta extra : ℤ) (amount taken : ℕ)
    → delta +ℤ pos taken ≡ pos amount -ℤ extra
    → (subtotal +ℤ delta) +ℤ (extra +ℤ pos taken) ≡ subtotal +ℤ pos amount
balanced subtotal delta extra amount taken h = grind int_laws

-- The range of an `i64`.
abbrev pub InI64 : ℤ → Type 0
InI64 value = (pos_part value < 9223372036854775808) × (neg_part value ≤ 9223372036854775808)
