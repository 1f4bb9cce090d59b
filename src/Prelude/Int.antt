-- ===== src/Prelude/Int.antt =====
-- Signed integers, by two cases over the native numbers: `negsuc n` is -(n + 1).
use Prim.Native.Nat.{ℕ, suc, ◌+◌, ◌-◌, ◌≤◌}
use mathlib.Core.Path.{◌≡◌}
use mathlib.Core.Bool.{Bool}
use native.Mathlib.Omega.{arith}
use chia_wallet_sdk.Prelude.Tests.{leb, if◌then◌else◌}

pub data ℤ : Type 0 where
  pos : ℕ → ℤ
  negsuc : ℕ → ℤ

abbrev pub pos_part : ℤ → ℕ
pos_part (pos size) = size
pos_part (negsuc size) = 0

abbrev pub neg_part : ℤ → ℕ
neg_part (pos size) = 0
neg_part (negsuc size) = suc size

-- The difference of two numbers.
abbrev pub sub_ℕ : ℕ → ℕ → ℤ
sub_ℕ whole part = if leb part whole then pos (whole - part) else negsuc (part - whole - 1)

infixl 65 ◌+ℤ◌ ◌-ℤ◌
infix 50 ◌≤ℤ◌
unfoldable pub ◌+ℤ◌ : ℤ → ℤ → ℤ
left +ℤ right = sub_ℕ (pos_part left + pos_part right) (neg_part left + neg_part right)

unfoldable pub ◌-ℤ◌ : ℤ → ℤ → ℤ
left -ℤ right = sub_ℕ (pos_part left + neg_part right) (neg_part left + pos_part right)

abbrev pub ◌≤ℤ◌ : ℤ → ℤ → Type 0
left ≤ℤ right = pos_part left + neg_part right ≤ pos_part right + neg_part left

abbrev pub leb_ℤ : ℤ → ℤ → Bool
leb_ℤ left right = leb (pos_part left + neg_part right) (pos_part right + neg_part left)

pub +ℤ_parts :
    (left right : ℤ)
    → pos_part (left +ℤ right) + (neg_part left + neg_part right)
      ≡ neg_part (left +ℤ right) + (pos_part left + pos_part right)
unfolding ◌+ℤ◌
+ℤ_parts left right = ground arith

pub -ℤ_parts :
    (left right : ℤ)
    → pos_part (left -ℤ right) + (neg_part left + pos_part right)
      ≡ neg_part (left -ℤ right) + (pos_part left + neg_part right)
unfolding ◌-ℤ◌
-ℤ_parts left right = ground arith

pub eq_of_parts :
    (left right : ℤ)
    → pos_part left + neg_part right ≡ pos_part right + neg_part left
    → left ≡ right
eq_of_parts left right same = ground arith

pub ruleset int_laws = (arith, +ℤ_parts, -ℤ_parts, eq_of_parts)
