-- ===== src/Protocol.antt =====
-- The data of the `chia_protocol` and `chia_consensus` crates that the SDK passes around. A 32-byte
-- hash is the number that its bytes spell, and a program is its serialised bytes.
use chia_wallet_sdk.Prelude.{
  ℕ, ◌+◌, ◌*◌, ◌≡◌, refl, ◌⊎◌, inl, inr, Bool, true, false, ◌&&◌, Option, none, some, List, [], ◌∷◌,
  arith, ◌==◌, Eq, ◌↔◌,
}

abbrev pub Bytes32 : Type 0
Bytes32 = ℕ

abbrev pub Bytes : Type 0
Bytes = List ℕ

abbrev pub SocketAddr : Type 0
SocketAddr = ℕ

-- The number of values of a `u32`.
abbrev pub u32_size : ℕ
u32_size = 4294967296

pub record Coin : Type 0 where
  pub parent_coin_info : Bytes32
  pub puzzle_hash : Bytes32
  pub amount : ℕ

pub record CoinState : Type 0 where
  pub coin : Coin
  pub spent_height : Option ℕ
  pub created_height : Option ℕ

pub record CoinSpend : Type 0 where
  pub coin : Coin
  pub puzzle_reveal : Bytes
  pub solution : Bytes

pub record SpendBundle : Type 0 where
  pub coin_spends : List CoinSpend
  pub aggregated_signature : Bytes

pub data ErrorCode : Type 0 where
  invalid_spend_bundle unknown_unspent double_spend unknown : ErrorCode
  other : ℕ → ErrorCode

-- One output of a spend: its puzzle hash, its amount and the first memo.
pub record NewCoin : Type 0 where
  pub puzzle_hash : Bytes32
  pub amount : ℕ
  pub hint : Option Bytes

-- What consensus found one spend of a bundle to do.
pub record SpendConditions : Type 0 where
  pub coin_id : Bytes32
  pub parent_id : Bytes32
  pub puzzle_hash : Bytes32
  pub coin_amount : ℕ
  pub create_coin : List NewCoin

-- `Bytes32::try_from` of 32 bytes.
unfoldable pub bytes32_from : ℕ → Bytes → Bytes32
bytes32_from acc [] = acc
bytes32_from acc (b ∷ bs) = bytes32_from (acc * 256 + b) bs

abbrev pub coin_beq : Coin → Coin → Bool
coin_beq a b =
    a.parent_coin_info == b.parent_coin_info
    && (a.puzzle_hash == b.puzzle_hash && a.amount == b.amount)

pub coin_beq_iff : (a b : Coin) → (coin_beq a b ≡ true) ↔ (a ≡ b)
coin_beq_iff a b = ground arith

instance abbrev pub coin_eq : Eq Coin
coin_eq = record { beq = coin_beq; beq_iff = coin_beq_iff }

abbrev pub option_beq : Option ℕ → Option ℕ → Bool
option_beq none none = true
option_beq (some a) (some b) = a == b
option_beq _ _ = false

abbrev pub coin_state_beq : CoinState → CoinState → Bool
coin_state_beq a b =
    coin_beq a.coin b.coin
    && (option_beq a.spent_height b.spent_height && option_beq a.created_height b.created_height)

option_beq_iff : (a b : Option ℕ) → (option_beq a b ≡ true) ↔ (a ≡ b)
option_beq_iff none none = ground arith
option_beq_iff none (some b) = ground arith
option_beq_iff (some a) none = ground arith
option_beq_iff (some a) (some b) = ground arith

pub coin_state_beq_iff : (a b : CoinState) → (coin_state_beq a b ≡ true) ↔ (a ≡ b)
coin_state_beq_iff a b = ground (
  arith,
  coin_beq_iff a.coin b.coin,
  option_beq_iff a.spent_height b.spent_height,
  option_beq_iff a.created_height b.created_height,
)

instance abbrev pub coin_state_eq : Eq CoinState
coin_state_eq = record { beq = coin_state_beq; beq_iff = coin_state_beq_iff }

-- The constants of a network that the SDK reads.
pub record ConsensusConstants : Type 0 where
  pub genesis_challenge : Bytes32
  pub agg_sig_me_additional_data : Bytes32
  pub agg_sig_parent_additional_data : Bytes32
  pub agg_sig_puzzle_additional_data : Bytes32
  pub agg_sig_amount_additional_data : Bytes32
  pub agg_sig_puzzle_amount_additional_data : Bytes32
  pub agg_sig_parent_amount_additional_data : Bytes32
  pub agg_sig_parent_puzzle_additional_data : Bytes32

-- `Result` of an operation that can fail with an error of type `E`.
pub data Result {ℓ κ} (E : Type ℓ) (A : Type κ) : Type (ℓ ⊔ κ) where
  ok : A → Result E A
  err : E → Result E A

infixl 5 ◌>>=◌
abbrev pub ◌>>=◌ {ℓ κ μ} :
    {E : Type ℓ} {A : Type κ} {B : Type μ} → Result E A → (A → Result E B) → Result E B
ok a >>= f = f a
err e >>= f = err e

pub Result-cases {ℓ κ} :
    {E : Type ℓ} {A : Type κ} (r : Result E A) → ((a : A) × (r ≡ ok a)) ⊎ ((e : E) × (r ≡ err e))
Result-cases (ok a) = inl (a, refl)
Result-cases (err e) = inr (e, refl)
