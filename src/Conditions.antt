-- ===== src/Conditions.antt =====
-- crates/chia-sdk-types/src/condition.rs and condition/agg_sig.rs: the conditions that a puzzle puts
-- out, without their CLVM codecs, which a macro derives.
use chia_wallet_sdk.Prelude.{ℕ, Bool, true, false, Option, none, some, List}
use chia_wallet_sdk.Protocol.{Bytes32, Bytes}
pub mod AggSigs
pub mod Lists
pub mod Tests

abbrev pub PublicKey : Type 0
PublicKey = ℕ

-- `T` is a CLVM value. Fields that the codec fixes, as the opcode and the magic amount of -113, are not
-- stored.
pub data Condition (T : Type 0) : Type 0 where
  remark : (rest : T) → Condition T
  agg_sig_parent : (public_key : PublicKey) → (message : Bytes) → Condition T
  agg_sig_puzzle : (public_key : PublicKey) → (message : Bytes) → Condition T
  agg_sig_amount : (public_key : PublicKey) → (message : Bytes) → Condition T
  agg_sig_puzzle_amount : (public_key : PublicKey) → (message : Bytes) → Condition T
  agg_sig_parent_amount : (public_key : PublicKey) → (message : Bytes) → Condition T
  agg_sig_parent_puzzle : (public_key : PublicKey) → (message : Bytes) → Condition T
  agg_sig_unsafe : (public_key : PublicKey) → (message : Bytes) → Condition T
  agg_sig_me : (public_key : PublicKey) → (message : Bytes) → Condition T
  create_coin : (puzzle_hash : Bytes32) → (amount : ℕ) → (memos : List Bytes) → Condition T
  reserve_fee : (amount : ℕ) → Condition T
  create_coin_announcement : (message : Bytes) → Condition T
  assert_coin_announcement : (announcement_id : Bytes32) → Condition T
  create_puzzle_announcement : (message : Bytes) → Condition T
  assert_puzzle_announcement : (announcement_id : Bytes32) → Condition T
  assert_concurrent_spend : (coin_id : Bytes32) → Condition T
  assert_concurrent_puzzle : (puzzle_hash : Bytes32) → Condition T
  send_message : (mode : ℕ) → (message : Bytes) → (extra : List T) → Condition T
  receive_message : (mode : ℕ) → (message : Bytes) → (extra : List T) → Condition T
  assert_my_coin_id : (coin_id : Bytes32) → Condition T
  assert_my_parent_id : (parent_id : Bytes32) → Condition T
  assert_my_puzzle_hash : (puzzle_hash : Bytes32) → Condition T
  assert_my_amount : (amount : ℕ) → Condition T
  assert_my_birth_seconds : (seconds : ℕ) → Condition T
  assert_my_birth_height : (height : ℕ) → Condition T
  assert_ephemeral : Condition T
  assert_seconds_relative : (seconds : ℕ) → Condition T
  assert_seconds_absolute : (seconds : ℕ) → Condition T
  assert_height_relative : (height : ℕ) → Condition T
  assert_height_absolute : (height : ℕ) → Condition T
  assert_before_seconds_relative : (seconds : ℕ) → Condition T
  assert_before_seconds_absolute : (seconds : ℕ) → Condition T
  assert_before_height_relative : (height : ℕ) → Condition T
  assert_before_height_absolute : (height : ℕ) → Condition T
  softfork : (cost : ℕ) → (rest : T) → Condition T
  melt_singleton : Condition T
  transfer_nft :
      (did_id : Option Bytes32)
      → (trade_prices : List (ℕ × Bytes32)) → (did_inner_puzzle_hash : Option Bytes32) → Condition T
  run_cat_tail : (program solution : T) → Condition T
  update_nft_metadata : (updater_puzzle_reveal updater_solution : T) → Condition T
  update_data_store_merkle_root : (new_merkle_root : Bytes32) → (memos : List Bytes) → Condition T
  other : T → Condition T

pub data AggSigKind : Type 0 where
  parent puzzle amount puzzle_amount parent_amount parent_puzzle unsafe me : AggSigKind

-- The discriminants of `AggSigKind`.
unfoldable pub kind_opcode : AggSigKind → ℕ
kind_opcode parent = 43
kind_opcode puzzle = 44
kind_opcode amount = 45
kind_opcode puzzle_amount = 46
kind_opcode parent_amount = 47
kind_opcode parent_puzzle = 48
kind_opcode unsafe = 49
kind_opcode me = 50

pub record AggSig : Type 0 where
  pub kind : AggSigKind
  pub public_key : PublicKey
  pub message : Bytes

abbrev agg_sig : AggSigKind → PublicKey → Bytes → Option AggSig
agg_sig kind public_key message =
    some (record { kind = kind; public_key = public_key; message = message })

unfoldable pub into_agg_sig : {T : Type 0} → Condition T → Option AggSig
into_agg_sig (agg_sig_parent public_key message) = agg_sig parent public_key message
into_agg_sig (agg_sig_puzzle public_key message) = agg_sig puzzle public_key message
into_agg_sig (agg_sig_amount public_key message) = agg_sig amount public_key message
into_agg_sig (agg_sig_puzzle_amount public_key message) = agg_sig puzzle_amount public_key message
into_agg_sig (agg_sig_parent_amount public_key message) = agg_sig parent_amount public_key message
into_agg_sig (agg_sig_parent_puzzle public_key message) = agg_sig parent_puzzle public_key message
into_agg_sig (agg_sig_unsafe public_key message) = agg_sig unsafe public_key message
into_agg_sig (agg_sig_me public_key message) = agg_sig me public_key message
into_agg_sig _ = none

unfoldable pub is_agg_sig : {T : Type 0} → Condition T → Bool
is_agg_sig (agg_sig_parent _ _) = true
is_agg_sig (agg_sig_puzzle _ _) = true
is_agg_sig (agg_sig_amount _ _) = true
is_agg_sig (agg_sig_puzzle_amount _ _) = true
is_agg_sig (agg_sig_parent_amount _ _) = true
is_agg_sig (agg_sig_parent_puzzle _ _) = true
is_agg_sig (agg_sig_unsafe _ _) = true
is_agg_sig (agg_sig_me _ _) = true
is_agg_sig _ = false

-- The opcodes of the conditions; the negative ones, of the extensions, as the bytes of an `i8`. A
-- condition that is not known has none.
unfoldable pub opcode : {T : Type 0} → Condition T → Option ℕ
opcode (remark _) = some 1
opcode (agg_sig_parent _ _) = some 43
opcode (agg_sig_puzzle _ _) = some 44
opcode (agg_sig_amount _ _) = some 45
opcode (agg_sig_puzzle_amount _ _) = some 46
opcode (agg_sig_parent_amount _ _) = some 47
opcode (agg_sig_parent_puzzle _ _) = some 48
opcode (agg_sig_unsafe _ _) = some 49
opcode (agg_sig_me _ _) = some 50
opcode (create_coin _ _ _) = some 51
opcode (reserve_fee _) = some 52
opcode (create_coin_announcement _) = some 60
opcode (assert_coin_announcement _) = some 61
opcode (create_puzzle_announcement _) = some 62
opcode (assert_puzzle_announcement _) = some 63
opcode (assert_concurrent_spend _) = some 64
opcode (assert_concurrent_puzzle _) = some 65
opcode (send_message _ _ _) = some 66
opcode (receive_message _ _ _) = some 67
opcode (assert_my_coin_id _) = some 70
opcode (assert_my_parent_id _) = some 71
opcode (assert_my_puzzle_hash _) = some 72
opcode (assert_my_amount _) = some 73
opcode (assert_my_birth_seconds _) = some 74
opcode (assert_my_birth_height _) = some 75
opcode assert_ephemeral = some 76
opcode (assert_seconds_relative _) = some 80
opcode (assert_seconds_absolute _) = some 81
opcode (assert_height_relative _) = some 82
opcode (assert_height_absolute _) = some 83
opcode (assert_before_seconds_relative _) = some 84
opcode (assert_before_seconds_absolute _) = some 85
opcode (assert_before_height_relative _) = some 86
opcode (assert_before_height_absolute _) = some 87
opcode (softfork _ _) = some 90
opcode melt_singleton = some 51
opcode (transfer_nft _ _ _) = some 246
opcode (run_cat_tail _ _) = some 51
opcode (update_nft_metadata _ _) = some 232
opcode (update_data_store_merkle_root _ _) = some 243
opcode (other _) = none
