-- ===== src/MerkleTree/Path.antt =====
-- How a proof of crates/chia-sdk-driver/src/merkle_tree.rs is checked: the bits of the path, from the
-- lowest, say on which side the hashes of the proof stand.
use chia_wallet_sdk.Prelude.{
  ℕ, suc, ◌+◌, ◌*◌, ◌/◌, ◌%◌, ◌^◌, ◌<◌, ◌≡◌, refl, ap₂, ◌∙◌, List, [], ◌∷◌, ◌++◌, arith, ◌==◌,
  if◌then◌else◌, length,
}
use native.Mathlib.Nat.{pow-suc, div-eq_of_lt}
use chia_wallet_sdk.Protocol.{Bytes32, Bytes}
use chia_wallet_sdk.MerkleTree.{node_hash, set_bit}

pow_suc : (n : ℕ) → 2 ^ suc n ≡ 2 * 2 ^ n
pow_suc n = omega (arith, pow-suc 2 n)

half : (path n : ℕ) → path < 2 ^ suc n → path / 2 < 2 ^ n
half path n lt = omega (arith, pow_suc n)

module _ (hash : Bytes → Bytes32) (to_bytes : Bytes32 → Bytes) where
  -- A hash of the proof stands on the left where the bit is 1.
  abbrev step : ℕ → Bytes32 → Bytes32 → Bytes32
  step bit p h = if bit == 1 then node_hash hash to_bytes p h else node_hash hash to_bytes h p

  -- The root that a hash, a path and a proof lead to.
  abbrev pub climb : ℕ → List Bytes32 → Bytes32 → Bytes32
  climb path [] h = h
  climb path (p ∷ ps) h = climb (path / 2) ps (step (path % 2) p h)

  pub climb-append_left :
      (path : ℕ) (ps : List Bytes32) (p h : Bytes32)
      → path < 2 ^ length ps
      → climb path (ps ++ p ∷ []) h ≡ node_hash hash to_bytes (climb path ps h) p
  climb-append_left path [] p h lt = let low : path ≡ 0 = omega arith in rw low refl
  climb-append_left path (q ∷ ps) p h lt =
      climb-append_left (path / 2) ps p _ (half path (length ps) lt)

  pub climb-append_right :
      (path : ℕ) (ps : List Bytes32) (p h : Bytes32)
      → path < 2 ^ length ps
      → climb (path + 2 ^ length ps) (ps ++ p ∷ []) h ≡ node_hash hash to_bytes p (climb path ps h)
  climb-append_right path [] p h lt = let low : path ≡ 0 = omega arith in rw low refl
  climb-append_right path (q ∷ ps) p h lt =
      let same_bit : (path + 2 ^ suc (length ps)) % 2 ≡ path % 2 =
        omega (arith, pow_suc (length ps)) in
      let halved : (path + 2 ^ suc (length ps)) / 2 ≡ path / 2 + 2 ^ length ps =
        omega (arith, pow_suc (length ps)) in
      ap₂ (λ up bit. climb up (ps ++ p ∷ []) (step bit q h)) halved same_bit
      ∙ climb-append_right (path / 2) ps p (step (path % 2) q h) (half path (length ps) lt)

pub set_bit_new : (n path : ℕ) → path < 2 ^ n → set_bit n path ≡ path + 2 ^ n
set_bit_new n path lt = let high : path / 2 ^ n ≡ 0 = div-eq_of_lt lt in rw high refl
