-- ===== src/Signer/Required.antt =====
-- `RequiredSignature::from_coin_spend` and `from_coin_spends` of
-- crates/chia-sdk-signer/src/required_signature.rs: which signatures they return.
use chia_wallet_sdk.Prelude.{
  ℕ, ◌≡◌, refl, Bool, false, ◌||◌, none, some, List, [], ◌∷◌, ◌++◌, append_assoc, map,
  if◌then◌else◌, arith, Option-cases, inl, inr,
}
use chia_wallet_sdk.Protocol.{Bytes32, Bytes, Coin, CoinSpend, Result, ok, err, ◌>>=◌, Result-cases}
use chia_wallet_sdk.Conditions.{Condition, AggSig, PublicKey, into_agg_sig}
use chia_wallet_sdk.Signer.{
  AggSigConstants, infinity_public_key, Clvm, from_condition, required_of, from_coin_spend,
  from_coin_spends,
}

-- The signature conditions among the conditions, in their order.
abbrev pub agg_sigs : {T : Type 0} → List (Condition T) → List AggSig
agg_sigs [] = []
agg_sigs (c ∷ cs) = elim (into_agg_sig c) [ none ↦ agg_sigs cs | some sig ↦ sig ∷ agg_sigs cs ]

abbrev pub any_inf : (PublicKey → Bool) → List AggSig → Bool
any_inf is_inf [] = false
any_inf is_inf (sig ∷ sigs) = is_inf sig.public_key || any_inf is_inf sigs

-- The values after those that are there.
abbrev prefixed : {A E X : Type 0} → List X → Result E (List X × A) → Result E (List X × A)
prefixed xs m = m >>= λ rest. ok (xs ++ rest.0, rest.1)

regroup :
    {A E X : Type 0} (before : List X) (m : Result E (List X × A)) (k : A → Result E (List X × A))
    → prefixed before (m >>= λ f. prefixed f.0 (k f.1))
      ≡ (prefixed before m >>= λ f. prefixed f.0 (k f.1))
regroup before (err e) k = refl
regroup before (ok (xs, a)) k = elim (Result-cases (k a)) [
  | inl ((ys, b), e) ↦ rw (e, append_assoc before xs ys) refl
  | inr (e, fails) ↦ rw fails refl
]

module _ (coin_id : Coin → Bytes32) (to_bytes : Bytes32 → Bytes) (u64_to_bytes : ℕ → Bytes)
    {A T E : Type 0} (is_inf : PublicKey → Bool) (clvm : Clvm A T E) where
  -- The required signatures are those of the signature conditions, one for each and in their order,
  -- unless the key of one of them is the point at infinity, which is an error.
  pub required_of_lem :
      (coin : Coin) (conditions : List (Condition T)) (constants : AggSigConstants)
      → required_of coin_id to_bytes u64_to_bytes is_inf clvm coin conditions constants ≡ (
          if any_inf is_inf (agg_sigs conditions)
          then err infinity_public_key
          else ok (
              map
                (λ sig. from_condition coin_id to_bytes u64_to_bytes coin sig constants)
                (agg_sigs conditions)))
  unfolding required_of
  required_of_lem coin [] constants = refl
  required_of_lem coin (c ∷ cs) constants = elim (Option-cases (into_agg_sig c)) [
    | inl other ↦ ground (arith, other, required_of_lem coin cs constants)
    | inr (sig, e) ↦ ground (arith, e, required_of_lem coin cs constants)
  ]

  -- The signatures of two lists of coin spends, one after the other, are those of the first followed by
  -- those of the second, which starts from the allocator that the first leaves; the first error is the
  -- result.
  pub from_coin_spends-append :
      (allocator : A) (first second : List CoinSpend) (constants : AggSigConstants)
      → let signatures = from_coin_spends coin_id to_bytes u64_to_bytes is_inf clvm in
        signatures allocator (first ++ second) constants ≡ (
          signatures allocator first constants >>= λ f.
          signatures f.1 second constants >>= λ s. ok (f.0 ++ s.0, s.1))
  unfolding from_coin_spends
  from_coin_spends-append allocator [] second constants =
      elim (Result-cases
        (from_coin_spends coin_id to_bytes u64_to_bytes is_inf clvm allocator second constants)) [
          | inl (r, e) ↦ rw e refl
          | inr (e, fails) ↦ rw fails refl
        ]
  from_coin_spends-append allocator (spend ∷ spends) second constants =
      elim (Result-cases
        (from_coin_spend coin_id to_bytes u64_to_bytes is_inf clvm allocator spend constants)) [
          | inl (r, e) ↦
              rw (e, from_coin_spends-append r.1 spends second constants)
                (regroup r.0
                  (from_coin_spends coin_id to_bytes u64_to_bytes is_inf clvm r.1 spends constants)
                  (λ a.
                    from_coin_spends coin_id to_bytes u64_to_bytes is_inf clvm a second constants))
          | inr (e, fails) ↦ rw fails refl
        ]
