-- ===== src/Announcements/Checks.antt =====
-- When `debug_announcements` of crates/chia-sdk-test/src/announcements.rs returns.
use chia_wallet_sdk.Prelude.{
  ℕ, ◌+◌, ◌≡◌, ◌↔◌, refl, Bool, true, false, Option, none, some, List, [], ◌∷◌, ◌++◌, arith,
  contains, contains-append, nat_eq, All, Option-cases, inl, inr,
}
use chia_wallet_sdk.Protocol.{Bytes32, Bytes, Coin, CoinSpend}
use chia_wallet_sdk.Announcements.{
  Announcements, Decoders, all_announcements, announcement_id, any_message, created_index,
  asserted_known, all_known, debug_announcements,
}

module _ (sha256 : Bytes → Bytes32) (to_bytes : Bytes32 → Bytes) where
  -- The ids of the announcements with these messages.
  abbrev pub ids_of : Bytes32 → List Bytes → List Bytes32
  ids_of coin_info [] = []
  ids_of coin_info (message ∷ messages) =
      announcement_id sha256 to_bytes coin_info message ∷ ids_of coin_info messages

  any_message-contains :
      (id coin_info : Bytes32) (messages : List Bytes)
      → any_message sha256 to_bytes id coin_info messages ≡ contains (ids_of coin_info messages) id
  unfolding any_message
  any_message-contains id coin_info [] = refl
  any_message-contains id coin_info (message ∷ messages) =
      ground (arith, any_message-contains id coin_info messages)

  module _ (info : CoinSpend → Bytes32) (created : Announcements → List Bytes)
      (asserted : Announcements → List Bytes32) where
    -- The ids of all announcements that the spends create.
    abbrev pub created_ids : List (CoinSpend × Announcements) → List Bytes32
    created_ids [] = []
    created_ids ((s, a) ∷ rest) = ids_of (info s) (created a) ++ created_ids rest

    -- Each spend asserts only announcements of the list.
    abbrev pub Asserts : List Bytes32 → List (CoinSpend × Announcements) → Type 0
    Asserts ids [] = Unit
    Asserts ids ((s, a) ∷ rest) = All (λ id. contains ids id ≡ true) (asserted a) × Asserts ids rest

    abbrev found : Option ℕ → Bool
    found none = false
    found (some index) = true

    created_index-contains :
        (id : Bytes32) (i : ℕ) (all : List (CoinSpend × Announcements))
        → found (created_index sha256 to_bytes info created asserted id i all)
          ≡ contains (created_ids all) id
    unfolding created_index
    created_index-contains id i [] = refl
    created_index-contains id i ((s, a) ∷ rest) = ground (
      arith,
      created_index-contains id (i + 1) rest,
      any_message-contains id (info s) (created a),
      contains-append (ids_of (info s) (created a)) (created_ids rest) id,
    )

    asserted_known_iff :
        (all : List (CoinSpend × Announcements)) (ids : List Bytes32)
        → (asserted_known sha256 to_bytes info created asserted all ids ≡ true)
          ↔ All (λ id. contains (created_ids all) id ≡ true) ids
    unfolding asserted_known
    asserted_known_iff all [] = (λ h. tt, λ h. refl)
    asserted_known_iff all (id ∷ ids) =
        let same = created_index-contains id 0 all in
        let later = asserted_known_iff all ids in
        elim (Option-cases (created_index sha256 to_bytes info created asserted id 0 all)) [
          | inl absent ↦ (λ h. ground (arith, absent), λ h. ground (arith, absent, same, h.0))
          | inr (index, e) ↦ (
            λ h. (ground (arith, e, same), later.0 (ground (arith, e))),
            λ h. ground (arith, e, later.1 h.1),
          )
        ]

    pub all_known_iff :
        (all rest : List (CoinSpend × Announcements))
        → (all_known sha256 to_bytes info created asserted all rest ≡ true)
          ↔ Asserts (created_ids all) rest
    unfolding all_known
    all_known_iff all [] = (λ h. tt, λ h. refl)
    all_known_iff all ((s, a) ∷ rest) =
        let first = asserted_known_iff all (asserted a) in
        let later = all_known_iff all rest in
        (
          λ h. (first.0 (ground (arith, h)), later.0 (ground (arith, h))),
          λ h. ground (arith, first.1 h.0, later.1 h.1),
        )

  -- The check of a list of coin spends returns exactly if the announcements of each can be extracted,
  -- every coin announcement that one asserts is created by one of them, and likewise every puzzle
  -- announcement.
  pub debug_announcements_iff :
      (coin_id : Coin → Bytes32) {T : Type 0} (decoders : Decoders T) (spends : List CoinSpend)
      → (debug_announcements sha256 to_bytes coin_id decoders spends ≡ true) ↔ (
          (all : List (CoinSpend × Announcements)) × (all_announcements decoders spends ≡ some all)
          × Asserts
              (λ s. coin_id s.coin)
              (λ a. a.created_coin)
              (λ a. a.asserted_coin)
              (created_ids (λ s. coin_id s.coin) (λ a. a.created_coin) (λ a. a.asserted_coin) all)
              all
          × Asserts
              (λ s. s.coin.puzzle_hash)
              (λ a. a.created_puzzle)
              (λ a. a.asserted_puzzle)
              (created_ids
                (λ s. s.coin.puzzle_hash)
                (λ a. a.created_puzzle)
                (λ a. a.asserted_puzzle)
                all)
              all)
  unfolding debug_announcements
  debug_announcements_iff coin_id decoders spends =
      elim (Option-cases (all_announcements decoders spends)) [
        | inl absent ↦ (λ h. ground (arith, absent), λ h. absurd (ground (arith, absent, h.1)))
        | inr (all, e) ↦
            let coins =
              all_known_iff (λ s. coin_id s.coin) (λ a. a.created_coin) (λ a. a.asserted_coin) all
                all in
            let puzzles =
              all_known_iff (λ s. s.coin.puzzle_hash) (λ a. a.created_puzzle)
                (λ a. a.asserted_puzzle) all all in
            (
              λ h. (all, e, coins.0 (ground (arith, e)), puzzles.0 (ground (arith, e))),
              λ (others, there, c, p).
                  let same : others ≡ all = ground (arith, e, there) in
                  let c' = coins.1 (rw same at c) in
                  let p' = puzzles.1 (rw same at p) in ground (arith, e, c', p'),
            )
      ]
