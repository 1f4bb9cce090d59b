-- ===== src/Simulator/Changes.antt =====
-- Lemmas on the loops of `new_transaction` in crates/chia-sdk-test/src/simulator.rs: what the maps of
-- removed coins, added coins and hints hold when the loops end.
use chia_wallet_sdk.Prelude.{
  ℕ, ◌≡◌, refl, true, false, ◌||◌, none, some, List, [], ◌∷◌, map, arith, contains, nat_eq, All,
}
use mathlib.Core.Option
use chia_wallet_sdk.Prelude.IndexMap.{
  IndexMap, IsMap, Entries, lookup, insert, contains_key, lookup-insert, insert-IsMap,
  Entries-insert,
}
use chia_wallet_sdk.Protocol.{Bytes32, CoinState, NewCoin, SpendConditions, ok}
use chia_wallet_sdk.Simulator.{External}
use chia_wallet_sdk.Simulator.Transaction.{
  Changes, add_coin, add_coins, removed_state, collect_changes, validate_removals,
}

-- The ids of the coins that a bundle spends.
abbrev pub spent_ids : List SpendConditions → List Bytes32
spent_ids = map (λ spend. spend.coin_id)

abbrev pub spend_at : ℕ → CoinState → CoinState
spend_at height cs = record cs { spent_height = some height }

module _ {R : Type 0} (x : External R) where
  removed-add_coins :
      (height : ℕ) (parent : Bytes32) (cs : List NewCoin) (ch : Changes)
      → (add_coins x height parent cs ch).removed_coins ≡ ch.removed_coins
  unfolding add_coins add_coin
  removed-add_coins height parent [] ch = refl
  removed-add_coins height parent (c ∷ cs) ch =
      removed-add_coins height parent cs (add_coin x height parent c ch)

  pub removed_IsMap :
      (states : IndexMap CoinState) (height : ℕ) (spends : List SpendConditions) (ch : Changes)
      → IsMap ch.removed_coins
      → IsMap (collect_changes x states height spends ch).removed_coins
  unfolding collect_changes
  removed_IsMap states height [] ch h = h
  removed_IsMap states height (spend ∷ spends) ch h = removed_IsMap states height spends _ (
      insert-IsMap spend.coin_id (removed_state x states height spend) _
        (rw (removed-add_coins height spend.coin_id spend.create_coin ch) h))

  -- A coin that no spend names keeps what the map of removed coins had for it.
  pub removed_other :
      (states : IndexMap CoinState) (height : ℕ) (spends : List SpendConditions) (ch : Changes)
      (k : Bytes32)
      → contains (spent_ids spends) k ≡ false
      → lookup k (collect_changes x states height spends ch).removed_coins
        ≡ lookup k ch.removed_coins
  unfolding collect_changes
  removed_other states height [] ch k h = refl
  removed_other states height (spend ∷ spends) ch k h = ground (
    arith,
    removed_other states height spends
        (record (add_coins x height spend.coin_id spend.create_coin ch) {
          removed_coins =
              insert spend.coin_id (removed_state x states height spend)
                (add_coins x height spend.coin_id spend.create_coin ch).removed_coins;
        })
        k,
    removed-add_coins height spend.coin_id spend.create_coin ch,
    lookup-insert spend.coin_id k (removed_state x states height spend) ch.removed_coins,
  )

  -- A coin that is there stays there, and every spent coin is there.
  pub removed_has :
      (states : IndexMap CoinState) (height : ℕ) (spends : List SpendConditions) (ch : Changes)
      (k : Bytes32)
      → (contains_key k ch.removed_coins || contains (spent_ids spends) k) ≡ true
      → contains_key k (collect_changes x states height spends ch).removed_coins ≡ true
  unfolding collect_changes contains_key
  removed_has states height [] ch k h = ground arith
  removed_has states height (spend ∷ spends) ch k h = removed_has states height spends _ k (
      ground (
        arith,
        removed-add_coins height spend.coin_id spend.create_coin ch,
        lookup-insert spend.coin_id k (removed_state x states height spend) ch.removed_coins,
      ))

  -- What holds of the state that each spend removes holds of the whole map.
  pub removed_Entries {κ} :
      (P : ℕ → CoinState → Type κ) (states : IndexMap CoinState) (height : ℕ)
      (spends : List SpendConditions) (ch : Changes)
      → All (λ spend. P spend.coin_id (removed_state x states height spend)) spends
      → Entries P ch.removed_coins
      → Entries P (collect_changes x states height spends ch).removed_coins
  unfolding collect_changes
  removed_Entries P states height [] ch a h = h
  removed_Entries P states height (spend ∷ spends) ch a h =
      removed_Entries P states height spends _ a.1 (
        Entries-insert P spend.coin_id (removed_state x states height spend) _ a.0
          (rw (removed-add_coins height spend.coin_id spend.create_coin ch) h))

  -- A coin that the block creates: unspent, made at this height, under its own id.
  abbrev pub IsFresh : ℕ → Bytes32 → CoinState → Type 0
  IsFresh height id cs =
      (x.coin_id cs.coin ≡ id) × (cs.spent_height ≡ none) × (cs.created_height ≡ some height)

  abbrev pub AddedOk : ℕ → Changes → Type 0
  AddedOk height ch = IsMap ch.added_coins × Entries (IsFresh height) ch.added_coins

  add_coins-AddedOk :
      (height : ℕ) (parent : Bytes32) (cs : List NewCoin) (ch : Changes)
      → AddedOk height ch
      → AddedOk height (add_coins x height parent cs ch)
  unfolding add_coins add_coin
  add_coins-AddedOk height parent [] ch h = h
  add_coins-AddedOk height parent (c ∷ cs) ch h =
      add_coins-AddedOk height parent cs (add_coin x height parent c ch) (
        insert-IsMap _ _ ch.added_coins h.0,
        Entries-insert (IsFresh height) _ _ ch.added_coins (refl, refl, refl) h.1,
      )

  pub collect_changes-AddedOk :
      (states : IndexMap CoinState) (height : ℕ) (spends : List SpendConditions) (ch : Changes)
      → AddedOk height ch
      → AddedOk height (collect_changes x states height spends ch)
  unfolding collect_changes
  collect_changes-AddedOk states height [] ch h = h
  collect_changes-AddedOk states height (spend ∷ spends) ch h =
      collect_changes-AddedOk states height spends _
        (add_coins-AddedOk height spend.coin_id spend.create_coin ch h)

-- What a successful check of the removals says of the first of them.
validate_removals_step :
    (states : IndexMap CoinState) (height : ℕ) (added m r : IndexMap CoinState) (id : Bytes32)
    (cs : CoinState)
    → validate_removals states height added ((id, cs) ∷ m) ≡ ok r
    → (rest : IndexMap CoinState) × (validate_removals states height added m ≡ ok rest)
      × (r ≡ (id, spend_at height cs) ∷ rest)
      × (cs.spent_height ≡ none)
      × ((contains_key id states || contains_key id added) ≡ true)
unfolding validate_removals
validate_removals_step states height added m r id cs e = ground arith

-- The checks of the removals passed: each removed coin is now spent at this height.
pub lookup-validate_removals :
    (states : IndexMap CoinState) (height : ℕ) (added m r : IndexMap CoinState) (k : Bytes32)
    → validate_removals states height added m ≡ ok r
    → lookup k r ≡ Option.map (spend_at height) (lookup k m)
unfolding validate_removals lookup
lookup-validate_removals states height added [] r k e = ground arith
lookup-validate_removals states height added ((id, cs) ∷ m) r k e =
    let (rest, sub, shape, _, _) = validate_removals_step states height added m r id cs e in
    rw shape (ground (arith, lookup-validate_removals states height added m rest k sub))

pub validate_removals-IsMap :
    (states : IndexMap CoinState) (height : ℕ) (added m r : IndexMap CoinState)
    → validate_removals states height added m ≡ ok r
    → IsMap m
    → IsMap r
unfolding validate_removals
validate_removals-IsMap states height added [] r e h = ground arith
validate_removals-IsMap states height added ((id, cs) ∷ m) r e h =
    let (rest, sub, shape, _, _) = validate_removals_step states height added m r id cs e in
    rw shape (
      ground (arith, lookup-validate_removals states height added m rest id sub),
      validate_removals-IsMap states height added m rest sub h.1,
    )

-- Each removed coin was unspent, and known before or made by the bundle.
pub validate_removals-Entries :
    (states : IndexMap CoinState) (height : ℕ) (added m r : IndexMap CoinState)
    → validate_removals states height added m ≡ ok r
    → Entries
        (λ id cs.
          (cs.spent_height ≡ none) × ((contains_key id states || contains_key id added) ≡ true))
        m
validate_removals-Entries states height added [] r e = tt
validate_removals-Entries states height added ((id, cs) ∷ m) r e =
    let (rest, sub, _, unspent, known) = validate_removals_step states height added m r id cs e in
    ((unspent, known), validate_removals-Entries states height added m rest sub)

pub validate_removals_map {κ μ} :
    (P : ℕ → CoinState → Type κ) (Q : ℕ → CoinState → Type μ) (states : IndexMap CoinState)
    (height : ℕ) (added m r : IndexMap CoinState)
    → validate_removals states height added m ≡ ok r
    → ((id : ℕ) (cs : CoinState) → P id cs → Q id (spend_at height cs))
    → Entries P m
    → Entries Q r
unfolding validate_removals
validate_removals_map P Q states height added [] r e f h =
    let shape : r ≡ [] = ground arith in rw shape tt
validate_removals_map P Q states height added ((id, cs) ∷ m) r e f h =
    let (rest, sub, shape, _, _) = validate_removals_step states height added m r id cs e in
    rw shape (f id cs h.0, validate_removals_map P Q states height added m rest sub f h.1)
