-- ===== src/Simulator/Outputs.antt =====
-- Lemmas on the outputs of a bundle in crates/chia-sdk-test/src/simulator.rs: the coins that it creates
-- and the coins that it hints, listed by recursion on the spends, against the maps that the loops fill.
use chia_wallet_sdk.Prelude.{
  ℕ, ◌≡◌, refl, inl, inr, Bool, true, false, ◌||◌, ◌&&◌, not, none, some, List, [], ◌∷◌, ◌++◌, map,
  arith, ◌==◌, if◌then◌else◌, contains, nat_eq, length, contains-append, Option-cases,
}
use chia_wallet_sdk.Prelude.IndexMap.{IndexMap, lookup, insert, contains_key, lookup-insert}
use chia_wallet_sdk.Prelude.IndexSet
use chia_wallet_sdk.Protocol.{Bytes32, CoinState, NewCoin, SpendConditions, bytes32_from}
use chia_wallet_sdk.Simulator.{External}
use chia_wallet_sdk.Simulator.Transaction.{
  Changes, add_hint, add_first_memo, add_coin, add_coins, removed_state, collect_changes,
}

-- The list under a hint, empty if there is none.
abbrev pub hinted_list : Bytes32 → IndexMap (List Bytes32) → List Bytes32
hinted_list hint m = elim (lookup hint m) [ none ↦ [] | some ids ↦ ids ]

abbrev pub is_empty {ℓ} : {A : Type ℓ} → List A → Bool
is_empty [] = true
is_empty (x ∷ xs) = false

is_empty-append {ℓ} :
    {A : Type ℓ} (xs ys : List A) → is_empty (xs ++ ys) ≡ (is_empty xs && is_empty ys)
is_empty-append [] ys = refl
is_empty-append (x ∷ xs) ys = refl

-- An output names this hint: its first memo has 32 bytes that spell it.
abbrev pub names_hint : NewCoin → Bytes32 → Bool
names_hint c hint = elim c.hint [
  | none ↦ false
  | some memo ↦ length memo == 32 && bytes32_from 0 memo == hint
]

add_hint_lem :
    (h id hint k : Bytes32) (m : IndexMap (List Bytes32))
    → (contains (hinted_list hint (add_hint h id m)) k
        ≡ (contains (hinted_list hint m) k || (h == hint && id == k)))
      × (contains_key hint (add_hint h id m) ≡ (contains_key hint m || h == hint))
unfolding add_hint contains_key
add_hint_lem h id hint k m = elim (Option-cases (lookup h m)) [
  | inl e ↦
      rw (e, add_hint)
        (ground (
          arith,
          lookup-insert h hint (IndexSet.insert id []) m,
          IndexSet.contains-insert id k [],
          e,
        ))
  | inr (ids, e) ↦
      rw (e, add_hint)
        (ground (
          arith,
          lookup-insert h hint (IndexSet.insert id ids) m,
          IndexSet.contains-insert id k ids,
          e,
        ))
]

-- A memo adds the coin under the hint that it spells, and under no other.
add_first_memo_lem :
    (c : NewCoin) (id hint k : Bytes32) (m : IndexMap (List Bytes32))
    → (contains (hinted_list hint (add_first_memo c.hint id m)) k
        ≡ (contains (hinted_list hint m) k || (names_hint c hint && id == k)))
      × (contains_key hint (add_first_memo c.hint id m)
          ≡ (contains_key hint m || names_hint c hint))
unfolding add_first_memo
add_first_memo_lem c id hint k m = elim (Option-cases c.hint) [
  | inl e ↦ rw (e, add_first_memo) (ground arith)
  | inr (memo, e) ↦
      rw (e, add_first_memo) (ground (arith, add_hint_lem (bytes32_from 0 memo) id hint k m))
]

module _ {R : Type 0} (x : External R) where
  abbrev pub output_id : Bytes32 → NewCoin → Bytes32
  output_id parent c =
      x.coin_id
        (record { parent_coin_info = parent; puzzle_hash = c.puzzle_hash; amount = c.amount })

  abbrev pub created_by : Bytes32 → List NewCoin → List Bytes32
  created_by parent = map (output_id parent)

  -- The ids of all coins that the spends create.
  abbrev pub created_ids : List SpendConditions → List Bytes32
  created_ids [] = []
  created_ids (spend ∷ spends) = created_by spend.coin_id spend.create_coin ++ created_ids spends

  abbrev pub hinted_by : Bytes32 → Bytes32 → List NewCoin → List Bytes32
  hinted_by hint parent [] = []
  hinted_by hint parent (c ∷ cs) =
      let rest = hinted_by hint parent cs in
      if names_hint c hint then output_id parent c ∷ rest else rest

  -- The ids of the created coins that name this hint.
  abbrev pub hinted_ids : Bytes32 → List SpendConditions → List Bytes32
  hinted_ids hint [] = []
  hinted_ids hint (spend ∷ spends) =
      hinted_by hint spend.coin_id spend.create_coin ++ hinted_ids hint spends

  add_coins_keys :
      (height : ℕ) (parent : Bytes32) (cs : List NewCoin) (ch : Changes) (k : Bytes32)
      → contains_key k (add_coins x height parent cs ch).added_coins
        ≡ (contains_key k ch.added_coins || contains (created_by parent cs) k)
  unfolding add_coins add_coin contains_key
  add_coins_keys height parent [] ch k = ground arith
  add_coins_keys height parent (c ∷ cs) ch k = ground (
    arith,
    add_coins_keys height parent cs (add_coin x height parent c ch) k,
    lookup-insert (output_id parent c) k
        (record {
          coin = record {
            parent_coin_info = parent;
            puzzle_hash = c.puzzle_hash;
            amount = c.amount;
          };
          spent_height = none;
          created_height = some height;
        })
        ch.added_coins,
  )

  -- The added coins are those that the spends create.
  pub added_keys :
      (states : IndexMap CoinState) (height : ℕ) (spends : List SpendConditions) (ch : Changes)
      (k : Bytes32)
      → contains_key k (collect_changes x states height spends ch).added_coins
        ≡ (contains_key k ch.added_coins || contains (created_ids spends) k)
  unfolding collect_changes
  added_keys states height [] ch k = ground arith
  added_keys states height (spend ∷ spends) ch k =
      let added = add_coins x height spend.coin_id spend.create_coin ch in
      ground (
        arith,
        added_keys states height spends
            (record added {
              removed_coins =
                  insert spend.coin_id (removed_state x states height spend) added.removed_coins;
            })
            k,
        add_coins_keys height spend.coin_id spend.create_coin ch k,
        contains-append (created_by spend.coin_id spend.create_coin) (created_ids spends) k,
      )

  add_coins_hints :
      (height : ℕ) (parent : Bytes32) (cs : List NewCoin) (ch : Changes) (hint k : Bytes32)
      → (contains (hinted_list hint (add_coins x height parent cs ch).added_hints) k
          ≡ (contains (hinted_list hint ch.added_hints) k || contains (hinted_by hint parent cs) k))
        × (contains_key hint (add_coins x height parent cs ch).added_hints
            ≡ (contains_key hint ch.added_hints || not (is_empty (hinted_by hint parent cs))))
  unfolding add_coins add_coin
  add_coins_hints height parent [] ch hint k = ground arith
  add_coins_hints height parent (c ∷ cs) ch hint k =
      let one = add_first_memo_lem c (output_id parent c) hint k ch.added_hints in
      let rest = add_coins_hints height parent cs (add_coin x height parent c ch) hint k in
      ground (arith, one, rest)

  -- The added hints are those that the outputs name.
  pub added_hints_lem :
      (states : IndexMap CoinState) (height : ℕ) (spends : List SpendConditions) (ch : Changes)
      (hint k : Bytes32)
      → (contains (hinted_list hint (collect_changes x states height spends ch).added_hints) k
          ≡ (contains (hinted_list hint ch.added_hints) k || contains (hinted_ids hint spends) k))
        × (contains_key hint (collect_changes x states height spends ch).added_hints
            ≡ (contains_key hint ch.added_hints || not (is_empty (hinted_ids hint spends))))
  unfolding collect_changes
  added_hints_lem states height [] ch hint k = ground arith
  added_hints_lem states height (spend ∷ spends) ch hint k =
      let added = add_coins x height spend.coin_id spend.create_coin ch in
      let mine = hinted_by hint spend.coin_id spend.create_coin in
      let one = add_coins_hints height spend.coin_id spend.create_coin ch hint k in
      let rest =
        added_hints_lem states height spends
          (record added {
            removed_coins =
                insert spend.coin_id (removed_state x states height spend) added.removed_coins;
          })
          hint k in
      ground (
        arith,
        one,
        rest,
        contains-append mine (hinted_ids hint spends) k,
        is_empty-append mine (hinted_ids hint spends),
      )

  contains-hinted_by :
      (hint parent id : Bytes32) (cs : List NewCoin)
      → contains (hinted_by hint parent cs) id ≡ true
      → contains (created_by parent cs) id ≡ true
  contains-hinted_by hint parent id [] h = h
  contains-hinted_by hint parent id (c ∷ cs) h =
      ground (arith, contains-hinted_by hint parent id cs)

  -- A hinted coin is a created coin.
  pub contains-hinted_ids :
      (hint id : Bytes32) (spends : List SpendConditions)
      → contains (hinted_ids hint spends) id ≡ true
      → contains (created_ids spends) id ≡ true
  contains-hinted_ids hint id [] h = h
  contains-hinted_ids hint id (spend ∷ spends) h =
      let made = created_by spend.coin_id spend.create_coin in
      let named = hinted_by hint spend.coin_id spend.create_coin in
      ground (
        arith,
        contains-hinted_by hint spend.coin_id id spend.create_coin,
        contains-hinted_ids hint id spends,
        contains-append named (hinted_ids hint spends) id,
        contains-append made (created_ids spends) id,
      )
