-- ===== src/Simulator/Hints.antt =====
-- The hints that `Simulator::new_transaction` of crates/chia-sdk-test/src/simulator.rs records:
-- `self.hinted_coins.extend(added_hints)` replaces the whole list of a hint.
use chia_wallet_sdk.Prelude.{
  ℕ, ◌≡◌, ap, ◌∙◌, Option, none, some, List, [], ◌∷◌, arith, if◌then◌else◌, contains, nat_eq,
}
use chia_wallet_sdk.Prelude.IndexMap.{IndexMap, IsMap, contains_key, lookup-extend, insert-IsMap}
use chia_wallet_sdk.Prelude.IndexSet
use chia_wallet_sdk.Protocol.{
  Bytes, Bytes32, CoinState, SpendBundle, NewCoin, SpendConditions, ConsensusConstants, ok,
  bytes32_from,
}
use chia_wallet_sdk.Simulator.{External, Simulator, create_block, hinted_coins}
use chia_wallet_sdk.Simulator.Transaction.{
  Changes, no_changes, add_hint, add_first_memo, add_coin, add_coins, collect_changes, apply_plan,
  new_transaction,
}
use chia_wallet_sdk.Simulator.Outputs.{hinted_ids, hinted_list, is_empty, added_hints_lem}
use chia_wallet_sdk.Simulator.Spends.{
  Validates, changes, plan_of, plan_parts, new_transaction_parts,
}

add_first_memo-IsMap :
    (memo : Option Bytes) (id : Bytes32) (m : IndexMap (List Bytes32))
    → IsMap m
    → IsMap (add_first_memo memo id m)
unfolding add_first_memo add_hint
add_first_memo-IsMap none id m h = h
add_first_memo-IsMap (some memo) id m h = ground (
  arith,
  insert-IsMap (bytes32_from 0 memo) (IndexSet.insert id []) m h,
  insert-IsMap (bytes32_from 0 memo) (IndexSet.insert id (hinted_list (bytes32_from 0 memo) m)) m h,
)

module _ {R : Type 0} (x : External R) where
  add_coins-hints-IsMap :
      (height : ℕ) (parent : Bytes32) (cs : List NewCoin) (ch : Changes)
      → IsMap ch.added_hints
      → IsMap (add_coins x height parent cs ch).added_hints
  unfolding add_coins add_coin
  add_coins-hints-IsMap height parent [] ch h = h
  add_coins-hints-IsMap height parent (c ∷ cs) ch h =
      add_coins-hints-IsMap height parent cs (add_coin x height parent c ch)
        (add_first_memo-IsMap c.hint _ ch.added_hints h)

  pub hints-IsMap :
      (states : IndexMap CoinState) (height : ℕ) (spends : List SpendConditions) (ch : Changes)
      → IsMap ch.added_hints
      → IsMap (collect_changes x states height spends ch).added_hints
  unfolding collect_changes
  hints-IsMap states height [] ch h = h
  hints-IsMap states height (spend ∷ spends) ch h =
      hints-IsMap states height spends _
        (add_coins-hints-IsMap height spend.coin_id spend.create_coin ch h)

module _ {R : Type 0} (x : External R) (s : Simulator R) (bundle : SpendBundle)
    (constants : ConsensusConstants) where
  -- After an accepted bundle a coin is listed under a hint exactly if a created coin of that id names
  -- the hint or, where no created coin names the hint, if it was listed before.
  pub contains-hinted_coins-new_transaction :
      (spends : List SpendConditions) (u : IndexMap CoinState) (hint id : Bytes32)
      → Validates x s bundle constants spends
      → (new_transaction x s bundle constants).0 ≡ ok u
      → contains (hinted_coins (new_transaction x s bundle constants).1 hint) id ≡ (
          if is_empty (hinted_ids x hint spends)
          then contains (hinted_coins s hint) id
          else contains (hinted_ids x hint spends) id)
  unfolding hinted_coins apply_plan create_block contains_key
  contains-hinted_coins-new_transaction spends u hint id v e =
      let (p, planned, _, wrote) = new_transaction_parts x s bundle constants u e in
      let (removed, checked, shape, _, _) = plan_parts x s bundle constants spends p v planned in
      let hints = (changes x s bundle constants spends).added_hints in
      let known : (new_transaction x s bundle constants).1
          ≡ apply_plan x s
              (plan_of x s bundle constants (changes x s bundle constants spends) removed) =
        wrote ∙ ap (apply_plan x s) shape in
      rw known (
        ground (
          arith,
          lookup-extend hint s.hinted_coins hints
              (hints-IsMap x s.coin_states s.height spends no_changes tt),
          added_hints_lem x s.coin_states s.height spends no_changes hint id,
        ))
