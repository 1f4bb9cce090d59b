-- ===== src/PeerSimulator/Subscriptions.antt =====
-- crates/chia-sdk-test/src/peer_simulator/subscriptions.rs: which coins and puzzle hashes each peer
-- watches.
use chia_wallet_sdk.Prelude.{
  ℕ, ◌+◌, ◌≤◌, ◌≡◌, false, ◌||◌, none, some, List, [], ◌++◌, arith, ◌==◌, if◌then◌else◌, contains,
  nat_eq, length, Option-cases, inl, inr,
}
use chia_wallet_sdk.Prelude.IndexMap.{IndexMap, lookup, insert, keys, lookup-insert}
use chia_wallet_sdk.Prelude.IndexSet
use chia_wallet_sdk.Protocol.{Bytes32, SocketAddr}

pub record Subscriptions : Type 0 where
  pub puzzle_subscriptions : IndexMap (List Bytes32)
  pub coin_subscriptions : IndexMap (List Bytes32)

-- `Subscriptions::default()`.
abbrev pub no_subscriptions : Subscriptions
no_subscriptions = record { puzzle_subscriptions = []; coin_subscriptions = [] }

-- `map.entry(peer).or_default().extend(items)`.
unfoldable pub extend_entry :
    SocketAddr → List Bytes32 → IndexMap (List Bytes32) → IndexMap (List Bytes32)
extend_entry peer items m = elim (lookup peer m) [
  | none ↦ insert peer (IndexSet.extend [] items) m
  | some old ↦ insert peer (IndexSet.extend old items) m
]

unfoldable pub add_coin_subscriptions : Subscriptions → SocketAddr → List Bytes32 → Subscriptions
unfolding extend_entry
add_coin_subscriptions s peer coin_ids = record s {
  coin_subscriptions = extend_entry peer coin_ids s.coin_subscriptions;
}

unfoldable pub add_puzzle_subscriptions : Subscriptions → SocketAddr → List Bytes32 → Subscriptions
unfolding extend_entry
add_puzzle_subscriptions s peer puzzle_hashes = record s {
  puzzle_subscriptions = extend_entry peer puzzle_hashes s.puzzle_subscriptions;
}

-- `map.get(&peer).map_or(0, IndexSet::len)`.
unfoldable pub entry_len : SocketAddr → IndexMap (List Bytes32) → ℕ
entry_len peer m = elim (lookup peer m) [ none ↦ 0 | some items ↦ length items ]

unfoldable pub subscription_count : Subscriptions → SocketAddr → ℕ
unfolding entry_len
subscription_count s peer =
    entry_len peer s.coin_subscriptions + entry_len peer s.puzzle_subscriptions

-- The keys of both maps, in order and without repetition.
unfoldable pub peers : Subscriptions → List SocketAddr
peers s = IndexSet.collect (keys s.coin_subscriptions ++ keys s.puzzle_subscriptions)

-- `subscriptions.coin_subscriptions(peer).cloned().unwrap_or_default()`.
unfoldable pub coins_of : Subscriptions → SocketAddr → List Bytes32
coins_of s peer = elim (lookup peer s.coin_subscriptions) [ none ↦ [] | some ids ↦ ids ]

unfoldable pub puzzles_of : Subscriptions → SocketAddr → List Bytes32
puzzles_of s peer = elim (lookup peer s.puzzle_subscriptions) [ none ↦ [] | some phs ↦ phs ]

entry_len-extend_entry :
    (peer other : SocketAddr) (items : List Bytes32) (m : IndexMap (List Bytes32))
    → entry_len other (extend_entry peer items m)
      ≤ entry_len other m + (if peer == other then length items else 0)
unfolding entry_len extend_entry
entry_len-extend_entry peer other items m = elim (Option-cases (lookup peer m)) [
  | inl e ↦
      rw (e, extend_entry)
        (ground (
          arith,
          lookup-insert peer other (IndexSet.extend [] items) m,
          IndexSet.length-extend-le [] items,
          e,
        ))
  | inr (old, e) ↦
      rw (e, extend_entry)
        (ground (
          arith,
          lookup-insert peer other (IndexSet.extend old items) m,
          IndexSet.length-extend-le old items,
          e,
        ))
]

-- A peer gains at most the items that it adds, and no other peer gains any.
pub subscription_count-add_coin :
    (s : Subscriptions) (peer other : SocketAddr) (items : List Bytes32)
    → subscription_count (add_coin_subscriptions s peer items) other
      ≤ subscription_count s other + (if peer == other then length items else 0)
unfolding subscription_count add_coin_subscriptions
subscription_count-add_coin s peer other items =
    omega (arith, entry_len-extend_entry peer other items s.coin_subscriptions)

pub subscription_count-add_puzzle :
    (s : Subscriptions) (peer other : SocketAddr) (items : List Bytes32)
    → subscription_count (add_puzzle_subscriptions s peer items) other
      ≤ subscription_count s other + (if peer == other then length items else 0)
unfolding subscription_count add_puzzle_subscriptions
subscription_count-add_puzzle s peer other items =
    omega (arith, entry_len-extend_entry peer other items s.puzzle_subscriptions)

-- A peer that subscribes watches what it watched and what it added; other peers watch what they did.
pub contains-coins_of-add :
    (s : Subscriptions) (peer other : SocketAddr) (items : List Bytes32) (id : Bytes32)
    → contains (coins_of (add_coin_subscriptions s peer items) other) id
      ≡ (contains (coins_of s other) id || (if peer == other then contains items id else false))
unfolding coins_of add_coin_subscriptions
contains-coins_of-add s peer other items id =
    elim (Option-cases (lookup peer s.coin_subscriptions)) [
      | inl e ↦
          rw (e, extend_entry)
            (ground (
              arith,
              lookup-insert peer other (IndexSet.extend [] items) s.coin_subscriptions,
              IndexSet.contains-extend [] items id,
              e,
            ))
      | inr (old, e) ↦
          rw (e, extend_entry)
            (ground (
              arith,
              lookup-insert peer other (IndexSet.extend old items) s.coin_subscriptions,
              IndexSet.contains-extend old items id,
              e,
            ))
    ]
