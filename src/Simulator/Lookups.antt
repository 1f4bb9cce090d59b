-- ===== src/Simulator/Lookups.antt =====
-- `lookup_puzzle_hashes` and the header hashes of crates/chia-sdk-test/src/simulator.rs.
use chia_wallet_sdk.Prelude.{
  ℕ, ◌+◌, ◌≤◌, ◌<◌, ◌≡◌, refl, ap, ◌∙◌, inl, inr, Bool, true, false, ◌||◌, ◌&&◌, none, some, List,
  [], ◌∷◌, arith, ◌==◌, if◌then◌else◌, contains, nat_eq, Option-cases, Bool-cases, All,
  get_elem?-append_one, get_elem?_within,
}
use mathlib.Core.Option
use chia_wallet_sdk.Prelude.IndexMap.{
  IndexMap, IsMap, Entries, lookup, insert, contains_key, contains_key_iff, lookup-insert,
  Entries-lookup, insert-IsMap, values,
}
use chia_wallet_sdk.Protocol.{Bytes32, CoinState, u32_size}
use chia_wallet_sdk.Simulator.{
  External, Simulator, create_block, insert_state, collect_matching, collect_ids, collect_hinted,
  puzzle_hash_states, lookup_puzzle_hashes, header_hash_of,
}
use chia_wallet_sdk.Simulator.Invariant.{IsWf}

-- `acc'` has the entries of `acc` and, where `wanted`, those of `all`.
abbrev Adds :
    IndexMap CoinState → (Bytes32 → Bool) → IndexMap CoinState → IndexMap CoinState → Type 0
Adds all wanted acc acc' =
    (IsMap acc → IsMap acc')
    × ((j : Bytes32) → lookup j acc' ≡ (if wanted j then lookup j all else lookup j acc))

insert_state-Adds :
    (all : IndexMap CoinState) (id : Bytes32) (acc : IndexMap CoinState)
    → contains_key id all ≡ true
    → (acc' : IndexMap CoinState) × (insert_state all id acc ≡ some acc')
      × Adds all (λ j. id == j) acc acc'
unfolding insert_state
insert_state-Adds all id acc known =
    let (cs, e) = contains_key_iff id all known in
    (
      insert id cs acc,
      rw (e, insert_state),
      (insert-IsMap id cs acc, λ j. ground (arith, lookup-insert id j cs acc, e)),
    )

collect_ids-Adds :
    (all : IndexMap CoinState) (ids : List Bytes32) (acc : IndexMap CoinState)
    → All (λ id. contains_key id all ≡ true) ids
    → (acc' : IndexMap CoinState) × (collect_ids all ids acc ≡ some acc')
      × Adds all (contains ids) acc acc'
unfolding collect_ids
collect_ids-Adds all [] acc known = (acc, refl, (λ m. m, λ j. refl))
collect_ids-Adds all (id ∷ ids) acc known =
    let (acc1, e1, adds1) = insert_state-Adds all id acc known.0 in
    let (acc2, e2, adds2) = collect_ids-Adds all ids acc1 known.1 in
    (
      acc2,
      rw (e1, collect_ids) e2,
      (λ m. adds2.0 (adds1.0 m), λ j. ground (arith, adds1.1 j, adds2.1 j)),
    )

-- A coin is hinted by one of the puzzle hashes.
abbrev pub hinted_among : IndexMap (List Bytes32) → List Bytes32 → Bytes32 → Bool
hinted_among hinted [] id = false
hinted_among hinted (ph ∷ phs) id =
    (elim (lookup ph hinted) [ none ↦ false | some ids ↦ contains ids id ])
    || hinted_among hinted phs id

collect_hinted-Adds :
    (all : IndexMap CoinState) (hinted : IndexMap (List Bytes32)) (phs : List Bytes32)
    (acc : IndexMap CoinState)
    → Entries (λ hint ids. All (λ id. contains_key id all ≡ true) ids) hinted
    → (acc' : IndexMap CoinState) × (collect_hinted all hinted phs acc ≡ some acc')
      × Adds all (hinted_among hinted phs) acc acc'
unfolding collect_hinted
collect_hinted-Adds all hinted [] acc known = (acc, refl, (λ m. m, λ j. refl))
collect_hinted-Adds all hinted (ph ∷ phs) acc known = elim (Option-cases (lookup ph hinted)) [
  | inl e ↦
      let (acc', e', adds) = collect_hinted-Adds all hinted phs acc known in
      (acc', rw (e, collect_hinted) e', (adds.0, λ j. ground (arith, adds.1 j, e)))
  | inr (ids, e) ↦
      let (acc1, e1, adds1) = collect_ids-Adds all ids acc (
        Entries-lookup (λ hint ids. All (λ id. contains_key id all ≡ true) ids) ph ids hinted known
          e) in
      let (acc2, e2, adds2) = collect_hinted-Adds all hinted phs acc1 known in
      (
        acc2,
        rw (e, collect_hinted) (rw (e1, collect_hinted) e2),
        (λ m. adds2.0 (adds1.0 m), λ j. ground (arith, adds1.1 j, adds2.1 j, e)),
      )
]

-- A coin of the list has one of the puzzle hashes.
abbrev pub matching : List Bytes32 → IndexMap CoinState → Bytes32 → Bool
matching phs states id = elim (lookup id states) [
  | none ↦ false
  | some cs ↦ contains phs cs.coin.puzzle_hash
]

collect_matching-Adds :
    (all : IndexMap CoinState) (phs : List Bytes32) (rest : IndexMap CoinState)
    (acc : IndexMap CoinState)
    → Entries (λ id cs. contains_key id all ≡ true) rest
    → IsMap rest
    → (acc' : IndexMap CoinState) × (collect_matching all phs rest acc ≡ some acc')
      × Adds all (matching phs rest) acc acc'
unfolding collect_matching lookup
collect_matching-Adds all phs [] acc known m = (acc, refl, (λ n. n, λ j. refl))
collect_matching-Adds all phs ((id, cs) ∷ rest) acc known m =
    elim (Bool-cases (contains phs cs.coin.puzzle_hash)) [
      | inl hit ↦
          let (acc1, e1, adds1) = insert_state-Adds all id acc known.0 in
          let (acc2, e2, adds2) = collect_matching-Adds all phs rest acc1 known.1 m.1 in
          (
            acc2,
            rw (hit, collect_matching) (rw (e1, collect_matching) e2),
            (λ n. adds2.0 (adds1.0 n), λ j. ground (arith, adds1.1 j, adds2.1 j, hit, m.0)),
          )
      | inr miss ↦
          let (acc2, e2, adds2) = collect_matching-Adds all phs rest acc known.1 m.1 in
          (
            acc2,
            rw (miss, collect_matching) e2,
            (adds2.0, λ j. ground (arith, adds2.1 j, miss, m.0)),
          )
    ]

-- A coin is asked for: it has one of the puzzle hashes or, with hints, is hinted by one.
abbrev pub wanted : {R : Type 0} → Simulator R → List Bytes32 → Bool → Bytes32 → Bool
wanted s phs include_hints id =
    matching phs s.coin_states id || (include_hints && hinted_among s.hinted_coins phs id)

module _ {R : Type 0} (x : External R) (s : Simulator R) (w : IsWf x s) where
  known_states :
      (rest : IndexMap CoinState)
      → ((k : ℕ) → contains_key k rest ≡ true → contains_key k s.coin_states ≡ true)
      → Entries (λ id cs. contains_key id s.coin_states ≡ true) rest
  unfolding contains_key lookup
  known_states [] sub = tt
  known_states ((id, cs) ∷ rest) sub =
      (sub id (ground arith), known_states rest (λ k c. sub k (ground arith)))

  -- The lookup by puzzle hashes does not panic, and finds exactly the coins asked for, each once and
  -- with its present state.
  pub puzzle_hash_states_lem :
      (phs : List Bytes32) (include_hints : Bool)
      → (found : IndexMap CoinState) × (lookup_puzzle_hashes s phs include_hints
          ≡ some (values found))
        × IsMap found
        × ((id : Bytes32)
            → lookup id found
              ≡ (if wanted s phs include_hints id then lookup id s.coin_states else none))
  unfolding lookup_puzzle_hashes puzzle_hash_states lookup
  puzzle_hash_states_lem phs false =
      let (acc, e, adds) =
        collect_matching-Adds s.coin_states phs s.coin_states []
          (known_states s.coin_states (λ k c. c)) w.keyed in
      let built : puzzle_hash_states s phs false ≡ some acc = rw (e, puzzle_hash_states) in
      (acc, ap (Option.map values) built, adds.0 tt, λ id. ground (arith, adds.1 id))
  puzzle_hash_states_lem phs true =
      let (acc, e, adds) =
        collect_matching-Adds s.coin_states phs s.coin_states []
          (known_states s.coin_states (λ k c. c)) w.keyed in
      let (found, e2, adds2) =
        collect_hinted-Adds s.coin_states s.hinted_coins phs acc w.hints_known in
      let built : puzzle_hash_states s phs true ≡ some found = rw (e, puzzle_hash_states) e2 in
      (
        found,
        ap (Option.map values) built,
        adds2.0 (adds.0 tt),
        λ id. ground (arith, adds.1 id, adds2.1 id),
      )

  -- The header hashes are those of the heights up to the present one, and the present one is the last.
  header_hash_of-IsWf :
      (height : ℕ) → height ≤ s.height → (hash : Bytes32) × (header_hash_of s height ≡ some hash)
  unfolding header_hash_of
  header_hash_of-IsWf height h = get_elem?_within s.header_hashes height (omega (arith, w.chain))

  -- A new block adds the header hash of its height and keeps those below.
  pub header_hash_of-create_block :
      (height : ℕ)
      → s.height + 1 < u32_size
      → header_hash_of (create_block x s) height
        ≡ (if height == s.height + 1 then some (x.fill s.rng).0 else header_hash_of s height)
  unfolding header_hash_of create_block
  header_hash_of-create_block height small =
      get_elem?-append_one s.header_hashes (x.fill s.rng).0 height ∙ rw w.chain
