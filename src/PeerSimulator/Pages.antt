-- ===== src/PeerSimulator/Pages.antt =====
-- How `request_puzzle_state` of crates/chia-sdk-test/src/peer_simulator/ws_connection.rs splits a long
-- answer into pages, and what a wallet that follows the pages sees.
use chia_wallet_sdk.Prelude.{
  ℕ, zero, suc, ◌+◌, ◌≤◌, ◌<◌, ◌≡◌, ◌⊎◌, refl, ap, ◌∙◌, Bool, true, false, Option, none, some, List,
  [], ◌∷◌, ◌++◌, append-nil, arith, ltb, if◌then◌else◌, length, Option-cases, inl, inr, nat_eq, All,
  All-imp, take, drop, select, contains, take-append-drop, contains_head, contains_tail,
  contains-append,
}
use native.Mathlib.Nat.{le_trans}
use chia_wallet_sdk.Prelude.IndexSet
use chia_wallet_sdk.Protocol.{SocketAddr, CoinState, coin_state_eq, u32_size}
use chia_wallet_sdk.Simulator.{Simulator, last, lookup_puzzle_hashes}
use chia_wallet_sdk.PeerSimulator.Messages.{
  SimulatorConfig, CoinStateFilters, RequestPuzzleState, RespondPuzzleState, respond_puzzle_state,
}
use chia_wallet_sdk.PeerSimulator.Subscriptions.{Subscriptions}
use chia_wallet_sdk.PeerSimulator.Handlers.{
  last_change, insert_by_change, sort_by_change, pop_at, passes, next_height_of, page_of,
  min_height_of, request_puzzle_state,
}

-- Changed at the height or later, all of them.
abbrev From : ℕ → List CoinState → Type 0
From height = All (λ cs. height ≤ last_change cs)

-- In the order of their last changes.
abbrev pub IsSorted : List CoinState → Type 0
IsSorted [] = Unit
IsSorted (cs ∷ rest) = From (last_change cs) rest × IsSorted rest

insert_by_change-From :
    (height : ℕ) (cs : CoinState) (states : List CoinState)
    → height ≤ last_change cs
    → From height states
    → From height (insert_by_change cs states)
unfolding insert_by_change
insert_by_change-From height cs [] h f = (h, tt)
insert_by_change-From height cs (c ∷ rest) h f =
    ground (arith, insert_by_change-From height cs rest h f.1)

From-mono : (a b : ℕ) (states : List CoinState) → a ≤ b → From b states → From a states
From-mono a b states h f = All-imp (λ cs g. le_trans h g) states f

insert_by_change-IsSorted :
    (cs : CoinState) (states : List CoinState)
    → IsSorted states
    → IsSorted (insert_by_change cs states)
unfolding insert_by_change
insert_by_change-IsSorted cs [] s = (tt, tt)
insert_by_change-IsSorted cs (c ∷ rest) s = ground (
  arith,
  insert_by_change-IsSorted cs rest s.1,
  insert_by_change-From (last_change c) cs rest,
  From-mono (last_change cs) (last_change c) rest,
)

pub sort_by_change-IsSorted : (states : List CoinState) → IsSorted (sort_by_change states)
unfolding sort_by_change
sort_by_change-IsSorted [] = tt
sort_by_change-IsSorted (cs ∷ rest) =
    insert_by_change-IsSorted cs (sort_by_change rest) (sort_by_change-IsSorted rest)

abbrev pub before : ℕ → CoinState → Bool
before height cs = ltb (last_change cs) height

select_none :
    (height : ℕ) (states : List CoinState) → From height states → select (before height) states ≡ []
select_none height [] f = refl
select_none height (cs ∷ rest) f = ground (arith, select_none height rest f.1)

-- On sorted states up to a height, popping those of the height leaves those before it.
pop_at-select :
    (height : ℕ) (states : List CoinState)
    → IsSorted states
    → All (λ cs. last_change cs ≤ height) states
    → pop_at height states ≡ select (before height) states
unfolding pop_at
pop_at-select height [] s le = refl
pop_at-select height (cs ∷ rest) s le = ground (
  arith,
  pop_at-select height rest s.1 le.1,
  select_none height rest,
  From-mono height (last_change cs) rest,
)

select-append :
    (p : CoinState → Bool) (xs ys : List CoinState)
    → select p (xs ++ ys) ≡ select p xs ++ select p ys
select-append p [] ys = refl
select-append p (x ∷ xs) ys = ground (arith, select-append p xs ys)

From-append :
    (height : ℕ) (xs ys : List CoinState) → From height (xs ++ ys) → From height xs × From height ys
From-append height [] ys f = (tt, f)
From-append height (x ∷ xs) ys f =
    let (mine, rest) = From-append height xs ys f.1 in ((f.0, mine), rest)

-- A beginning of sorted states is sorted, and its last state bounds it and what follows it.
IsSorted-prefix : (xs ys : List CoinState) → IsSorted (xs ++ ys) → IsSorted xs
IsSorted-prefix [] ys s = tt
IsSorted-prefix (x ∷ xs) ys s =
    ((From-append (last_change x) xs ys s.0).0, IsSorted-prefix xs ys s.1)

last-bounds :
    (xs ys : List CoinState) (l : CoinState)
    → IsSorted (xs ++ ys)
    → last xs ≡ some l
    → All (λ cs. last_change cs ≤ last_change l) xs
      × From (last_change l) ys
      × (contains xs l ≡ true)
last-bounds [] ys l s e = cc
last-bounds (x ∷ []) ys l s e =
    let same : x ≡ l = ground arith in rw (← same) ((omega arith, tt), s.0, contains_head x [])
last-bounds (x ∷ y ∷ xs) ys l s e =
    let (le, from, has) = last-bounds (y ∷ xs) ys l s.1 e in
    ((le_trans s.0.0 le.0, le), from, contains_tail x (y ∷ xs) l has)

take_short {ℓ} : {A : Type ℓ} (n : ℕ) (xs : List A) → length (take n xs) < n → take n xs ≡ xs
take_short zero xs h = elim h [ ]
take_short (suc n) [] h = refl
take_short (suc n) (x ∷ xs) h = ap (◌∷◌ x) (take_short n xs (omega arith))

last-some : (x : CoinState) (xs : List CoinState) → (l : CoinState) × (last (x ∷ xs) ≡ some l)
last-some x [] = (x, refl)
last-some x (y ∷ ys) = last-some y ys

page_of-some :
    (config : SimulatorConfig) (xs states : List CoinState) (height : ℕ)
    → page_of config xs ≡ (states, some height)
    → (l : CoinState) × (last xs ≡ some l) × (last_change l ≡ height) × (states ≡ pop_at height xs)
unfolding page_of next_height_of
page_of-some config xs states height e = elim (Option-cases (last xs)) [
  | inl empty ↦ absurd (ground (arith, empty))
  | inr (l, found) ↦ (l, found, ground (arith, found), ground (arith, found))
]

page_of-none :
    (config : SimulatorConfig) (xs states : List CoinState)
    → page_of config xs ≡ (states, none)
    → (states ≡ xs) × (length xs ≤ config.puzzle_state_batch_size)
unfolding page_of next_height_of
page_of-none config [] states e = ground arith
page_of-none config (x ∷ xs) states e = ground (arith, (last-some x xs).1)

-- An unfinished page holds the matching states before its height; some matching state is of that
-- height.
page_unfinished :
    (config : SimulatorConfig) (n : ℕ) (all : List CoinState) (states : List CoinState) (height : ℕ)
    → IsSorted all
    → page_of config (take n all) ≡ (states, some height)
    → (states ≡ select (before height) all)
      × (cs : CoinState) × (contains all cs ≡ true)
      × (last_change cs ≡ height)
page_unfinished config n all states height s e =
    let xs = take n all in
    let ys = drop n all in
    let whole : xs ++ ys ≡ all = take-append-drop n all in
    let (l, found, at, shape) = page_of-some config xs states height e in
    let sorted : IsSorted (xs ++ ys) = rw whole s in
    let (le, from, has) = last-bounds xs ys l sorted found in
    let popped = pop_at-select height xs (IsSorted-prefix xs ys sorted) (rw (← at) le) in
    let none_later = select_none height ys (rw (← at) from) in
    (
      shape
          ∙ popped
          ∙ cc (
            append-nil (select (before height) xs),
            none_later,
            select-append (before height) xs ys,
            ap (select (before height)) whole,
          ),
      l,
      rw (← whole) (ground (arith, contains-append xs ys l)),
      at,
    )

page_finished :
    (config : SimulatorConfig) (all : List CoinState) (states : List CoinState)
    → config.puzzle_state_batch_size ≤ config.max_response_coins
    → page_of config (take (config.max_response_coins + 1) all) ≡ (states, none)
    → states ≡ all
page_finished config all states le e =
    let (shape, short) = page_of-none config (take (config.max_response_coins + 1) all) states e in
    shape ∙ take_short (config.max_response_coins + 1) all (omega arith)

sort_by_change-From :
    (height : ℕ) (states : List CoinState)
    → From height states
    → From height (sort_by_change states)
unfolding sort_by_change
sort_by_change-From height [] f = tt
sort_by_change-From height (cs ∷ rest) f =
    insert_by_change-From height cs (sort_by_change rest) f.0 (sort_by_change-From height rest f.1)

select-passes-From :
    (filters : CoinStateFilters) (height : ℕ) (states : List CoinState)
    → From height (select (passes filters height) states)
select-passes-From filters height [] = tt
select-passes-From filters height (cs ∷ rest) =
    ground (arith, select-passes-From filters height rest)

take-From :
    (height n : ℕ) (states : List CoinState) → From height states → From height (take n states)
take-From height zero states f = tt
take-From height (suc n) [] f = tt
take-From height (suc n) (cs ∷ rest) f = (f.0, take-From height n rest f.1)

pop_at-From :
    (height at : ℕ) (states : List CoinState) → From height states → From height (pop_at at states)
unfolding pop_at
pop_at-From height at [] f = tt
pop_at-From height at (cs ∷ rest) f = ground (arith, pop_at-From height at rest f.1)

page_of-From :
    (config : SimulatorConfig) (height : ℕ) (states : List CoinState)
    → From height states
    → From height (page_of config states).0
unfolding page_of
page_of-From config height states f = elim (Option-cases (next_height_of config states)) [
  | inl e ↦ rw (e, page_of) f
  | inr (at, e) ↦ rw (e, page_of) (pop_at-From height at states f)
]

select-before :
    (height : ℕ) (states : List CoinState)
    → All (λ cs. last_change cs < height) (select (before height) states)
select-before height [] = tt
select-before height (cs ∷ rest) = ground (arith, select-before height rest)

module _ {R : Type 0} (peer : SocketAddr) (request : RequestPuzzleState) (config : SimulatorConfig)
    (s : Simulator R) (subs after : Subscriptions) (r : RespondPuzzleState) where
  -- All states that match the request, in the order of their last changes.
  abbrev pub answer : List CoinState → List CoinState
  answer found =
      sort_by_change (select (passes request.filters (min_height_of request.previous_height)) found)

  answer_parts :
      request_puzzle_state peer request config s subs ≡ some (respond_puzzle_state r, after)
      → (found : List CoinState) × (states : List CoinState) × (next : Option ℕ)
        × (lookup_puzzle_hashes s
              (IndexSet.collect request.puzzle_hashes)
              request.filters.include_hinted
            ≡ some found)
        × (page_of config (take (config.max_response_coins + 1) (answer found)) ≡ (states, next))
        × (r.coin_states ≡ states)
        × (((next ≡ none) × (r.is_finished ≡ true))
            ⊎ ((next ≡ some r.height) × (r.is_finished ≡ false)))
  unfolding request_puzzle_state
  answer_parts e =
      elim (Option-cases (
        lookup_puzzle_hashes s (IndexSet.collect request.puzzle_hashes)
          request.filters.include_hinted)) [
            | inl panics ↦ absurd (ground (arith, panics))
            | inr (found, f) ↦
                let page = page_of config (take (config.max_response_coins + 1) (answer found)) in
                (found, page.0, page.1, f, refl, ground (arith, f), ground (arith, f))
          ]

  -- A page holds every matching coin state if it is the last one, and otherwise every matching state
  -- that changed before the height that it reports; in the order of the changes. (The batch size must
  -- not exceed the response limit, as in the default configuration.)
  pub request_puzzle_state_page :
      request_puzzle_state peer request config s subs ≡ some (respond_puzzle_state r, after)
      → config.puzzle_state_batch_size ≤ config.max_response_coins
      → (found : List CoinState) × (lookup_puzzle_hashes s
            (IndexSet.collect request.puzzle_hashes)
            request.filters.include_hinted
          ≡ some found)
        × (r.coin_states
            ≡ (if r.is_finished then answer found else select (before r.height) (answer found)))
  request_puzzle_state_page e le =
      let (found, states, next, f, page, same, ending) = answer_parts e in
      let sorted =
        sort_by_change-IsSorted
          (select (passes request.filters (min_height_of request.previous_height)) found) in
      (
        found,
        f,
        elim ending [
          | inl (last_page, done) ↦ rw done (
              same
              ∙ page_finished config (answer found) states le
                  (page ∙ ap (λ o. (states, o)) last_page))
          | inr (more, undone) ↦ rw undone (
              same
              ∙ (page_unfinished config (config.max_response_coins + 1) (answer found) states
                  r.height sorted (page ∙ ap (λ o. (states, o)) more)).0)
        ],
      )

  -- No state of a page is older than the request asks for.
  request_puzzle_state-From :
      request_puzzle_state peer request config s subs ≡ some (respond_puzzle_state r, after)
      → From (min_height_of request.previous_height) r.coin_states
  request_puzzle_state-From e =
      let (found, states, next, f, page, same, ending) = answer_parts e in
      let min_height = min_height_of request.previous_height in
      let all =
        page_of-From config min_height (take (config.max_response_coins + 1) (answer found)) (
          take-From min_height (config.max_response_coins + 1) (answer found) (
            sort_by_change-From min_height (select (passes request.filters min_height) found)
              (select-passes-From request.filters min_height found))) in
      rw same (rw (ap (λ q. q.0) page) at all)

  -- An unfinished page leaves out some matching coin state of the height that it reports, and all of
  -- its states are older.
  unfinished_gap :
      request_puzzle_state peer request config s subs ≡ some (respond_puzzle_state r, after)
      → r.is_finished ≡ false
      → All (λ cs. last_change cs < r.height) r.coin_states
        × (found : List CoinState) × (lookup_puzzle_hashes s
              (IndexSet.collect request.puzzle_hashes)
              request.filters.include_hinted
            ≡ some found)
        × (cs : CoinState) × (contains (answer found) cs ≡ true)
        × (last_change cs ≡ r.height)
  unfinished_gap e u =
      let (found, states, next, f, page, same, ending) = answer_parts e in
      let sorted =
        sort_by_change-IsSorted
          (select (passes request.filters (min_height_of request.previous_height)) found) in
      let (_, more) = unfinished u ending in
      let (shape, cs, has, at) =
        page_unfinished config (config.max_response_coins + 1) (answer found) states r.height sorted
          (page ∙ ap (λ o. (states, o)) more) in
      (rw (same ∙ shape) (select-before (r.height) (answer found)), found, f, cs, has, at)
    where
      unfinished :
          {next : Option ℕ}
          → r.is_finished ≡ false
          → ((next ≡ none) × (r.is_finished ≡ true))
            ⊎ ((next ≡ some r.height) × (r.is_finished ≡ false))
          → Unit {0} × (next ≡ some r.height)
      unfinished u (inl (_, done)) = cc
      unfinished u (inr (more, _)) = (tt, more)

-- A wallet that asks on from the height of an unfinished page misses a coin: some coin state that
-- matches the first request last changed at that height, while the first page has only states that
-- changed before it and the page of any request from that height only states that changed after it.
pub page_gap :
    {R : Type 0} (peer : SocketAddr) (first next : RequestPuzzleState) (config : SimulatorConfig)
    (s later : Simulator R) (subs after subs' after' : Subscriptions) (r r' : RespondPuzzleState)
    → request_puzzle_state peer first config s subs ≡ some (respond_puzzle_state r, after)
    → r.is_finished ≡ false
    → next.previous_height ≡ some r.height
    → r.height + 1 < u32_size
    → request_puzzle_state peer next config later subs' ≡ some (respond_puzzle_state r', after')
    → (found : List CoinState) × (cs : CoinState) × (lookup_puzzle_hashes s
          (IndexSet.collect first.puzzle_hashes)
          first.filters.include_hinted
        ≡ some found)
      × (contains (answer peer first config s subs after r found) cs ≡ true)
      × (last_change cs ≡ r.height)
      × All (λ c. last_change c < r.height) r.coin_states
      × All (λ c. r.height < last_change c) r'.coin_states
page_gap peer first next config s later subs after subs' after' r r' e u from small e' =
    let (older, found, f, cs, has, at) = unfinished_gap peer first config s subs after r e u in
    let newer = request_puzzle_state-From peer next config later subs' after' r' e' in
    let start : r.height + 1 ≤ min_height_of next.previous_height = rw from (omega arith) in
    (found, cs, f, has, at, older, All-imp (λ c g. omega arith) r'.coin_states newer)
