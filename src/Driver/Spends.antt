-- ===== src/Driver/Spends.antt =====
-- The spends that crates/chia-sdk-driver/src/layer.rs and spend_context.rs build from a layer.
use chia_wallet_sdk.Prelude.{◌≡◌, refl, sym, ap, ◌∙◌, some, [], ◌∷◌, ◌++◌, inl, inr, arith}
use chia_wallet_sdk.Protocol.{Bytes, Coin, CoinSpend, ok, err, Result-cases}
use chia_wallet_sdk.Driver.Clvm.{Clvm, DriverError}
use chia_wallet_sdk.Driver.Context.{
  SpendContext, Spend, Ctx, pure, ◌>>=◌, serialize, spend, insert_spend,
}
use chia_wallet_sdk.Driver.Cache.{IsWf, bind-ok}
use chia_wallet_sdk.Driver.Puzzle.{parse}
use chia_wallet_sdk.Driver.Layer.{Layer, IsLayer, construct_spend, construct_coin_spend}

module _ {T E : Type 0} (c : Clvm T E) where
  -- What is serialised as the two parts of a spend.
  abbrev pub IsSerialised : CoinSpend → T → T → Type 0
  IsSerialised made puzzle solution =
      (c.serialize puzzle ≡ ok made.puzzle_reveal) × (c.serialize solution ≡ ok made.solution)

  pub serialize-ok :
      (t : T) (s : SpendContext T) (bytes : Bytes)
      → (serialize c t s).0 ≡ ok bytes
      → (c.serialize t ≡ ok bytes) × ((serialize c t s).1 ≡ s)
  unfolding serialize
  serialize-ok t s bytes h = elim (Result-cases (c.serialize t)) [
    | inl (found, e) ↦ (ground (arith, e), refl)
    | inr (failure, e) ↦ ground (arith, e)
  ]

  -- A spend that succeeds adds one coin spend, of the coin, with the puzzle and the solution serialised.
  pub spend-lem :
      (coin : Coin) (sp : Spend T) (s : SpendContext T)
      → (spend c coin sp s).0 ≡ ok tt
      → (made : CoinSpend) × (made.coin ≡ coin)
        × IsSerialised made sp.puzzle sp.solution
        × ((spend c coin sp s).1 ≡ record s { coin_spends = s.coin_spends ++ made ∷ [] })
  unfolding spend serialize insert_spend
  spend-lem coin sp s h = elim (Result-cases (c.serialize sp.puzzle)) [
    | inr (failure, e) ↦ ground (arith, e)
    | inl (puzzle_reveal, e) ↦ elim (Result-cases (c.serialize sp.solution)) [
      | inr (failure, f) ↦ ground (arith, e, f)
      | inl (solution, f) ↦ (
        record { coin = coin; puzzle_reveal = puzzle_reveal; solution = solution },
        refl,
        (e, f),
        rw e (rw f refl),
      )
    ]
  ]

  -- A spend that fails adds none.
  pub spend-err :
      (coin : Coin) (sp : Spend T) (s : SpendContext T) (failure : DriverError E)
      → (spend c coin sp s).0 ≡ err failure
      → (spend c coin sp s).1 ≡ s
  unfolding spend serialize insert_spend
  spend-err coin sp s failure h = elim (Result-cases (c.serialize sp.puzzle)) [
    | inr (_, e) ↦ rw e refl
    | inl (puzzle_reveal, e) ↦ elim (Result-cases (c.serialize sp.solution)) [
      | inr (_, f) ↦ rw e (rw f refl)
      | inl (solution, f) ↦ ground (arith, e, f)
    ]
  ]

  module _ {L S : Type 0} (layer : Layer T E L S) (layered : IsLayer c layer) (l : L)
      (solution : S) where
    abbrev with_puzzle : {A : Type 0} → (T → T → Ctx T E A) → T → Ctx T E A
    with_puzzle next solution_ptr = layer.construct_puzzle l >>= λ puzzle. next solution_ptr puzzle

    -- The steps that both kinds of spend start with.
    parts :
        {A : Type 0} (next : T → T → Ctx T E A) (s : SpendContext T) (a : A)
        → IsWf c s
        → ((layer.construct_solution l solution >>= with_puzzle next) s).0 ≡ ok a
        → (solution_ptr puzzle : T) × (s' : SpendContext T) × (layer.parse_puzzle (parse c puzzle)
            ≡ ok (some l))
          × (layer.parse_solution solution_ptr ≡ ok solution)
          × IsWf c s'
          × (s'.coin_spends ≡ s.coin_spends)
          × ((layer.construct_solution l solution >>= with_puzzle next) s
              ≡ next solution_ptr puzzle s')
    parts next s a w h =
        let (solution_ptr, first, rest) =
          bind-ok c (layer.construct_solution l solution) (with_puzzle next) s a h in
        let (w', same) = layered.construct_solution-Keeps l solution s w in
        let after = (layer.construct_solution l solution s).1 in
        let (puzzle, second, last) =
          bind-ok c (layer.construct_puzzle l) (next solution_ptr) after a rest in
        let (w'', same') = layered.construct_puzzle-Keeps l after w' in
        (
          solution_ptr,
          puzzle,
          (layer.construct_puzzle l after).1,
          layered.parse_puzzle-construct_puzzle l after puzzle w' second,
          layered.parse_solution-construct_solution l solution s solution_ptr w first,
          w'',
          same' ∙ same,
          rw first (rw second refl),
        )

    -- A spend that is constructed by a lawful layer in a well-formed context has a puzzle and a solution
    -- that the layer parses as what they were constructed from; the context stays well formed and keeps
    -- its coin spends.
    pub construct_spend-lem :
        (s : SpendContext T) (made : Spend T)
        → IsWf c s
        → (construct_spend c layer l solution s).0 ≡ ok made
        → (layer.parse_puzzle (parse c made.puzzle) ≡ ok (some l))
          × (layer.parse_solution made.solution ≡ ok solution)
          × IsWf c (construct_spend c layer l solution s).1
          × ((construct_spend c layer l solution s).1.coin_spends ≡ s.coin_spends)
    unfolding construct_spend
    construct_spend-lem s made w h =
        let (t, p, s', parsed, parsed', w', same, whole) =
          parts (λ t p. pure (record { puzzle = p; solution = t })) s made w h in
        let split : record { puzzle = p; solution = t } ≡ made = ground (arith, whole, h) in
        let ends : (construct_spend c layer l solution s).1 ≡ s' = ap (λ r. r.1) whole in
        rw (← split) (parsed, parsed', rw ends w', rw ends same)

    finish : Coin → T → T → Ctx T E CoinSpend
    finish coin solution_ptr puzzle = serialize c puzzle >>= λ puzzle_reveal.
        serialize c solution_ptr >>= λ solution_bytes.
        pure (record { coin = coin; puzzle_reveal = puzzle_reveal; solution = solution_bytes })

    finish-ok :
        (coin : Coin) (t p : T) (s : SpendContext T) (made : CoinSpend)
        → (finish coin t p s).0 ≡ ok made
        → (made.coin ≡ coin) × IsSerialised made p t × ((finish coin t p s).1 ≡ s)
    unfolding finish serialize
    finish-ok coin t p s made h = elim (Result-cases (c.serialize p)) [
      | inr (failure, e) ↦ ground (arith, e)
      | inl (puzzle_reveal, e) ↦ elim (Result-cases (c.serialize t)) [
        | inr (failure, f) ↦ ground (arith, e, f)
        | inl (solution_bytes, f) ↦
            let whole : record {
              coin = coin;
              puzzle_reveal = puzzle_reveal;
              solution = solution_bytes;
            }
                ≡ made =
              ground (arith, e, f, h) in
            rw (← whole) (refl, (e, f), rw e (rw f refl))
      ]
    ]

    -- A coin spend that is constructed by a lawful layer in a well-formed context is of the coin, and its
    -- parts are those of a puzzle and a solution that the layer parses as what they were constructed
    -- from; the context stays well formed and keeps its coin spends.
    pub construct_coin_spend-lem :
        (coin : Coin) (s : SpendContext T) (made : CoinSpend)
        → IsWf c s
        → (construct_coin_spend c layer l coin solution s).0 ≡ ok made
        → (made.coin ≡ coin)
          × ((puzzle solution_ptr : T) × IsSerialised made puzzle solution_ptr
              × (layer.parse_puzzle (parse c puzzle) ≡ ok (some l))
              × (layer.parse_solution solution_ptr ≡ ok solution))
          × IsWf c (construct_coin_spend c layer l coin solution s).1
          × ((construct_coin_spend c layer l coin solution s).1.coin_spends ≡ s.coin_spends)
    unfolding construct_coin_spend finish
    construct_coin_spend-lem coin s made w h =
        let (t, p, s', parsed, parsed', w', same, whole) = parts (finish coin) s made w h in
        let last : (finish coin t p s').0 ≡ ok made = sym (ap (λ r. r.0) whole) ∙ h in
        let (of_coin, serialised, stays) = finish-ok coin t p s' made last in
        let ends : (construct_coin_spend c layer l coin solution s).1 ≡ s' =
          ap (λ r. r.1) whole ∙ stays in
        (of_coin, (p, t, serialised, parsed, parsed'), rw ends w', rw ends same)

  -- A spend whose puzzle is constructed before its solution, as the primitives do it.
  module _ {L S : Type 0} (layer : Layer T E L S) where
    abbrev spend_with : Coin → T → T → Ctx T E (Unit {0})
    spend_with coin puzzle solution_ptr =
        spend c coin (record { puzzle = puzzle; solution = solution_ptr })

    abbrev with_solution : L → S → Coin → T → Ctx T E (Unit {0})
    with_solution l solution coin puzzle =
        layer.construct_solution l solution >>= λ solution_ptr. spend_with coin puzzle solution_ptr

    abbrev pub spend_layer : L → S → Coin → Ctx T E (Unit {0})
    spend_layer l solution coin =
        layer.construct_puzzle l >>= λ puzzle. with_solution l solution coin puzzle

    -- What such a spend adds, if it succeeds.
    abbrev pub IsSpendOf : L → S → Coin → CoinSpend → Type 0
    IsSpendOf l solution coin made =
        (made.coin ≡ coin)
        × ((puzzle solution_ptr : T) × IsSerialised made puzzle solution_ptr
            × (layer.parse_puzzle (parse c puzzle) ≡ ok (some l))
            × (layer.parse_solution solution_ptr ≡ ok solution))

    pub spend_layer-lem :
        IsLayer c layer
        → (l : L) (solution : S) (coin : Coin) (s : SpendContext T) → IsWf c s
        → (spend_layer l solution coin s).0 ≡ ok tt
        → (made : CoinSpend) × IsSpendOf l solution coin made
          × IsWf c (spend_layer l solution coin s).1
          × ((spend_layer l solution coin s).1.coin_spends ≡ s.coin_spends ++ made ∷ [])
    spend_layer-lem layered l solution coin s w h =
        let (puzzle, first, rest) =
          bind-ok c (layer.construct_puzzle l) (with_solution l solution coin) s tt h in
        let (w', same) = layered.construct_puzzle-Keeps l s w in
        let after = (layer.construct_puzzle l s).1 in
        let (t, second, last) =
          bind-ok c (layer.construct_solution l solution) (spend_with coin puzzle) after tt rest in
        let (w'', same') = layered.construct_solution-Keeps l solution after w' in
        let after' = (layer.construct_solution l solution after).1 in
        let (made, of_coin, serialised, ends) =
          spend-lem coin (record { puzzle = puzzle; solution = t }) after' last in
        let whole : spend_layer l solution coin s ≡ spend_with coin puzzle t after' =
          rw first (rw second refl) in
        let end : (spend_layer l solution coin s).1
            ≡ record after' { coin_spends = after'.coin_spends ++ made ∷ [] } =
          ap (λ r. r.1) whole ∙ ends in
        (
          made,
          (
            of_coin,
            (
              puzzle,
              t,
              serialised,
              layered.parse_puzzle-construct_puzzle l s puzzle w first,
              layered.parse_solution-construct_solution l solution after t w' second,
            ),
          ),
          rw end w'',
          rw end (ap (λ r. r ++ made ∷ []) (same' ∙ same)),
        )
