-- ===== src/Driver/Layer.antt =====
-- crates/chia-sdk-driver/src/layer.rs: the interface of a layer of a puzzle, its laws, and the steps
-- that the layers of curried puzzles share.
use chia_wallet_sdk.Prelude.{◌≡◌, not, Option, none, some, ◌==◌, if◌then◌else◌, inl, inr, arith}
use chia_wallet_sdk.Protocol.{Bytes32, Coin, CoinSpend, Result, ok, err, Result-cases}
use chia_wallet_sdk.Driver.Clvm.{Clvm, IsClvm, Codec, IsCodec, Mod, DriverError}
use chia_wallet_sdk.Driver.Context.{
  SpendContext, Spend, Ctx, pure, ◌>>=◌, extract, alloc_curried, serialize, puzzle,
}
use chia_wallet_sdk.Driver.Cache.{IsWf, Keeps}
use chia_wallet_sdk.Driver.Puzzle.{Puzzle, as_curried, parse, parse_curried}

-- A layer `L` with the solution `S`.
pub record Layer (T E L S : Type 0) : Type 0 where
  pub parse_puzzle : Puzzle T → Result (DriverError E) (Option L)
  pub parse_solution : T → Result (DriverError E) S
  pub construct_puzzle : L → Ctx T E T
  pub construct_solution : L → S → Ctx T E T

module _ {T E : Type 0} (c : Clvm T E) where
  module _ {L S : Type 0} (layer : Layer T E L S) where
    unfoldable pub construct_spend : L → S → Ctx T E (Spend T)
    construct_spend l s = layer.construct_solution l s >>= λ solution.
        layer.construct_puzzle l >>= λ puzzle.
        pure (record { puzzle = puzzle; solution = solution })

    unfoldable pub construct_coin_spend : L → Coin → S → Ctx T E CoinSpend
    construct_coin_spend l coin s = layer.construct_solution l s >>= λ solution.
        layer.construct_puzzle l >>= λ puzzle. serialize c puzzle >>= λ puzzle_reveal.
        serialize c solution >>= λ solution_bytes.
        pure (record { coin = coin; puzzle_reveal = puzzle_reveal; solution = solution_bytes })

    -- A puzzle or a solution that the layer constructs is parsed as what it was constructed from, in a
    -- well-formed context, which stays so and keeps its coin spends.
    pub record IsLayer : Type 0 where
      pub parse_puzzle-construct_puzzle :
          (l : L) (s : SpendContext T) (t : T)
          → IsWf c s
          → (layer.construct_puzzle l s).0 ≡ ok t
          → layer.parse_puzzle (parse c t) ≡ ok (some l)
      pub construct_puzzle-Keeps : (l : L) → Keeps c (layer.construct_puzzle l)
      pub parse_solution-construct_solution :
          (l : L) (solution : S) (s : SpendContext T) (t : T)
          → IsWf c s
          → (layer.construct_solution l solution s).0 ≡ ok t
          → layer.parse_solution t ≡ ok solution
      pub construct_solution-Keeps :
          (l : L) (solution : S) → Keeps c (layer.construct_solution l solution)

    -- The hash of a layer (`ToTreeHash`) is that of the puzzle that it constructs.
    abbrev pub IsHash : (L → Bytes32) → Type 0
    IsHash hash =
        (l : L) (s : SpendContext T) (t : T)
        → IsWf c s
        → (layer.construct_puzzle l s).0 ≡ ok t
        → c.tree_hash t ≡ hash l

  -- The arguments of a curried puzzle, if its program has the hash.
  unfoldable pub curried_args :
      {A : Type 0} → Codec T E A → Bytes32 → Puzzle T → Result (DriverError E) (Option A)
  curried_args codec hash puzzle = elim (as_curried puzzle) [
    | none ↦ ok none
    | some p ↦
        if not (p.mod_hash == hash)
        then ok none
        else (elim (extract codec p.args) [ err e ↦ err e | ok args ↦ ok (some args) ])
  ]

  module _ {A : Type 0} (codec : Codec T E A) (m : Mod) where
    -- A puzzle of the cache, curried with arguments.
    abbrev pub curried_mod : A → Ctx T E T
    curried_mod args = puzzle c m >>= λ program. alloc_curried c codec program args

    -- What a curried puzzle is made of.
    pub alloc_curried-parts :
        (program : T) (args : A) (s : SpendContext T) (t : T)
        → (alloc_curried c codec program args s).0 ≡ ok t
        → (encoded : T) × (codec.encode args ≡ ok encoded) × (c.curry program encoded ≡ ok t)
    unfolding alloc_curried
    alloc_curried-parts program args s t h = elim (Result-cases (codec.encode args)) [
      | inr (failure, e) ↦ ground (arith, e)
      | inl (encoded, e) ↦ elim (Result-cases (c.curry program encoded)) [
        | inr (failure, f) ↦ ground (arith, e, f)
        | inl (made, f) ↦ (encoded, e, ground (arith, e, f))
      ]
    ]

    -- Its arguments are found again.
    pub curried_args-alloc_curried :
        IsClvm c
        → IsCodec codec
        → (program : T) (args : A) (s : SpendContext T) (t : T) → c.tree_hash program ≡ m.hash
        → (alloc_curried c codec program args s).0 ≡ ok t
        → curried_args codec m.hash (parse c t) ≡ ok (some args)
    unfolding curried_args parse parse_curried as_curried extract
    curried_args-alloc_curried lawful coded program args s t hashed h =
        let (encoded, e, f) = alloc_curried-parts program args s t h in
        let taken = lawful.uncurry-curry program encoded t f in
        let decoded = coded args encoded e in ground (arith, taken, decoded, hashed)
