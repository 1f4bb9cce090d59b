-- ===== src/Driver/Wrapped.antt =====
-- What the layers of crates/chia-sdk-driver/src/layers share: a puzzle that is curried with arguments,
-- and one that also wraps the puzzle of an inner layer.
use chia_wallet_sdk.Prelude.{◌≡◌, refl, ap, ◌∙◌, Option, none, some, arith, inl, inr}
use chia_wallet_sdk.Protocol.{Bytes32, Result, ok, err, Result-cases}
use chia_wallet_sdk.Driver.Clvm.{Clvm, IsClvm, Codec, IsCodec, Mod, IsMod, DriverError}
use chia_wallet_sdk.Driver.Context.{SpendContext, Ctx, ◌>>=◌, alloc, extract, alloc_curried, puzzle}
use chia_wallet_sdk.Driver.Cache.{IsWf, Keeps, Cached, puzzle-Cached, bind-ok, bind-Keeps}
use chia_wallet_sdk.Driver.Puzzle.{parse}
use chia_wallet_sdk.Driver.Layer.{
  Layer, IsLayer, IsHash, curried_args, curried_args-alloc_curried, alloc_curried-parts,
  curried_mod,
}

-- `let Some(a) = r? else { return Ok(None) }`.
abbrev pub if_some :
    {E A B : Type 0} → Result E (Option A) → (A → Result E (Option B)) → Result E (Option B)
if_some (ok (some a)) f = f a
if_some (ok none) f = ok none
if_some (err e) f = err e

module _ {T E : Type 0} (c : Clvm T E) where
  -- A puzzle of the cache that is curried with arguments, one of which is the inner layer's puzzle.
  abbrev pub wrapped :
      {A I S : Type 0} → Codec T E A → Mod → Layer T E I S → I → (T → A) → Ctx T E T
  wrapped codec m inner l args = puzzle c m >>= λ program.
      inner.construct_puzzle l >>= λ inner_puzzle. alloc_curried c codec program (args inner_puzzle)

  pub puzzle-Keeps : (m : Mod) → IsMod c m → Keeps c (puzzle c m)
  puzzle-Keeps m is_mod s w = first (puzzle c m s) (puzzle-Cached c m s is_mod w)
    where
      first :
          (r : Result (DriverError E) T × SpendContext T)
          → Cached c m s.coin_spends r
          → IsWf c r.1 × (r.1.coin_spends ≡ s.coin_spends)
      first (ok t, s') (k, same, _, _) = (k, same)
      first (err e, s') k = k

  pub puzzle_hash :
      (m : Mod)
      → IsMod c m
      → (s : SpendContext T) (t : T) → IsWf c s
      → (puzzle c m s).0 ≡ ok t
      → c.tree_hash t ≡ m.hash
  puzzle_hash m is_mod s t w h = hashed (puzzle c m s) (puzzle-Cached c m s is_mod w) h
    where
      hashed :
          (r : Result (DriverError E) T × SpendContext T)
          → Cached c m s.coin_spends r
          → r.0 ≡ ok t
          → c.tree_hash t ≡ m.hash
      hashed (ok u, s') (_, _, k, _) e = let same : u ≡ t = cc in rw (← same) k
      hashed (err e, s') k e' = cc

  pub alloc_curried-Keeps :
      {A : Type 0} (codec : Codec T E A) (program : T) (args : A)
      → Keeps c (alloc_curried c codec program args)
  unfolding alloc_curried
  alloc_curried-Keeps codec program args s w = (w, refl)

  module _ {A : Type 0} (codec : Codec T E A) where
    pub alloc-Keeps : (a : A) → Keeps c (alloc codec a)
    unfolding alloc
    alloc-Keeps a s w = (w, refl)

    pub encode-alloc :
        (a : A) (s : SpendContext T) (t : T) → (alloc codec a s).0 ≡ ok t → codec.encode a ≡ ok t
    unfolding alloc
    encode-alloc a s t h = elim (Result-cases (codec.encode a)) [
      | inr (failure, e) ↦ ground (arith, e)
      | inl (u, e) ↦ let same : u ≡ t = ground (arith, e) in rw (← same) e
    ]

    pub extract-alloc :
        IsCodec codec
        → (a : A) (s : SpendContext T) (t : T) → (alloc codec a s).0 ≡ ok t
        → extract codec t ≡ ok a
    unfolding alloc extract
    extract-alloc coded a s t h =
        let encoded : codec.encode a ≡ ok t = encode-alloc a s t h in
        ground (arith, coded a t encoded)

    module _ (lawful : IsClvm c) (coded : IsCodec codec) (m : Mod) (is_mod : IsMod c m) where
      -- A puzzle of the cache that is curried with arguments.
      pub curried_mod-parts :
          (args : A) (s : SpendContext T) (t : T)
          → IsWf c s
          → (curried_mod c codec m args s).0 ≡ ok t
          → (curried_args c codec m.hash (parse c t) ≡ ok (some args))
            × (encoded : T) × (codec.encode args ≡ ok encoded)
            × (c.tree_hash t ≡ c.curry_hash m.hash (c.tree_hash encoded))
      curried_mod-parts args s t w h =
          let (program, first, made) =
            bind-ok c (puzzle c m) (λ p. alloc_curried c codec p args) s t h in
          let after = (puzzle c m s).1 in
          let hashed = puzzle_hash m is_mod s program w first in
          let (encoded, e, f) = alloc_curried-parts c codec m program args after t made in
          let whole =
            lawful.tree_hash-uncurry t program encoded (lawful.uncurry-curry program encoded t f) in
          (
            curried_args-alloc_curried c codec m lawful coded program args after t hashed made,
            encoded,
            e,
            whole ∙ ap (λ p. c.curry_hash p (c.tree_hash encoded)) hashed,
          )

      pub curried_mod-Keeps : (args : A) → Keeps c (curried_mod c codec m args)
      curried_mod-Keeps args =
          bind-Keeps c (puzzle c m) (λ p. alloc_curried c codec p args) (puzzle-Keeps m is_mod)
            (λ p. alloc_curried-Keeps codec p args)

      module _ {I S : Type 0} (inner : Layer T E I S) (l : I) (args : T → A) where
        pub wrapped-Keeps : IsLayer c inner → Keeps c (wrapped codec m inner l args)
        wrapped-Keeps layered =
            bind-Keeps c (puzzle c m)
              (λ program. inner.construct_puzzle l >>= λ inner_puzzle.
                alloc_curried c codec program (args inner_puzzle))
              (puzzle-Keeps m is_mod)
              (λ program.
                bind-Keeps c (inner.construct_puzzle l)
                  (λ inner_puzzle. alloc_curried c codec program (args inner_puzzle))
                  (layered.construct_puzzle-Keeps l)
                  (λ inner_puzzle. alloc_curried-Keeps codec program (args inner_puzzle)))

        pub wrapped-parts :
            (s : SpendContext T) (t : T)
            → IsWf c s
            → (wrapped codec m inner l args s).0 ≡ ok t
            → (inner_puzzle : T) × (curried_args c codec m.hash (parse c t)
                ≡ ok (some (args inner_puzzle)))
              × (IsLayer c inner → inner.parse_puzzle (parse c inner_puzzle) ≡ ok (some l))
              × ((hash : I → Bytes32) → IsHash c inner hash → c.tree_hash inner_puzzle ≡ hash l)
              × (encoded : T) × (codec.encode (args inner_puzzle) ≡ ok encoded)
              × (c.tree_hash t ≡ c.curry_hash m.hash (c.tree_hash encoded))
        wrapped-parts s t w h =
            let (program, first, rest) =
              bind-ok c (puzzle c m)
                (λ program. inner.construct_puzzle l >>= λ inner_puzzle.
                  alloc_curried c codec program (args inner_puzzle))
                s t h in
            let after = (puzzle c m s).1 in
            let (w', _) = puzzle-Keeps m is_mod s w in
            let hashed = puzzle_hash m is_mod s program w first in
            let (inner_puzzle, second, made) =
              bind-ok c (inner.construct_puzzle l)
                (λ inner_puzzle. alloc_curried c codec program (args inner_puzzle)) after t rest in
            let last = (inner.construct_puzzle l after).1 in
            let (encoded, e, f) =
              alloc_curried-parts c codec m program (args inner_puzzle) last t made in
            let whole =
              lawful.tree_hash-uncurry t program encoded
                (lawful.uncurry-curry program encoded t f) in
            (
              inner_puzzle,
              curried_args-alloc_curried c codec m lawful coded program (args inner_puzzle) last t
                  hashed made,
              λ layered. layered.parse_puzzle-construct_puzzle l after inner_puzzle w' second,
              λ hash hashes. hashes l after inner_puzzle w' second,
              encoded,
              e,
              whole ∙ ap (λ p. c.curry_hash p (c.tree_hash encoded)) hashed,
            )

    -- A solution that wraps the solution of an inner layer.
    module _ {I S : Type 0} (inner : Layer T E I S) (l : I) (solution : S) (args : T → A) where
      abbrev pub wrapped_solution : Ctx T E T
      wrapped_solution = inner.construct_solution l solution >>= λ inner_solution.
          alloc codec (args inner_solution)

      pub wrapped_solution-Keeps : IsLayer c inner → Keeps c wrapped_solution
      wrapped_solution-Keeps layered =
          bind-Keeps c (inner.construct_solution l solution)
            (λ inner_solution. alloc codec (args inner_solution))
            (layered.construct_solution-Keeps l solution)
            (λ inner_solution. alloc-Keeps (args inner_solution))

      pub wrapped_solution-parts :
          IsLayer c inner
          → IsCodec codec
          → (s : SpendContext T) (t : T) → IsWf c s
          → (wrapped_solution s).0 ≡ ok t
          → (inner_solution : T) × (extract codec t ≡ ok (args inner_solution))
            × (inner.parse_solution inner_solution ≡ ok solution)
      wrapped_solution-parts layered coded s t w h =
          let (inner_solution, first, made) =
            bind-ok c (inner.construct_solution l solution)
              (λ inner_solution. alloc codec (args inner_solution)) s t h in
          (
            inner_solution,
            extract-alloc coded (args inner_solution) (inner.construct_solution l solution s).1 t
                made,
            layered.parse_solution-construct_solution l solution s inner_solution w first,
          )
