-- ===== src/Driver/Cache.antt =====
-- The cache of puzzles of crates/chia-sdk-driver/src/spend_context.rs: what it holds, and what the
-- other methods do to it.
use chia_wallet_sdk.Prelude.{◌≡◌, refl, ◌∙◌, none, some, Option-cases, List, inl, inr, arith}
use chia_wallet_sdk.Prelude.IndexMap.{
  lookup, insert, Entries, Entries-insert, Entries-lookup, lookup-insert_self,
}
use chia_wallet_sdk.Protocol.{CoinSpend, Result, ok, err, Result-cases}
use chia_wallet_sdk.Driver.Clvm.{Clvm, Mod, IsMod, DriverError, io}
use chia_wallet_sdk.Driver.Context.{SpendContext, Ctx, ◌>>=◌, puzzle}

module _ {T E : Type 0} (c : Clvm T E) where
  -- Each puzzle stands under its tree hash.
  abbrev pub IsWf : SpendContext T → Type 0
  IsWf s = Entries (λ hash ptr. c.tree_hash ptr ≡ hash) s.puzzles

  -- A step of a context that keeps the cache well formed and adds no coin spend.
  abbrev pub Keeps : {A : Type 0} → Ctx T E A → Type 0
  Keeps m = (s : SpendContext T) → IsWf s → IsWf (m s).1 × ((m s).1.coin_spends ≡ s.coin_spends)

  puzzle_cached :
      (m : Mod) (s : SpendContext T) (ptr : T)
      → lookup m.hash s.puzzles ≡ some ptr
      → puzzle c m s ≡ (ok ptr, s)
  unfolding puzzle
  puzzle_cached m s ptr e = ground (arith, e)

  puzzle_failed :
      (m : Mod) (s : SpendContext T) (failure : E)
      → lookup m.hash s.puzzles ≡ none
      → c.node_from_bytes m.bytes ≡ err failure
      → puzzle c m s ≡ (err (io failure), s)
  unfolding puzzle
  puzzle_failed m s failure e f = ground (arith, e, f)

  abbrev caching : Mod → T → SpendContext T → SpendContext T
  caching m ptr s = record s { puzzles = insert m.hash ptr s.puzzles }

  puzzle_added :
      (m : Mod) (s : SpendContext T) (ptr : T)
      → lookup m.hash s.puzzles ≡ none
      → c.node_from_bytes m.bytes ≡ ok ptr
      → puzzle c m s ≡ (ok ptr, caching m ptr s)
  unfolding puzzle
  puzzle_added m s ptr e f = ground (arith, e, f)

  -- What a request for a puzzle comes to: the context stays well formed, with the same coin spends, and a
  -- puzzle that is returned has its hash and is returned again by the next request, which changes nothing.
  abbrev pub Cached : Mod → List CoinSpend → Result (DriverError E) T × SpendContext T → Type 0
  Cached m spends (ok t, s) =
      IsWf s × (s.coin_spends ≡ spends) × (c.tree_hash t ≡ m.hash) × (puzzle c m s ≡ (ok t, s))
  Cached m spends (err e, s) = IsWf s × (s.coin_spends ≡ spends)

  -- A puzzle that is asked for has its hash and is cached from then on, and the context stays well
  -- formed and keeps its coin spends, if the puzzle's bytes have the hash that they are listed with.
  pub puzzle-Cached :
      (m : Mod) (s : SpendContext T) → IsMod c m → IsWf s → Cached m s.coin_spends (puzzle c m s)
  puzzle-Cached m s is_mod w = elim (Option-cases (lookup m.hash s.puzzles)) [
    | inr (ptr, e) ↦ rw (puzzle_cached m s ptr e) (
      w,
      refl,
      Entries-lookup (λ hash p. c.tree_hash p ≡ hash) m.hash ptr s.puzzles w e,
      puzzle_cached m s ptr e,
    )
    | inl e ↦ elim (Result-cases (c.node_from_bytes m.bytes)) [
      | inr (failure, fails) ↦ rw (puzzle_failed m s failure e fails) (w, refl)
      | inl (ptr, made) ↦ rw (puzzle_added m s ptr e made) (
        Entries-insert (λ hash p. c.tree_hash p ≡ hash) m.hash ptr s.puzzles (is_mod ptr made) w,
        refl,
        is_mod ptr made,
        puzzle_cached m (caching m ptr s) ptr (lookup-insert_self m.hash ptr s.puzzles),
      )
    ]
  ]

  -- A successful chain of two steps is a success of each.
  pub bind-ok :
      {A B : Type 0} (m : Ctx T E A) (f : A → Ctx T E B) (s : SpendContext T) (b : B)
      → ((m >>= f) s).0 ≡ ok b
      → (a : A) × ((m s).0 ≡ ok a) × ((f a (m s).1).0 ≡ ok b)
  bind-ok m f s b h = elim (Result-cases (m s).0) [
    | inl (a, e) ↦ (a, e, ground (arith, e))
    | inr (failure, e) ↦ ground (arith, e)
  ]

  pub bind-Keeps :
      {A B : Type 0} (m : Ctx T E A) (f : A → Ctx T E B)
      → Keeps m
      → ((a : A) → Keeps (f a))
      → Keeps (m >>= f)
  bind-Keeps m f first then_ s w = elim (Result-cases (m s).0) [
    | inl (a, e) ↦
        let (w', same) = first s w in
        let (w'', same') = then_ a (m s).1 w' in rw e (w'', same' ∙ same)
    | inr (failure, e) ↦ rw e (first s w)
  ]
