-- ===== src/Driver/Context.antt =====
-- crates/chia-sdk-driver/src/spend_context.rs: the context in which spends are built.
use chia_wallet_sdk.Prelude.{Option, none, some, List, [], ◌∷◌, ◌++◌}
use chia_wallet_sdk.Prelude.IndexMap.{IndexMap, lookup, insert}
use chia_wallet_sdk.Protocol.{Bytes32, Bytes, Coin, CoinSpend, Result, ok, err}
use chia_wallet_sdk.Driver.Clvm.{
  Clvm, Codec, Mod, DriverError, io, to_clvm, from_clvm, eval, try_to,
}

-- The allocator is not part of the state, since the values that it holds do not change.
pub record SpendContext (T : Type 0) : Type 0 where
  pub puzzles : IndexMap T
  pub coin_spends : List CoinSpend

pub record Spend (T : Type 0) : Type 0 where
  pub puzzle : T
  pub solution : T

-- A method of a context that can fail. What it did before it failed stays done.
abbrev pub Ctx : Type 0 → Type 0 → Type 0 → Type 0
Ctx T E A = SpendContext T → Result (DriverError E) A × SpendContext T

module _ {T : Type 0} where
  unfoldable pub new : SpendContext T
  new = record { puzzles = []; coin_spends = [] }

  unfoldable pub take : SpendContext T → List CoinSpend × SpendContext T
  take s = (s.coin_spends, record s { coin_spends = [] })

  unfoldable pub preload : Bytes32 → T → SpendContext T → SpendContext T
  preload puzzle_hash ptr s = record s { puzzles = insert puzzle_hash ptr s.puzzles }

  unfoldable pub get_puzzle : Bytes32 → SpendContext T → Option T
  get_puzzle puzzle_hash s = lookup puzzle_hash s.puzzles

module _ {T E : Type 0} where
  abbrev pub pure : {A : Type 0} → A → Ctx T E A
  pure a s = (ok a, s)

  abbrev pub lift : {A : Type 0} → Result (DriverError E) A → Ctx T E A
  lift r s = (r, s)

  abbrev pub continue : {A B : Type 0} → Result (DriverError E) A → (A → Ctx T E B) → Ctx T E B
  continue (ok a) f s = f a s
  continue (err e) f s = (err e, s)

  infixl 5 ◌>>=◌
  abbrev pub ◌>>=◌ : {A B : Type 0} → Ctx T E A → (A → Ctx T E B) → Ctx T E B
  ◌>>=◌ m f s = continue (m s).0 f (m s).1

  unfoldable pub insert_spend : CoinSpend → Ctx T E (Unit {0})
  insert_spend coin_spend s = (ok tt, record s { coin_spends = s.coin_spends ++ coin_spend ∷ [] })

  unfoldable pub alloc : {A : Type 0} → Codec T E A → A → Ctx T E T
  alloc codec value = lift (try_to to_clvm (codec.encode value))

  unfoldable pub extract : {A : Type 0} → Codec T E A → T → Result (DriverError E) A
  extract codec ptr = try_to from_clvm (codec.decode ptr)

module _ {T E : Type 0} (c : Clvm T E) where
  unfoldable pub serialize : T → Ctx T E Bytes
  serialize ptr = lift (try_to from_clvm (c.serialize ptr))

  unfoldable pub run : T → T → Ctx T E T
  run puzzle solution = lift (try_to eval (c.run_puzzle puzzle solution))

  unfoldable pub spend : Coin → Spend T → Ctx T E (Unit {0})
  spend coin s = serialize s.puzzle >>= λ puzzle_reveal. serialize s.solution >>= λ solution.
      insert_spend (record { coin = coin; puzzle_reveal = puzzle_reveal; solution = solution })

  -- A puzzle from the cache, or parsed and cached.
  unfoldable pub puzzle : Mod → Ctx T E T
  puzzle m s = elim (lookup m.hash s.puzzles) [
    | some ptr ↦ (ok ptr, s)
    | none ↦ elim (c.node_from_bytes m.bytes) [
      | err e ↦ (err (io e), s)
      | ok ptr ↦ (ok ptr, record s { puzzles = insert m.hash ptr s.puzzles })
    ]
  ]

  -- `alloc` of a `CurriedProgram`, of a program and arguments with this codec.
  unfoldable pub alloc_curried : {A : Type 0} → Codec T E A → T → A → Ctx T E T
  alloc_curried codec program args = lift (
      try_to to_clvm
        (elim (codec.encode args) [ err e ↦ err e | ok encoded ↦ c.curry program encoded ]))

-- The puzzles that the context has methods for.
pub record Mods : Type 0 where
  pub standard : Mod
  pub cat : Mod
  pub did_inner : Mod
  pub nft_intermediate_launcher : Mod
  pub nft_royalty_transfer : Mod
  pub nft_metadata_updater : Mod
  pub nft_ownership_layer : Mod
  pub nft_state_layer : Mod
  pub singleton_top_layer : Mod
  pub singleton_launcher : Mod
  pub everything_with_signature_tail : Mod
  pub genesis_by_coin_id_tail : Mod
  pub settlement_payments : Mod
  pub p2_delegated_conditions : Mod
  pub p2_one_of_many : Mod
  pub p2_singleton : Mod
  pub p2_delegated_singleton : Mod
  pub delegation_layer : Mod
  pub writer_filter : Mod

module _ {T E : Type 0} (c : Clvm T E) (mods : Mods) where
  unfoldable pub standard_puzzle : Ctx T E T
  standard_puzzle = puzzle c mods.standard

  unfoldable pub cat_puzzle : Ctx T E T
  cat_puzzle = puzzle c mods.cat

  unfoldable pub did_inner_puzzle : Ctx T E T
  did_inner_puzzle = puzzle c mods.did_inner

  unfoldable pub nft_intermediate_launcher : Ctx T E T
  nft_intermediate_launcher = puzzle c mods.nft_intermediate_launcher

  unfoldable pub nft_royalty_transfer : Ctx T E T
  nft_royalty_transfer = puzzle c mods.nft_royalty_transfer

  unfoldable pub nft_metadata_updater : Ctx T E T
  nft_metadata_updater = puzzle c mods.nft_metadata_updater

  unfoldable pub nft_ownership_layer : Ctx T E T
  nft_ownership_layer = puzzle c mods.nft_ownership_layer

  unfoldable pub nft_state_layer : Ctx T E T
  nft_state_layer = puzzle c mods.nft_state_layer

  unfoldable pub singleton_top_layer : Ctx T E T
  singleton_top_layer = puzzle c mods.singleton_top_layer

  unfoldable pub singleton_launcher : Ctx T E T
  singleton_launcher = puzzle c mods.singleton_launcher

  unfoldable pub everything_with_signature_tail_puzzle : Ctx T E T
  everything_with_signature_tail_puzzle = puzzle c mods.everything_with_signature_tail

  unfoldable pub genesis_by_coin_id_tail_puzzle : Ctx T E T
  genesis_by_coin_id_tail_puzzle = puzzle c mods.genesis_by_coin_id_tail

  unfoldable pub settlement_payments_puzzle : Ctx T E T
  settlement_payments_puzzle = puzzle c mods.settlement_payments

  unfoldable pub p2_delegated_conditions_puzzle : Ctx T E T
  p2_delegated_conditions_puzzle = puzzle c mods.p2_delegated_conditions

  unfoldable pub p2_one_of_many_puzzle : Ctx T E T
  p2_one_of_many_puzzle = puzzle c mods.p2_one_of_many

  unfoldable pub p2_singleton_puzzle : Ctx T E T
  p2_singleton_puzzle = puzzle c mods.p2_singleton

  unfoldable pub p2_delegated_singleton_puzzle : Ctx T E T
  p2_delegated_singleton_puzzle = puzzle c mods.p2_delegated_singleton

  unfoldable pub delegation_layer_puzzle : Ctx T E T
  delegation_layer_puzzle = puzzle c mods.delegation_layer

  unfoldable pub delegated_writer_filter : Ctx T E T
  delegated_writer_filter = puzzle c mods.writer_filter
