-- ===== src/Driver/Layers/P2Singleton.antt =====
-- crates/chia-sdk-driver/src/layers/p2_singleton.rs.
use chia_wallet_sdk.Prelude.{
  ◌≡◌, refl, ap, Bool, not, Option, some, [], ◌∷◌, ◌++◌, ◌==◌, ◌&&◌, if◌then◌else◌, arith,
}
use chia_wallet_sdk.Protocol.{Bytes32, Coin, CoinSpend, Result, ok, err}
use chia_wallet_sdk.Driver.Clvm.{
  Clvm, IsClvm, Codec, IsCodec, IsMod, DriverError, invalid_singleton_struct,
}
use chia_wallet_sdk.Driver.Context.{
  SpendContext, Spend, Ctx, Mods, pure, ◌>>=◌, alloc, extract, insert_spend,
}
use chia_wallet_sdk.Driver.Cache.{IsWf, bind-ok}
use chia_wallet_sdk.Driver.Puzzle.{Puzzle, parse}
use chia_wallet_sdk.Driver.Layer.{
  Layer, IsLayer, IsHash, curried_args, curried_mod, construct_coin_spend,
}
use chia_wallet_sdk.Driver.Spends.{IsSerialised, construct_coin_spend-lem}
use chia_wallet_sdk.Driver.Wrapped.{if_some}
use chia_wallet_sdk.Driver.Lawful.{leaf-IsLayer, leaf-IsHash}

pub record P2Singleton : Type 0 where
  pub launcher_id : Bytes32

pub record P2SingletonArgs : Type 0 where
  pub singleton_mod_hash : Bytes32
  pub launcher_id : Bytes32
  pub launcher_puzzle_hash : Bytes32

unfoldable pub new_args : Mods → Bytes32 → P2SingletonArgs
new_args mods launcher_id = record {
  singleton_mod_hash = mods.singleton_top_layer.hash;
  launcher_id = launcher_id;
  launcher_puzzle_hash = mods.singleton_launcher.hash;
}

pub record P2SingletonSolution : Type 0 where
  pub singleton_inner_puzzle_hash : Bytes32
  pub my_id : Bytes32

module _ {T E : Type 0} (c : Clvm T E) (mods : Mods) (args_codec : Codec T E P2SingletonArgs)
    (solution_codec : Codec T E P2SingletonSolution) where
  abbrev of_singletons : P2SingletonArgs → Bool
  of_singletons args =
      args.singleton_mod_hash == mods.singleton_top_layer.hash
      && args.launcher_puzzle_hash == mods.singleton_launcher.hash

  unfoldable pub parse_puzzle : Puzzle T → Result (DriverError E) (Option P2Singleton)
  parse_puzzle puzzle = if_some (curried_args c args_codec mods.p2_singleton.hash puzzle) λ args.
      if not (of_singletons args)
      then err invalid_singleton_struct
      else ok (some (record { launcher_id = args.launcher_id }))

  unfoldable pub parse_solution : T → Result (DriverError E) P2SingletonSolution
  parse_solution solution = extract solution_codec solution

  unfoldable pub construct_puzzle : P2Singleton → Ctx T E T
  construct_puzzle l = curried_mod c args_codec mods.p2_singleton (new_args mods l.launcher_id)

  unfoldable pub construct_solution : P2Singleton → P2SingletonSolution → Ctx T E T
  construct_solution l solution = alloc solution_codec solution

  abbrev pub p2_singleton : Layer T E P2Singleton P2SingletonSolution
  p2_singleton = record {
    parse_puzzle = parse_puzzle;
    parse_solution = parse_solution;
    construct_puzzle = construct_puzzle;
    construct_solution = construct_solution;
  }

  -- The p2 singleton layer is lawful.
  pub p2_singleton-IsLayer :
      IsClvm c
      → IsMod c mods.p2_singleton
      → IsCodec args_codec
      → IsCodec solution_codec
      → IsLayer c p2_singleton
  unfolding new_args parse_puzzle parse_solution construct_puzzle construct_solution
  p2_singleton-IsLayer lawful is_mod args_coded solution_coded =
      leaf-IsLayer c lawful mods.p2_singleton is_mod args_codec args_coded p2_singleton
        (λ l. new_args mods l.launcher_id) (λ l. refl) solution_codec solution_coded
        (λ l p found. ground (arith, found)) (λ l s. refl) (λ t. refl)

  -- `ToTreeHash` of the arguments is given.
  module _ (args_hash : P2SingletonArgs → Bytes32) where
    unfoldable pub curry_tree_hash : Bytes32 → Bytes32
    curry_tree_hash launcher_id =
        c.curry_hash mods.p2_singleton.hash (args_hash (new_args mods launcher_id))

    unfoldable pub tree_hash : P2Singleton → Bytes32
    tree_hash l = curry_tree_hash l.launcher_id

    pub tree_hash-IsHash :
        IsClvm c
        → IsMod c mods.p2_singleton
        → IsCodec args_codec
        → ((a : P2SingletonArgs) (encoded : T)
            → args_codec.encode a ≡ ok encoded
            → c.tree_hash encoded ≡ args_hash a)
        → IsHash c p2_singleton tree_hash
    unfolding tree_hash construct_puzzle curry_tree_hash
    tree_hash-IsHash lawful is_mod args_coded hashed =
        leaf-IsHash c lawful mods.p2_singleton is_mod args_codec args_coded p2_singleton
          (λ l. new_args mods l.launcher_id) (λ l. refl) tree_hash
          (λ l encoded e.
            ap (c.curry_hash mods.p2_singleton.hash)
              (hashed (new_args mods l.launcher_id) encoded e))

  unfoldable pub spend : P2Singleton → Bytes32 → Bytes32 → Ctx T E (Spend T)
  spend l coin_id singleton_inner_puzzle_hash = construct_puzzle l >>= λ puzzle.
      construct_solution l
        (record { singleton_inner_puzzle_hash = singleton_inner_puzzle_hash; my_id = coin_id })
      >>= λ solution. pure (record { puzzle = puzzle; solution = solution })

  -- `Coin::coin_id` is given.
  module _ (coin_id : Coin → Bytes32) where
    unfoldable pub spend_coin : P2Singleton → Coin → Bytes32 → Ctx T E (Unit {0})
    spend_coin l coin singleton_inner_puzzle_hash =
        construct_coin_spend c p2_singleton l coin (record {
          singleton_inner_puzzle_hash = singleton_inner_puzzle_hash;
          my_id = coin_id coin;
        })
        >>= insert_spend

    -- A coin that is spent with success, in a well-formed context, adds one coin spend, of the coin. Its
    -- puzzle is parsed as the layer, and its solution as one with the coin's id.
    pub spend_coin-lem :
        IsClvm c
        → IsMod c mods.p2_singleton
        → IsCodec args_codec
        → IsCodec solution_codec
        → (l : P2Singleton) (coin : Coin) (inner_hash : Bytes32) (s : SpendContext T) → IsWf c s
        → (spend_coin l coin inner_hash s).0 ≡ ok tt
        → (made : CoinSpend) × (made.coin ≡ coin)
          × ((puzzle solution : T) × IsSerialised c made puzzle solution
              × (parse_puzzle (parse c puzzle) ≡ ok (some l))
              × (parse_solution solution
                  ≡ ok (record { singleton_inner_puzzle_hash = inner_hash; my_id = coin_id coin })))
          × ((spend_coin l coin inner_hash s).1.coin_spends ≡ s.coin_spends ++ made ∷ [])
    unfolding spend_coin insert_spend
    spend_coin-lem lawful is_mod args_coded solution_coded l coin inner_hash s w h =
        let layered = p2_singleton-IsLayer lawful is_mod args_coded solution_coded in
        let solution : P2SingletonSolution = record {
          singleton_inner_puzzle_hash = inner_hash;
          my_id = coin_id coin;
        } in
        let (made, first, rest) =
          bind-ok c (construct_coin_spend c p2_singleton l coin solution) insert_spend s tt h in
        let (of_coin, parts, _, same) =
          construct_coin_spend-lem c p2_singleton layered l solution coin s made w first in
        (made, of_coin, parts, rw first (ap (λ r. r ++ made ∷ []) same))
