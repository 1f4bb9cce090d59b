-- ===== src/Driver/Primitives/Launcher.antt =====
-- crates/chia-sdk-driver/src/primitives/launcher.rs and intermediate_launcher.rs: the coins that launch
-- singletons. `Coin::coin_id`, SHA-256, the bytes of a hash and the hash of a curried singleton are given.
use chia_wallet_sdk.Prelude.{ℕ, ◌≡◌, refl, List, [], ◌∷◌, ◌++◌, inl, inr, arith}
use chia_wallet_sdk.Protocol.{Bytes32, Bytes, Coin, CoinSpend, ok, Result-cases}
use chia_wallet_sdk.Conditions.{create_coin, assert_coin_announcement}
use chia_wallet_sdk.Conditions.Lists.{Conditions, new, with_condition}
use chia_wallet_sdk.Driver.Clvm.{Clvm, Codec}
use chia_wallet_sdk.Driver.Context.{
  SpendContext, Ctx, Mods, pure, ◌>>=◌, alloc, alloc_curried, serialize, insert_spend,
  nft_intermediate_launcher,
}

pub record Launcher (T : Type 0) : Type 0 where
  pub coin : Coin
  pub conditions : Conditions T
  pub singleton_amount : ℕ

pub record LauncherSolution (K : Type 0) : Type 0 where
  pub singleton_puzzle_hash : Bytes32
  pub amount : ℕ
  pub key_value_list : K

unfoldable pub announcement_id : (Bytes → Bytes32) → (Bytes32 → Bytes) → Bytes32 → Bytes → Bytes32
announcement_id sha256 to_bytes coin_info message = sha256 (to_bytes coin_info ++ message)

abbrev pub launcher_coin : Mods → Bytes32 → ℕ → Coin
launcher_coin mods parent_coin_id amount = record {
  parent_coin_info = parent_coin_id;
  puzzle_hash = mods.singleton_launcher.hash;
  amount = amount;
}

module _ {T : Type 0} where
  unfoldable pub from_coin : Coin → Conditions T → Launcher T
  from_coin coin conditions = record {
    coin = coin;
    conditions = conditions;
    singleton_amount = coin.amount;
  }

  unfoldable pub with_singleton_amount : Launcher T → ℕ → Launcher T
  with_singleton_amount l singleton_amount = record l { singleton_amount = singleton_amount }

  module _ (mods : Mods) where
    abbrev pub create_launcher : ℕ → List Bytes → Conditions T
    create_launcher amount memos =
        with_condition new (create_coin mods.singleton_launcher.hash amount memos)

    unfoldable pub new_launcher : Bytes32 → ℕ → Launcher T
    new_launcher parent_coin_id amount =
        from_coin (launcher_coin mods parent_coin_id amount) (create_launcher amount [])

    unfoldable pub create_early : Bytes32 → ℕ → Conditions T × Launcher T
    create_early parent_coin_id amount =
        (create_launcher amount [], from_coin (launcher_coin mods parent_coin_id amount) new)

    module _ (to_bytes : Bytes32 → Bytes) where
      unfoldable pub hinted : Bytes32 → ℕ → Bytes32 → Launcher T
      hinted parent_coin_id amount hint =
          from_coin (launcher_coin mods parent_coin_id amount)
            (create_launcher amount (to_bytes hint ∷ []))

      unfoldable pub create_early_hinted : Bytes32 → ℕ → Bytes32 → Conditions T × Launcher T
      create_early_hinted parent_coin_id amount hint = (
        create_launcher amount (to_bytes hint ∷ []),
        from_coin (launcher_coin mods parent_coin_id amount) new,
      )

module _ {T E : Type 0} (c : Clvm T E) (mods : Mods) (coin_id : Coin → Bytes32)
    (sha256 : Bytes → Bytes32) (to_bytes : Bytes32 → Bytes) where
  module _ (curry_tree_hash : Bytes32 → Bytes32 → Bytes32) {K : Type 0}
      (codec : Codec T E (LauncherSolution K)) where
    abbrev launcher_solution : Launcher T → Bytes32 → K → LauncherSolution K
    launcher_solution l inner_puzzle_hash key_value_list = record {
      singleton_puzzle_hash = curry_tree_hash (coin_id l.coin) inner_puzzle_hash;
      amount = l.singleton_amount;
      key_value_list = key_value_list;
    }

    abbrev pub launched : Launcher T → Bytes32 → Coin
    launched l inner_puzzle_hash = record {
      parent_coin_info = coin_id l.coin;
      puzzle_hash = curry_tree_hash (coin_id l.coin) inner_puzzle_hash;
      amount = l.singleton_amount;
    }

    abbrev announced : Launcher T → T → Conditions T
    announced l solution_ptr = with_condition l.conditions (
        assert_coin_announcement
          (announcement_id sha256 to_bytes (coin_id l.coin) (to_bytes (c.tree_hash solution_ptr))))

    abbrev launch : Launcher T → Bytes32 → T → Ctx T E (Conditions T × Coin)
    launch l inner_puzzle_hash solution_ptr = serialize c solution_ptr >>= λ solution.
        insert_spend (record {
          coin = l.coin;
          puzzle_reveal = mods.singleton_launcher.bytes;
          solution = solution;
        })
        >>= λ done. pure (announced l solution_ptr, launched l inner_puzzle_hash)

    unfoldable pub spend : Launcher T → Bytes32 → K → Ctx T E (Conditions T × Coin)
    spend l inner_puzzle_hash key_value_list =
        alloc codec (launcher_solution l inner_puzzle_hash key_value_list)
        >>= launch l inner_puzzle_hash

    -- A launcher that is spent with success adds one coin spend, of the launcher coin with the launcher
    -- puzzle and a solution that encodes the puzzle hash, the amount and the metadata. The singleton is
    -- the child of the launcher coin with that puzzle hash and amount, and the conditions that come back
    -- are those of the launcher and the assertion of its announcement of the hash of that solution.
    pub spend-launched :
        (l : Launcher T) (inner_hash : Bytes32) (key_value_list : K) (s : SpendContext T)
        (conditions : Conditions T) (singleton : Coin)
        → (spend l inner_hash key_value_list s).0 ≡ ok (conditions, singleton)
        → (made : CoinSpend) × (solution_ptr : T) × (made.coin ≡ l.coin)
          × (made.puzzle_reveal ≡ mods.singleton_launcher.bytes)
          × (codec.encode (record {
            singleton_puzzle_hash = singleton.puzzle_hash;
            amount = singleton.amount;
            key_value_list = key_value_list;
          })
              ≡ ok solution_ptr)
          × (c.serialize solution_ptr ≡ ok made.solution)
          × (singleton.parent_coin_info ≡ coin_id made.coin)
          × (conditions.conditions
              ≡ l.conditions.conditions
                ++ assert_coin_announcement (
                    sha256
                      (to_bytes singleton.parent_coin_info ++ to_bytes (c.tree_hash solution_ptr)))
                  ∷ [])
          × ((spend l inner_hash key_value_list s).1
              ≡ record s { coin_spends = s.coin_spends ++ made ∷ [] })
    unfolding spend alloc serialize insert_spend announcement_id with_condition
    spend-launched l inner_hash key_value_list s conditions singleton h =
        elim (Result-cases (codec.encode (launcher_solution l inner_hash key_value_list))) [
          | inr (failure, e) ↦ ground (arith, e)
          | inl (t, e) ↦ elim (Result-cases (c.serialize t)) [
            | inr (failure, f) ↦ ground (arith, e, f)
            | inl (bytes, f) ↦
                let of_conditions : announced l t ≡ conditions = ground (arith, e, f, h) in
                let of_singleton : launched l inner_hash ≡ singleton = ground (arith, e, f, h) in
                rw (← of_conditions) (
                  rw (← of_singleton) (
                    record {
                      coin = l.coin;
                      puzzle_reveal = mods.singleton_launcher.bytes;
                      solution = bytes;
                    },
                    t,
                    refl,
                    refl,
                    e,
                    f,
                    refl,
                    refl,
                    rw e (rw f refl),
                  ))
          ]
        ]

-- `NftIntermediateLauncherArgs`, with its constructor and the hash of the puzzle that it is curried into,
-- and the shortest signed big-endian bytes of a number (`usize_to_bytes`) are given.
pub record IntermediateLauncher : Type 0 where
  pub mint_number : ℕ
  pub mint_total : ℕ
  pub intermediate_coin : Coin
  pub launcher_coin : Coin

module _ (mods : Mods) (coin_id : Coin → Bytes32) where
  unfoldable pub new_intermediate : (ℕ → ℕ → Bytes32) → Bytes32 → ℕ → ℕ → IntermediateLauncher
  new_intermediate curry_tree_hash parent_coin_id mint_number mint_total =
      let intermediate_coin : Coin = record {
        parent_coin_info = parent_coin_id;
        puzzle_hash = curry_tree_hash mint_number mint_total;
        amount = 0;
      } in
      record {
        mint_number = mint_number;
        mint_total = mint_total;
        intermediate_coin = intermediate_coin;
        launcher_coin = launcher_coin mods (coin_id intermediate_coin) 1;
      }

  module _ {T E A : Type 0} (c : Clvm T E) (sha256 : Bytes → Bytes32) (to_bytes : Bytes32 → Bytes)
      (usize_to_bytes : ℕ → Bytes) (args_codec : Codec T E A) (new_args : ℕ → ℕ → A) where
    unfoldable pub create : IntermediateLauncher → Ctx T E (Launcher T)
    create l = nft_intermediate_launcher c mods >>= λ program.
        alloc_curried c args_codec program (new_args l.mint_number l.mint_total) >>= λ puzzle.
        serialize c puzzle >>= λ puzzle_reveal. serialize c c.nil >>= λ solution.
        insert_spend (record {
          coin = l.intermediate_coin;
          puzzle_reveal = puzzle_reveal;
          solution = solution;
        })
        >>= λ done. pure (
            from_coin l.launcher_coin (
              with_condition (with_condition new (create_coin l.intermediate_coin.puzzle_hash 0 []))
                (assert_coin_announcement (
                  announcement_id sha256 to_bytes (coin_id l.intermediate_coin) (
                    to_bytes
                      (sha256 (usize_to_bytes l.mint_number ++ usize_to_bytes l.mint_total)))))))
