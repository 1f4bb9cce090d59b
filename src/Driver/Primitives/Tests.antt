-- ===== src/Driver/Primitives/Tests.antt =====
-- Runs of crates/chia-sdk-driver/src/primitives, over the CLVM of the examples, in which a puzzle puts
-- out its solution.
use chia_wallet_sdk.Prelude.{ℕ, ◌+◌, ◌*◌, ◌≡◌, refl, none, some, List, [], ◌∷◌, ◌++◌}
use chia_wallet_sdk.Prelude.Int.{pos}
use chia_wallet_sdk.Protocol.{Coin, CoinSpend, Result, ok, err}
use chia_wallet_sdk.Conditions.{Condition, create_coin, assert_coin_announcement}
use chia_wallet_sdk.Prelude.IndexMap as IndexMap
use chia_wallet_sdk.Driver.Layers.Cat as Cats
use chia_wallet_sdk.Driver.Layers.Value as Value
use chia_wallet_sdk.Driver.Context as Context
use chia_wallet_sdk.Driver.Context.{SpendContext, Spend}
use chia_wallet_sdk.Driver.Puzzle.{parse}
use chia_wallet_sdk.Driver.Spends.{IsSerialised}
use chia_wallet_sdk.Driver.Primitives.Cat.{
  Cat, CatSpend, SingleCatSpend, CreateCoin, into_create_coin, wrapped_child, spend, parse_children,
  eve,
}
use chia_wallet_sdk.Driver.Primitives.Cat.Children.{parse_children-spend}
use chia_wallet_sdk.Driver.Examples.{
  Term, atom, pair, curry, Failure, clvm, clvm-IsClvm, mods, mod_of-IsMod, TestCodec, via,
}
use chia_wallet_sdk.Conditions.Lists as Lists
use chia_wallet_sdk.Driver.Primitives.Launcher.{Launcher, LauncherSolution}
use chia_wallet_sdk.Driver.Primitives.Launcher as Launchers
use chia_wallet_sdk.Driver.Examples
use chia_wallet_sdk.Driver.Examples.Codecs as Codecs
use chia_wallet_sdk.Driver.Examples.Quotes.{quote_codec}

abbrev empty : SpendContext Term
empty = record { puzzles = []; coin_spends = [] }

abbrev coin_id : Coin → ℕ
coin_id coin = coin.parent_coin_info * 100 + coin.puzzle_hash * 10 + coin.amount

-- What a coin with two memo-free conditions is decoded from.
abbrev term_codec : TestCodec Term
term_codec = Codecs.term.0

-- The puzzle of the test is an atom, and its solution creates a coin.
abbrev first : Cat
first = record {
  coin = record { parent_coin_info = 1; puzzle_hash = 2; amount = 6 };
  lineage_proof = none;
  asset_id = 5;
  p2_puzzle_hash = 40;
}

abbrev second : Cat
second = record {
  coin = record { parent_coin_info = 3; puzzle_hash = 2; amount = 1 };
  lineage_proof = none;
  asset_id = 5;
  p2_puzzle_hash = 41;
}

-- The conditions that create a coin of 7, encoded.
abbrev creating : Term
creating = pair (pair (pair (atom 8) (atom 7)) (atom 0)) (atom 0)

abbrev hash : ℕ → ℕ → ℕ
hash asset_id inner = asset_id * 1000 + inner

abbrev single : SingleCatSpend Term
single = eve coin_id first.coin 40 (record { puzzle = atom 40; solution = creating })

parse_children-spend_example :
    (made : CoinSpend) × (made.coin ≡ first.coin)
    × ((spend clvm mods Codecs.constructors Codecs.cat_args.0 Codecs.cat_solution.0 coin_id first
          single empty).1.coin_spends
        ≡ [] ++ made ∷ [])
    × ((puzzle solution : Term) × IsSerialised clvm made puzzle solution
        × (parse_children clvm mods Codecs.constructors Codecs.cat_args.0 Codecs.cat_solution.0
              coin_id quote_codec hash first.coin
              (parse clvm puzzle)
              solution
            ≡ ok (some (wrapped_child coin_id hash first 8 7 ∷ []))))
unfolding eve spend Context.extract into_create_coin Cats.construct_puzzle Context.puzzle
    IndexMap.lookup Value.construct_puzzle Context.alloc Context.alloc_curried
    Cats.construct_solution Context.spend Context.serialize Context.insert_spend
parse_children-spend_example =
    parse_children-spend clvm mods Codecs.constructors Codecs.cat_args.0 Codecs.cat_solution.0
      coin_id quote_codec hash clvm-IsClvm (mod_of-IsMod 2) Codecs.constructors-IsConstructors
      Codecs.cat_args.1 Codecs.cat_solution.1 first single empty creating (create_coin 8 7 [] ∷ [])
      tt refl refl refl refl

-- A coin that is created, decoded from its condition.
abbrev created_decode : Term → Result Failure CreateCoin
created_decode (pair (pair (atom p) (atom n)) _) =
    ok (record { puzzle_hash = p; amount = n; memos = [] })
created_decode _ = err Examples.bad_term

abbrev created_codec : TestCodec CreateCoin
created_codec = record {
  encode = λ k. ok (pair (pair (atom k.puzzle_hash) (atom k.amount)) (atom 0));
  decode = created_decode;
}

abbrev third : Cat
third = record {
  coin = record { parent_coin_info = 4; puzzle_hash = 2; amount = 3 };
  lineage_proof = none;
  asset_id = 5;
  p2_puzzle_hash = 42;
}

-- A ring of three, in which the first creates a coin of 7, the second none, and the third melts 3.
abbrev ring : List (CatSpend Term)
ring =
    record {
      cat = first;
      inner_spend = record { puzzle = atom 40; solution = creating };
      extra_delta = pos 0;
    }
    ∷ record {
      cat = second;
      inner_spend = record { puzzle = atom 41; solution = pair (atom 1) (atom 0) };
      extra_delta = pos 0;
    }
    ∷ record {
      cat = third;
      inner_spend = record { puzzle = atom 42; solution = atom 0 };
      extra_delta = pos 3;
    }
    ∷ []

-- A launcher of 1 that is spent without metadata.
abbrev launcher : Launcher Term
launcher = record {
  coin = first.coin;
  conditions = record { conditions = [] };
  singleton_amount = 1;
}

abbrev launcher_codec : TestCodec (LauncherSolution (Unit {0}))
launcher_codec = record {
  encode = λ s. ok (pair (atom s.singleton_puzzle_hash) (atom s.amount));
  decode = λ t. err Examples.bad_term;
}

abbrev first_byte : List ℕ → ℕ
first_byte [] = 0
first_byte (n ∷ _) = n

abbrev launched : Coin
launched = record { parent_coin_info = 126; puzzle_hash = 126040; amount = 1 }

abbrev asserted : ℕ → List (Condition Term)
asserted id = assert_coin_announcement id ∷ []

spend-launched_example :
    (made : CoinSpend) × (solution_ptr : Term) × (made.coin ≡ first.coin)
    × (made.puzzle_reveal ≡ 10 ∷ [])
    × (launcher_codec.encode
          (record { singleton_puzzle_hash = 126040; amount = 1; key_value_list = tt })
        ≡ ok solution_ptr)
    × (clvm.serialize solution_ptr ≡ ok made.solution)
    × (126 ≡ coin_id made.coin)
    × (asserted 126
        ≡ []
          ++ assert_coin_announcement (first_byte ((126 ∷ []) ++ clvm.tree_hash solution_ptr ∷ []))
            ∷ [])
    × ((Launchers.spend clvm mods coin_id first_byte
          (λ n. n ∷ [])
          hash
          launcher_codec
          launcher
          40
          tt
          empty).1
        ≡ record { puzzles = []; coin_spends = [] ++ made ∷ [] })
unfolding Launchers.spend Context.alloc Context.serialize Context.insert_spend
    Launchers.announcement_id Lists.with_condition
spend-launched_example =
    Launchers.spend-launched clvm mods coin_id first_byte (λ n. n ∷ []) hash launcher_codec launcher
      40 tt empty (record { conditions = asserted 126 }) launched refl
