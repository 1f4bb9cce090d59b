-- ===== src/Driver/Primitives/Nft/Tests.antt =====
-- A run of the parsing of an NFT's child of crates/chia-sdk-driver/src/primitives/nft.rs, over the CLVM
-- of the examples.
use chia_wallet_sdk.Prelude.{ℕ, ◌+◌, ◌*◌, ◌≡◌, refl, Option, none, some, List, [], ◌∷◌}
use chia_wallet_sdk.Protocol.{Coin, ok, err}
use chia_wallet_sdk.Conditions.{Condition, create_coin, transfer_nft}
use chia_wallet_sdk.Driver.Clvm.{missing_memo}
use chia_wallet_sdk.Driver.Context as Context
use chia_wallet_sdk.Driver.Layer as Layer
use chia_wallet_sdk.Driver.Puzzle.{parse}
use chia_wallet_sdk.Driver.Puzzle as Puzzle
use chia_wallet_sdk.Driver.Puzzles.{SingletonArgs, lineage}
use chia_wallet_sdk.Driver.Puzzles as Puzzles
use chia_wallet_sdk.Driver.Layers.Singleton as Singletons
use chia_wallet_sdk.Driver.Layers.NftState as States
use chia_wallet_sdk.Driver.Layers.NftState.{NewMetadataOutput}
use chia_wallet_sdk.Driver.Layers.NftOwnership as Ownerships
use chia_wallet_sdk.Driver.Layers.RoyaltyTransfer as Royalty
use chia_wallet_sdk.Driver.Layers.Value as Value
use chia_wallet_sdk.Driver.Primitives.Nft.{Nft, Hashes}
use chia_wallet_sdk.Driver.Primitives.Nft as Nfts
use chia_wallet_sdk.Driver.Primitives.Nft.Parse.{Codecs, parse_child}
use chia_wallet_sdk.Driver.Primitives.Nft.Parse as Parsing
use chia_wallet_sdk.Driver.Primitives.Nft.Children.{parse_child-wrapped_nft}
use chia_wallet_sdk.Driver.Examples.{
  Term, atom, pair, curry, Failure, bad_term, clvm, clvm-IsClvm, mods, TestCodec,
}
use chia_wallet_sdk.Driver.Examples.Codecs as Examples

abbrev codecs : Codecs Term Failure ℕ
codecs = record {
  singleton_args = Examples.singleton_args.0;
  singleton_solution = Examples.singleton_solution.0;
  state_args = Examples.state_args.0;
  state_solution = Examples.state_solution.0;
  ownership_args = Examples.ownership_args.0;
  ownership_solution = Examples.ownership_solution.0;
  royalty_args = Examples.royalty_args.0;
  panicked = err missing_memo;
}

abbrev pair_hash : ℕ → ℕ → ℕ
pair_hash a b = a * 5 + b + 2

abbrev hash_owner : Option ℕ → ℕ
hash_owner none = 0
hash_owner (some id) = pair_hash 1 id

abbrev hashes : Hashes
hashes = record {
  state = λ a.
      pair_hash a.mod_hash
        (pair_hash a.metadata (pair_hash a.metadata_updater_puzzle_hash a.inner_puzzle));
  ownership = λ owner transfer inner.
      clvm.curry_hash 7 (pair_hash 7 (pair_hash (hash_owner owner) (pair_hash transfer inner)));
  royalty = λ id hash part.
      clvm.curry_hash 5 (pair_hash (pair_hash 9 (pair_hash id 10)) (pair_hash hash part));
  singleton = λ id inner. clvm.curry_hash 9 (pair_hash (pair_hash 9 (pair_hash id 10)) inner);
}

-- An NFT with the metadata 9, whose owner's puzzle is an atom.
abbrev nft : Nft ℕ
nft = record {
  coin = record { parent_coin_info = 1; puzzle_hash = 2; amount = 1 };
  proof = Puzzles.eve (record { parent_parent_coin_info = 6; parent_amount = 0 });
  info = record {
    launcher_id = 30;
    metadata = 9;
    metadata_updater_puzzle_hash = 6;
    current_owner = none;
    royalty_puzzle_hash = 33;
    royalty_ten_thousandths = 300;
    p2_puzzle_hash = 40;
  };
}

abbrev struct : Term
struct = pair (atom 9) (pair (atom 30) (atom 10))

abbrev transfer_program : Term
transfer_program = curry (atom 5) (pair struct (pair (atom 33) (atom 300)))

abbrev ownership : Term
ownership = curry (atom 7) (pair (atom 7) (pair (atom 0) (pair transfer_program (atom 40))))

abbrev state : Term
state = curry (atom 8) (pair (atom 8) (pair (atom 9) (pair (atom 6) ownership)))

abbrev whole : Term
whole = curry (atom 9) (pair struct state)

abbrev solution : Term
solution = pair (pair (atom 6) (atom 0)) (pair (atom 1) (atom 50))

-- The inner puzzle creates a coin and transfers the NFT.
abbrev conditions : List (Condition Term)
conditions = create_coin 8 2 [] ∷ create_coin 41 1 [] ∷ transfer_nft (some 70) [] (some 71) ∷ []

abbrev conditions_codec : TestCodec (List (Condition Term))
conditions_codec = record { encode = λ a. err bad_term; decode = λ t. ok conditions }

abbrev output_codec : TestCodec (NewMetadataOutput ℕ Term)
output_codec = record { encode = λ a. err bad_term; decode = λ t. err bad_term }

abbrev coin_id : Coin → ℕ
coin_id coin = coin.parent_coin_info * 100 + coin.puzzle_hash * 10 + coin.amount

parse_child-wrapped_nft_example :
    (parse_child clvm mods Examples.constructors codecs conditions_codec output_codec hashes
      (λ n. n)
      coin_id
      nft.coin
      (parse clvm whole)
      solution)
    ≡ ok (some (Nfts.wrapped_child clvm mods hashes (λ n. n) (λ n. n) coin_id nft 41 (some 70) 9))
unfolding Singletons.parse_puzzle Layer.curried_args Puzzle.as_curried parse Puzzle.parse_curried
    Context.extract States.parse_puzzle Ownerships.parse_puzzle Royalty.parse_puzzle
    Value.parse_puzzle Nfts.into_layers Puzzle.ptr Nfts.inner_puzzle_hash Royalty.tree_hash
    Singletons.parse_solution States.parse_solution Ownerships.parse_solution Parsing.find_all
    Parsing.find_one
parse_child-wrapped_nft_example =
    parse_child-wrapped_nft clvm mods Examples.constructors codecs clvm-IsClvm conditions_codec
      output_codec hashes (λ n. n) coin_id nft (parse clvm whole) (atom 40) solution (atom 50)
      (record {
        singleton_struct = Examples.constructors.new_singleton_struct 30;
        inner_puzzle = state;
      })
      (record {
        lineage_proof = nft.proof;
        amount = 1;
        inner_solution = record { inner_solution = record { inner_solution = atom 50 } };
      })
      conditions (record { puzzle_hash = 41; amount = 1; memos = [] })
      (some (record { did_id = some 70; trade_prices = []; did_inner_puzzle_hash = some 71 })) refl
      refl refl refl refl refl refl refl
