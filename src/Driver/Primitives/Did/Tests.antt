-- ===== src/Driver/Primitives/Did/Tests.antt =====
-- A run of the parsing of a DID's child of crates/chia-sdk-driver/src/primitives/did.rs, over the CLVM of
-- the examples.
use chia_wallet_sdk.Prelude.{ℕ, zero, suc, ◌+◌, ◌*◌, ◌≡◌, refl, none, some, Option, List, [], ◌∷◌}
use chia_wallet_sdk.Protocol.{Bytes32, Coin, CoinSpend, Result, ok, err}
use chia_wallet_sdk.Conditions.{Condition, create_coin}
use chia_wallet_sdk.Driver.Layers.Value as Value
use chia_wallet_sdk.Driver.Context as Context
use chia_wallet_sdk.Driver.Context.{SpendContext, Spend}
use chia_wallet_sdk.Driver.Puzzle.{parse}
use chia_wallet_sdk.Driver.Primitives.Cat.{into_create_coin}
use chia_wallet_sdk.Driver.Examples.{
  Term, atom, pair, curry, Failure, clvm, clvm-IsClvm, mods, mod_of-IsMod, TestCodec, via,
}
use chia_wallet_sdk.Driver.Puzzles.{SingletonStruct, SingletonArgs, DidArgs, lineage}
use chia_wallet_sdk.Driver.Puzzles as Puzzles
use chia_wallet_sdk.Driver.Primitives.Did.{Did, Hashes, parse_child}
use chia_wallet_sdk.Driver.Primitives.Did.Children.{parse_child-wrapped_child}
use chia_wallet_sdk.Driver.Primitives.Did as Did
use chia_wallet_sdk.Driver.Layers.Singleton as Singletons
use chia_wallet_sdk.Driver.Layers.Did as Dids
use chia_wallet_sdk.Driver.Layer as Layer
use chia_wallet_sdk.Driver.Puzzle as Puzzle
use chia_wallet_sdk.Protocol as Protocol
use chia_wallet_sdk.Driver.Examples
use chia_wallet_sdk.Driver.Examples.Codecs as Codecs

abbrev coin_id : Coin → ℕ
coin_id coin = coin.parent_coin_info * 100 + coin.puzzle_hash * 10 + coin.amount

-- A DID with the metadata 9, whose owner's puzzle is an atom.
abbrev did : Did ℕ
did = record {
  coin = record { parent_coin_info = 1; puzzle_hash = 2; amount = 1 };
  proof = Puzzles.eve (record { parent_parent_coin_info = 6; parent_amount = 0 });
  info = record {
    launcher_id = 30;
    recovery_list_hash = none;
    num_verifications_required = 1;
    metadata = 9;
    p2_puzzle_hash = 40;
  };
}

abbrev did_inner : Term
did_inner = curry (atom 3) (
    pair (atom 40)
      (pair (atom 0) (pair (atom 1) (pair (pair (atom 9) (pair (atom 30) (atom 10))) (atom 9)))))

abbrev did_args : SingletonArgs Term
did_args = record {
  singleton_struct = Codecs.constructors.new_singleton_struct 30;
  inner_puzzle = did_inner;
}

abbrev did_puzzle : Term
did_puzzle = curry (atom 9) (pair (pair (atom 9) (pair (atom 30) (atom 10))) did_inner)

abbrev did_solution : Term
did_solution = pair (pair (atom 6) (atom 0)) (pair (atom 1) (atom 50))

-- A hint of 32 bytes, which spell the number 7.
abbrev zeros : ℕ → List ℕ
zeros zero = 7 ∷ []
zeros (suc n) = 0 ∷ zeros n

abbrev hinted : TestCodec (List (Condition Term))
hinted = record {
  encode = λ conditions. err Examples.bad_term;
  decode = λ t. ok (create_coin 8 2 [] ∷ create_coin 8 1 (zeros 31 ∷ []) ∷ []);
}

abbrev hashes : Hashes
hashes = record {
  did = λ inner list_hash count singleton_struct metadata. inner * 10 + metadata;
  singleton = λ id inner. id * 100 + inner;
}

abbrev new_did_args : Term → Option ℕ → ℕ → SingletonStruct → ℕ → DidArgs Term ℕ
new_did_args inner list_hash count singleton_struct metadata = record {
  inner_puzzle = inner;
  recovery_list_hash = list_hash;
  num_verifications_required = count;
  singleton_struct = singleton_struct;
  metadata = metadata;
}

abbrev did_child : Did ℕ
did_child = record {
  coin = record { parent_coin_info = 121; puzzle_hash = 3079; amount = 1 };
  proof =
      lineage
        (record { parent_parent_coin_info = 1; parent_inner_puzzle_hash = 409; parent_amount = 1 });
  info = record {
    launcher_id = 30;
    recovery_list_hash = none;
    num_verifications_required = 1;
    metadata = 9;
    p2_puzzle_hash = 7;
  };
}

parse_child-wrapped_child_example :
    parse_child clvm mods Codecs.constructors new_did_args Codecs.singleton_args.0
      Codecs.singleton_solution.0 Codecs.did_args.0 Codecs.did_codec hinted
      (Codecs.nat.0)
      hashes
      did.coin
      (parse clvm did_puzzle)
      did_solution
      did_child.coin
    ≡ ok (some did_child)
unfolding Did.wrapped_child Singletons.parse_puzzle Layer.curried_args Puzzle.as_curried parse
    Puzzle.parse_curried Context.extract Dids.parse_puzzle Value.parse_puzzle Did.into_layers
    Puzzle.ptr into_create_coin Protocol.bytes32_from Did.info_with_metadata Did.with_p2_puzzle_hash
    Did.inner_puzzle_hash Did.child_lineage_proof
parse_child-wrapped_child_example =
    parse_child-wrapped_child clvm mods Codecs.constructors new_did_args Codecs.singleton_args.0
      Codecs.singleton_solution.0 Codecs.did_args.0 Codecs.did_codec clvm-IsClvm hinted
      (Codecs.nat.0) hashes (λ n. n) coin_id did did_child.coin (parse clvm did_puzzle) (atom 40)
      did_solution (atom 9) (atom 50) did_args
      (record { lineage_proof = did.proof; amount = 1; inner_solution = atom 50 })
      (create_coin 8 2 [] ∷ create_coin 8 1 (zeros 31 ∷ []) ∷ [])
      (record { puzzle_hash = 8; amount = 1; memos = zeros 31 ∷ [] }) 7 refl refl refl refl refl
      refl refl refl refl refl refl
