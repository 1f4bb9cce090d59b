-- ===== src/Driver/Tests.antt =====
-- Runs of crates/chia-sdk-driver, over the CLVM of the examples.
use chia_wallet_sdk.Prelude.{ℕ, ◌+◌, ◌*◌, ◌≡◌, refl, none, some, Option, [], ◌∷◌, ◌++◌}
use chia_wallet_sdk.Protocol.{Coin, CoinSpend, ok, err}
use chia_wallet_sdk.Conditions.{reserve_fee}
use chia_wallet_sdk.Conditions.Lists.{Conditions}
use chia_wallet_sdk.Driver.Clvm.{missing_memo}
use chia_wallet_sdk.Prelude.IndexMap as IndexMap
use chia_wallet_sdk.Driver.Context as Context
use chia_wallet_sdk.Driver.Layer as Layer
use chia_wallet_sdk.Driver.Context.{SpendContext, puzzle, extract}
use chia_wallet_sdk.Driver.Cache.{Cached, puzzle-Cached}
use chia_wallet_sdk.Driver.Puzzle.{parse}
use chia_wallet_sdk.Driver.Puzzles.{StandardSolution, SingletonStruct, SingletonArgs, DidArgs}
use chia_wallet_sdk.Driver.Layer.{Layer, IsLayer, IsHash}
use chia_wallet_sdk.Driver.Spends.{IsSerialised}
use chia_wallet_sdk.Driver.Layers.Standard
use chia_wallet_sdk.Driver.Layers.Standard.{StandardLayer}
use chia_wallet_sdk.Driver.Layers.Cat
use chia_wallet_sdk.Driver.Layers.Singleton
use chia_wallet_sdk.Driver.Layers.NftOwnership
use chia_wallet_sdk.Driver.Layers.RoyaltyTransfer
use chia_wallet_sdk.Driver.Layers.RoyaltyTransfer.{RoyaltyTransferLayer}
use chia_wallet_sdk.Driver.Layers.Value as Value
use chia_wallet_sdk.Driver.Examples.{
  Term, atom, pair, curry, Failure, clvm, clvm-IsClvm, mods, mod_of-IsMod,
}
use chia_wallet_sdk.Driver.Examples.Codecs as Codecs
use chia_wallet_sdk.Driver.Examples.Quotes.{conditions_codec}

abbrev empty : SpendContext Term
empty = record { puzzles = []; coin_spends = [] }

puzzle-Cached_example : Cached clvm mods.cat [] (puzzle clvm mods.cat empty)
puzzle-Cached_example = puzzle-Cached clvm mods.cat empty (mod_of-IsMod 2) tt

abbrev standard : Layer Term Failure StandardLayer (StandardSolution Term)
standard =
    Standard.standard_layer clvm mods Codecs.constructors Codecs.standard_args.0
      Codecs.standard_solution.0

standard-IsLayer : IsLayer clvm standard
standard-IsLayer =
    Standard.standard_layer-IsLayer clvm mods Codecs.constructors Codecs.standard_args.0
      Codecs.standard_solution.0 clvm-IsClvm (mod_of-IsMod 1) Codecs.standard_args.1
      Codecs.constructors-IsConstructors Codecs.standard_solution.1

cat_layer-IsLayer_example :
    IsLayer clvm
      (Cat.cat_layer clvm mods Codecs.constructors Codecs.cat_args.0 Codecs.cat_solution.0 standard)
cat_layer-IsLayer_example =
    Cat.cat_layer-IsLayer clvm mods Codecs.constructors Codecs.cat_args.0 Codecs.cat_solution.0
      standard clvm-IsClvm (mod_of-IsMod 2) Codecs.constructors-IsConstructors Codecs.cat_args.1
      Codecs.cat_solution.1 standard-IsLayer

abbrev new_did_args : Term → Option ℕ → ℕ → SingletonStruct → ℕ → DidArgs Term ℕ
new_did_args inner list_hash count singleton_struct metadata = record {
  inner_puzzle = inner;
  recovery_list_hash = list_hash;
  num_verifications_required = count;
  singleton_struct = singleton_struct;
  metadata = metadata;
}

abbrev royalty : Layer Term Failure RoyaltyTransferLayer (⊥)
royalty =
    RoyaltyTransfer.royalty_transfer_layer clvm mods Codecs.constructors Codecs.royalty_args.0
      (err missing_memo)

royalty-IsLayer : IsLayer clvm royalty
royalty-IsLayer =
    RoyaltyTransfer.royalty_transfer_layer-IsLayer clvm mods Codecs.constructors
      Codecs.royalty_args.0 (err missing_memo) clvm-IsClvm (mod_of-IsMod 5) Codecs.royalty_args.1
      Codecs.constructors-IsConstructors

nft_ownership_layer-IsLayer_example : IsLayer clvm (
    NftOwnership.nft_ownership_layer clvm mods Codecs.constructors Codecs.ownership_args.0
      Codecs.ownership_solution.0 royalty standard)
nft_ownership_layer-IsLayer_example =
    NftOwnership.nft_ownership_layer-IsLayer clvm mods Codecs.constructors Codecs.ownership_args.0
      Codecs.ownership_solution.0 royalty standard clvm-IsClvm (mod_of-IsMod 7)
      Codecs.ownership_args.1 royalty-IsLayer standard-IsLayer Codecs.constructors-IsConstructors
      Codecs.ownership_solution.1

-- A singleton around a node pointer.
abbrev args_hash : SingletonArgs ℕ → ℕ
args_hash a =
    (a.singleton_struct.mod_hash * 5
        + (a.singleton_struct.launcher_id * 5 + a.singleton_struct.launcher_puzzle_hash + 2)
        + 2)
      * 5
    + a.inner_puzzle
    + 2

abbrev around_ptr : Singleton.SingletonLayer Term
around_ptr = record { launcher_id = 3; inner_puzzle = atom 4 }

abbrev singleton_term : Term
singleton_term = curry (atom 9) (pair (pair (atom 9) (pair (atom 3) (atom 10))) (atom 4))

-- A coin that is spent with the condition of a fee.
abbrev coin : Coin
coin = record { parent_coin_info = 1; puzzle_hash = 2; amount = 3 }

abbrev fee : Conditions Term
fee = record { conditions = reserve_fee 4 ∷ [] }

abbrev layer : StandardLayer
layer = record { synthetic_key = 21 }

spend_coin-lem_example :
    (made : CoinSpend) × (made.coin ≡ coin)
    × ((puzzle solution delegated_puzzle : Term) × IsSerialised clvm made puzzle solution
        × (conditions_codec.encode fee ≡ ok delegated_puzzle)
        × (standard.parse_puzzle (parse clvm puzzle) ≡ ok (some layer))
        × (standard.parse_solution solution
            ≡ ok (record {
              original_public_key = none;
              delegated_puzzle = delegated_puzzle;
              solution = clvm.nil;
            })))
    × ((Standard.spend_coin clvm mods Codecs.constructors Codecs.standard_args.0
          Codecs.standard_solution.0 conditions_codec layer coin fee empty).1.coin_spends
        ≡ [] ++ made ∷ [])
unfolding Standard.spend_coin Standard.spend_with_conditions Context.alloc Layer.construct_spend
    Standard.construct_solution Standard.construct_puzzle puzzle IndexMap.lookup
    Context.alloc_curried Context.spend Context.serialize Context.insert_spend
spend_coin-lem_example =
    Standard.spend_coin-lem clvm mods Codecs.constructors Codecs.standard_args.0
      Codecs.standard_solution.0 clvm-IsClvm (mod_of-IsMod 1) Codecs.standard_args.1
      Codecs.constructors-IsConstructors conditions_codec Codecs.standard_solution.1 layer coin fee
      empty tt refl
