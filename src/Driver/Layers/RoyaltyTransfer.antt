-- ===== src/Driver/Layers/RoyaltyTransfer.antt =====
-- crates/chia-sdk-driver/src/layers/royalty_transfer_layer.rs.
use chia_wallet_sdk.Prelude.{◌≡◌, refl, not, Option, some, if◌then◌else◌, ℕ, arith}
use chia_wallet_sdk.Protocol.{Bytes32, Result, ok, err}
use chia_wallet_sdk.Driver.Clvm.{
  Clvm, IsClvm, Codec, IsCodec, IsMod, DriverError, invalid_singleton_struct,
}
use chia_wallet_sdk.Driver.Context.{Ctx, Mods, puzzle}
use chia_wallet_sdk.Driver.Puzzle.{Puzzle}
use chia_wallet_sdk.Driver.Puzzles.{
  NftRoyaltyTransferPuzzleArgs, Constructors, IsConstructors, is_singleton_struct,
}
use chia_wallet_sdk.Driver.Layer.{Layer, IsLayer, IsHash, curried_args, curried_mod}
use chia_wallet_sdk.Driver.Wrapped.{if_some, curried_mod-parts, curried_mod-Keeps}
use chia_wallet_sdk.Driver.Lawful.{leaf-IsHash}

pub record RoyaltyTransferLayer : Type 0 where
  pub launcher_id : Bytes32
  pub royalty_puzzle_hash : Bytes32
  pub royalty_ten_thousandths : ℕ

-- `NftRoyaltyTransferPuzzleArgs::curry_tree_hash` is given.
unfoldable pub tree_hash : (Bytes32 → Bytes32 → ℕ → Bytes32) → RoyaltyTransferLayer → Bytes32
tree_hash curry_tree_hash l =
    curry_tree_hash l.launcher_id l.royalty_puzzle_hash l.royalty_ten_thousandths

-- The solution is `Infallible`, which has no values; `panicked` stands for the panic of the methods of a
-- solution.
module _ {T E : Type 0} (c : Clvm T E) (mods : Mods) (new : Constructors T)
    (args_codec : Codec T E NftRoyaltyTransferPuzzleArgs)
    (panicked : Result (DriverError E) (⊥)) where
  abbrev args_of : RoyaltyTransferLayer → NftRoyaltyTransferPuzzleArgs
  args_of l = record {
    singleton_struct = new.new_singleton_struct l.launcher_id;
    royalty_puzzle_hash = l.royalty_puzzle_hash;
    royalty_ten_thousandths = l.royalty_ten_thousandths;
  }

  unfoldable pub construct_puzzle : RoyaltyTransferLayer → Ctx T E T
  construct_puzzle l = curried_mod c args_codec mods.nft_royalty_transfer (args_of l)

  unfoldable pub parse_puzzle : Puzzle T → Result (DriverError E) (Option RoyaltyTransferLayer)
  parse_puzzle puzzle =
      if_some (curried_args c args_codec mods.nft_royalty_transfer.hash puzzle) λ args.
        if not (is_singleton_struct mods args.singleton_struct)
        then err invalid_singleton_struct
        else ok (
            some (record {
              launcher_id = args.singleton_struct.launcher_id;
              royalty_puzzle_hash = args.royalty_puzzle_hash;
              royalty_ten_thousandths = args.royalty_ten_thousandths;
            }))

  abbrev pub royalty_transfer_layer : Layer T E RoyaltyTransferLayer (⊥)
  royalty_transfer_layer = record {
    parse_puzzle = parse_puzzle;
    parse_solution = λ solution. panicked;
    construct_puzzle = construct_puzzle;
    construct_solution = λ l. absurd;
  }

  module _ (lawful : IsClvm c) (is_mod : IsMod c mods.nft_royalty_transfer)
      (args_coded : IsCodec args_codec) where
    -- The royalty transfer layer is lawful: its puzzle is parsed, and it has no solution.
    pub royalty_transfer_layer-IsLayer : IsConstructors mods new → IsLayer c royalty_transfer_layer
    unfolding parse_puzzle construct_puzzle
    royalty_transfer_layer-IsLayer constructed = record {
      parse_puzzle-construct_puzzle = λ l s t w h.
          let (found, _, _, _) =
            curried_mod-parts c args_codec lawful args_coded mods.nft_royalty_transfer is_mod
              (args_of l) s t w h in
          ground (arith, found, constructed.singleton_struct l.launcher_id);
      construct_puzzle-Keeps = λ l.
          curried_mod-Keeps c args_codec lawful args_coded mods.nft_royalty_transfer is_mod
            (args_of l);
      parse_solution-construct_solution = λ l solution. absurd solution;
      construct_solution-Keeps = λ l solution. absurd solution;
    }

    pub tree_hash-IsHash :
        (curry_tree_hash : Bytes32 → Bytes32 → ℕ → Bytes32)
        → ((l : RoyaltyTransferLayer) (encoded : T)
            → args_codec.encode (args_of l) ≡ ok encoded
            → c.curry_hash mods.nft_royalty_transfer.hash (c.tree_hash encoded)
              ≡ curry_tree_hash l.launcher_id l.royalty_puzzle_hash l.royalty_ten_thousandths)
        → IsHash c royalty_transfer_layer (tree_hash curry_tree_hash)
    unfolding construct_puzzle tree_hash
    tree_hash-IsHash curry_tree_hash curried =
        leaf-IsHash c lawful mods.nft_royalty_transfer is_mod args_codec args_coded
          royalty_transfer_layer args_of (λ l. refl) (tree_hash curry_tree_hash) curried
