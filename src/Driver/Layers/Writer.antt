-- ===== src/Driver/Layers/Writer.antt =====
-- crates/chia-sdk-driver/src/layers/datalayer/writer_layer.rs.
use chia_wallet_sdk.Prelude.{◌≡◌, refl, ap, ◌∙◌, Option, none, some, arith}
use chia_wallet_sdk.Protocol.{Bytes32, Result, ok, ◌>>=◌}
use chia_wallet_sdk.Driver.Clvm.{Clvm, IsClvm, Codec, IsCodec, IsMod, DriverError}
use chia_wallet_sdk.Driver.Context.{Ctx, Spend, Mods, extract, alloc, pure}
use chia_wallet_sdk.Driver.Puzzle.{Puzzle, parse}
use chia_wallet_sdk.Driver.Layer.{Layer, IsLayer, IsHash, curried_args}
use chia_wallet_sdk.Driver.Wrapped.{if_some, wrapped, wrapped_solution}
use chia_wallet_sdk.Driver.Lawful.{around-IsLayer, around-IsHash}
use chia_wallet_sdk.Driver.Context as Context
use chia_wallet_sdk.Driver.Puzzles.{StandardSolution}
use chia_wallet_sdk.Conditions.Lists.{Conditions}

pub record WriterLayer (I : Type 0) : Type 0 where
  pub inner_puzzle : I

pub record WriterLayerArgs (I : Type 0) : Type 0 where
  pub inner_puzzle : I

unfoldable pub new_args : {I : Type 0} → I → WriterLayerArgs I
new_args inner_puzzle = record { inner_puzzle = inner_puzzle }

pub record WriterLayerSolution (I : Type 0) : Type 0 where
  pub inner_solution : I

module _ {T E : Type 0} (c : Clvm T E) (mods : Mods) (args_codec : Codec T E (WriterLayerArgs T))
    (solution_codec : Codec T E (WriterLayerSolution T)) {I S : Type 0}
    (inner : Layer T E I S) where
  unfoldable pub parse_puzzle : Puzzle T → Result (DriverError E) (Option (WriterLayer I))
  parse_puzzle puzzle = if_some (curried_args c args_codec mods.writer_filter.hash puzzle) λ args.
      if_some (inner.parse_puzzle (parse c args.inner_puzzle))
        λ inner_puzzle. ok (some (record { inner_puzzle = inner_puzzle }))

  unfoldable pub parse_solution : T → Result (DriverError E) S
  parse_solution solution =
      extract solution_codec solution >>= λ s. inner.parse_solution s.inner_solution

  unfoldable pub construct_puzzle : WriterLayer I → Ctx T E T
  construct_puzzle l = wrapped c args_codec mods.writer_filter inner l.inner_puzzle new_args

  unfoldable pub construct_solution : WriterLayer I → S → Ctx T E T
  construct_solution l solution =
      wrapped_solution c solution_codec inner l.inner_puzzle solution
        λ inner_solution. record { inner_solution = inner_solution }

  abbrev pub writer_layer : Layer T E (WriterLayer I) S
  writer_layer = record {
    parse_puzzle = parse_puzzle;
    parse_solution = parse_solution;
    construct_puzzle = construct_puzzle;
    construct_solution = construct_solution;
  }

  -- A writer layer around a lawful layer is a lawful layer.
  pub writer_layer-IsLayer :
      IsClvm c
      → IsMod c mods.writer_filter
      → IsCodec args_codec
      → IsCodec solution_codec
      → IsLayer c inner
      → IsLayer c writer_layer
  unfolding new_args parse_puzzle parse_solution construct_puzzle construct_solution
  writer_layer-IsLayer lawful is_mod args_coded solution_coded layered =
      around-IsLayer c lawful mods.writer_filter is_mod args_codec args_coded inner writer_layer
        (λ l. l.inner_puzzle) (λ l. new_args) (λ l. refl) layered solution_codec (λ s. s)
        (λ s inner_solution. record { inner_solution = inner_solution }) solution_coded
        (λ l p i found parsed. ground (arith, found, parsed)) (λ l s. refl)
        (λ s t i found parsed. ground (arith, found, parsed))

  -- `ToTreeHash` of the arguments is given.
  module _ (args_hash : WriterLayerArgs Bytes32 → Bytes32) (inner_hash : I → Bytes32) where
    unfoldable pub curry_tree_hash : Bytes32 → Bytes32
    curry_tree_hash inner_puzzle =
        c.curry_hash mods.writer_filter.hash (args_hash (record { inner_puzzle = inner_puzzle }))

    unfoldable pub tree_hash : WriterLayer I → Bytes32
    tree_hash l = curry_tree_hash (inner_hash l.inner_puzzle)

    pub tree_hash-IsHash :
        IsClvm c
        → IsMod c mods.writer_filter
        → IsCodec args_codec
        → IsHash c inner inner_hash
        → ((i encoded : T)
            → args_codec.encode (new_args i) ≡ ok encoded
            → c.tree_hash encoded ≡ args_hash (record { inner_puzzle = c.tree_hash i }))
        → IsHash c writer_layer tree_hash
    unfolding new_args tree_hash curry_tree_hash construct_puzzle
    tree_hash-IsHash lawful is_mod args_coded inner_hashes hashed =
        around-IsHash c lawful mods.writer_filter is_mod args_codec args_coded inner writer_layer
          (λ l. l.inner_puzzle) (λ l. new_args) (λ l. refl) inner_hash inner_hashes tree_hash
          (λ l i encoded e h.
            ap (c.curry_hash mods.writer_filter.hash)
              (hashed i encoded e ∙ ap (λ x. args_hash (record { inner_puzzle = x })) h))

-- `quote_codec` encodes conditions as `clvm_quote!` does.
module _ {T E S : Type 0} (c : Clvm T E) (writer : Layer T E (WriterLayer S) (StandardSolution T))
    (quote_codec : Codec T E (Conditions T)) where
  unfoldable pub spend : WriterLayer S → Conditions T → Ctx T E (Spend T)
  spend l output_conditions = Context.◌>>=◌ (alloc quote_codec output_conditions) λ dp.
      Context.◌>>=◌
        (writer.construct_solution l
          (record { original_public_key = none; delegated_puzzle = dp; solution = c.nil }))
        λ solution.
          Context.◌>>=◌ (writer.construct_puzzle l)
            λ puzzle. pure (record { puzzle = puzzle; solution = solution })
