-- ===== src/Driver/Layers/NftState.antt =====
-- crates/chia-sdk-driver/src/layers/nft_state_layer.rs.
use chia_wallet_sdk.Prelude.{
  ◌≡◌, refl, ap, ◌∙◌, not, Option, some, List, [], ◌∷◌, ◌==◌, if◌then◌else◌, arith,
}
use chia_wallet_sdk.Protocol.{Bytes32, Result, ok, err, ◌>>=◌}
use chia_wallet_sdk.Driver.Clvm.{
  Clvm, IsClvm, Codec, IsCodec, IsMod, DriverError, invalid_mod_hash, to_clvm, eval, try_to,
}
use chia_wallet_sdk.Driver.Context.{Ctx, Mods, extract}
use chia_wallet_sdk.Driver.Puzzle.{Puzzle, parse}
use chia_wallet_sdk.Driver.Puzzles.{NftStateLayerArgs, NftStateLayerSolution}
use chia_wallet_sdk.Driver.Layer.{Layer, IsLayer, IsHash, curried_args}
use chia_wallet_sdk.Driver.Wrapped.{if_some, wrapped, wrapped_solution}
use chia_wallet_sdk.Driver.Lawful.{around-IsLayer, around-IsHash}

pub record NftStateLayer (M I : Type 0) : Type 0 where
  pub metadata : M
  pub metadata_updater_puzzle_hash : Bytes32
  pub inner_puzzle : I

unfoldable pub with_metadata : {M N I : Type 0} → NftStateLayer M I → N → NftStateLayer N I
with_metadata l metadata = record {
  metadata = metadata;
  metadata_updater_puzzle_hash = l.metadata_updater_puzzle_hash;
  inner_puzzle = l.inner_puzzle;
}

-- What `get_next_metadata` reads of the output of an updater (`NewMetadataOutput`), and of the condition
-- that names the updater (`UpdateNftMetadata`).
pub record NewMetadataInfo (M : Type 0) : Type 0 where
  pub new_metadata : M
  pub new_updater_puzzle_hash : Bytes32

pub record NewMetadataOutput (M T : Type 0) : Type 0 where
  pub metadata_info : NewMetadataInfo M
  pub conditions : T

pub record UpdateNftMetadata (T : Type 0) : Type 0 where
  pub updater_puzzle_reveal : T
  pub updater_solution : T

unfoldable pub get_next_metadata :
    {T E M : Type 0}
    → Clvm T E
    → Codec T E M
    → Codec T E Bytes32
    → Codec T E (List T)
    → Codec T E (NewMetadataOutput M T)
    → M
    → Bytes32
    → UpdateNftMetadata T
    → Result (DriverError E) M
get_next_metadata c metadata_codec hash_codec list_codec output_codec current updater_puzzle_hash
      condition =
    try_to to_clvm (metadata_codec.encode current) >>= λ metadata.
    try_to to_clvm (hash_codec.encode updater_puzzle_hash) >>= λ hash.
    try_to to_clvm (list_codec.encode (metadata ∷ hash ∷ condition.updater_solution ∷ []))
    >>= λ solution.
        try_to eval (c.run_puzzle condition.updater_puzzle_reveal solution) >>= λ output.
        extract output_codec output >>= λ parsed. ok parsed.metadata_info.new_metadata

module _ {T E M : Type 0} (c : Clvm T E) (mods : Mods)
    (args_codec : Codec T E (NftStateLayerArgs T M))
    (solution_codec : Codec T E (NftStateLayerSolution T)) {I S : Type 0}
    (inner : Layer T E I S) where
  unfoldable pub parse_puzzle : Puzzle T → Result (DriverError E) (Option (NftStateLayer M I))
  parse_puzzle puzzle = if_some (curried_args c args_codec mods.nft_state_layer.hash puzzle) λ args.
      if not (args.mod_hash == mods.nft_state_layer.hash)
      then err invalid_mod_hash
      else if_some (inner.parse_puzzle (parse c args.inner_puzzle)) λ inner_puzzle. ok (
          some (record {
            metadata = args.metadata;
            metadata_updater_puzzle_hash = args.metadata_updater_puzzle_hash;
            inner_puzzle = inner_puzzle;
          }))

  abbrev solution_with : {A : Type 0} → A → NftStateLayerSolution A
  solution_with inner_solution = record { inner_solution = inner_solution }

  unfoldable pub parse_solution : T → Result (DriverError E) (NftStateLayerSolution S)
  parse_solution solution = extract solution_codec solution >>= λ s.
      inner.parse_solution s.inner_solution >>= λ inner_solution. ok (solution_with inner_solution)

  abbrev args_of : {N A : Type 0} → N → Bytes32 → A → NftStateLayerArgs A N
  args_of metadata updater_puzzle_hash inner_puzzle = record {
    mod_hash = mods.nft_state_layer.hash;
    metadata = metadata;
    metadata_updater_puzzle_hash = updater_puzzle_hash;
    inner_puzzle = inner_puzzle;
  }

  unfoldable pub construct_puzzle : NftStateLayer M I → Ctx T E T
  construct_puzzle l =
      wrapped c args_codec mods.nft_state_layer inner l.inner_puzzle
        (args_of l.metadata l.metadata_updater_puzzle_hash)

  unfoldable pub construct_solution : NftStateLayer M I → NftStateLayerSolution S → Ctx T E T
  construct_solution l solution =
      wrapped_solution c solution_codec inner l.inner_puzzle solution.inner_solution solution_with

  abbrev pub nft_state_layer : Layer T E (NftStateLayer M I) (NftStateLayerSolution S)
  nft_state_layer = record {
    parse_puzzle = parse_puzzle;
    parse_solution = parse_solution;
    construct_puzzle = construct_puzzle;
    construct_solution = construct_solution;
  }

  -- An NFT state layer around a lawful layer is a lawful layer.
  pub nft_state_layer-IsLayer :
      IsClvm c
      → IsMod c mods.nft_state_layer
      → IsCodec args_codec
      → IsCodec solution_codec
      → IsLayer c inner
      → IsLayer c nft_state_layer
  unfolding parse_puzzle parse_solution construct_puzzle construct_solution
  nft_state_layer-IsLayer lawful is_mod args_coded solution_coded layered =
      around-IsLayer c lawful mods.nft_state_layer is_mod args_codec args_coded inner
        nft_state_layer (λ l. l.inner_puzzle)
        (λ l. args_of l.metadata l.metadata_updater_puzzle_hash) (λ l. refl) layered solution_codec
        (λ s. s.inner_solution) (λ s. solution_with) solution_coded
        (λ l p i found parsed. ground (arith, found, parsed)) (λ l s. refl)
        (λ s t i found parsed. ground (arith, found, parsed))

  -- `ToTreeHash` of the arguments is given.
  module _ (args_hash : NftStateLayerArgs Bytes32 Bytes32 → Bytes32) (metadata_hash : M → Bytes32)
      (inner_hash : I → Bytes32) where
    unfoldable pub tree_hash : NftStateLayer M I → Bytes32
    tree_hash l = c.curry_hash mods.nft_state_layer.hash (
        args_hash (
          args_of (metadata_hash l.metadata) l.metadata_updater_puzzle_hash
            (inner_hash l.inner_puzzle)))

    pub tree_hash-IsHash :
        IsClvm c
        → IsMod c mods.nft_state_layer
        → IsCodec args_codec
        → IsHash c inner inner_hash
        → ((metadata : M) (updater_puzzle_hash : Bytes32) (i encoded : T)
            → args_codec.encode (args_of metadata updater_puzzle_hash i) ≡ ok encoded
            → c.tree_hash encoded
              ≡ args_hash (args_of (metadata_hash metadata) updater_puzzle_hash (c.tree_hash i)))
        → IsHash c nft_state_layer tree_hash
    unfolding tree_hash construct_puzzle
    tree_hash-IsHash lawful is_mod args_coded inner_hashes hashed =
        around-IsHash c lawful mods.nft_state_layer is_mod args_codec args_coded inner
          nft_state_layer (λ l. l.inner_puzzle)
          (λ l. args_of l.metadata l.metadata_updater_puzzle_hash) (λ l. refl) inner_hash
          inner_hashes tree_hash
          (λ l i encoded e h. ap (c.curry_hash mods.nft_state_layer.hash) (
            hashed l.metadata l.metadata_updater_puzzle_hash i encoded e
            ∙ ap
                (λ x.
                  args_hash (args_of (metadata_hash l.metadata) l.metadata_updater_puzzle_hash x))
                h))
