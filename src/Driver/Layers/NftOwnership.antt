-- ===== src/Driver/Layers/NftOwnership.antt =====
-- crates/chia-sdk-driver/src/layers/nft_ownership_layer.rs.
use chia_wallet_sdk.Prelude.{◌≡◌, ap, ap₂, ◌∙◌, not, Option, none, some, ◌==◌, if◌then◌else◌, arith}
use chia_wallet_sdk.Protocol.{Bytes32, Result, ok, err, ◌>>=◌}
use chia_wallet_sdk.Driver.Clvm.{
  Clvm, IsClvm, Codec, IsCodec, IsMod, DriverError, invalid_mod_hash, non_standard_layer,
}
use chia_wallet_sdk.Driver.Context.{
  SpendContext, Spend, Ctx, Mods, pure, lift, alloc, extract, alloc_curried, puzzle,
}
use chia_wallet_sdk.Driver.Cache.{IsWf, Keeps, bind-ok, bind-Keeps}
use chia_wallet_sdk.Driver.Puzzle.{Puzzle, parse}
use chia_wallet_sdk.Driver.Puzzles.{
  NftOwnershipLayerArgs, NftOwnershipLayerSolution, Constructors, IsConstructors,
}
use chia_wallet_sdk.Driver.Layer.{
  Layer, IsLayer, IsHash, curried_args, curried_args-alloc_curried, alloc_curried-parts,
}
use chia_wallet_sdk.Driver.Wrapped.{
  if_some, wrapped_solution, wrapped_solution-parts, wrapped_solution-Keeps, puzzle-Keeps,
  puzzle_hash, alloc_curried-Keeps,
}
use chia_wallet_sdk.Driver.Context as Context

pub record NftOwnershipLayer (L I : Type 0) : Type 0 where
  pub current_owner : Option Bytes32
  pub transfer_layer : L
  pub inner_puzzle : I

unfoldable pub tree_hash :
    {L I : Type 0}
    → (Option Bytes32 → Bytes32 → Bytes32 → Bytes32)
    → (L → Bytes32)
    → (I → Bytes32)
    → NftOwnershipLayer L I
    → Bytes32
tree_hash curry_tree_hash transfer_hash inner_hash l =
    curry_tree_hash l.current_owner (transfer_hash l.transfer_layer) (inner_hash l.inner_puzzle)

module _ {T E : Type 0} (c : Clvm T E) (mods : Mods) (new : Constructors T)
    (args_codec : Codec T E (NftOwnershipLayerArgs T))
    (solution_codec : Codec T E (NftOwnershipLayerSolution T)) {L I S S' : Type 0}
    (transfer : Layer T E L S') (inner : Layer T E I S) where
  unfoldable pub parse_puzzle : Puzzle T → Result (DriverError E) (Option (NftOwnershipLayer L I))
  parse_puzzle puzzle =
      if_some (curried_args c args_codec mods.nft_ownership_layer.hash puzzle) λ args.
        if not (args.mod_hash == mods.nft_ownership_layer.hash)
        then err invalid_mod_hash
        else transfer.parse_puzzle (parse c args.transfer_program) >>= λ found. elim found [
          | none ↦ err non_standard_layer
          | some transfer_layer ↦
              if_some (inner.parse_puzzle (parse c args.inner_puzzle)) λ inner_puzzle. ok (
                some (record {
                  current_owner = args.current_owner;
                  transfer_layer = transfer_layer;
                  inner_puzzle = inner_puzzle;
                }))
        ]

  abbrev solution_with : {A : Type 0} → A → NftOwnershipLayerSolution A
  solution_with inner_solution = record { inner_solution = inner_solution }

  unfoldable pub parse_solution : T → Result (DriverError E) (NftOwnershipLayerSolution S)
  parse_solution solution = extract solution_codec solution >>= λ s.
      inner.parse_solution s.inner_solution >>= λ inner_solution. ok (solution_with inner_solution)

  abbrev with_inner : NftOwnershipLayer L I → T → T → Ctx T E T
  with_inner l program transfer_program =
      Context.◌>>=◌ (inner.construct_puzzle l.inner_puzzle) λ inner_puzzle.
        alloc_curried c args_codec program
          (new.new_nft_ownership_args l.current_owner transfer_program inner_puzzle)

  abbrev with_transfer : NftOwnershipLayer L I → T → Ctx T E T
  with_transfer l program =
      Context.◌>>=◌ (transfer.construct_puzzle l.transfer_layer)
        λ transfer_program. with_inner l program transfer_program

  unfoldable pub construct_puzzle : NftOwnershipLayer L I → Ctx T E T
  construct_puzzle l = Context.◌>>=◌ (puzzle c mods.nft_ownership_layer) (with_transfer l)

  unfoldable pub construct_solution :
      NftOwnershipLayer L I → NftOwnershipLayerSolution S → Ctx T E T
  construct_solution l solution =
      wrapped_solution c solution_codec inner l.inner_puzzle solution.inner_solution solution_with

  abbrev pub nft_ownership_layer : Layer T E (NftOwnershipLayer L I) (NftOwnershipLayerSolution S)
  nft_ownership_layer = record {
    parse_puzzle = parse_puzzle;
    parse_solution = parse_solution;
    construct_puzzle = construct_puzzle;
    construct_solution = construct_solution;
  }

  module _ (lawful : IsClvm c) (is_mod : IsMod c mods.nft_ownership_layer)
      (args_coded : IsCodec args_codec) (transfer_layered : IsLayer c transfer)
      (layered : IsLayer c inner) where
    abbrev args_of : NftOwnershipLayer L I → T → T → NftOwnershipLayerArgs T
    args_of l = new.new_nft_ownership_args l.current_owner

    -- What its puzzle is made of.
    construct_puzzle-parts :
        (l : NftOwnershipLayer L I) (s : SpendContext T) (t : T)
        → IsWf c s
        → (construct_puzzle l s).0 ≡ ok t
        → (j i : T) × (curried_args c args_codec mods.nft_ownership_layer.hash (parse c t)
            ≡ ok (some (args_of l j i)))
          × (transfer.parse_puzzle (parse c j) ≡ ok (some l.transfer_layer))
          × (inner.parse_puzzle (parse c i) ≡ ok (some l.inner_puzzle))
          × ((hash : L → Bytes32) → IsHash c transfer hash → c.tree_hash j ≡ hash l.transfer_layer)
          × ((hash : I → Bytes32) → IsHash c inner hash → c.tree_hash i ≡ hash l.inner_puzzle)
          × (encoded : T) × (args_codec.encode (args_of l j i) ≡ ok encoded)
          × (c.tree_hash t ≡ c.curry_hash mods.nft_ownership_layer.hash (c.tree_hash encoded))
    unfolding construct_puzzle
    construct_puzzle-parts l s t w h =
        let (program, first, rest) =
          bind-ok c (puzzle c mods.nft_ownership_layer) (with_transfer l) s t h in
        let s₁ = (puzzle c mods.nft_ownership_layer s).1 in
        let (w₁, _) = puzzle-Keeps c mods.nft_ownership_layer is_mod s w in
        let hashed = puzzle_hash c mods.nft_ownership_layer is_mod s program w first in
        let (j, second, rest₁) =
          bind-ok c (transfer.construct_puzzle l.transfer_layer) (with_inner l program) s₁ t rest in
        let s₂ = (transfer.construct_puzzle l.transfer_layer s₁).1 in
        let (w₂, _) = transfer_layered.construct_puzzle-Keeps l.transfer_layer s₁ w₁ in
        let (i, third, made) =
          bind-ok c (inner.construct_puzzle l.inner_puzzle)
            (λ i. alloc_curried c args_codec program (args_of l j i)) s₂ t rest₁ in
        let s₃ = (inner.construct_puzzle l.inner_puzzle s₂).1 in
        let (encoded, e, f) =
          alloc_curried-parts c args_codec mods.nft_ownership_layer program (args_of l j i) s₃ t
            made in
        let whole =
          lawful.tree_hash-uncurry t program encoded (lawful.uncurry-curry program encoded t f) in
        (
          j,
          i,
          curried_args-alloc_curried c args_codec mods.nft_ownership_layer lawful args_coded program
              (args_of l j i) s₃ t hashed made,
          transfer_layered.parse_puzzle-construct_puzzle l.transfer_layer s₁ j w₁ second,
          layered.parse_puzzle-construct_puzzle l.inner_puzzle s₂ i w₂ third,
          λ hash hashes. hashes l.transfer_layer s₁ j w₁ second,
          λ hash hashes. hashes l.inner_puzzle s₂ i w₂ third,
          encoded,
          e,
          whole ∙ ap (λ p. c.curry_hash p (c.tree_hash encoded)) hashed,
        )

    construct_puzzle-Keeps : (l : NftOwnershipLayer L I) → Keeps c (construct_puzzle l)
    unfolding construct_puzzle
    construct_puzzle-Keeps l =
        bind-Keeps c (puzzle c mods.nft_ownership_layer) (with_transfer l)
          (puzzle-Keeps c mods.nft_ownership_layer is_mod)
          (λ program.
            bind-Keeps c (transfer.construct_puzzle l.transfer_layer) (with_inner l program)
              (transfer_layered.construct_puzzle-Keeps l.transfer_layer)
              (λ j.
                bind-Keeps c (inner.construct_puzzle l.inner_puzzle)
                  (λ i. alloc_curried c args_codec program (args_of l j i))
                  (layered.construct_puzzle-Keeps l.inner_puzzle)
                  (λ i. alloc_curried-Keeps c args_codec program (args_of l j i))))

    -- An NFT ownership layer with a lawful transfer layer around a lawful layer is a lawful layer.
    pub nft_ownership_layer-IsLayer :
        IsConstructors mods new → IsCodec solution_codec → IsLayer c nft_ownership_layer
    unfolding parse_puzzle parse_solution construct_solution
    nft_ownership_layer-IsLayer constructed solution_coded = record {
      parse_puzzle-construct_puzzle = λ l s t w h.
          let (j, i, found, parsed, parsed', _, _, _, _, _) = construct_puzzle-parts l s t w h in
          ground
            (arith, found, parsed, parsed', constructed.nft_ownership_args l.current_owner j i);
      construct_puzzle-Keeps = construct_puzzle-Keeps;
      parse_solution-construct_solution = λ l solution s t w h.
          let (i, found, parsed) =
            wrapped_solution-parts c solution_codec inner l.inner_puzzle solution.inner_solution
              solution_with layered solution_coded s t w h in
          ground (arith, found, parsed);
      construct_solution-Keeps = λ l solution.
          wrapped_solution-Keeps c solution_codec inner l.inner_puzzle solution.inner_solution
            solution_with layered;
    }

    -- `NftOwnershipLayerArgs::curry_tree_hash` is given.
    module _ (curry_tree_hash : Option Bytes32 → Bytes32 → Bytes32 → Bytes32)
        (transfer_hash : L → Bytes32) (inner_hash : I → Bytes32) where
      pub tree_hash-IsHash :
          IsHash c transfer transfer_hash
          → IsHash c inner inner_hash
          → ((owner : Option Bytes32) (j i encoded : T)
              → args_codec.encode (new.new_nft_ownership_args owner j i) ≡ ok encoded
              → c.curry_hash mods.nft_ownership_layer.hash (c.tree_hash encoded)
                ≡ curry_tree_hash owner (c.tree_hash j) (c.tree_hash i))
          → IsHash c nft_ownership_layer (tree_hash curry_tree_hash transfer_hash inner_hash)
      unfolding tree_hash
      tree_hash-IsHash transfer_hashes inner_hashes curried l s t w h =
          let (j, i, _, _, _, hash_j, hash_i, encoded, e, whole) =
            construct_puzzle-parts l s t w h in
          whole
          ∙ curried l.current_owner j i encoded e
          ∙ ap₂ (curry_tree_hash l.current_owner) (hash_j transfer_hash transfer_hashes)
              (hash_i inner_hash inner_hashes)
