-- ===== src/Driver/Layers/Did.antt =====
-- crates/chia-sdk-driver/src/layers/did_layer.rs.
use chia_wallet_sdk.Prelude.{ℕ, ◌≡◌, refl, ap, ◌∙◌, not, Option, some, if◌then◌else◌, arith}
use chia_wallet_sdk.Protocol.{Bytes32, Result, ok, err, ◌>>=◌}
use chia_wallet_sdk.Driver.Clvm.{
  Clvm, IsClvm, Codec, IsCodec, IsMod, DriverError, invalid_singleton_struct,
}
use chia_wallet_sdk.Driver.Context.{SpendContext, Ctx, Mods, alloc, extract}
use chia_wallet_sdk.Driver.Cache.{IsWf, Keeps}
use chia_wallet_sdk.Driver.Puzzle.{Puzzle, parse}
use chia_wallet_sdk.Driver.Puzzles.{
  SingletonStruct, DidArgs, DidSolution, spend, recover, Constructors, IsConstructors,
  is_singleton_struct,
}
use chia_wallet_sdk.Driver.Layer.{Layer, IsLayer, IsHash, curried_args}
use chia_wallet_sdk.Driver.Wrapped.{
  if_some, wrapped, wrapped-parts, wrapped-Keeps, wrapped_solution, wrapped_solution-parts,
  wrapped_solution-Keeps, alloc-Keeps, extract-alloc,
}
use chia_wallet_sdk.Driver.Lawful.{around-IsHash}

pub record DidLayer (M I : Type 0) : Type 0 where
  pub launcher_id : Bytes32
  pub recovery_list_hash : Option Bytes32
  pub num_verifications_required : ℕ
  pub metadata : M
  pub inner_puzzle : I

unfoldable pub with_metadata : {M N I : Type 0} → DidLayer M I → N → DidLayer N I
with_metadata l metadata = record {
  launcher_id = l.launcher_id;
  recovery_list_hash = l.recovery_list_hash;
  num_verifications_required = l.num_verifications_required;
  metadata = metadata;
  inner_puzzle = l.inner_puzzle;
}

-- `SingletonStruct::new` and `DidArgs::curry_tree_hash` are given.
unfoldable pub tree_hash :
    {M I : Type 0}
    → (Bytes32 → SingletonStruct)
    → (Bytes32 → Option Bytes32 → ℕ → SingletonStruct → Bytes32 → Bytes32)
    → (M → Bytes32)
    → (I → Bytes32)
    → DidLayer M I
    → Bytes32
tree_hash new_singleton_struct curry_tree_hash metadata_hash inner_hash l =
    curry_tree_hash (inner_hash l.inner_puzzle) l.recovery_list_hash l.num_verifications_required
      (new_singleton_struct l.launcher_id) (metadata_hash l.metadata)

-- `R` is a recovery.
module _ {T E M R : Type 0} (c : Clvm T E) (mods : Mods) (new : Constructors T)
    (new_did_args : T → Option Bytes32 → ℕ → SingletonStruct → M → DidArgs T M)
    (args_codec : Codec T E (DidArgs T M)) (solution_codec : Codec T E (DidSolution R T))
    {I S : Type 0} (inner : Layer T E I S) where
  unfoldable pub parse_puzzle : Puzzle T → Result (DriverError E) (Option (DidLayer M I))
  parse_puzzle puzzle = if_some (curried_args c args_codec mods.did_inner.hash puzzle) λ args.
      if not (is_singleton_struct mods args.singleton_struct)
      then err invalid_singleton_struct
      else if_some (inner.parse_puzzle (parse c args.inner_puzzle)) λ inner_puzzle. ok (
          some (record {
            launcher_id = args.singleton_struct.launcher_id;
            recovery_list_hash = args.recovery_list_hash;
            num_verifications_required = args.num_verifications_required;
            metadata = args.metadata;
            inner_puzzle = inner_puzzle;
          }))

  unfoldable pub parse_did : DidSolution R T → Result (DriverError E) (DidSolution R S)
  parse_did (spend inner_solution) = inner.parse_solution inner_solution >>= λ s. ok (spend s)
  parse_did (recover recovery) = ok (recover recovery)

  unfoldable pub parse_solution : T → Result (DriverError E) (DidSolution R S)
  parse_solution solution = extract solution_codec solution >>= parse_did

  abbrev args_of : DidLayer M I → T → DidArgs T M
  args_of l inner_puzzle =
      new_did_args inner_puzzle l.recovery_list_hash l.num_verifications_required
        (new.new_singleton_struct l.launcher_id) l.metadata

  -- `DidArgs::new` stores its arguments.
  abbrev pub IsNewDidArgs : Type 0
  IsNewDidArgs =
      (inner_puzzle : T) (recovery_list_hash : Option Bytes32) (num_verifications_required : ℕ)
      (singleton_struct : SingletonStruct) (metadata : M)
      → new_did_args inner_puzzle recovery_list_hash num_verifications_required singleton_struct
          metadata
        ≡ record {
          inner_puzzle = inner_puzzle;
          recovery_list_hash = recovery_list_hash;
          num_verifications_required = num_verifications_required;
          singleton_struct = singleton_struct;
          metadata = metadata;
        }

  unfoldable pub construct_puzzle : DidLayer M I → Ctx T E T
  construct_puzzle l = wrapped c args_codec mods.did_inner inner l.inner_puzzle (args_of l)

  unfoldable pub construct_solution : DidLayer M I → DidSolution R S → Ctx T E T
  construct_solution l (spend inner_solution) =
      wrapped_solution c solution_codec inner l.inner_puzzle inner_solution spend
  construct_solution l (recover recovery) = alloc solution_codec (recover recovery)

  abbrev pub did_layer : Layer T E (DidLayer M I) (DidSolution R S)
  did_layer = record {
    parse_puzzle = parse_puzzle;
    parse_solution = parse_solution;
    construct_puzzle = construct_puzzle;
    construct_solution = construct_solution;
  }

  module _ (lawful : IsClvm c) (is_mod : IsMod c mods.did_inner) (args_coded : IsCodec args_codec)
      (solution_coded : IsCodec solution_codec) (layered : IsLayer c inner) where
    solution_again :
        (l : DidLayer M I) (solution : DidSolution R S) (s : SpendContext T) (t : T)
        → IsWf c s
        → (construct_solution l solution s).0 ≡ ok t
        → parse_solution t ≡ ok solution
    unfolding parse_solution parse_did construct_solution
    solution_again l (spend inner_solution) s t w h =
        let (i, found, parsed) =
          wrapped_solution-parts c solution_codec inner l.inner_puzzle inner_solution spend layered
            solution_coded s t w h in
        ground (arith, found, parsed)
    solution_again l (recover recovery) s t w h =
        ground (arith, extract-alloc c solution_codec solution_coded (recover recovery) s t h)

    solution-Keeps :
        (l : DidLayer M I) (solution : DidSolution R S) → Keeps c (construct_solution l solution)
    unfolding construct_solution
    solution-Keeps l (spend inner_solution) =
        wrapped_solution-Keeps c solution_codec inner l.inner_puzzle inner_solution spend layered
    solution-Keeps l (recover recovery) = alloc-Keeps c solution_codec (recover recovery)

    -- A DID layer around a lawful layer is a lawful layer, for spends as for recoveries.
    pub did_layer-IsLayer : IsConstructors mods new → IsNewDidArgs → IsLayer c did_layer
    unfolding parse_puzzle construct_puzzle
    did_layer-IsLayer constructed made = record {
      parse_puzzle-construct_puzzle = λ l s t w h.
          let (i, found, parsed, _, _, _, _) =
            wrapped-parts c args_codec lawful args_coded mods.did_inner is_mod inner l.inner_puzzle
              (args_of l) s t w h in
          let stored =
            made i l.recovery_list_hash l.num_verifications_required
              (new.new_singleton_struct l.launcher_id) l.metadata in
          ground (arith, found, parsed layered, stored, constructed.singleton_struct l.launcher_id);
      construct_puzzle-Keeps = λ l.
          wrapped-Keeps c args_codec lawful args_coded mods.did_inner is_mod inner l.inner_puzzle
            (args_of l) layered;
      parse_solution-construct_solution = solution_again;
      construct_solution-Keeps = solution-Keeps;
    }

  module _ (curry_tree_hash : Bytes32 → Option Bytes32 → ℕ → SingletonStruct → Bytes32 → Bytes32)
      (metadata_hash : M → Bytes32) (inner_hash : I → Bytes32) where
    abbrev hash_with : DidLayer M I → Bytes32 → Bytes32
    hash_with l inner_puzzle_hash =
        curry_tree_hash inner_puzzle_hash l.recovery_list_hash l.num_verifications_required
          (new.new_singleton_struct l.launcher_id) (metadata_hash l.metadata)

    pub tree_hash-IsHash :
        IsClvm c
        → IsMod c mods.did_inner
        → IsCodec args_codec
        → IsHash c inner inner_hash
        → ((l : DidLayer M I) (i encoded : T)
            → args_codec.encode (args_of l i) ≡ ok encoded
            → c.curry_hash mods.did_inner.hash (c.tree_hash encoded) ≡ hash_with l (c.tree_hash i))
        → IsHash c did_layer
            (tree_hash new.new_singleton_struct curry_tree_hash metadata_hash inner_hash)
    unfolding tree_hash construct_puzzle
    tree_hash-IsHash lawful is_mod args_coded inner_hashes curried =
        around-IsHash c lawful mods.did_inner is_mod args_codec args_coded inner did_layer
          (λ l. l.inner_puzzle) args_of (λ l. refl) inner_hash inner_hashes
          (tree_hash new.new_singleton_struct curry_tree_hash metadata_hash inner_hash)
          (λ l i encoded e h. curried l i encoded e ∙ ap (hash_with l) h)
