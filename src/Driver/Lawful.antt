-- ===== src/Driver/Lawful.antt =====
-- The laws of the layers of crates/chia-sdk-driver/src/layers from their steps: one lemma for a layer of
-- a curried puzzle, and one for a layer around another.
use chia_wallet_sdk.Prelude.{◌≡◌, sym, ap, ◌∙◌, some}
use chia_wallet_sdk.Protocol.{Bytes32, ok}
use chia_wallet_sdk.Driver.Clvm.{Clvm, IsClvm, Codec, IsCodec, Mod, IsMod}
use chia_wallet_sdk.Driver.Context.{alloc, extract}
use chia_wallet_sdk.Driver.Puzzle.{Puzzle, parse}
use chia_wallet_sdk.Driver.Layer.{Layer, IsLayer, IsHash, curried_args, curried_mod}
use chia_wallet_sdk.Driver.Wrapped.{
  wrapped, wrapped-parts, wrapped-Keeps, wrapped_solution, wrapped_solution-parts,
  wrapped_solution-Keeps, curried_mod-parts, curried_mod-Keeps, alloc-Keeps, extract-alloc,
}

module _ {T E : Type 0} (c : Clvm T E) (lawful : IsClvm c) (m : Mod) (is_mod : IsMod c m)
    {A : Type 0} (codec : Codec T E A) (coded : IsCodec codec) where
  module _ {L S : Type 0} (layer : Layer T E L S) (args : L → A)
      (puzzles : (l : L) → layer.construct_puzzle l ≡ curried_mod c codec m (args l)) where
    -- A layer that curries its arguments into a puzzle and whose solutions have a codec.
    pub leaf-IsLayer :
        (solution_codec : Codec T E S)
        → IsCodec solution_codec
        → ((l : L) (p : Puzzle T)
            → curried_args c codec m.hash p ≡ ok (some (args l))
            → layer.parse_puzzle p ≡ ok (some l))
        → ((l : L) (solution : S)
            → layer.construct_solution l solution ≡ alloc solution_codec solution)
        → ((t : T) → layer.parse_solution t ≡ extract solution_codec t)
        → IsLayer c layer
    leaf-IsLayer solution_codec solution_coded parses solutions extracts = record {
      parse_puzzle-construct_puzzle = λ l s t w h.
          let made : (curried_mod c codec m (args l) s).0 ≡ ok t =
            sym (ap (λ f. (f s).0) (puzzles l)) ∙ h in
          let parts = curried_mod-parts c codec lawful coded m is_mod (args l) s t w made in
          parses l (parse c t) parts.0;
      construct_puzzle-Keeps =
          λ l. rw (puzzles l) (curried_mod-Keeps c codec lawful coded m is_mod (args l));
      parse_solution-construct_solution = λ l solution s t w h.
          let made : (alloc solution_codec solution s).0 ≡ ok t =
            sym (ap (λ f. (f s).0) (solutions l solution)) ∙ h in
          extracts t ∙ extract-alloc c solution_codec solution_coded solution s t made;
      construct_solution-Keeps =
          λ l solution. rw (solutions l solution) (alloc-Keeps c solution_codec solution);
    }

    -- Its hash is that of the curried puzzle, if it is for the arguments.
    pub leaf-IsHash :
        (hash : L → Bytes32)
        → ((l : L) (encoded : T)
            → codec.encode (args l) ≡ ok encoded
            → c.curry_hash m.hash (c.tree_hash encoded) ≡ hash l)
        → IsHash c layer hash
    leaf-IsHash hash hashes l s t w h =
        let made : (curried_mod c codec m (args l) s).0 ≡ ok t =
          sym (ap (λ f. (f s).0) (puzzles l)) ∙ h in
        let (found, encoded, e, whole) =
          curried_mod-parts c codec lawful coded m is_mod (args l) s t w made in
        whole ∙ hashes l encoded e

  module _ {I S : Type 0} (inner : Layer T E I S) {L S' : Type 0} (layer : Layer T E L S')
      (inner_of : L → I) (args : L → T → A)
      (puzzles : (l : L)
        → layer.construct_puzzle l ≡ wrapped c codec m inner (inner_of l) (args l)) where
    -- A layer around another, which curries the other's puzzle into its own and puts the other's solution
    -- into its own.
    pub around-IsLayer :
        IsLayer c inner
        → {B : Type 0} (solution_codec : Codec T E B) (solution_of : S' → S)
          (solution_args : S' → T → B)
        → IsCodec solution_codec
        → ((l : L) (p : Puzzle T) (i : T)
            → curried_args c codec m.hash p ≡ ok (some (args l i))
            → inner.parse_puzzle (parse c i) ≡ ok (some (inner_of l))
            → layer.parse_puzzle p ≡ ok (some l))
        → ((l : L) (solution : S')
            → layer.construct_solution l solution
              ≡ wrapped_solution c solution_codec inner
                  (inner_of l)
                  (solution_of solution)
                  (solution_args solution))
        → ((solution : S') (t i : T)
            → extract solution_codec t ≡ ok (solution_args solution i)
            → inner.parse_solution i ≡ ok (solution_of solution)
            → layer.parse_solution t ≡ ok solution)
        → IsLayer c layer
    around-IsLayer layered solution_codec solution_of solution_args solution_coded parses solutions
          extracts =
        record {
          parse_puzzle-construct_puzzle = λ l s t w h.
              let made : (wrapped c codec m inner (inner_of l) (args l) s).0 ≡ ok t =
                sym (ap (λ f. (f s).0) (puzzles l)) ∙ h in
              let (i, found, parsed, _, _, _, _) =
                wrapped-parts c codec lawful coded m is_mod inner (inner_of l) (args l) s t w
                  made in
              parses l (parse c t) i found (parsed layered);
          construct_puzzle-Keeps = λ l.
              rw (puzzles l)
                (wrapped-Keeps c codec lawful coded m is_mod inner (inner_of l) (args l) layered);
          parse_solution-construct_solution = λ l solution s t w h.
              let made : (wrapped_solution c solution_codec inner (inner_of l)
                    (solution_of solution) (solution_args solution) s).0
                  ≡ ok t =
                sym (ap (λ f. (f s).0) (solutions l solution)) ∙ h in
              let (i, found, parsed) =
                wrapped_solution-parts c solution_codec inner (inner_of l) (solution_of solution)
                  (solution_args solution) layered solution_coded s t w made in
              extracts solution t i found parsed;
          construct_solution-Keeps = λ l solution. rw (solutions l solution) (
              wrapped_solution-Keeps c solution_codec inner (inner_of l) (solution_of solution)
                (solution_args solution) layered);
        }

    -- Its hash is that of the curried puzzle, if it is so for the hash of the inner layer.
    pub around-IsHash :
        (inner_hash : I → Bytes32)
        → IsHash c inner inner_hash
        → (hash : L → Bytes32)
        → ((l : L) (i encoded : T)
            → codec.encode (args l i) ≡ ok encoded
            → c.tree_hash i ≡ inner_hash (inner_of l)
            → c.curry_hash m.hash (c.tree_hash encoded) ≡ hash l)
        → IsHash c layer hash
    around-IsHash inner_hash inner_hashes hash hashes l s t w h =
        let made : (wrapped c codec m inner (inner_of l) (args l) s).0 ≡ ok t =
          sym (ap (λ f. (f s).0) (puzzles l)) ∙ h in
        let (i, _, _, inner_hashed, encoded, e, whole) =
          wrapped-parts c codec lawful coded m is_mod inner (inner_of l) (args l) s t w made in
        whole ∙ hashes l i encoded e (inner_hashed inner_hash inner_hashes)
