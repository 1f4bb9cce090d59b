-- ===== src/Driver/Primitives/Cat/Loop.antt =====
-- The loop of `spend_all` of crates/chia-sdk-driver/src/primitives/cat.rs, by its indices and subtotals.
use chia_wallet_sdk.Prelude.{
  ℕ, suc, ◌≡◌, refl, sym, ap, subst, ◌∙◌, List, [], ◌∷◌, ◌++◌, append_assoc, append-nil, arith,
}
use chia_wallet_sdk.Prelude.Int.{ℤ, pos, negsuc, ◌+ℤ◌}
use chia_wallet_sdk.Protocol.{Bytes32, Coin, CoinSpend, Result, ok, err}
use chia_wallet_sdk.Driver.Clvm.{Clvm, IsClvm, Codec, IsCodec, IsMod, eval, from_clvm, try_to}
use chia_wallet_sdk.Driver.Context.{SpendContext, Ctx, Mods, pure, lift, ◌>>=◌, run, extract}
use chia_wallet_sdk.Driver.Cache.{IsWf, bind-ok}
use chia_wallet_sdk.Driver.Puzzles.{CatArgs, CatSolution, Constructors, IsConstructors}
use chia_wallet_sdk.Driver.Spends.{IsSpendOf, spend_layer-lem}
use chia_wallet_sdk.Driver.Layers.Cat.{cat_layer-IsLayer}
use chia_wallet_sdk.Driver.Layers.Value.{ptr_layer, ptr_layer-IsLayer}
use chia_wallet_sdk.Driver.Primitives.Cat.{
  CatSpend, SingleCatSpend, CreateCoin, try_into_i64, spend_cat_layer, layer_of, solution_of, spend,
  delta_of, single_of, spend_one, spend_rest,
}

module _ {T E : Type 0} (c : Clvm T E) (mods : Mods) (new : Constructors T)
    (args_codec : Codec T E (CatArgs T)) (solution_codec : Codec T E (CatSolution T))
    (coin_id : Coin → Bytes32) (list_codec : Codec T E (List T))
    (create_coin_codec : Codec T E CreateCoin) where
  abbrev pub single : List (CatSpend T) → ℕ → CatSpend T → ℤ → SingleCatSpend T
  single = single_of c mods new args_codec solution_codec coin_id list_codec create_coin_codec

  abbrev pub delta : CatSpend T → List T → ℤ
  delta = delta_of c mods new args_codec solution_codec coin_id list_codec create_coin_codec

  abbrev one : List (CatSpend T) → ℕ → ℤ → CatSpend T → Ctx T E ℤ
  one = spend_one c mods new args_codec solution_codec coin_id list_codec create_coin_codec

  abbrev pub spend_from : List (CatSpend T) → ℕ → ℤ → List (CatSpend T) → Ctx T E (Unit {0})
  spend_from = spend_rest c mods new args_codec solution_codec coin_id list_codec create_coin_codec

  -- The inner spend of a CAT puts out these conditions.
  abbrev pub Outputs : CatSpend T → List T → Type 0
  Outputs s conditions =
      (output : T) × (c.run_puzzle s.inner_spend.puzzle s.inner_spend.solution ≡ ok output)
      × (list_codec.decode output ≡ ok conditions)

  -- A coin spend of a CAT that is parsed with what the loop puts in it.
  abbrev pub IsLink : List (CatSpend T) → ℕ → ℤ → CatSpend T → CoinSpend → Type 0
  IsLink all index subtotal s made =
      IsSpendOf c (spend_cat_layer c mods new args_codec solution_codec coin_id)
        (layer_of c mods new args_codec solution_codec coin_id s.cat (single all index s subtotal))
        (solution_of c mods new args_codec solution_codec coin_id s.cat
          (single all index s subtotal))
        s.cat.coin made

  -- The coin spends of the passes from an index on.
  abbrev pub IsLoop : List (CatSpend T) → ℕ → ℤ → List (CatSpend T) → List CoinSpend → Type 0
  IsLoop all index subtotal [] [] = Unit {0}
  IsLoop all index subtotal (s ∷ rest) (made ∷ others) =
      (try_into_i64 {E = E} subtotal ≡ ok subtotal)
      × IsLink all index subtotal s made
      × ((conditions : List T) × Outputs s conditions
          × IsLoop all (suc index) (subtotal +ℤ delta s conditions) rest others)
  IsLoop all index subtotal _ _ = ⊥

  try_into_i64-ok :
      (value converted : ℤ) → try_into_i64 {E = E} value ≡ ok converted → converted ≡ value
  unfolding try_into_i64
  try_into_i64-ok (pos n) converted h = ground (arith, h)
  try_into_i64-ok (negsuc n) converted h = ground (arith, h)

  try_to-ok : {A F : Type 0} (f : E → F) (r : Result E A) (a : A) → try_to f r ≡ ok a → r ≡ ok a
  try_to-ok f (ok x) a h = ground (arith, h)
  try_to-ok f (err x) a h = ground (arith, h)

  module _ (lawful : IsClvm c) (is_mod : IsMod c mods.cat) (constructed : IsConstructors mods new)
      (args_coded : IsCodec args_codec) (solution_coded : IsCodec solution_codec) where
    -- One pass of the loop.
    spend_one-lem :
        (all : List (CatSpend T)) (index : ℕ) (subtotal : ℤ) (first : CatSpend T)
        (s : SpendContext T) (total : ℤ)
        → IsWf c s
        → (one all index subtotal first s).0 ≡ ok total
        → (made : CoinSpend) × (conditions : List T) × (try_into_i64 {E = E} subtotal ≡ ok subtotal)
          × IsLink all index subtotal first made
          × Outputs first conditions
          × (total ≡ subtotal +ℤ delta first conditions)
          × IsWf c (one all index subtotal first s).1
          × ((one all index subtotal first s).1.coin_spends ≡ s.coin_spends ++ made ∷ [])
    unfolding spend_one spend run extract
    spend_one-lem all index subtotal first s total w h =
        let add : List T → Unit {0} → Ctx T E ℤ =
          λ conditions done. pure (subtotal +ℤ delta first conditions) in
        let spends : List T → ℤ → Ctx T E ℤ = λ conditions prev.
          spend c mods new args_codec solution_codec coin_id first.cat (single all index first prev)
          >>= add conditions in
        let converts : List T → Ctx T E ℤ =
          λ conditions. lift (try_into_i64 subtotal) >>= spends conditions in
        let extracts : T → Ctx T E ℤ = λ output. lift (extract list_codec output) >>= converts in
        let (output, e₀, h₀) =
          bind-ok c (run c first.inner_spend.puzzle first.inner_spend.solution) extracts s total
            h in
        let (conditions, e₁, h₁) =
          bind-ok c (lift (extract list_codec output)) converts s total h₀ in
        let (prev, e₂, h₂) =
          bind-ok c (lift (try_into_i64 subtotal)) (spends conditions) s total h₁ in
        let same : prev ≡ subtotal = try_into_i64-ok subtotal prev e₂ in
        let e₃ : try_into_i64 {E = E} subtotal ≡ ok subtotal = e₂ ∙ ap ok same in
        let h₃ : (spends conditions subtotal s).0 ≡ ok total =
          subst (λ x. (spends conditions x s).0 ≡ ok total) same h₂ in
        let (done, e₄, h₄) =
          bind-ok c
            (spend c mods new args_codec solution_codec coin_id first.cat
              (single all index first subtotal))
            (add conditions) s total h₃ in
        let layered =
          cat_layer-IsLayer c mods new args_codec solution_codec ptr_layer lawful is_mod constructed
            args_coded solution_coded (ptr_layer-IsLayer c lawful) in
        let (made, link, w', ends) =
          spend_layer-lem c (spend_cat_layer c mods new args_codec solution_codec coin_id) layered
            (layer_of c mods new args_codec solution_codec coin_id first.cat
              (single all index first subtotal))
            (solution_of c mods new args_codec solution_codec coin_id first.cat
              (single all index first subtotal))
            first.cat.coin s w e₄ in
        let whole : (one all index subtotal first s).1
            ≡ (spend c mods new args_codec solution_codec coin_id first.cat
                (single all index first subtotal) s).1 =
          rw e₀ (rw e₁ (rw e₃ (rw e₄ refl))) in
        let run_ok =
          try_to-ok eval (c.run_puzzle first.inner_spend.puzzle first.inner_spend.solution) output
            e₀ in
        let decode_ok = try_to-ok from_clvm (list_codec.decode output) conditions e₁ in
        let summed : total ≡ subtotal +ℤ delta first conditions = ground (arith, h₄) in
        (
          made,
          conditions,
          e₃,
          link,
          (output, run_ok, decode_ok),
          summed,
          rw whole w',
          rw whole ends,
        )

    -- Each coin spend is a link, and each pass adds the delta to the subtotal.
    pub spend_rest-IsLoop :
        (all : List (CatSpend T)) (index : ℕ) (subtotal : ℤ) (rest : List (CatSpend T))
        (s : SpendContext T)
        → IsWf c s
        → (spend_from all index subtotal rest s).0 ≡ ok tt
        → (made : List CoinSpend) × ((spend_from all index subtotal rest s).1.coin_spends
            ≡ s.coin_spends ++ made)
          × IsLoop all index subtotal rest made
    unfolding spend_rest
    spend_rest-IsLoop all index subtotal [] s w h = ([], sym (append-nil s.coin_spends), tt)
    spend_rest-IsLoop all index subtotal (first ∷ rest) s w h =
        let (total, e, h') =
          bind-ok c (one all index subtotal first) (λ total. spend_from all (suc index) total rest)
            s tt h in
        let (made, conditions, converted, link, outputs, summed, w', ends) =
          spend_one-lem all index subtotal first s total w e in
        let after = (one all index subtotal first s).1 in
        let (others, ends', ring) = spend_rest-IsLoop all (suc index) total rest after w' h' in
        (
          made ∷ others,
          rw e (ends' ∙ ap (λ r. r ++ others) ends ∙ append_assoc s.coin_spends (made ∷ []) others),
          (
            converted,
            link,
            (conditions, outputs, subst (λ x. IsLoop all (suc index) x rest others) summed ring),
          ),
        )
