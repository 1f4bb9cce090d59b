-- ===== src/Driver/Primitives/Cat.antt =====
-- crates/chia-sdk-driver/src/primitives/cat.rs, cat/cat_spend.rs and cat/single_cat_spend.rs: CATs, the
-- fungible assets. The subtotals of a ring, of 128 bits in the code, are integers.
use chia_wallet_sdk.Prelude.{
  ℕ, suc, ◌+◌, ◌-◌, ◌≡◌, refl, Bool, Option, none, some, List, [], ◌∷◌, ◌++◌, map, length,
  get_elem?, ltb, ◌==◌, if◌then◌else◌,
}
use chia_wallet_sdk.Prelude.Int.{ℤ, pos, negsuc, ◌+ℤ◌, ◌-ℤ◌}
use chia_wallet_sdk.Protocol.{Bytes32, Bytes, Coin, CoinSpend, Result, ok, err, ◌>>=◌}
use chia_wallet_sdk.Conditions.{Condition, create_coin, PublicKey, run_cat_tail}
use chia_wallet_sdk.Conditions.Lists as Lists
use chia_wallet_sdk.Conditions.Lists.{Conditions}
use chia_wallet_sdk.Driver.Clvm.{Clvm, Codec, DriverError, try_from_int, eval, try_to}
use chia_wallet_sdk.Driver.Context.{
  SpendContext, Spend, Ctx, Mods, pure, lift, alloc, extract, run, alloc_curried,
  genesis_by_coin_id_tail_puzzle, everything_with_signature_tail_puzzle,
}
use chia_wallet_sdk.Driver.Context as Context
use chia_wallet_sdk.Driver.Puzzle.{Puzzle, ptr, curried_puzzle_hash}
use chia_wallet_sdk.Driver.Puzzles.{LineageProof, CoinProof, CatArgs, CatSolution, Constructors}
use chia_wallet_sdk.Driver.Layer.{Layer}
use chia_wallet_sdk.Driver.Spends.{spend_layer}
use chia_wallet_sdk.Driver.Wrapped.{if_some}
use chia_wallet_sdk.Driver.Layers.Value.{ptr_layer, puzzle_layer}
use chia_wallet_sdk.Driver.Layers.Cat.{CatLayer, cat_layer}
use chia_wallet_sdk.Driver.Layers.Cat as CatLayers
pub mod Children
pub mod Neighbours
pub mod Subtotals
pub mod Loop
pub mod Ring

pub record Cat : Type 0 where
  pub coin : Coin
  pub lineage_proof : Option LineageProof
  pub asset_id : Bytes32
  pub p2_puzzle_hash : Bytes32

pub record CreateCoin : Type 0 where
  pub puzzle_hash : Bytes32
  pub amount : ℕ
  pub memos : List Bytes

unfoldable pub into_create_coin : {T : Type 0} → Condition T → Option CreateCoin
into_create_coin (create_coin puzzle_hash amount memos) =
    some (record { puzzle_hash = puzzle_hash; amount = amount; memos = memos })
into_create_coin _ = none

-- `Iterator::filter_map`.
abbrev pub filter_map : {A B : Type 0} → (A → Option B) → List A → List B
filter_map f [] = []
filter_map f (x ∷ xs) = let rest = filter_map f xs in elim (f x) [ none ↦ rest | some y ↦ y ∷ rest ]

unfoldable pub child_lineage_proof : Cat → LineageProof
child_lineage_proof cat = record {
  parent_parent_coin_info = cat.coin.parent_coin_info;
  parent_inner_puzzle_hash = cat.p2_puzzle_hash;
  parent_amount = cat.coin.amount;
}

-- `Coin::coin_id` and `CatArgs::curry_tree_hash` are given.
unfoldable pub wrapped_child :
    (Coin → Bytes32) → (Bytes32 → Bytes32 → Bytes32) → Cat → Bytes32 → ℕ → Cat
wrapped_child coin_id curry_tree_hash cat p2_puzzle_hash amount = record {
  coin = record {
    parent_coin_info = coin_id cat.coin;
    puzzle_hash = curry_tree_hash cat.asset_id p2_puzzle_hash;
    amount = amount;
  };
  lineage_proof = some (child_lineage_proof cat);
  asset_id = cat.asset_id;
  p2_puzzle_hash = p2_puzzle_hash;
}

pub record CatSpend (T : Type 0) : Type 0 where
  pub cat : Cat
  pub inner_spend : Spend T
  pub extra_delta : ℤ

pub record SingleCatSpend (T : Type 0) : Type 0 where
  pub prev_coin_id : Bytes32
  pub next_coin_proof : CoinProof
  pub prev_subtotal : ℤ
  pub extra_delta : ℤ
  pub inner_spend : Spend T

module _ {T : Type 0} where
  unfoldable pub new_spend : Cat → Spend T → CatSpend T
  new_spend cat inner_spend = record { cat = cat; inner_spend = inner_spend; extra_delta = pos 0 }

  unfoldable pub with_extra_delta : Cat → Spend T → ℤ → CatSpend T
  with_extra_delta cat inner_spend extra_delta = record {
    cat = cat;
    inner_spend = inner_spend;
    extra_delta = extra_delta;
  }

  unfoldable pub eve : (Coin → Bytes32) → Coin → Bytes32 → Spend T → SingleCatSpend T
  eve coin_id coin inner_puzzle_hash inner_spend = record {
    prev_coin_id = coin_id coin;
    next_coin_proof = record {
      parent_coin_info = coin.parent_coin_info;
      inner_puzzle_hash = inner_puzzle_hash;
      amount = coin.amount;
    };
    prev_subtotal = pos 0;
    extra_delta = pos 0;
    inner_spend = inner_spend;
  }

-- The element at an index; the indices of a ring are in range.
abbrev pub get_or : {A : Type 0} → A → List A → ℕ → A
get_or default xs i = elim (get_elem? xs i) [ none ↦ default | some x ↦ x ]

-- A conversion to an `i64`.
unfoldable pub try_into_i64 : {E : Type 0} → ℤ → Result (DriverError E) ℤ
try_into_i64 (pos n) = if ltb n 9223372036854775808 then ok (pos n) else err try_from_int
try_into_i64 (negsuc n) = if ltb n 9223372036854775808 then ok (negsuc n) else err try_from_int

module _ {T E : Type 0} (c : Clvm T E) (mods : Mods) (new : Constructors T)
    (args_codec : Codec T E (CatArgs T)) (solution_codec : Codec T E (CatSolution T))
    (coin_id : Coin → Bytes32) where
  -- A CAT around the puzzle of a spend.
  abbrev pub spend_cat_layer : Layer T E (CatLayer T) (CatSolution T)
  spend_cat_layer = cat_layer c mods new args_codec solution_codec ptr_layer

  abbrev pub layer_of : Cat → SingleCatSpend T → CatLayer T
  layer_of cat s = record { asset_id = cat.asset_id; inner_puzzle = s.inner_spend.puzzle }

  abbrev pub solution_of : Cat → SingleCatSpend T → CatSolution T
  solution_of cat s = record {
    lineage_proof = cat.lineage_proof;
    prev_coin_id = s.prev_coin_id;
    this_coin_info = cat.coin;
    next_coin_proof = s.next_coin_proof;
    prev_subtotal = s.prev_subtotal;
    extra_delta = s.extra_delta;
    inner_puzzle_solution = s.inner_spend.solution;
  }

  unfoldable pub spend : Cat → SingleCatSpend T → Ctx T E (Unit {0})
  spend cat s = spend_layer c spend_cat_layer (layer_of cat s) (solution_of cat s) cat.coin

  module _ (list_codec : Codec T E (List T)) (create_coin_codec : Codec T E CreateCoin) where
    -- What a spend puts in more than it takes out.
    abbrev pub coins_of : List T → List CreateCoin
    coins_of =
        filter_map
          λ ptr. elim (extract create_coin_codec ptr) [ err e ↦ none | ok coin ↦ some coin ]

    abbrev pub less_coins : ℤ → List CreateCoin → ℤ
    less_coins delta [] = delta
    less_coins delta (coin ∷ coins) = less_coins (delta -ℤ pos coin.amount) coins

    abbrev pub delta_of : CatSpend T → List T → ℤ
    delta_of s conditions =
        less_coins (pos s.cat.coin.amount -ℤ s.extra_delta) (coins_of conditions)

    abbrev pub prev_of : List (CatSpend T) → ℕ → CatSpend T → CatSpend T
    prev_of all index s = get_or s all (if index == 0 then length all - 1 else index - 1)

    abbrev pub next_of : List (CatSpend T) → ℕ → CatSpend T → CatSpend T
    next_of all index s = get_or s all (if index == length all - 1 then 0 else index + 1)

    abbrev pub single_of : List (CatSpend T) → ℕ → CatSpend T → ℤ → SingleCatSpend T
    single_of all index s prev_subtotal =
        let next = next_of all index s in
        record {
          inner_spend = s.inner_spend;
          prev_coin_id = coin_id (prev_of all index s).cat.coin;
          next_coin_proof = record {
            parent_coin_info = next.cat.coin.parent_coin_info;
            inner_puzzle_hash = c.tree_hash next.inner_spend.puzzle;
            amount = next.cat.coin.amount;
          };
          prev_subtotal = prev_subtotal;
          extra_delta = s.extra_delta;
        }

    -- One pass of the loop, which returns the new total.
    unfoldable pub spend_one : List (CatSpend T) → ℕ → ℤ → CatSpend T → Ctx T E ℤ
    spend_one all index total_delta s =
        Context.◌>>=◌ (run c s.inner_spend.puzzle s.inner_spend.solution) λ output.
          Context.◌>>=◌ (lift (extract list_codec output)) λ conditions.
            Context.◌>>=◌ (lift (try_into_i64 total_delta)) λ prev_subtotal.
              Context.◌>>=◌ (spend s.cat (single_of all index s prev_subtotal))
                λ done. pure (total_delta +ℤ delta_of s conditions)

    unfoldable pub spend_rest : List (CatSpend T) → ℕ → ℤ → List (CatSpend T) → Ctx T E (Unit {0})
    spend_rest all index total_delta [] = pure tt
    spend_rest all index total_delta (s ∷ rest) =
        Context.◌>>=◌ (spend_one all index total_delta s)
          λ total. spend_rest all (suc index) total rest

    unfoldable pub spend_all : List (CatSpend T) → Ctx T E (Unit {0})
    spend_all cat_spends = spend_rest cat_spends 0 (pos 0) cat_spends

  module _ (quote_codec : Codec T E (Conditions T)) where
    unfoldable pub create_and_spend_eve :
        Bytes32 → Bytes32 → ℕ → Conditions T → Ctx T E (Conditions T × Cat)
    create_and_spend_eve parent_coin_id asset_id amount conditions =
        Context.◌>>=◌ (alloc quote_codec conditions) λ inner_puzzle.
          let eve_layer : CatLayer T = record {
            asset_id = asset_id;
            inner_puzzle = inner_puzzle;
          } in
          let inner_puzzle_hash = c.tree_hash inner_puzzle in
          Context.◌>>=◌ (spend_cat_layer.construct_puzzle eve_layer) λ puzzle_ptr.
            let puzzle_hash = c.tree_hash puzzle_ptr in
            let cat : Cat = record {
              coin = record {
                parent_coin_info = parent_coin_id;
                puzzle_hash = puzzle_hash;
                amount = amount;
              };
              lineage_proof = none;
              asset_id = asset_id;
              p2_puzzle_hash = inner_puzzle_hash;
            } in
            Context.◌>>=◌
              (spend cat (
                eve coin_id cat.coin inner_puzzle_hash
                  (record { puzzle = inner_puzzle; solution = c.nil })))
              λ done. pure (Lists.with_condition Lists.new (create_coin puzzle_hash amount []), cat)

    -- The arguments of the TAILs are given with their constructors.
    module _ {G S : Type 0} (genesis_codec : Codec T E G) (new_genesis : Bytes32 → G)
        (signature_codec : Codec T E S) (new_signature : PublicKey → S) where
      unfoldable pub single_issuance_eve : Bytes32 → ℕ → Conditions T → Ctx T E (Conditions T × Cat)
      single_issuance_eve parent_coin_id amount extra_conditions =
          Context.◌>>=◌ (genesis_by_coin_id_tail_puzzle c mods) λ program.
            Context.◌>>=◌ (alloc_curried c genesis_codec program (new_genesis parent_coin_id))
              λ tail.
                create_and_spend_eve parent_coin_id (c.tree_hash tail) amount
                  (Lists.with_condition extra_conditions (run_cat_tail tail c.nil))

      unfoldable pub multi_issuance_eve :
          Bytes32 → PublicKey → ℕ → Conditions T → Ctx T E (Conditions T × Cat)
      multi_issuance_eve parent_coin_id public_key amount extra_conditions =
          Context.◌>>=◌ (everything_with_signature_tail_puzzle c mods) λ program.
            Context.◌>>=◌ (alloc_curried c signature_codec program (new_signature public_key))
              λ tail.
                create_and_spend_eve parent_coin_id (c.tree_hash tail) amount
                  (Lists.with_condition extra_conditions (run_cat_tail tail c.nil))

  module _ (conditions_codec : Codec T E (List (Condition T)))
      (curry_tree_hash : Bytes32 → Bytes32 → Bytes32) where
    abbrev pub parent_cat_layer : Layer T E (CatLayer (Puzzle T)) (CatSolution T)
    parent_cat_layer = cat_layer c mods new args_codec solution_codec puzzle_layer

    -- The CAT that an output of a CAT creates.
    unfoldable pub child_of : Coin → CatLayer (Puzzle T) → CreateCoin → Cat
    child_of parent_coin parent_layer created = record {
      coin = record {
        parent_coin_info = coin_id parent_coin;
        puzzle_hash = curry_tree_hash parent_layer.asset_id created.puzzle_hash;
        amount = created.amount;
      };
      lineage_proof = some (record {
        parent_parent_coin_info = parent_coin.parent_coin_info;
        parent_inner_puzzle_hash = curried_puzzle_hash parent_layer.inner_puzzle;
        parent_amount = parent_coin.amount;
      });
      asset_id = parent_layer.asset_id;
      p2_puzzle_hash = created.puzzle_hash;
    }

    unfoldable pub parse_children : Coin → Puzzle T → T → Result (DriverError E) (Option (List Cat))
    parse_children parent_coin parent_puzzle parent_solution =
        if_some (parent_cat_layer.parse_puzzle parent_puzzle) λ parent_layer.
          parent_cat_layer.parse_solution parent_solution >>= λ solution.
          try_to eval (c.run_puzzle (ptr parent_layer.inner_puzzle) solution.inner_puzzle_solution)
          >>= λ output. extract conditions_codec output >>= λ conditions. ok (
              some
                (map (child_of parent_coin parent_layer) (filter_map into_create_coin conditions)))
