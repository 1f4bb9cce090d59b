-- ===== src/Driver/Examples/Codecs.antt =====
-- Constructors and codecs of the chia_puzzles types for the tests of crates/chia-sdk-driver.
use chia_wallet_sdk.Prelude.{ℕ, ◌≡◌, refl, Option, arith}
use chia_wallet_sdk.Prelude.Int.{ℤ, pos, negsuc}
use chia_wallet_sdk.Protocol.{Coin, Result, ok, err}
use chia_wallet_sdk.Driver.Clvm.{IsCodec}
use chia_wallet_sdk.Driver.Puzzles.{
  LineageProof, Proof, lineage, eve, SingletonSolution, NftStateLayerArgs, NftStateLayerSolution,
  CoinProof, CatArgs, CatSolution, SingletonStruct, SingletonArgs, DidArgs, DidSolution, spend,
  recover, NftOwnershipLayerArgs, NftOwnershipLayerSolution, NftRoyaltyTransferPuzzleArgs,
  StandardArgs, StandardSolution, Constructors, IsConstructors,
}
use chia_wallet_sdk.Driver.Examples.{
  Term, atom, pair, Failure, bad_term, mods, TestCodec, nat_codec, nat_codec-IsCodec, term_codec,
  term_codec-IsCodec, pair_codec, pair_codec-IsCodec, option_codec, option_codec-IsCodec, via,
  via-IsCodec,
}

abbrev pub constructors : Constructors Term
constructors = record {
  new_singleton_struct = λ id. record { mod_hash = 9; launcher_id = id; launcher_puzzle_hash = 10 };
  new_cat_args = λ id inner. record { mod_hash = 2; asset_id = id; inner_puzzle = inner };
  new_nft_ownership_args = λ owner transfer inner. record {
    mod_hash = 7;
    current_owner = owner;
    transfer_program = transfer;
    inner_puzzle = inner;
  };
  new_standard_args = λ key. record { synthetic_key = key };
}

pub constructors-IsConstructors : IsConstructors mods constructors
constructors-IsConstructors = record {
  singleton_struct = λ id. refl;
  cat_args = λ id inner. refl;
  nft_ownership_args = λ owner transfer inner. refl;
  standard_args = λ key. refl;
}

-- Codecs that are given with their law.
abbrev pub Coded : Type 0 → Type 0
Coded A = (codec : TestCodec A) × IsCodec codec

abbrev pub nat : Coded ℕ
nat = (nat_codec, nat_codec-IsCodec)

abbrev pub term : Coded Term
term = (term_codec, term_codec-IsCodec)

infixr 4 ◌&◌
abbrev pub ◌&◌ : {A B : Type 0} → Coded A → Coded B → Coded (A × B)
(a, coded) & (b, coded') = (pair_codec a b, pair_codec-IsCodec a b coded coded')

abbrev pub optional : {A : Type 0} → Coded A → Coded (Option A)
optional (a, coded) = (option_codec a, option_codec-IsCodec a coded)

abbrev pub stored :
    {A B : Type 0} (to : A → B) (from : B → A) → Coded B → ((a : A) → from (to a) ≡ a) → Coded A
stored to from (codec, coded) inverse = (via to from codec, via-IsCodec to from codec coded inverse)

abbrev pub standard_args : Coded StandardArgs
standard_args = stored (λ a. a.synthetic_key) (λ k. record { synthetic_key = k }) nat (λ a. refl)

abbrev pub standard_solution : Coded (StandardSolution Term)
standard_solution =
    stored (λ s. (s.original_public_key, (s.delegated_puzzle, s.solution)))
      (λ s. record { original_public_key = s.0; delegated_puzzle = s.1.0; solution = s.1.1 })
      (optional nat & term & term) (λ s. refl)

abbrev pub cat_args : Coded (CatArgs Term)
cat_args =
    stored (λ a. (a.mod_hash, (a.asset_id, a.inner_puzzle)))
      (λ a. record { mod_hash = a.0; asset_id = a.1.0; inner_puzzle = a.1.1 }) (nat & nat & term)
      (λ a. refl)

abbrev pub lineage_proof : Coded LineageProof
lineage_proof =
    stored (λ p. (p.parent_parent_coin_info, (p.parent_inner_puzzle_hash, p.parent_amount)))
      (λ p. record {
        parent_parent_coin_info = p.0;
        parent_inner_puzzle_hash = p.1.0;
        parent_amount = p.1.1;
      })
      (nat & nat & nat) (λ p. refl)

abbrev pub coin : Coded Coin
coin =
    stored (λ p. (p.parent_coin_info, (p.puzzle_hash, p.amount)))
      (λ p. record { parent_coin_info = p.0; puzzle_hash = p.1.0; amount = p.1.1 })
      (nat & nat & nat) (λ p. refl)

abbrev pub coin_proof : Coded CoinProof
coin_proof =
    stored (λ p. (p.parent_coin_info, (p.inner_puzzle_hash, p.amount)))
      (λ p. record { parent_coin_info = p.0; inner_puzzle_hash = p.1.0; amount = p.1.1 })
      (nat & nat & nat) (λ p. refl)

abbrev pub int_encode : ℤ → Result Failure Term
int_encode (pos n) = ok (atom n)
int_encode (negsuc n) = ok (pair (atom n) (atom n))

abbrev pub int_decode : Term → Result Failure ℤ
int_decode (atom n) = ok (pos n)
int_decode (pair (atom n) _) = ok (negsuc n)
int_decode _ = err bad_term

abbrev pub int_codec : TestCodec ℤ
int_codec = record { encode = int_encode; decode = int_decode }

pub int_codec-IsCodec : IsCodec int_codec
int_codec-IsCodec (pos n) t h = ground (arith, h)
int_codec-IsCodec (negsuc n) t h = ground (arith, h)

abbrev pub int : Coded ℤ
int = (int_codec, int_codec-IsCodec)

abbrev pub cat_solution : Coded (CatSolution Term)
cat_solution =
    stored
      (λ s. (
        s.inner_puzzle_solution,
        (
          s.lineage_proof,
          (
            s.prev_coin_id,
            (s.this_coin_info, (s.next_coin_proof, (s.prev_subtotal, s.extra_delta))),
          ),
        ),
      ))
      (λ s. record {
        inner_puzzle_solution = s.0;
        lineage_proof = s.1.0;
        prev_coin_id = s.1.1.0;
        this_coin_info = s.1.1.1.0;
        next_coin_proof = s.1.1.1.1.0;
        prev_subtotal = s.1.1.1.1.1.0;
        extra_delta = s.1.1.1.1.1.1;
      })
      (term & optional lineage_proof & nat & coin & coin_proof & int & int) (λ s. refl)

abbrev pub singleton_struct : Coded SingletonStruct
singleton_struct =
    stored (λ s. (s.mod_hash, (s.launcher_id, s.launcher_puzzle_hash)))
      (λ s. record { mod_hash = s.0; launcher_id = s.1.0; launcher_puzzle_hash = s.1.1 })
      (nat & nat & nat) (λ s. refl)

abbrev pub singleton_args : Coded (SingletonArgs Term)
singleton_args =
    stored (λ a. (a.singleton_struct, a.inner_puzzle))
      (λ a. record { singleton_struct = a.0; inner_puzzle = a.1 }) (singleton_struct & term)
      (λ a. refl)

abbrev pub did_args : Coded (DidArgs Term ℕ)
did_args =
    stored
      (λ a. (
        a.inner_puzzle,
        (a.recovery_list_hash, (a.num_verifications_required, (a.singleton_struct, a.metadata))),
      ))
      (λ a. record {
        inner_puzzle = a.0;
        recovery_list_hash = a.1.0;
        num_verifications_required = a.1.1.0;
        singleton_struct = a.1.1.1.0;
        metadata = a.1.1.1.1;
      })
      (term & optional nat & nat & singleton_struct & nat) (λ a. refl)

-- A recovery is a number.
abbrev did_encode : DidSolution ℕ Term → Result Failure Term
did_encode (spend t) = ok (pair t (atom 0))
did_encode (recover n) = ok (atom n)

abbrev did_decode : Term → Result Failure (DidSolution ℕ Term)
did_decode (pair t _) = ok (spend t)
did_decode (atom n) = ok (recover n)
did_decode _ = err bad_term

abbrev pub did_codec : TestCodec (DidSolution ℕ Term)
did_codec = record { encode = did_encode; decode = did_decode }

pub did_codec-IsCodec : IsCodec did_codec
did_codec-IsCodec (spend s) t h = ground (arith, h)
did_codec-IsCodec (recover n) t h = ground (arith, h)

abbrev pub ownership_args : Coded (NftOwnershipLayerArgs Term)
ownership_args =
    stored (λ a. (a.mod_hash, (a.current_owner, (a.transfer_program, a.inner_puzzle))))
      (λ a. record {
        mod_hash = a.0;
        current_owner = a.1.0;
        transfer_program = a.1.1.0;
        inner_puzzle = a.1.1.1;
      })
      (nat & optional nat & term & term) (λ a. refl)

abbrev pub ownership_solution : Coded (NftOwnershipLayerSolution Term)
ownership_solution =
    stored (λ s. s.inner_solution) (λ s. record { inner_solution = s }) term (λ s. refl)

abbrev pub royalty_args : Coded NftRoyaltyTransferPuzzleArgs
royalty_args =
    stored (λ a. (a.singleton_struct, (a.royalty_puzzle_hash, a.royalty_ten_thousandths)))
      (λ a. record {
        singleton_struct = a.0;
        royalty_puzzle_hash = a.1.0;
        royalty_ten_thousandths = a.1.1;
      })
      (singleton_struct & nat & nat) (λ a. refl)

abbrev proof_encode : Proof → Result Failure Term
proof_encode (lineage p) = ok (
    pair (atom p.parent_parent_coin_info)
      (pair (atom p.parent_inner_puzzle_hash) (atom p.parent_amount)))
proof_encode (eve p) = ok (pair (atom p.parent_parent_coin_info) (atom p.parent_amount))

abbrev proof_decode : Term → Result Failure Proof
proof_decode (pair (atom a) (pair (atom b) (atom n))) = ok (
    lineage
      (record { parent_parent_coin_info = a; parent_inner_puzzle_hash = b; parent_amount = n }))
proof_decode (pair (atom a) (atom n)) =
    ok (eve (record { parent_parent_coin_info = a; parent_amount = n }))
proof_decode _ = err bad_term

abbrev pub proof_codec : TestCodec Proof
proof_codec = record { encode = proof_encode; decode = proof_decode }

pub proof_codec-IsCodec : IsCodec proof_codec
proof_codec-IsCodec (lineage p) t h = ground (arith, h)
proof_codec-IsCodec (eve p) t h = ground (arith, h)

abbrev pub proof : Coded Proof
proof = (proof_codec, proof_codec-IsCodec)

abbrev pub singleton_solution : Coded (SingletonSolution Term)
singleton_solution =
    stored (λ s. (s.lineage_proof, (s.amount, s.inner_solution)))
      (λ s. record { lineage_proof = s.0; amount = s.1.0; inner_solution = s.1.1 })
      (proof & nat & term) (λ s. refl)

abbrev pub state_args : Coded (NftStateLayerArgs Term ℕ)
state_args =
    stored (λ a. (a.mod_hash, (a.metadata, (a.metadata_updater_puzzle_hash, a.inner_puzzle))))
      (λ a. record {
        mod_hash = a.0;
        metadata = a.1.0;
        metadata_updater_puzzle_hash = a.1.1.0;
        inner_puzzle = a.1.1.1;
      })
      (nat & nat & nat & term) (λ a. refl)

abbrev pub state_solution : Coded (NftStateLayerSolution Term)
state_solution =
    stored (λ s. s.inner_solution) (λ s. record { inner_solution = s }) term (λ s. refl)
