-- ===== src/Driver/Examples.antt =====
-- A small CLVM for the tests of crates/chia-sdk-driver: atoms, pairs and curried programs, and
-- codecs for the arguments and the solutions of the layers.
use chia_wallet_sdk.Prelude.{
  ℕ, ◌+◌, ◌*◌, ◌≡◌, refl, ◌∙◌, ap, Bool, true, false, Option, none, some, List, [], ◌∷◌, ◌==◌, inl,
  inr, arith,
}
use chia_wallet_sdk.Protocol.{Bytes32, Bytes, Result, ok, err, ◌>>=◌, Result-cases}
use chia_wallet_sdk.Driver.Clvm.{Clvm, IsClvm, Codec, IsCodec, Mod, IsMod}
use chia_wallet_sdk.Driver.Context.{Mods}
pub mod Codecs
pub mod Quotes

pub data Term : Type 0 where
  atom : ℕ → Term
  pair : Term → Term → Term
  curry : Term → Term → Term

abbrev pub term_hash : Term → ℕ
term_hash (atom n) = n
term_hash (pair a b) = term_hash a * 5 + term_hash b + 2
term_hash (curry a b) = term_hash a * 3 + term_hash b + 1

-- An error names what was not understood.
pub data Failure : Type 0 where
  bad_term bad_bytes : Failure

abbrev uncurry : Term → Option (Term × Term)
uncurry (curry program args) = some (program, args)
uncurry _ = none

abbrev node_from_bytes : Bytes → Result Failure Term
node_from_bytes (n ∷ []) = ok (atom n)
node_from_bytes _ = err bad_bytes

abbrev pub clvm : Clvm Term Failure
clvm = record {
  nil = atom 0;
  tree_hash = term_hash;
  curry = λ program args. ok (curry program args);
  uncurry = uncurry;
  curry_hash = λ program args. program * 3 + args + 1;
  node_from_bytes = node_from_bytes;
  serialize = λ t. ok (term_hash t ∷ []);
  run_puzzle = λ puzzle solution. ok solution;
}

uncurry-hash :
    (t program args : Term)
    → uncurry t ≡ some (program, args)
    → term_hash t ≡ term_hash program * 3 + term_hash args + 1
uncurry-hash (atom n) program args h = ground (arith, h)
uncurry-hash (pair a b) program args h = ground (arith, h)
uncurry-hash (curry a b) program args h = ground (arith, h)

pub clvm-IsClvm : IsClvm clvm
clvm-IsClvm = record {
  uncurry-curry = λ program args t h. ground (arith, h);
  tree_hash-uncurry = uncurry-hash;
}

abbrev pub mod_of : ℕ → Mod
mod_of n = record { hash = n; bytes = n ∷ [] }

pub mod_of-IsMod : (n : ℕ) → IsMod clvm (mod_of n)
mod_of-IsMod n t h = ground (arith, h)

abbrev pub mods : Mods
mods = record {
  standard = mod_of 1;
  cat = mod_of 2;
  did_inner = mod_of 3;
  nft_intermediate_launcher = mod_of 4;
  nft_royalty_transfer = mod_of 5;
  nft_metadata_updater = mod_of 6;
  nft_ownership_layer = mod_of 7;
  nft_state_layer = mod_of 8;
  singleton_top_layer = mod_of 9;
  singleton_launcher = mod_of 10;
  everything_with_signature_tail = mod_of 11;
  genesis_by_coin_id_tail = mod_of 12;
  settlement_payments = mod_of 13;
  p2_delegated_conditions = mod_of 14;
  p2_one_of_many = mod_of 15;
  p2_singleton = mod_of 16;
  p2_delegated_singleton = mod_of 17;
  delegation_layer = mod_of 18;
  writer_filter = mod_of 19;
}

abbrev pub TestCodec : Type 0 → Type 0
TestCodec A = Codec Term Failure A

-- The codecs of numbers, of trees and of pairs.
abbrev nat_decode : Term → Result Failure ℕ
nat_decode (atom n) = ok n
nat_decode _ = err bad_term

abbrev pub nat_codec : TestCodec ℕ
nat_codec = record { encode = λ n. ok (atom n); decode = nat_decode }

pub nat_codec-IsCodec : IsCodec nat_codec
nat_codec-IsCodec n t h = ground (arith, h)

abbrev pub term_codec : TestCodec Term
term_codec = record { encode = ok; decode = ok }

pub term_codec-IsCodec : IsCodec term_codec
term_codec-IsCodec a t h = ground (arith, h)

module _ {A B : Type 0} (first : TestCodec A) (second : TestCodec B) where
  abbrev pair_encode : A × B → Result Failure Term
  pair_encode (a, b) = first.encode a >>= λ t. second.encode b >>= λ u. ok (pair t u)

  abbrev pair_decode : Term → Result Failure (A × B)
  pair_decode (pair t u) = first.decode t >>= λ a. second.decode u >>= λ b. ok (a, b)
  pair_decode _ = err bad_term

  abbrev pub pair_codec : TestCodec (A × B)
  pair_codec = record { encode = pair_encode; decode = pair_decode }

  pub pair_codec-IsCodec : IsCodec first → IsCodec second → IsCodec pair_codec
  pair_codec-IsCodec coded coded' (a, b) t h = elim (Result-cases (first.encode a)) [
    | inr (e, p) ↦ ground (arith, p)
    | inl (x, p) ↦ elim (Result-cases (second.encode b)) [
      | inr (e, q) ↦ ground (arith, p, q)
      | inl (y, q) ↦
          let made : pair x y ≡ t = ground (arith, p, q) in
          rw (← made) (ground (arith, coded a x p, coded' b y q))
    ]
  ]

-- The codec of a type that is stored as another.
module _ {A B : Type 0} (to : A → B) (from : B → A) (codec : TestCodec B) where
  abbrev pub via : TestCodec A
  via = record {
    encode = λ a. codec.encode (to a);
    decode = λ t. codec.decode t >>= λ b. ok (from b);
  }

  pub via-IsCodec : IsCodec codec → ((a : A) → from (to a) ≡ a) → IsCodec via
  via-IsCodec coded inverse a t h = rw (coded (to a) t h) (ap ok (inverse a))

module _ {A : Type 0} (codec : TestCodec A) where
  abbrev option_encode : Option A → Result Failure Term
  option_encode none = ok (atom 0)
  option_encode (some a) = codec.encode a >>= λ t. ok (pair (atom 1) t)

  abbrev option_decode : Term → Result Failure (Option A)
  option_decode (pair _ t) = codec.decode t >>= λ a. ok (some a)
  option_decode _ = ok none

  abbrev pub option_codec : TestCodec (Option A)
  option_codec = record { encode = option_encode; decode = option_decode }

  pub option_codec-IsCodec : IsCodec codec → IsCodec option_codec
  option_codec-IsCodec coded none t h =
      let made : atom 0 ≡ t = ground (arith, h) in rw (← made) refl
  option_codec-IsCodec coded (some a) t h = elim (Result-cases (codec.encode a)) [
    | inr (e, p) ↦ ground (arith, p)
    | inl (x, p) ↦
        let made : pair (atom 1) x ≡ t = ground (arith, p) in
        rw (← made) (ground (arith, coded a x p))
  ]
