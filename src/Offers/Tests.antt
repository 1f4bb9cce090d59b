-- ===== src/Offers/Tests.antt =====
-- Runs of crates/chia-sdk-offers, over libraries that leave the bytes themselves as they are.
use chia_wallet_sdk.Prelude.{
  Bool, Option, some, none, true, subst, ◌==◌, if◌then◌else◌, false, drop, ℕ, zero, suc, ◌≡◌, refl,
  List, [], ◌∷◌, arith,
}
use chia_wallet_sdk.Protocol.{Bytes, CoinSpend, SpendBundle, Result, ok, err}
use chia_wallet_sdk.Offers.{
  Library, IsStream, compression_zdict, PuzzleBytes, zlib_compress, IsLibrary, Variant,
  variant_bech32, variant_bech32m, invalid_prefix, offer1, compress, decompress, encode, decode,
  compress_offer_bytes, encode_offer_data, decompress-compress, decode-encode,
}

pub data Failure : Type 0 where
  bad_text : Failure

-- A text is a number for the variant, the prefix with each character after a one, a zero and the data.
abbrev variant_code : Variant → ℕ
variant_code variant_bech32 = 0
variant_code variant_bech32m = 1

abbrev with_prefix : Bytes → Bytes → Bytes
with_prefix [] values = 0 ∷ values
with_prefix (n ∷ hrp) values = 1 ∷ n ∷ with_prefix hrp values

abbrev variant_of : ℕ → Variant
variant_of zero = variant_bech32
variant_of (suc n) = variant_bech32m

abbrev add_character : ℕ → Bytes × Bytes → Bytes × Bytes
add_character n (hrp, values) = (n ∷ hrp, values)

abbrev without_prefix : Bytes → Bytes × Bytes
without_prefix (zero ∷ values) = ([], values)
without_prefix (suc one ∷ n ∷ rest) = add_character n (without_prefix rest)
without_prefix _ = ([], [])

abbrev decode_text : Bytes → Result Failure (Bytes × (Bytes × Variant))
decode_text [] = err bad_text
decode_text (v ∷ rest) = let parts = without_prefix rest in ok (parts.0, (parts.1, variant_of v))

without_prefix-with_prefix :
    (hrp values : Bytes) → without_prefix (with_prefix hrp values) ≡ (hrp, values)
without_prefix-with_prefix [] values = refl
without_prefix-with_prefix (n ∷ hrp) values = rw (without_prefix-with_prefix hrp values) refl

variant_of-variant_code : (v : Variant) → variant_of (variant_code v) ≡ v
variant_of-variant_code variant_bech32 = refl
variant_of-variant_code variant_bech32m = refl

abbrev bundle : SpendBundle
bundle = record { coin_spends = []; aggregated_signature = 7 ∷ [] }

-- Bundles without coin spends are their signatures.
abbrev bundle_bytes : SpendBundle → Result Failure Bytes
bundle_bytes b = elim b.coin_spends [ [] ↦ ok b.aggregated_signature | s ∷ spends ↦ err bad_text ]

abbrev puzzle_bytes : PuzzleBytes
puzzle_bytes = record {
  standard = 5 ∷ [];
  cat_v1 = 8 ∷ [];
  settlement_payments_v1 = [];
  singleton_top_layer = [];
  nft_state_layer = [];
  nft_ownership_layer = [];
  nft_metadata_updater = [];
  nft_royalty_transfer = [];
  cat = [];
  settlement_payments = [];
}

-- A stream starts with a one and the first byte of its dictionary, or with a zero if that is empty.
abbrev deflate : Bytes → Bytes → Result Failure Bytes
deflate bytes [] = ok (0 ∷ bytes)
deflate bytes (n ∷ dict) = ok (1 ∷ n ∷ bytes)

-- The first byte of the dictionary that a stream needs.
abbrev needed : Bytes → Bool × Option ℕ
needed (suc one ∷ n ∷ bytes) = (false, some n)
needed _ = (true, none)

abbrev take_dictionary : Option ℕ → Bytes → Result Failure (Option ℕ)
take_dictionary (some n) (m ∷ dict) = if n == m then ok (some n) else err bad_text
take_dictionary _ _ = err bad_text

abbrev library : Library Failure Bytes (Option ℕ)
library = record {
  to_five_bits = ok;
  to_eight_bits = ok;
  encode = λ hrp values v. ok (variant_code v ∷ with_prefix hrp values);
  decode = decode_text;
  puzzles = puzzle_bytes;
  compress_with = ok;
  encoder_read_to_end = deflate;
  decompress_finish = needed;
  set_dictionary = take_dictionary;
  total_in = λ d. 2;
  decoder_read_to_end = λ bytes d. ok bytes;
  to_bytes = bundle_bytes;
  from_bytes = λ bytes. ok (record { coin_spends = []; aggregated_signature = bytes });
}

bundle_again :
    (spends : List CoinSpend) (s bytes : Bytes)
    → bundle_bytes (record { coin_spends = spends; aggregated_signature = s }) ≡ ok bytes
    → library.from_bytes bytes ≡ ok (record { coin_spends = spends; aggregated_signature = s })
bundle_again [] s bytes h = ground (arith, h)
bundle_again (p ∷ ps) s bytes h = ground (arith, h)

stream_bytes :
    (dict bytes output : Bytes)
    → IsStream library dict bytes output
    → (n : ℕ) × (rest : Bytes) × (dict ≡ n ∷ rest) × (output ≡ 1 ∷ n ∷ bytes)
stream_bytes dict bytes output stream =
    let (n, rest, e) = stream.has_dictionary in
    let same : stream.with_dictionary ≡ n ∷ rest = ground (arith, stream.made_with, e) in
    let made : deflate bytes (n ∷ rest) ≡ ok output =
      subst (λ dict. deflate bytes dict ≡ ok output) same stream.made in
    (n, rest, e, ground (arith, made))

stream_needs_dictionary :
    (dict bytes output : Bytes) → IsStream library dict bytes output → (needed output).0 ≡ false
stream_needs_dictionary dict bytes output stream =
    let (n, rest, e, made) = stream_bytes dict bytes output stream in rw made refl

stream_takes_dictionary :
    (dict bytes output : Bytes)
    → IsStream library dict bytes output
    → (d : Option ℕ) × (take_dictionary (needed output).1 dict ≡ ok d)
stream_takes_dictionary dict bytes output stream =
    let (n, rest, e, made) = stream_bytes dict bytes output stream in
    (some n, rw (made, e) (ground arith))

stream_reads_on :
    (dict bytes output : Bytes) (d : Option ℕ)
    → IsStream library dict bytes output
    → take_dictionary (needed output).1 dict ≡ ok d
    → library.decoder_read_to_end (drop 2 output) d ≡ ok bytes
stream_reads_on dict bytes output d stream taken =
    let (n, rest, e, made) = stream_bytes dict bytes output stream in rw made refl

library-IsLibrary : IsLibrary library
library-IsLibrary = record {
  decode_of_encoded = λ hrp values text v lower h.
      let made : variant_code v ∷ with_prefix hrp values ≡ text = ground (arith, h) in
      rw (← made)
        (rw (without_prefix-with_prefix hrp values) (rw (variant_of-variant_code v) refl));
  needs_dictionary = stream_needs_dictionary;
  takes_dictionary = stream_takes_dictionary;
  reads_on = stream_reads_on;
  standard_puzzle = (5, [], refl);
  from_bytes-to_bytes = λ b bytes h. bundle_again b.coin_spends b.aggregated_signature bytes h;
}

decompress-compress_example : decompress library (0 ∷ 6 ∷ 1 ∷ 5 ∷ 7 ∷ []) ≡ ok bundle
unfolding compress compress_offer_bytes zlib_compress compression_zdict
decompress-compress_example =
    decompress-compress library library-IsLibrary bundle (0 ∷ 6 ∷ 1 ∷ 5 ∷ 7 ∷ []) refl

abbrev text : Bytes
text = 1 ∷ with_prefix offer1 (0 ∷ 6 ∷ 1 ∷ 5 ∷ 7 ∷ [])

decode-encode_example : decode library text ≡ err (invalid_prefix offer1)
unfolding encode compress compress_offer_bytes zlib_compress compression_zdict encode_offer_data
decode-encode_example = decode-encode library library-IsLibrary bundle text refl
