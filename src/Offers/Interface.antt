-- ===== src/Offers/Interface.antt =====
-- What crates/chia-sdk-offers/src uses of the bech32 and the flate2 crate, and the errors of error.rs. A
-- text is the list of its characters' codes.
use chia_wallet_sdk.Prelude.{ℕ, ◌≡◌, Bool, true, false, ◌&&◌, not, leb, [], ◌∷◌, drop}
use chia_wallet_sdk.Protocol.{Bytes, SpendBundle, Result, ok}

-- `E` is an error of the libraries.
pub data OfferError (E : Type 0) : Type 0 where
  io : E → OfferError E
  try_from_slice : E → OfferError E
  try_from_int : E → OfferError E
  missing_version_prefix : OfferError E
  unsupported_version : OfferError E
  streamable : E → OfferError E
  not_compressed : OfferError E
  to_clvm : E → OfferError E
  from_clvm : E → OfferError E
  puzzle_mismatch : OfferError E
  invalid_format : OfferError E
  invalid_prefix : Bytes → OfferError E
  flate2 : E → OfferError E
  decode_error : E → OfferError E

pub data Variant : Type 0 where
  variant_bech32 variant_bech32m : Variant

-- The bytes of the puzzles of chia_puzzles that the dictionary is made of.
pub record PuzzleBytes : Type 0 where
  pub standard : Bytes
  pub cat_v1 : Bytes
  pub settlement_payments_v1 : Bytes
  pub singleton_top_layer : Bytes
  pub nft_state_layer : Bytes
  pub nft_ownership_layer : Bytes
  pub nft_metadata_updater : Bytes
  pub nft_royalty_transfer : Bytes
  pub cat : Bytes
  pub settlement_payments : Bytes

-- The bech32 crate, the flate2 crate, and the bytes of a spend bundle. `C` is a Compress with its
-- dictionary, `D` a Decompress; the call of `decompress` with no room for output tells whether it is_ok.
pub record Library (E C D : Type 0) : Type 0 where
  pub puzzles : PuzzleBytes
  pub to_five_bits : Bytes → Result E Bytes
  pub to_eight_bits : Bytes → Result E Bytes
  pub encode : Bytes → Bytes → Variant → Result E Bytes
  pub decode : Bytes → Result E (Bytes × (Bytes × Variant))
  pub compress_with : Bytes → Result E C
  pub encoder_read_to_end : Bytes → C → Result E Bytes
  pub decompress_finish : Bytes → Bool × D
  pub set_dictionary : D → Bytes → Result E D
  pub total_in : D → ℕ
  pub decoder_read_to_end : Bytes → D → Result E Bytes
  pub to_bytes : SpendBundle → Result E Bytes
  pub from_bytes : Bytes → Result E SpendBundle

abbrev pub IsNonEmpty : Bytes → Type 0
IsNonEmpty bytes = (first : ℕ) × (rest : Bytes) × (bytes ≡ first ∷ rest)

-- What a Compress makes of bytes with a dictionary that is not empty: with an empty one, zlib makes a
-- stream without a dictionary.
pub record IsStream {E C D : Type 0} (lib : Library E C D) (dict bytes output : Bytes)
    : Type 0 where
  pub with_dictionary : C
  pub has_dictionary : IsNonEmpty dict
  pub made_with : lib.compress_with dict ≡ ok with_dictionary
  pub made : lib.encoder_read_to_end bytes with_dictionary ≡ ok output

-- No capital letters.
abbrev pub is_lower_case : Bytes → Bool
is_lower_case [] = true
is_lower_case (n ∷ rest) = not (leb 65 n && leb n 90) && is_lower_case rest

-- What was encoded, with a prefix in lower case, or written is read back. A Decompress fails on a stream
-- with a dictionary before it has one, takes the dictionary of the stream, and then reads the bytes from
-- behind the input that it has taken. The standard puzzle, with which the dictionary starts, has bytes.
pub record IsLibrary {E C D : Type 0} (lib : Library E C D) : Type 0 where
  pub decode_of_encoded :
      (hrp values text : Bytes) (v : Variant)
      → is_lower_case hrp ≡ true
      → lib.encode hrp values v ≡ ok text
      → lib.decode text ≡ ok (hrp, (values, v))
  pub needs_dictionary :
      (dict bytes output : Bytes)
      → IsStream lib dict bytes output
      → (lib.decompress_finish output).0 ≡ false
  pub takes_dictionary :
      (dict bytes output : Bytes)
      → IsStream lib dict bytes output
      → (d : D) × (lib.set_dictionary (lib.decompress_finish output).1 dict ≡ ok d)
  pub reads_on :
      (dict bytes output : Bytes) (d : D)
      → IsStream lib dict bytes output
      → lib.set_dictionary (lib.decompress_finish output).1 dict ≡ ok d
      → lib.decoder_read_to_end (drop (lib.total_in d) output) d ≡ ok bytes
  pub standard_puzzle : IsNonEmpty lib.puzzles.standard
  pub from_bytes-to_bytes :
      (bundle : SpendBundle) (bytes : Bytes)
      → lib.to_bytes bundle ≡ ok bytes
      → lib.from_bytes bytes ≡ ok bundle
