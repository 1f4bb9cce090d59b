-- ===== src/Offers.antt =====
-- crates/chia-sdk-offers/src/compress.rs, encode.rs and offer.rs: the bytes and the text of an
-- offer. A text is the list of its characters' codes.
use chia_wallet_sdk.Prelude.{
  ◌++◌, drop, ℕ, ◌+◌, ◌*◌, ◌≡◌, ap, refl, ◌∙◌, Bool, true, false, ◌&&◌, not, ltb, leb, List, [],
  ◌∷◌, ◌==◌, if◌then◌else◌, inl, inr, arith,
}
use chia_wallet_sdk.Protocol.{Bytes, SpendBundle, Result, ok, err, ◌>>=◌, Result-cases}
mod Interface
mod Tests
pub use Interface.*

abbrev pub map_err : {E F A : Type 0} → (E → F) → Result E A → Result F A
map_err f (ok a) = ok a
map_err f (err e) = err (f e)

abbrev pub is_bech32m : Variant → Bool
is_bech32m variant_bech32 = false
is_bech32m variant_bech32m = true

abbrev pub same_text : Bytes → Bytes → Bool
same_text [] [] = true
same_text (a ∷ as_) (b ∷ bs) = a == b && same_text as_ bs
same_text _ _ = false

-- "offer" and "offer1".
abbrev pub offer : Bytes
offer = 111 ∷ 102 ∷ 102 ∷ 101 ∷ 114 ∷ []

abbrev pub offer1 : Bytes
offer1 = 111 ∷ 102 ∷ 102 ∷ 101 ∷ 114 ∷ 49 ∷ []

unfoldable pub compression_zdict : PuzzleBytes → Bytes
compression_zdict p =
    p.standard
    ++ (p.cat_v1
        ++ (p.settlement_payments_v1
            ++ (p.singleton_top_layer
                ++ (p.nft_state_layer
                    ++ (p.nft_ownership_layer
                        ++ (p.nft_metadata_updater
                            ++ (p.nft_royalty_transfer ++ (p.cat ++ p.settlement_payments))))))))

append-IsNonEmpty : (front back : Bytes) → IsNonEmpty front → IsNonEmpty (front ++ back)
append-IsNonEmpty front back (first, rest, e) = (first, rest ++ back, ap (λ bytes. bytes ++ back) e)

module _ {E C D : Type 0} (lib : Library E C D) where
  unfoldable pub zlib_compress : Bytes → Bytes → Result E Bytes
  zlib_compress input zdict = lib.compress_with zdict >>= λ c. lib.encoder_read_to_end input c

  -- usize has 64 bits, so that total_in is always one.
  unfoldable pub zlib_decompress : Bytes → Bytes → Result (OfferError E) Bytes
  zlib_decompress input zdict =
      let begun = lib.decompress_finish input in
      if begun.0
      then err not_compressed
      else (map_err flate2 (lib.set_dictionary begun.1 zdict) >>= λ d.
          map_err io (lib.decoder_read_to_end (drop (lib.total_in d) input) d))

  unfoldable pub compress_offer_bytes : Bytes → Result (OfferError E) Bytes
  compress_offer_bytes bytes =
      map_err io (zlib_compress bytes (compression_zdict lib.puzzles)) >>= λ output.
      ok (0 ∷ 6 ∷ output)

  unfoldable pub decompress_offer_bytes : Bytes → Result (OfferError E) Bytes
  decompress_offer_bytes (high ∷ low ∷ rest) =
      if ltb 6 (high * 256 + low)
      then err unsupported_version
      else zlib_decompress rest (compression_zdict lib.puzzles)
  decompress_offer_bytes _ = err missing_version_prefix

  unfoldable pub encode_offer_data : Bytes → Result (OfferError E) Bytes
  encode_offer_data bytes = map_err decode_error (lib.to_five_bits bytes) >>= λ values.
      map_err decode_error (lib.encode offer1 values variant_bech32m)

  unfoldable pub decode_offer_data : Bytes → Result (OfferError E) Bytes
  decode_offer_data text = map_err decode_error (lib.decode text) >>= λ decoded.
      if not (is_bech32m decoded.1.1)
      then err invalid_format
      else if not (same_text decoded.0 offer)
      then err (invalid_prefix decoded.0)
      else map_err decode_error (lib.to_eight_bits decoded.1.0)

  unfoldable pub compress : SpendBundle → Result (OfferError E) Bytes
  compress bundle = map_err streamable (lib.to_bytes bundle) >>= compress_offer_bytes

  unfoldable pub decompress : Bytes → Result (OfferError E) SpendBundle
  decompress bytes =
      decompress_offer_bytes bytes >>= λ output. map_err streamable (lib.from_bytes output)

  unfoldable pub encode : SpendBundle → Result (OfferError E) Bytes
  encode bundle = compress bundle >>= encode_offer_data

  unfoldable pub decode : Bytes → Result (OfferError E) SpendBundle
  decode text = decode_offer_data text >>= decompress

  compression_zdict-IsNonEmpty : IsLibrary lib → IsNonEmpty (compression_zdict lib.puzzles)
  unfolding compression_zdict
  compression_zdict-IsNonEmpty lawful =
      append-IsNonEmpty lib.puzzles.standard _ lawful.standard_puzzle

  -- What is compressed is read back with the same dictionary, if it is not empty.
  zlib_decompress-zlib_compress :
      IsLibrary lib
      → (bytes output zdict : Bytes) → IsNonEmpty zdict
      → zlib_compress bytes zdict ≡ ok output
      → zlib_decompress output zdict ≡ ok bytes
  unfolding zlib_compress zlib_decompress
  zlib_decompress-zlib_compress lawful bytes output zdict filled h =
      elim (Result-cases (lib.compress_with zdict)) [
        | inr (failure, e) ↦ ground (arith, e)
        | inl (c, e) ↦
            let stream : IsStream lib zdict bytes output = record {
              with_dictionary = c;
              has_dictionary = filled;
              made_with = e;
              made = ground (arith, e);
            } in
            let asks = lawful.needs_dictionary zdict bytes output stream in
            let (d, takes) = lawful.takes_dictionary zdict bytes output stream in
            let reads = lawful.reads_on zdict bytes output d stream takes in
            rw asks (rw takes (rw reads refl))
      ]

  -- An offer that is compressed is decompressed as it was.
  pub decompress-compress :
      IsLibrary lib
      → (bundle : SpendBundle) (bytes : Bytes) → compress bundle ≡ ok bytes
      → decompress bytes ≡ ok bundle
  unfolding compress decompress compress_offer_bytes decompress_offer_bytes
  decompress-compress lawful bundle bytes h = elim (Result-cases (lib.to_bytes bundle)) [
    | inr (failure, e) ↦ ground (arith, e)
    | inl (written, e) ↦
        elim (Result-cases (zlib_compress written (compression_zdict lib.puzzles))) [
          | inr (failure, f) ↦ ground (arith, e, f)
          | inl (output, f) ↦
              let made : 0 ∷ 6 ∷ output ≡ bytes = ground (arith, e, f) in
              let unpacked =
                zlib_decompress-zlib_compress lawful written output (compression_zdict lib.puzzles)
                  (compression_zdict-IsNonEmpty lawful) f in
              let read = lawful.from_bytes-to_bytes bundle written e in
              rw (← made) (rw unpacked (rw read refl))
        ]
  ]

  encode_offer_data-decode_offer_data :
      IsLibrary lib
      → (bytes text : Bytes) → encode_offer_data bytes ≡ ok text
      → decode_offer_data text ≡ err (invalid_prefix offer1)
  unfolding encode_offer_data decode_offer_data
  encode_offer_data-decode_offer_data lawful bytes text h =
      elim (Result-cases (lib.to_five_bits bytes)) [
        | inr (failure, e) ↦ ground (arith, e)
        | inl (values, e) ↦ elim (Result-cases (lib.encode offer1 values variant_bech32m)) [
          | inr (failure, f) ↦ ground (arith, e, f)
          | inl (made, f) ↦
              let same : made ≡ text = ground (arith, e, f) in
              let decoded = lawful.decode_of_encoded offer1 values made variant_bech32m refl f in
              rw (← same) (rw decoded refl)
        ]
      ]

  -- The text that an offer is encoded as is never decoded, but is refused for its prefix, which has the
  -- separator of the text in it.
  pub decode-encode :
      IsLibrary lib
      → (bundle : SpendBundle) (text : Bytes) → encode bundle ≡ ok text
      → decode text ≡ err (invalid_prefix offer1)
  unfolding encode decode
  decode-encode lawful bundle text h = elim (Result-cases (compress bundle)) [
    | inr (failure, e) ↦ ground (arith, e)
    | inl (bytes, e) ↦
        let encoded : encode_offer_data bytes ≡ ok text = ground (arith, e) in
        rw (encode_offer_data-decode_offer_data lawful bytes text encoded) refl
  ]
