-- ===== src/Driver/Examples/Quotes.antt =====
-- A codec of conditions for the tests of crates/chia-sdk-driver: those that the tests put out, which are
-- a fee, a coin without memos and an announcement of a byte.
use chia_wallet_sdk.Prelude.{List, [], ◌∷◌}
use chia_wallet_sdk.Protocol.{Result, ok, err, ◌>>=◌}
use chia_wallet_sdk.Conditions.{Condition, create_coin, reserve_fee, create_puzzle_announcement}
use chia_wallet_sdk.Conditions.Lists.{Conditions}
use chia_wallet_sdk.Driver.Examples.{Term, atom, pair, Failure, bad_term, TestCodec, via}

abbrev condition_encode : Condition Term → Result Failure Term
condition_encode (reserve_fee n) = ok (atom n)
condition_encode (create_puzzle_announcement (m ∷ [])) = ok (pair (atom 0) (atom m))
condition_encode (create_coin p n []) = ok (pair (pair (atom p) (atom n)) (atom 0))
condition_encode _ = err bad_term

abbrev condition_decode : Term → Result Failure (Condition Term)
condition_decode (atom n) = ok (reserve_fee n)
condition_decode (pair (atom _) (atom m)) = ok (create_puzzle_announcement (m ∷ []))
condition_decode (pair (pair (atom p) (atom n)) _) = ok (create_coin p n [])
condition_decode _ = err bad_term

abbrev pub condition_codec : TestCodec (Condition Term)
condition_codec = record { encode = condition_encode; decode = condition_decode }

module _ {A : Type 0} (codec : TestCodec A) where
  abbrev list_encode : List A → Result Failure Term
  list_encode [] = ok (atom 0)
  list_encode (a ∷ rest) = codec.encode a >>= λ t. list_encode rest >>= λ u. ok (pair t u)

  abbrev list_decode : Term → Result Failure (List A)
  list_decode (pair t u) = codec.decode t >>= λ a. list_decode u >>= λ rest. ok (a ∷ rest)
  list_decode _ = ok []

  abbrev pub list_codec : TestCodec (List A)
  list_codec = record { encode = list_encode; decode = list_decode }

abbrev pub quote_codec : TestCodec (List (Condition Term))
quote_codec = list_codec condition_codec

abbrev pub conditions_codec : TestCodec (Conditions Term)
conditions_codec =
    via (λ s. s.conditions) (λ conditions. record { conditions = conditions }) quote_codec
