-- ===== src/Client/Peer.antt =====
-- `request_fallible` and `request_infallible` of crates/chia-sdk-client/src/peer.rs: how a response is
-- read. `response` is what `request_raw` returns.
use chia_wallet_sdk.Prelude.{
  ℕ, ◌≡◌, ◌≢◌, ◌↔◌, not, ◌&&◌, Option, none, some, [], ◌∷◌, if◌then◌else◌, arith, ◌==◌,
}
use chia_wallet_sdk.Protocol.{Bytes, Result, ok, err, ◌>>=◌}
use chia_wallet_sdk.Client.Inbound.{Message, ClientError, streamable, invalid_response}

-- A protocol message type: its number and its parser.
pub record Streamable (T : Type 0) : Type 0 where
  pub msg_type : ℕ
  pub from_bytes : Bytes → Option T

abbrev parse : {T : Type 0} → Streamable T → Message → Result ClientError T
parse s message = elim (s.from_bytes message.body) [ none ↦ err streamable | some t ↦ ok t ]

unfoldable pub request_infallible :
    {T : Type 0} → Streamable T → Result ClientError Message → Result ClientError T
request_infallible t response = response >>= λ message.
    if not (message.msg_type == t.msg_type)
    then err (invalid_response (t.msg_type ∷ []) message.msg_type)
    else parse t message

-- A response, or a rejection.
unfoldable pub request_fallible :
    {T E : Type 0}
    → Streamable T
    → Streamable E
    → Result ClientError Message
    → Result ClientError (Result E T)
request_fallible t e response = response >>= λ message.
    if not (message.msg_type == t.msg_type) && not (message.msg_type == e.msg_type)
    then err (invalid_response (t.msg_type ∷ e.msg_type ∷ []) message.msg_type)
    else if message.msg_type == t.msg_type
    then (parse t message >>= λ body. ok (ok body))
    else (parse e message >>= λ body. ok (err body))

-- A message is read as a response exactly if it has the type of the response and parses as one, and as a
-- rejection exactly if it has the type of the rejection, not that of the response, and parses as one.
pub request_fallible_lem :
    {T E : Type 0} (t : Streamable T) (e : Streamable E) (message : Message) (body : T) (reason : E)
    → ((request_fallible t e (ok message) ≡ ok (ok body))
        ↔ ((message.msg_type ≡ t.msg_type) × (t.from_bytes message.body ≡ some body)))
      × ((request_fallible t e (ok message) ≡ ok (err reason)) ↔ (
          (message.msg_type ≡ e.msg_type)
          × (message.msg_type ≢ t.msg_type)
          × (e.from_bytes message.body ≡ some reason)))
unfolding request_fallible
request_fallible_lem t e message body reason =
    ((λ h. ground arith, λ h. ground arith), (λ h. ground arith, λ h. ground arith))
