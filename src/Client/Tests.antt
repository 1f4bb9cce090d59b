-- ===== src/Client/Tests.antt =====
-- Runs of crates/chia-sdk-client/src/request_map.rs and peer.rs, and their theorems at those inputs.
use chia_wallet_sdk.Prelude.{
  ℕ, ◌≡◌, ◌≢◌, ◌↔◌, refl, Bool, false, Option, none, some, List, [], ◌∷◌, arith,
}
use chia_wallet_sdk.Prelude.IndexMap.{lookup}
use chia_wallet_sdk.Protocol.{Bytes, ok, err}
use chia_wallet_sdk.Client.RequestMap.{RequestMap, Sender, inserted, insert, remove}
use chia_wallet_sdk.Client.Ids.{IsWf, Fresh, insert-Fresh, remove-IsWf}
use chia_wallet_sdk.Client.Inbound.{
  Message, Frame, binary, ping, handle_inbound_messages, Answers, handle_inbound_messages-Answers,
}
use chia_wallet_sdk.Client.Peer.{Streamable, request_fallible, request_fallible_lem}

-- Requests 0 and 2 wait.
abbrev two_requests : RequestMap
two_requests = record { items = (0, 70) ∷ (2, 72) ∷ []; permits = 65_533 }

two_requests-IsWf : IsWf two_requests
unfolding lookup
two_requests-IsWf = record { unique = (refl, (refl, tt)); held = omega arith }

nobody_closed : Sender → Bool
nobody_closed sender = false

insert-Fresh_example :
    (id : ℕ) × (m' : RequestMap) × (insert nobody_closed 71 two_requests ≡ inserted id m')
    × Fresh nobody_closed 71 two_requests id m'
insert-Fresh_example = insert-Fresh nobody_closed 71 two_requests two_requests-IsWf (omega arith)

remove-IsWf_example : IsWf (remove 2 two_requests).1
remove-IsWf_example = remove-IsWf 2 two_requests two_requests-IsWf

-- The bytes are the type and the id.
abbrev from_bytes : Bytes → Option Message
from_bytes (kind ∷ id ∷ body) = some (record { msg_type = kind; id = some id; body = body })
from_bytes _ = none

abbrev frames : List Frame
frames = binary (5 ∷ 2 ∷ []) ∷ ping ∷ binary (5 ∷ 2 ∷ []) ∷ []

handle_inbound_messages-Answers_example :
    Answers two_requests (handle_inbound_messages from_bytes frames two_requests).1.answered
handle_inbound_messages-Answers_example =
    handle_inbound_messages-Answers from_bytes frames two_requests two_requests-IsWf.unique

abbrev response : Streamable Bytes
response = record { msg_type = 5; from_bytes = λ bytes. some bytes }

abbrev rejection : Streamable Bytes
rejection = record { msg_type = 6; from_bytes = λ bytes. some bytes }

abbrev rejected : Message
rejected = record { msg_type = 6; id = some 2; body = 1 ∷ [] }

request_fallible_lem_example :
    ((request_fallible response rejection (ok rejected) ≡ ok (ok []))
      ↔ ((rejected.msg_type ≡ response.msg_type) × (response.from_bytes rejected.body ≡ some [])))
    × ((request_fallible response rejection (ok rejected) ≡ ok (err (1 ∷ []))) ↔ (
        (rejected.msg_type ≡ rejection.msg_type)
        × (rejected.msg_type ≢ response.msg_type)
        × (rejection.from_bytes rejected.body ≡ some (1 ∷ []))))
request_fallible_lem_example = request_fallible_lem response rejection rejected [] (1 ∷ [])
