-- ===== src/Client/Inbound.antt =====
-- `handle_inbound_messages` of crates/chia-sdk-client/src/peer.rs, over the messages that the stream
-- brings.
use chia_wallet_sdk.Prelude.{
  ℕ, ◌≡◌, refl, false, Option, none, some, List, [], ◌∷◌, arith, contains, nat_eq, All,
  Option-cases, inl, inr,
}
use chia_wallet_sdk.Prelude.IndexMap.{lookup, IsMap, lookup-remove, remove-IsMap}
use chia_wallet_sdk.Prelude.IndexSet.{IsNodup}
use chia_wallet_sdk.Protocol.{Bytes, Result, ok, err}
use chia_wallet_sdk.Client.RequestMap.{RequestMap, Sender, remove}

pub record Message : Type 0 where
  pub msg_type : ℕ
  pub id : Option ℕ
  pub body : Bytes

-- What the WebSocket stream brings. `broken` is an error of the stream. A frame never comes.
pub data Frame : Type 0 where
  broken close : Frame
  ping pong : Frame
  text : Frame
  binary : Bytes → Frame

-- The errors that a connected peer has.
pub data ClientError : Type 0 where
  websocket : ClientError
  streamable : ClientError
  unexpected_message : ℕ → ClientError
  invalid_response : List ℕ → ℕ → ClientError

-- The responses that went to requests, with the ids, and the messages for the receiver of the peer.
pub record Delivered : Type 0 where
  pub answered : List (ℕ × (Sender × Message))
  pub received : List Message

abbrev nothing : Delivered
nothing = record { answered = []; received = [] }

module _ (from_bytes : Bytes → Option Message) where
  unfoldable pub handle_inbound_messages :
      List Frame → RequestMap → Result ClientError RequestMap × Delivered
  handle_inbound_messages [] m = (ok m, nothing)
  handle_inbound_messages (broken ∷ frames) m = (err websocket, nothing)
  handle_inbound_messages (close ∷ frames) m = (ok m, nothing)
  handle_inbound_messages (ping ∷ frames) m = handle_inbound_messages frames m
  handle_inbound_messages (pong ∷ frames) m = handle_inbound_messages frames m
  handle_inbound_messages (text ∷ frames) m = handle_inbound_messages frames m
  handle_inbound_messages (binary bytes ∷ frames) m = elim (from_bytes bytes) [
    | none ↦ (err streamable, nothing)
    | some message ↦ elim message.id [
      | none ↦
          let (result, d) = handle_inbound_messages frames m in
          (result, record d { received = message ∷ d.received })
      | some id ↦
          let (request, m') = remove id m in
          elim request [
            | none ↦ (err (unexpected_message message.msg_type), nothing)
            | some sender ↦
                let (result, d) = handle_inbound_messages frames m' in
                (result, record d { answered = (id, (sender, message)) ∷ d.answered })
          ]
    ]
  ]

-- What is said of each answer: the request waited under the response's id.
abbrev pub IsWaiting : RequestMap → ℕ × (Sender × Message) → Type 0
IsWaiting m (id, (sender, message)) = (lookup id m.items ≡ some sender) × (message.id ≡ some id)

abbrev pub ids_of : List (ℕ × (Sender × Message)) → List ℕ
ids_of [] = []
ids_of ((id, a) ∷ answers) = id ∷ ids_of answers

-- Answers of a map without an id are answers of the map, and none is for that id.
IsWaiting-before :
    (id : ℕ) (m : RequestMap) (sender : Sender)
    → IsMap m.items
    → lookup id m.items ≡ some sender
    → (answers : List (ℕ × (Sender × Message))) → All (IsWaiting (remove id m).1) answers
    → All (IsWaiting m) answers × (contains (ids_of answers) id ≡ false)
unfolding remove
IsWaiting-before id m sender unique e [] a = (tt, refl)
IsWaiting-before id m sender unique e ((other, (s, message)) ∷ answers) a =
    let (all, absent) = IsWaiting-before id m sender unique e answers a.1 in
    ground (arith, a.0.0, a.0.1, e, all, absent, lookup-remove id other m.items unique)

removed-IsMap : (id : ℕ) (m : RequestMap) → IsMap m.items → IsMap (remove id m).1.items
unfolding remove
removed-IsMap id m unique = elim (Option-cases (lookup id m.items)) [
  | inl absent ↦ rw (absent, remove) unique
  | inr (sender, e) ↦ rw (e, remove) (remove-IsMap id m.items unique)
]

taken_out :
    (id : ℕ) (m : RequestMap) (sender : Sender)
    → (remove id m).0 ≡ some sender
    → lookup id m.items ≡ some sender
unfolding remove
taken_out id m sender e = ground arith

abbrev pub Answers : RequestMap → List (ℕ × (Sender × Message)) → Type 0
Answers m answers = All (IsWaiting m) answers × IsNodup (ids_of answers)

module _ (from_bytes : Bytes → Option Message) where
  abbrev answers_of : List Frame → RequestMap → List (ℕ × (Sender × Message))
  answers_of frames m = (handle_inbound_messages from_bytes frames m).1.answered

  -- Whatever the stream brings, each answer goes to the request that waits under the id of the response,
  -- with that response, and no request is answered twice.
  pub handle_inbound_messages-Answers :
      (frames : List Frame) (m : RequestMap)
      → IsMap m.items
      → Answers m (handle_inbound_messages from_bytes frames m).1.answered
  unfolding handle_inbound_messages
  handle_inbound_messages-Answers [] m unique = (tt, tt)
  handle_inbound_messages-Answers (broken ∷ frames) m unique = (tt, tt)
  handle_inbound_messages-Answers (close ∷ frames) m unique = (tt, tt)
  handle_inbound_messages-Answers (ping ∷ frames) m unique =
      handle_inbound_messages-Answers frames m unique
  handle_inbound_messages-Answers (pong ∷ frames) m unique =
      handle_inbound_messages-Answers frames m unique
  handle_inbound_messages-Answers (text ∷ frames) m unique =
      handle_inbound_messages-Answers frames m unique
  handle_inbound_messages-Answers (binary bytes ∷ frames) m unique =
      elim (Option-cases (from_bytes bytes)) [
        | inl bad ↦
            let shape : answers_of (binary bytes ∷ frames) m ≡ [] = ground (arith, bad) in
            rw shape (tt, tt)
        | inr (message, e) ↦ elim (Option-cases message.id) [
          | inl no_id ↦
              let shape : answers_of (binary bytes ∷ frames) m ≡ answers_of frames m =
                ground (arith, e, no_id) in
              rw shape (handle_inbound_messages-Answers frames m unique)
          | inr (id, from) ↦ elim (Option-cases (remove id m).0) [
            | inl untracked ↦
                let shape : answers_of (binary bytes ∷ frames) m ≡ [] =
                  ground (arith, e, from, untracked) in
                rw shape (tt, tt)
            | inr (sender, waiting) ↦
                let rest = remove id m in
                let shape : answers_of (binary bytes ∷ frames) m
                    ≡ (id, (sender, message)) ∷ answers_of frames rest.1 =
                  ground (arith, e, from, waiting) in
                let later =
                  handle_inbound_messages-Answers frames rest.1 (removed-IsMap id m unique) in
                let there = taken_out id m sender waiting in
                let (all, absent) =
                  IsWaiting-before id m sender unique there (answers_of frames rest.1) later.0 in
                rw shape (((there, from), all), (absent, later.1))
          ]
        ]
      ]
