-- ===== src/Network/Client.antt =====
-- src/Network/Client/Client.cpp: one request and its reply.
pub mod Resources
use chain_db.Base.{
  ℕ, Bool, true, false, Option, none, some, List, [], ◌∷◌, ◌++◌, length, ◌==◌, if◌then◌else◌,
}
use chain_db.Base.Bytes.{Bytes, text}
use chain_db.Base.Decimal.{to_string}

pub record Client : Type 0 where
  pub addr : Bytes
  pub port : ℕ
  pub timeout : ℕ

-- What the calls of ZeroMQ return in one `sendMessage`, those that are made: whether they succeed,
-- whether the poll reports a message, and the message. `none` stands for -1.
pub record Exchange : Type 0 where
  pub context : Bool
  pub socket : Bool
  pub connect : Bool
  pub request_init : Bool
  pub sent : Bool
  pub poll : Option Bool
  pub reply_init : Bool
  pub received : Option Bytes

-- What the code holds of the library, and what it does with it.
pub data Resource : Type 0 where
  context socket request reply : Resource

pub data Event : Type 0 where
  opened closed : Resource → Event

unfoldable pub make_endpoint_path : Client → Bytes
make_endpoint_path c = text "tcp://" ++ c.addr ++ text ":" ++ to_string c.port

-- From `zmq_msg_init` of the reply on.
abbrev pub receive : Exchange → Option Bytes × List Event
receive x =
    if x.reply_init
    then (
      elim x.received [
        | none ↦ none
        | some message ↦ if length message == 0 then none else some message
      ],
      opened reply ∷ closed reply ∷ [],
    )
    else (none, [])

abbrev pub poll : Exchange → Option Bytes × List Event
poll x = elim x.poll [
  | none ↦ (none, [])
  | some readable ↦ if readable then receive x else (none, [])
]

-- From `zmq_connect` up to the label `out`.
abbrev pub exchange : Exchange → Option Bytes × List Event
exchange x =
    if x.connect
    then if x.request_init
      then (let after = if x.sent then poll x else (none, []) in
          (after.0, opened request ∷ closed request ∷ after.1))
      else (none, [])
    else (none, [])

abbrev pub with_socket : Exchange → Option Bytes × List Event
with_socket x =
    if x.socket
    then (let done = exchange x in
        (done.0, opened socket ∷ (done.1 ++ closed socket ∷ closed context ∷ [])))
    else (none, closed context ∷ [])

-- The result, and the resources that were opened and closed, in order.
unfoldable pub send_message : Exchange → Option Bytes × List Event
send_message x =
    if x.context
    then (let done = with_socket x in (done.0, opened context ∷ done.1))
    else (none, [])
