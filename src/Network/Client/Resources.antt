-- ===== src/Network/Client/Resources.antt =====
-- Client.cpp, `sendMessage`: its result, and the resources that it holds on the way.
use mathlib.Core.List.{cons-ne-nil}
use chain_db.Base.{
  ◌≡◌, ◌≢◌, ◌↔◌, refl, Bool, true, false, Option, none, some, List, [], ◌∷◌, arith, length, ◌==◌,
  if◌then◌else◌,
}
use chain_db.Base.Bytes.{Bytes}
use chain_db.Network.Client.{
  Exchange, Resource, context, socket, request, reply, Event, opened, closed, send_message,
}

abbrev same : Resource → Resource → Bool
same context context = true
same socket socket = true
same request request = true
same reply reply = true
same _ _ = false

-- The resources that are open after some events, the last opened first; `none` if one was closed
-- that was not the last opened.
abbrev pub held : List Resource → List Event → Option (List Resource)
held rs [] = some rs
held rs (opened r ∷ events) = held (r ∷ rs) events
held [] (closed r ∷ events) = none
held (q ∷ rs) (closed r ∷ events) = if same q r then held rs events else none

-- Every call succeeded, and a reply came that is not empty.
pub record Answered (x : Exchange) (message : Bytes) : Type 0 where
  pub context : x.context ≡ true
  pub socket : x.socket ≡ true
  pub connect : x.connect ≡ true
  pub request_init : x.request_init ≡ true
  pub sent : x.sent ≡ true
  pub poll : x.poll ≡ some true
  pub reply_init : x.reply_init ≡ true
  pub received : x.received ≡ some message
  pub not_empty : message ≢ []

empty_iff : (m : Bytes) → ((length m == 0) ≡ true) ↔ (m ≡ [])
empty_iff [] = ((λ e. refl), (λ e. refl))
empty_iff (c ∷ m) = ((λ e. absurd (ground arith)), (λ e. absurd (cons-ne-nil c m e)))

sent-Answered :
    (x : Exchange) (message : Bytes) → (send_message x).0 ≡ some message → Answered x message
unfolding send_message
sent-Answered x message e = ground (arith, empty_iff message)

Answered-sent :
    (x : Exchange) (message : Bytes) → Answered x message → (send_message x).0 ≡ some message
unfolding send_message
Answered-sent x message a = ground (arith, empty_iff message)

-- `sendMessage` returns a message exactly if every call of the library succeeded, the poll
-- reported a message, and that message was received and is not empty.
pub send_message-Answered :
    (x : Exchange) (message : Bytes) → ((send_message x).0 ≡ some message) ↔ Answered x message
send_message-Answered x message = (λ e. sent-Answered x message e, λ a. Answered-sent x message a)

-- On every path through `sendMessage`, what was opened of the library is closed again, the last
-- opened first, and nothing is closed that is not open.
pub held-send_message : (x : Exchange) → held [] (send_message x).1 ≡ some []
unfolding send_message
held-send_message x = ground arith
