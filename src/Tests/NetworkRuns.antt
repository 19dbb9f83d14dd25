-- ===== src/Tests/NetworkRuns.antt =====
-- The theorems on src/Network, with a handler that returns what it gets, and nothing for an empty message.
use chain_db.Base.{All, ℕ, suc, ◌≡◌, ◌↔◌, refl, true, Option, none, some, [], ◌∷◌}
use chain_db.Base.Bytes.{Bytes, text}
use chain_db.Base.Action.{Run, returned}
use chain_db.Network.Client.{Exchange, send_message}
use chain_db.Network.Client.Resources.{Answered, held, send_message-Answered, held-send_message}
use chain_db.Network.Server.{Server, Opening, Turn, start, stop, test, turn, serve, answers}
use chain_db.Network.Server.Steps.{Reach, here, next, tests, turns}
use chain_db.Network.Server.Transcript.{requests, results, Reach-Served}
use chain_db.Network.Server.Replies.{Honest, Complete, AllSent, Reach-Replied}
use chain_db.Network.Server.Stopping.{Stopped, Reach-Stopped}

abbrev echo : Bytes → ℕ → Run (Option Bytes) × ℕ
echo [] w = (returned none, suc w)
echo (c ∷ msg) w = (returned (some (c ∷ msg)), suc w)

abbrev pub opening : Opening
opening = record { context = true; socket = true; bind = true }

abbrev pub taking : Bytes → Turn
taking msg = record {
  poll = some true;
  request_init = true;
  received = some msg;
  reply_init = true;
  sent = true;
}

-- A round that takes a message.
abbrev pub after_round : Bytes → Server ℕ → Server ℕ
after_round msg s = turn echo (taking msg) (test echo s)

abbrev first : Server ℕ
first = after_round (text "a") (start echo opening 0)

abbrev second : Server ℕ
second = after_round [] first

abbrev two_messages : Reach echo (start echo opening 0) second
unfolding start test turn
two_messages =
    next (next (next (next here (tests _ refl)) (turns _ (taking (text "a")) refl)) (tests _ refl))
      (turns _ (taking []) refl)

Reach-Served_example :
    (requests second.log ≡ text "a" ∷ [] ∷ [])
    × (second.world ≡ serve echo (text "a" ∷ [] ∷ []) 0)
    × (results second.log ≡ answers echo (text "a" ∷ [] ∷ []) 0)
unfolding two_messages
Reach-Served_example = Reach-Served echo opening 0 two_messages

Reach-Replied_example :
    All Honest second.log × (AllSent echo two_messages → All Complete second.log)
Reach-Replied_example = Reach-Replied echo opening 0 two_messages

-- A server that is stopped while it takes a message: it handles that one and leaves.
abbrev in_body : Server ℕ
in_body = test echo first

abbrev last_round : Server ℕ
last_round = test echo (turn echo (taking (text "b")) (stop echo in_body))

after_stop : Reach echo (stop echo in_body) last_round
unfolding start test turn stop
after_stop = next (next here (turns _ (taking (text "b")) refl)) (tests _ refl)

Reach-Stopped_example : Stopped echo in_body last_round
Reach-Stopped_example = Reach-Stopped echo in_body after_stop

abbrev answered_exchange : Exchange
answered_exchange = record {
  context = true;
  socket = true;
  connect = true;
  request_init = true;
  sent = true;
  poll = some true;
  reply_init = true;
  received = some (text "a");
}

send_message-Answered_example :
    ((send_message answered_exchange).0 ≡ some (text "a")) ↔ Answered answered_exchange (text "a")
send_message-Answered_example = send_message-Answered answered_exchange (text "a")

held-send_message_example : held [] (send_message answered_exchange).1 ≡ some []
held-send_message_example = held-send_message answered_exchange
