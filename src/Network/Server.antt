-- ===== src/Network/Server.antt =====
-- src/Network/Server/Server.cpp: the loop that takes requests from a socket and answers them.
pub mod Steps
pub mod Log
pub mod Transcript
pub mod Replies
pub mod Stopping
use chain_db.Base.{ℕ, Bool, true, false, Option, none, some, List, [], ◌∷◌, ◌++◌, if◌then◌else◌}
use chain_db.Base.Bytes.{Bytes, text}
use chain_db.Base.Decimal.{to_string}
use chain_db.Base.Action.{Run, returned, null_pointer, endless}

unfoldable pub make_endpoint_path : ℕ → Bytes
make_endpoint_path port = text "tcp://*:" ++ to_string port

-- What the calls of ZeroMQ return before the loop.
pub record Opening : Type 0 where
  pub context : Bool
  pub socket : Bool
  pub bind : Bool

-- What they return in one round, those that are made: whether they succeed, whether the poll reports
-- a message, and the message. `none` stands for -1.
pub record Turn : Type 0 where
  pub poll : Option Bool
  pub request_init : Bool
  pub received : Option Bytes
  pub reply_init : Bool
  pub sent : Bool

-- Where the thread is: before the test of the loop, in its body, past the loop, in a handler that read
-- through a null pointer, or in one that does not return.
pub data Phase : Type 0 where
  looping polling ended crashed stuck : Phase

-- A message that was handled, what the handler did with it, and the reply that was sent.
pub record Entry : Type 0 where
  pub request : Bytes
  pub answer : Run (Option Bytes)
  pub reply : Option Bytes

-- `is_stopped` is the atomic flag, which is cleared to stop the server. The log is kept by the model.
pub record Server (World : Type 0) : Type 0 where
  pub is_stopped : Bool
  pub phase : Phase
  pub world : World
  pub log : List Entry

-- `handler` is `IHandler::handleMessage`.
module _ {World : Type 0} (handler : Bytes → World → Run (Option Bytes) × World) where
  -- The constructor, and `process` up to the loop.
  unfoldable pub start : Opening → World → Server World
  start o w = record {
    is_stopped = true;
    phase =
        if o.context
        then (if o.socket then (if o.bind then looping else ended) else ended)
        else ended;
    world = w;
    log = [];
  }

  -- `stop`, which runs at any time, on another thread or in a signal handler.
  unfoldable pub stop : Server World → Server World
  stop s = record s { is_stopped = false }

  -- After the handler: a reply is made and sent, unless there is none.
  abbrev pub answered : Turn → Bytes → Server World → Run (Option Bytes) × World → Server World
  answered t request s (null_pointer, w) = record s {
    phase = crashed;
    world = w;
    log = s.log ++ record { request = request; answer = null_pointer; reply = none } ∷ [];
  }
  answered t request s (endless, w) = record s {
    phase = stuck;
    world = w;
    log = s.log ++ record { request = request; answer = endless; reply = none } ∷ [];
  }
  answered t request s (returned none, w) = record s {
    phase = looping;
    world = w;
    log = s.log ++ record { request = request; answer = returned none; reply = none } ∷ [];
  }
  answered t request s (returned (some resp), w) = record s {
    phase = if t.reply_init then looping else ended;
    world = w;
    log =
        s.log
        ++ record {
          request = request;
          answer = returned (some resp);
          reply = if t.reply_init then (if t.sent then some resp else none) else none;
        }
          ∷ [];
  }

  abbrev pub receive : Turn → Server World → Server World
  receive t s =
      if t.request_init
      then elim t.received [
        | none ↦ record s { phase = ended }
        | some request ↦ answered t request s (handler request s.world)
      ]
      else record s { phase = ended }

  -- The body of the loop, from what the poll reports.
  abbrev pub round : Option Bool → Turn → Server World → Server World
  round none t s = record s { phase = ended }
  round (some false) t s = record s { phase = looping }
  round (some true) t s = receive t s

  unfoldable pub turn : Turn → Server World → Server World
  turn t s = round t.poll t s

  -- What `test_and_set` returns decides between the body and the way out. It sets the flag.
  unfoldable pub test : Server World → Server World
  test s = record s { is_stopped = true; phase = if s.is_stopped then polling else ended }

  -- Messages, handled one after the other.
  unfoldable pub serve : List Bytes → World → World
  serve [] w = w
  serve (msg ∷ msgs) w = serve msgs (handler msg w).1

  -- What the handler makes of them.
  unfoldable pub answers : List Bytes → World → List (Run (Option Bytes))
  answers [] w = []
  answers (msg ∷ msgs) w = (handler msg w).0 ∷ answers msgs (handler msg w).1
