-- ===== src/Cli/Conversation.antt =====
-- cli/src/Application.cpp and src/Handler.cpp together: a command, carried out by a server.
use mathlib.Core.Option.{some-injective}
use chain_db.Base.{
  ℕ, ◌==◌, length, subst, ◌^◌, ◌<◌, ◌≡◌, ◌≢◌, refl, sym, ap, ◌∙◌, Bool, true, false, Option, none,
  some, List, [], ◌∷◌, arith, All,
}
use chain_db.Base.Bytes.{Bytes, text}
use chain_db.Base.Int.{ℤ, pos, negsuc, to_size_t}
use chain_db.Base.Action.{Act, Run, returned, null_pointer, endless}
use chain_db.Platform.{Platform, IsPlatform}
use chain_db.Platform.Sha.{Sha, IsTotalSha}
use chain_db.Platform.Wire.{Wire, IsWire, Fits, Request}
use chain_db.Crypto.Sha256.Digest.{get_hash_total}
use chain_db.System.Stoi.Numbers.{IsInt}
use chain_db.Network.Client.{Exchange, send_message}
use chain_db.Handler.{handle_message, dispatch, authorised, make_status, not_authorized}
use chain_db.Handler.Auth.{secret, handle_message-dispatch}
use chain_db.Cli.{
  Application, password_salt, empty_request, set_auth_data, process_request, understood, run,
}
use chain_db.Cli.Chosen.{commands, commands_after, chosen, attempt, run-chosen}

-- Every call of ZeroMQ succeeds, and what the server's handler returns is the reply; without one the
-- poll ends with the timeout.
abbrev pub delivered : Run (Option Bytes) → Exchange
delivered (returned (some reply)) = record {
  context = true;
  socket = true;
  connect = true;
  request_init = true;
  sent = true;
  poll = some true;
  reply_init = true;
  received = some reply;
}
delivered _ = record {
  context = true;
  socket = true;
  connect = true;
  request_init = true;
  sent = true;
  poll = some false;
  reply_init = true;
  received = none;
}

-- `Client::sendMessage`, with the handler of a server at the other end.
abbrev pub ask :
    {World : Type 0} → (Bytes → World → Run (Option Bytes) × World) → Bytes → Act World Bytes
ask handler msg w = let (r, w') = handler msg w in ((send_message (delivered r)).0, w')

-- The answer is a reply that the client takes for a response.
abbrev pub heard : Wire → Run (Option Bytes) → Bool
heard W (returned (some (c ∷ reply))) = understood W (some (c ∷ reply))
heard W _ = false

to_size_t-bound : (z : ℤ) → IsInt z → to_size_t z < 2 ^ 64
to_size_t-bound (pos n) h = omega arith
to_size_t-bound (negsuc n) h = omega arith

chosen-All :
    (Q : Request → Type 0) (cs : List (Bool × Request)) (req : Request)
    → All (λ c. Q c.1) cs
    → chosen cs ≡ some req
    → Q req
chosen-All Q [] req h e = absurd (ground arith)
chosen-All Q ((true, r) ∷ cs) req h e = subst Q (some-injective r req e) h.0
chosen-All Q ((false, r) ∷ cs) req h e = chosen-All Q cs req h.1 e

understood-delivered :
    (W : Wire) (r : Run (Option Bytes)) → understood W (send_message (delivered r)).0 ≡ heard W r
unfolding send_message
understood-delivered W null_pointer = refl
understood-delivered W endless = refl
understood-delivered W (returned none) = refl
understood-delivered W (returned (some [])) = refl
understood-delivered W (returned (some (c ∷ reply))) =
    let full : (length (c ∷ reply) == 0) ≡ false = ground arith in rw full refl

chosen-skip :
    (b : Bool) (req : Request) (cs : List (Bool × Request))
    → b ≡ false
    → chosen ((b, req) ∷ cs) ≡ chosen cs
chosen-skip true req cs e = absurd (ground arith)
chosen-skip false req cs e = refl

chosen-take :
    (b : Bool) (req : Request) (cs : List (Bool × Request))
    → b ≡ true
    → chosen ((b, req) ∷ cs) ≡ some req
chosen-take true req cs e = refl
chosen-take false req cs e = absurd (ground arith)

-- A command of the client has numbers that fit.
commands-Fits :
    (H : Sha) (a : Application)
    → IsInt a.chain_id
    → IsInt a.block_id
    → All (λ c. Fits c.1) (commands H a)
commands-Fits H a chain block =
    let k = to_size_t-bound a.chain_id chain in
    let j = to_size_t-bound a.block_id block in ground arith

-- Every command but the ping is signed.
chosen-signed :
    (H : Sha) (a : Application) (req : Request)
    → a.is_ping_request ≡ false
    → chosen (commands H a) ≡ some req
    → req.auth_data ≡ some (set_auth_data H a.password)
chosen-signed H a req other e =
    let signed_all : All (λ c. c.1.auth_data ≡ some (set_auth_data H a.password))
        (commands_after H a) =
      ground arith in
    chosen-All (λ r. r.auth_data ≡ some (set_auth_data H a.password)) (commands_after H a) req
      signed_all (sym (chosen-skip a.is_ping_request _ (commands_after H a) other) ∙ e)

chosen-ping :
    (H : Sha) (a : Application)
    → a.is_ping_request ≡ true
    → chosen (commands H a) ≡ some (record empty_request { ping_request = some tt })
chosen-ping H a asked = chosen-take a.is_ping_request _ _ asked

module _ (P : Platform) (W : Wire) (L : IsPlatform P) (dir : Bytes) where
  set_auth_data-secret :
      (c : ℕ) (rest : Bytes)
      → IsTotalSha P.sha
      → (set_auth_data P.sha (c ∷ rest)).password_hash ≡ secret P W L dir (c ∷ rest)
  unfolding set_auth_data
  set_auth_data-secret c rest T =
      rw (get_hash_total P.sha L.sha T (password_salt ∷ (c ∷ rest) ∷ []), set_auth_data) refl

  -- Without authorization data a message is refused, if there is a password.
  bare-refused :
      (password msg : Bytes) (req : Request) (w : P.World)
      → password ≢ []
      → W.parse_request msg ≡ some req
      → req.auth_data ≡ none
      → handle_message P W dir password msg w
        ≡ (returned (make_status P W not_authorized (text "No authorization data")), w)
  unfolding handle_message authorised
  bare-refused [] msg req w n e f = absurd (n refl)
  bare-refused (c ∷ rest) msg req w n e f = rw (e, handle_message) (rw f refl)

  -- The client's hash is what a server with the same password asks for.
  handle_message-signed :
      (password msg : Bytes) (req : Request) (w : P.World)
      → IsTotalSha P.sha
      → W.parse_request msg ≡ some req
      → req.auth_data ≡ some (set_auth_data P.sha password)
      → handle_message P W dir password msg w ≡ dispatch P W dir req w
  unfolding handle_message
  handle_message-signed [] msg req w T e f = rw (e, handle_message) refl
  handle_message-signed (c ∷ rest) msg req w T e f =
      handle_message-dispatch P W L dir (c ∷ rest) msg req (set_auth_data P.sha (c ∷ rest)) w T e f
        (set_auth_data-secret c rest T)

  process_request-answered :
      (H : Sha) (handler : Bytes → P.World → Run (Option Bytes) × P.World) (req : Request)
      (msg : Bytes) (w : P.World) (r : Run (Option Bytes) × P.World)
      → W.serialize_request req ≡ some msg
      → handler msg w ≡ r
      → process_request H W (ask handler) req w ≡ (heard W r.0, r.1)
  unfolding process_request
  process_request-answered H handler req msg w r e f =
      rw (e, process_request) (rw f (ap (λ b. (b, r.1)) (understood-delivered W r.0)))

  -- A command other than the ping is carried out by a server with the same password.
  pub run-dispatch :
      (a : Application) (req : Request) (msg : Bytes) (w : P.World)
      → IsWire W
      → IsTotalSha P.sha
      → IsInt a.chain_id
      → IsInt a.block_id
      → a.is_ping_request ≡ false
      → chosen (commands P.sha a) ≡ some req
      → W.serialize_request req ≡ some msg
      → run P.sha W (ask (handle_message P W dir a.password)) a w
        ≡ (let (r, w') = dispatch P W dir req w in (heard W r, w'))
  run-dispatch a req msg w V T chain block other pick e =
      let parsed =
        V.request_round req msg
          (chosen-All Fits (commands P.sha a) req (commands-Fits P.sha a chain block) pick) e in
      run-chosen P.sha W (ask (handle_message P W dir a.password)) a w
      ∙ ap (λ o. attempt P.sha W (ask (handle_message P W dir a.password)) o w) pick
      ∙ process_request-answered P.sha (handle_message P W dir a.password) req msg w _ e (
          handle_message-signed a.password msg req w T parsed
            (chosen-signed P.sha a req other pick))

  -- A ping by the client is refused by every server whose password is not empty, whatever
  -- password the client was given: the server answers that there is no authorization data and
  -- changes nothing.
  pub ping-refused :
      (H : Sha) (a : Application) (password msg : Bytes) (w : P.World)
      → IsWire W
      → password ≢ []
      → a.is_ping_request ≡ true
      → W.serialize_request (record empty_request { ping_request = some tt }) ≡ some msg
      → run H W (ask (handle_message P W dir password)) a w
        ≡ (heard W (returned (make_status P W not_authorized (text "No authorization data"))), w)
  ping-refused H a password msg w V n asked e =
      run-chosen H W (ask (handle_message P W dir password)) a w
      ∙ ap (λ o. attempt H W (ask (handle_message P W dir password)) o w) (chosen-ping H a asked)
      ∙ process_request-answered H (handle_message P W dir password) _ msg w _ e
          (bare-refused password msg _ w n (V.request_round _ msg (ground arith) e) refl)
