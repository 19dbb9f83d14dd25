-- ===== src/Handler/Asked.antt =====
-- Handler.cpp: the calls of the manager that messages ask for, without the code of the handler.
use chain_db.Base.{
  ℕ, ◌≤◌, ◌≡◌, refl, ◌⊎◌, inl, inr, Option, none, some, List, [], ◌∷◌, ◌++◌, length, All,
  Option-cases, Bool-cases,
}
use chain_db.Base.Bytes.{Bytes}
use chain_db.Platform.{Platform, IsPlatform}
use chain_db.Platform.Sha.{IsTotalSha}
use chain_db.Platform.Wire.{Wire, Request, AuthData}
use chain_db.Storage.Manager.Runs.{Call, run}
use chain_db.Network.Server.{serve}
use chain_db.Handler.{handle_message, check_auth}
use chain_db.Handler.Auth.{secret, check_auth-secret, secret-check_auth}
use chain_db.Handler.Requested.{
  Limited, request_calls, authorised_calls, guarded_calls, message_calls, session_calls,
}
use chain_db.Handler.Calls.{serve-runs}

module _ (P : Platform) (W : Wire) (L : IsPlatform P) (dir password : Bytes) where
  -- The server has no password, or the message carries the digest of the salted one.
  abbrev pub Permitted : Option AuthData → Type 0
  Permitted auth =
      (password ≡ [])
      ⊎ ((a : AuthData) × (auth ≡ some a) × (a.password_hash ≡ secret P W L dir password))

  -- The calls that a request leads to: none without the permission, and the one of the request with
  -- it, unless hashing fails.
  abbrev pub Grants : Request → List Call → Type 0
  Grants req calls =
      (Permitted req.auth_data × (calls ≡ request_calls req))
      ⊎ ((¬ (IsTotalSha P.sha × Permitted req.auth_data)) × (calls ≡ []))

  -- Those of a message, and those of messages.
  abbrev pub Leads : Bytes → List Call → Type 0
  Leads msg calls =
      ((W.parse_request msg ≡ none) × (calls ≡ []))
      ⊎ ((req : Request) × (W.parse_request msg ≡ some req) × Grants req calls)

  abbrev pub Asked : List Bytes → List Call → Type 0
  Asked [] calls = calls ≡ []
  Asked (msg ∷ msgs) calls =
      (now : List Call) × (later : List Call) × Leads msg now
      × Asked msgs later
      × (calls ≡ now ++ later)

  authorised-Grants :
      (c : ℕ) (q : Bytes) (auth : Option AuthData) (calls : List Call)
      → password ≡ c ∷ q
      → (Permitted auth × (authorised_calls P W dir password auth calls ≡ calls))
        ⊎ ((¬ (IsTotalSha P.sha × Permitted auth))
            × (authorised_calls P W dir password auth calls ≡ []))
  authorised-Grants c q none calls e =
      inr (
        (λ p. elim p.1 [ inl empty ↦ absurd (cc (e, empty)) | inr (a, f, g) ↦ absurd (cc f) ]),
        refl,
      )
  authorised-Grants c q (some a) calls e = elim (Bool-cases (check_auth P W dir password a)) [
    | inl ok ↦ inl (inr (a, refl, check_auth-secret P W L dir password a ok), rw ok refl)
    | inr bad ↦ inr (
      (λ p. elim p.1 [
        | inl empty ↦ absurd (cc (e, empty))
        | inr (b, f, g) ↦ absurd (cc (bad, secret-check_auth P W L dir password b p.0 g, f))
      ]),
      rw bad refl,
    )
  ]

  guarded-Grants :
      (q : Bytes) (req : Request)
      → password ≡ q
      → Grants req (guarded_calls P W dir password q req.auth_data (request_calls req))
  guarded-Grants [] req e = inl (inl e, refl)
  guarded-Grants (c ∷ q) req e = authorised-Grants c q req.auth_data (request_calls req) e

  message-Leads : (msg : Bytes) → Leads msg (message_calls P W dir password msg)
  unfolding message_calls
  message-Leads msg = elim (Option-cases (W.parse_request msg)) [
    | inl e ↦ inl (e, rw (e, message_calls) refl)
    | inr (req, e) ↦ inr (req, e, rw (e, message_calls) (guarded-Grants password req refl))
  ]

  session-Asked : (msgs : List Bytes) → Asked msgs (session_calls P W dir password msgs)
  unfolding session_calls
  session-Asked [] = refl
  session-Asked (msg ∷ msgs) = (_, _, message-Leads msg, session-Asked msgs, refl)

  -- Whatever messages the handler is given one after the other, the databases are left as by
  -- calls of the manager that the messages ask for, in order: none for a message that does not
  -- parse, nor for one that asks to store more than 8192 bytes of data, nor, where there is a
  -- password, for one that does not carry the digest of the salted password; and otherwise the
  -- one call of its request, or none where hashing can fail; so there are no more calls than
  -- messages, and none adds data of more than 8192 bytes.
  pub serve-Asked :
      (msgs : List Bytes) (w : P.World)
      → (calls : List Call) × Asked msgs calls
        × (length calls ≤ length msgs)
        × All Limited calls
        × (serve (handle_message P W dir password) msgs w ≡ run P dir calls w)
  serve-Asked msgs w =
      let (few, limited, same) = serve-runs P W dir password msgs w in
      (session_calls P W dir password msgs, session-Asked msgs, few, limited, same)
