-- ===== src/Handler/Auth.antt =====
-- Handler.cpp: the password test of `handleMessage`.
use chain_db.Base.{
  ◌≡◌, ◌≢◌, refl, sym, ◌∙◌, ap, ◌⊎◌, inl, inr, true, Option, none, some, [], ◌∷◌, arith, length,
  Option-cases, Bool-cases, ◌==◌,
}
use chain_db.Base.Bytes.{Bytes, text, concat, same_prefix-eq, same_prefix_refl}
use chain_db.Base.Action.{returned}
use chain_db.Platform.{Platform, IsPlatform}
use chain_db.Platform.Sha.{IsTotalSha}
use chain_db.Platform.Wire.{Wire, Request, AuthData}
use chain_db.Crypto.Data.{hash_length}
use chain_db.Crypto.Sha256.{get_hash}
use chain_db.Crypto.Sha256.Digest.{get_hash-eq-digest, get_hash-IsData, get_hash_total}
use chain_db.Handler.{
  handle_message, dispatch, check_auth, authorised, guarded, password_salt, make_status, data_error,
  not_authorized, Handling,
}

module _ (P : Platform) (W : Wire) (L : IsPlatform P) (dir password : Bytes) where
  -- The digest that a client has to send.
  abbrev pub secret : Bytes
  secret = L.sha.digest (concat (password_salt ∷ password ∷ []))

  -- The answers to a message that is not looked into.
  abbrev pub Refusal : Option Bytes → Type 0
  Refusal r =
      (r ≡ make_status P W data_error (text "Can't parse data"))
      ⊎ (r ≡ make_status P W not_authorized (text "No authorization data"))
      ⊎ (r ≡ make_status P W not_authorized (text "Invalid password"))

  pub check_auth-secret :
      (auth : AuthData) → check_auth P W dir password auth ≡ true → auth.password_hash ≡ secret
  unfolding check_auth
  check_auth-secret auth e = elim (Option-cases (get_hash P.sha (password_salt ∷ password ∷ []))) [
    | inl f ↦ absurd (ground arith)
    | inr (h, f) ↦
        let same = get_hash-eq-digest P.sha L.sha (password_salt ∷ password ∷ []) h f in
        let size = get_hash-IsData P.sha L.sha (password_salt ∷ password ∷ []) h f in
        elim (Bool-cases (length auth.password_hash == hash_length)) [
          | inl sized ↦
              sym (
                same_prefix-eq h auth.password_hash hash_length size (ground arith)
                  (rw sized at (rw f at e)))
              ∙ same
          | inr bad ↦ absurd (ground arith)
        ]
  ]

  pub secret-check_auth :
      (auth : AuthData)
      → IsTotalSha P.sha
      → auth.password_hash ≡ secret
      → check_auth P W dir password auth ≡ true
  unfolding check_auth
  secret-check_auth auth T e =
      let size : (length auth.password_hash == hash_length) ≡ true =
        rw e (rw (L.sha.length-digest _) refl) in
      rw (size, get_hash_total P.sha L.sha T (password_salt ∷ password ∷ []), e)
        (same_prefix_refl secret hash_length)

  authorised-cases :
      (auth : Option AuthData) (handle : Handling P W) (w : P.World)
      → ((r : Option Bytes) × Refusal r
          × (authorised P W dir password auth handle w ≡ (returned r, w)))
        ⊎ ((a : AuthData) × (auth ≡ some a)
            × (a.password_hash ≡ secret)
            × (authorised P W dir password auth handle w ≡ handle w))
  unfolding authorised
  authorised-cases none handle w = inl (_, inr (inl refl), refl)
  authorised-cases (some a) handle w = elim (Bool-cases (check_auth P W dir password a)) [
    | inl ok ↦ inr (a, refl, check_auth-secret a ok, rw ok refl)
    | inr bad ↦ inl (_, inr (inr refl), rw bad refl)
  ]

  guarded-authorised :
      (q : Bytes) (auth : Option AuthData) (handle : Handling P W)
      → q ≢ []
      → guarded P W dir password q auth handle ≡ authorised P W dir password auth handle
  guarded-authorised [] auth handle n = absurd (n refl)
  guarded-authorised (c ∷ q) auth handle n = refl

  guarded-passed :
      (q : Bytes) (auth : Option AuthData) (a : AuthData) (handle : Handling P W)
      → IsTotalSha P.sha
      → auth ≡ some a
      → a.password_hash ≡ secret
      → guarded P W dir password q auth handle ≡ handle
  unfolding authorised
  guarded-passed [] auth a handle T e g = refl
  guarded-passed (c ∷ q) auth a handle T e g = rw e (rw (secret-check_auth a T g) refl)

  -- On a server whose password is not empty every message is either refused, with one of the
  -- three refusals as the answer and nothing changed; or it parses, carries exactly the digest
  -- of the salted password, and is handled as its request says.
  pub handle_message-authorised :
      (msg : Bytes) (w : P.World)
      → password ≢ []
      → ((r : Option Bytes) × Refusal r × (handle_message P W dir password msg w ≡ (returned r, w)))
        ⊎ ((req : Request) × (a : AuthData) × (W.parse_request msg ≡ some req)
            × (req.auth_data ≡ some a)
            × (a.password_hash ≡ secret)
            × (handle_message P W dir password msg w ≡ dispatch P W dir req w))
  unfolding handle_message
  handle_message-authorised msg w n = elim (Option-cases (W.parse_request msg)) [
    | inl e ↦ inl (_, inl refl, rw (e, handle_message) refl)
    | inr (req, e) ↦
        let asked =
          ap (λ k. k w) (guarded-authorised password req.auth_data (dispatch P W dir req) n) in
        elim (authorised-cases req.auth_data (dispatch P W dir req) w) [
          | inl (r, f, g) ↦ inl (r, f, rw (e, handle_message) (asked ∙ g))
          | inr (a, f, g, k) ↦ inr (req, a, e, f, g, rw (e, handle_message) (asked ∙ k))
        ]
  ]

  -- A message that parses and carries the digest of the salted password is handled as its
  -- request says, on a server with or without a password, if hashing does not fail.
  pub handle_message-dispatch :
      (msg : Bytes) (req : Request) (a : AuthData) (w : P.World)
      → IsTotalSha P.sha
      → W.parse_request msg ≡ some req
      → req.auth_data ≡ some a
      → a.password_hash ≡ secret
      → handle_message P W dir password msg w ≡ dispatch P W dir req w
  unfolding handle_message
  handle_message-dispatch msg req a w T e f g =
      rw (e, handle_message)
        (ap (λ k. k w) (guarded-passed password req.auth_data a (dispatch P W dir req) T f g))
