-- ===== src/Network/Server/Log.antt =====
-- Server.cpp: what one round of the loop does.
use chain_db.Base.{
  ◌≡◌, ◌≢◌, refl, sym, ap, ◌⊎◌, inl, inr, Bool, true, false, Option, none, some, List, [], ◌∷◌,
  ◌++◌, Bool-cases, Option-cases,
}
use chain_db.Base.Bytes.{Bytes}
use chain_db.Base.Action.{Run, returned, null_pointer, endless}
use chain_db.Network.Server.{Server, polling, Entry, Turn, turn, round, receive, answered}

-- The message that `zmq_msg_recv` returns, if the calls before it succeed and the poll reports one.
abbrev pub given : Option Bool → Bool → Option Bytes → List Bytes
given (some true) true (some msg) = msg ∷ []
given (some true) true none = []
given (some true) false received = []
given (some false) request_init received = []
given none request_init received = []

-- The message that the socket gives in a round.
abbrev pub message_of : Turn → List Bytes
message_of t = given t.poll t.request_init t.received

module _ {World : Type 0} (handler : Bytes → World → Run (Option Bytes) × World) where
  -- One message was handled between the two states.
  pub record Handled (s v : Server World) : Type 0 where
    pub entry : Entry
    pub log_eq : v.log ≡ s.log ++ entry ∷ []
    pub answer_eq : (handler entry.request s.world).0 ≡ entry.answer
    pub world_eq : v.world ≡ (handler entry.request s.world).1

  -- None was.
  pub record Idle (s v : Server World) : Type 0 where
    pub log_eq : v.log ≡ s.log
    pub world_eq : v.world ≡ s.world

  answered-Handled :
      (t : Turn) (request : Bytes) (s : Server World) (r : Run (Option Bytes)) (w : World)
      → handler request s.world ≡ (r, w)
      → (h : Handled s (answered handler t request s (r, w))) × (h.entry.request ≡ request)
  answered-Handled t request s null_pointer w e = (
    record {
      entry = _;
      log_eq = refl;
      answer_eq = ap (λ p. p.0) e;
      world_eq = sym (ap (λ p. p.1) e);
    },
    refl,
  )
  answered-Handled t request s endless w e = (
    record {
      entry = _;
      log_eq = refl;
      answer_eq = ap (λ p. p.0) e;
      world_eq = sym (ap (λ p. p.1) e);
    },
    refl,
  )
  answered-Handled t request s (returned none) w e = (
    record {
      entry = _;
      log_eq = refl;
      answer_eq = ap (λ p. p.0) e;
      world_eq = sym (ap (λ p. p.1) e);
    },
    refl,
  )
  answered-Handled t request s (returned (some b)) w e = (
    record {
      entry = _;
      log_eq = refl;
      answer_eq = ap (λ p. p.0) e;
      world_eq = sym (ap (λ p. p.1) e);
    },
    refl,
  )

  -- What a round does with the messages that it was given.
  abbrev pub Round : Server World → Server World → List Bytes → Type 0
  Round s v msgs = (Idle s v × (msgs ≡ [])) ⊎ ((h : Handled s v) × (msgs ≡ h.entry.request ∷ []))

  receive-cases :
      (t : Turn) (s : Server World)
      → Round s (receive handler t s) (given (some true) t.request_init t.received)
  receive-cases t s = elim (Bool-cases t.request_init) [
    | inr failed ↦ rw failed (inl (record { log_eq = refl; world_eq = refl }, refl))
    | inl ok ↦ elim (Option-cases t.received) [
      | inl e ↦ rw (ok, e) (inl (record { log_eq = refl; world_eq = refl }, refl))
      | inr (request, e) ↦
          let (h, same) = answered-Handled t request s _ _ refl in
          rw (ok, e) (inr (h, ap (λ r. r ∷ []) (sym same)))
    ]
  ]

  round-cases :
      (p : Option Bool) (t : Turn) (s : Server World)
      → Round s (round handler p t s) (given p t.request_init t.received)
  round-cases none t s = inl (record { log_eq = refl; world_eq = refl }, refl)
  round-cases (some false) t s = inl (record { log_eq = refl; world_eq = refl }, refl)
  round-cases (some true) t s = receive-cases t s

  -- A round handles the message that the socket gives in it, and no other.
  pub turn-cases : (t : Turn) (s : Server World) → Round s (turn handler t s) (message_of t)
  unfolding turn
  turn-cases t s = round-cases t.poll t s

  -- It leaves the flag alone, and its body.
  abbrev pub Leaves : Server World → Server World → Type 0
  Leaves s v = (v.is_stopped ≡ s.is_stopped) × (v.phase ≢ polling)

  answered-Leaves :
      (t : Turn) (request : Bytes) (s : Server World) (r : Run (Option Bytes) × World)
      → Leaves s (answered handler t request s r)
  answered-Leaves t request s (null_pointer, w) = (refl, λ e. cc)
  answered-Leaves t request s (endless, w) = (refl, λ e. cc)
  answered-Leaves t request s (returned none, w) = (refl, λ e. cc)
  answered-Leaves t request s (returned (some b), w) = elim (Bool-cases t.reply_init) [
    | inl made ↦ (refl, rw made (λ e. cc))
    | inr failed ↦ (refl, rw failed (λ e. cc))
  ]

  round-Leaves : (p : Option Bool) (t : Turn) (s : Server World) → Leaves s (round handler p t s)
  round-Leaves none t s = (refl, λ e. cc)
  round-Leaves (some false) t s = (refl, λ e. cc)
  round-Leaves (some true) t s = elim (Bool-cases t.request_init) [
    | inr failed ↦ rw failed (refl, λ e. cc)
    | inl ok ↦ elim (Option-cases t.received) [
      | inl e ↦ rw (ok, e) (refl, λ e. cc)
      | inr (request, e) ↦ rw (ok, e) (answered-Leaves t request s (handler request s.world))
    ]
  ]

  pub turn-Leaves : (t : Turn) (s : Server World) → Leaves s (turn handler t s)
  unfolding turn
  turn-Leaves t s = round-Leaves t.poll t s
