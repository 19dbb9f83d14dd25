-- ===== src/Network/Server/Replies.antt =====
-- Server.cpp: the replies to the messages that were handled.
use chain_db.Base.{
  ◌≡◌, refl, subst, sym, ◌⊎◌, Bool, if◌then◌else◌, inl, inr, true, false, Option, none, some, [],
  ◌∷◌, ◌++◌, All, All-append, Bool-cases, Option-cases, arith,
}
use chain_db.Base.Bytes.{Bytes}
use chain_db.Base.Action.{Run, returned, null_pointer, endless}
use chain_db.Network.Server.{
  Server, Entry, Turn, Opening, start, stop, test, turn, round, receive, answered,
}
use chain_db.Network.Server.Steps.{stops, tests, turns, Reach, here, next}

-- Nothing is sent but what the handler answered to the message.
abbrev pub Honest : Entry → Type 0
Honest e = (e.reply ≡ none) ⊎ (e.answer ≡ returned e.reply)

-- What the handler answered, if it did, was sent.
abbrev pub Complete : Entry → Type 0
Complete e = (b : Bytes) → e.answer ≡ returned (some b) → e.reply ≡ some b

-- ZeroMQ makes the message for a reply, and sends it.
abbrev pub Sends : Turn → Type 0
Sends t = (t.reply_init ≡ true) × (t.sent ≡ true)

module _ {World : Type 0} (handler : Bytes → World → Run (Option Bytes) × World) where
  -- In every round on the way to a state.
  abbrev pub AllSent : {s v : Server World} → Reach handler s v → Type 0
  AllSent here = Unit
  AllSent (next r (stops s)) = AllSent r
  AllSent (next r (tests s looping)) = AllSent r
  AllSent (next r (turns s t polling)) = AllSent r × Sends t

  -- The log of `v` is that of `s`, or one more message with such a reply.
  abbrev Logged : Turn → Server World → Server World → Type 0
  Logged t s v =
      (v.log ≡ s.log)
      ⊎ ((e : Entry) × (v.log ≡ s.log ++ e ∷ []) × Honest e × (Sends t → Complete e))

  answered-Logged :
      (t : Turn) (request : Bytes) (s : Server World) (r : Run (Option Bytes) × World)
      → Logged t s (answered handler t request s r)
  answered-Logged t request s (null_pointer, w) = inr (_, refl, inl refl, λ _ b e. absurd (cc e))
  answered-Logged t request s (endless, w) = inr (_, refl, inl refl, λ _ b e. absurd (cc e))
  answered-Logged t request s (returned none, w) =
      inr (_, refl, inl refl, λ _ b e. absurd (ground arith))
  answered-Logged t request s (returned (some c), w) =
      inr (_, refl, honest, λ k b e. rw (k.0, k.1) (ground arith))
    where
      honest :
          ((if t.reply_init then (if t.sent then some c else none) else none) ≡ none)
          ⊎ (◌≡◌ {A = Run (Option Bytes)}
              (returned (some c))
              (returned (if t.reply_init then (if t.sent then some c else none) else none)))
      honest = elim (Bool-cases t.reply_init) [
        | inr failed ↦ inl (rw failed refl)
        | inl made ↦ elim (Bool-cases t.sent) [
          | inr lost ↦ inl (rw (made, lost) refl)
          | inl sent ↦ inr (rw (made, sent) refl)
        ]
      ]

  turn-Logged : (t : Turn) (s : Server World) → Logged t s (turn handler t s)
  unfolding turn
  turn-Logged t s = round-Logged t.poll
    where
      receive-Logged : Logged t s (receive handler t s)
      receive-Logged = elim (Bool-cases t.request_init) [
        | inr failed ↦ rw failed (inl refl)
        | inl ok ↦ elim (Option-cases t.received) [
          | inl e ↦ rw (ok, e) (inl refl)
          | inr (request, e) ↦ rw (ok, e) (answered-Logged t request s (handler request s.world))
        ]
      ]

      round-Logged : (p : Option Bool) → Logged t s (round handler p t s)
      round-Logged none = inl refl
      round-Logged (some false) = inl refl
      round-Logged (some true) = receive-Logged

  -- In every state that a server reaches from its start, whatever the calls of ZeroMQ return
  -- and whenever it is stopped, what was sent as the reply to a message, if anything, is what
  -- the handler answered to that message; and if ZeroMQ made and sent the reply in every round,
  -- every answer was sent.
  pub Reach-Replied :
      (o : Opening) (w : World) {s : Server World} (r : Reach handler (start handler o w) s)
      → All Honest s.log × (AllSent r → All Complete s.log)
  unfolding start stop test
  Reach-Replied o w here = (tt, λ _. tt)
  Reach-Replied o w (next r (stops s)) = Reach-Replied o w r
  Reach-Replied o w (next r (tests s looping)) = Reach-Replied o w r
  Reach-Replied o w (next r (turns s t polling)) =
      let (honest, complete) = Reach-Replied o w r in
      elim (turn-Logged t s) [
        | inl same ↦ (
          subst (All Honest) (sym same) honest,
          λ k. subst (All Complete) (sym same) (complete k.0),
        )
        | inr (e, more, h, c) ↦ (
          subst (All Honest) (sym more) (All-append Honest s.log e honest h),
          λ k. subst (All Complete) (sym more) (All-append Complete s.log e (complete k.0) (c k.1)),
        )
      ]
