-- ===== src/Network/Server/Transcript.antt =====
-- Server.cpp: the messages that were received, and what was done with them.
use chain_db.Base.{
  ◌≡◌, refl, sym, ap, ◌∙◌, inl, inr, Option, List, [], ◌∷◌, ◌++◌, map, map-append, append-nil,
}
use chain_db.Base.Bytes.{Bytes}
use chain_db.Base.Action.{Run}
use chain_db.Network.Server.{Server, Entry, Opening, start, stop, test, turn, serve, answers}
use chain_db.Network.Server.Steps.{Step, stops, tests, turns, Reach, here, next}
use chain_db.Network.Server.Log.{message_of, Idle, Handled, turn-cases}

abbrev pub requests : List Entry → List Bytes
requests log = map (λ e. e.request) log

abbrev pub results : List Entry → List (Run (Option Bytes))
results log = map (λ e. e.answer) log

module _ {World : Type 0} (handler : Bytes → World → Run (Option Bytes) × World) where
  serve-append :
      (ms ns : List Bytes) (w : World)
      → serve handler (ms ++ ns) w ≡ serve handler ns (serve handler ms w)
  unfolding serve
  serve-append [] ns w = refl
  serve-append (m ∷ ms) ns w = serve-append ms ns (handler m w).1

  answers-append :
      (ms ns : List Bytes) (w : World)
      → answers handler (ms ++ ns) w
        ≡ answers handler ms w ++ answers handler ns (serve handler ms w)
  unfolding serve answers
  answers-append [] ns w = refl
  answers-append (m ∷ ms) ns w =
      ap (λ rest. (handler m w).0 ∷ rest) (answers-append ms ns (handler m w).1)

  -- The state is that after the messages of its log, from `w`.
  pub record Served (w : World) (s : Server World) : Type 0 where
    pub world_eq : s.world ≡ serve handler (requests s.log) w
    pub answers_eq : results s.log ≡ answers handler (requests s.log) w

  Idle-Served : {w : World} (s v : Server World) → Idle handler s v → Served w s → Served w v
  Idle-Served {w} s v i k = record {
    world_eq = i.world_eq ∙ k.world_eq ∙ ap (λ l. serve handler (requests l) w) (sym i.log_eq);
    answers_eq =
        ap results i.log_eq
        ∙ k.answers_eq
        ∙ ap (λ l. answers handler (requests l) w) (sym i.log_eq);
  }

  Handled-requests :
      (s v : Server World) (h : Handled handler s v)
      → requests v.log ≡ requests s.log ++ h.entry.request ∷ []
  Handled-requests s v h = ap requests h.log_eq ∙ map-append (λ e. e.request) s.log (h.entry ∷ [])

  Handled-Served : {w : World} (s v : Server World) → Handled handler s v → Served w s → Served w v
  unfolding serve answers
  Handled-Served {w} s v h k = record {
    world_eq =
        h.world_eq
        ∙ ap (λ u. (handler h.entry.request u).1) k.world_eq
        ∙ sym (serve-append (requests s.log) (h.entry.request ∷ []) w)
        ∙ ap (λ ms. serve handler ms w) (sym (Handled-requests s v h));
    answers_eq =
        ap results h.log_eq
        ∙ map-append (λ e. e.answer) s.log (h.entry ∷ [])
        ∙ ap (λ rest. rest ++ h.entry.answer ∷ []) k.answers_eq
        ∙ ap (λ a. answers handler (requests s.log) w ++ a ∷ [])
            (sym h.answer_eq ∙ ap (λ u. (handler h.entry.request u).0) k.world_eq)
        ∙ sym (answers-append (requests s.log) (h.entry.request ∷ []) w)
        ∙ ap (λ ms. answers handler ms w) (sym (Handled-requests s v h));
  }

  Step-Served : {w : World} {s v : Server World} → Step handler s v → Served w s → Served w v
  unfolding stop test
  Step-Served {w} (stops s) k = record { world_eq = k.world_eq; answers_eq = k.answers_eq }
  Step-Served {w} (tests s looping) k = record { world_eq = k.world_eq; answers_eq = k.answers_eq }
  Step-Served {w} (turns s t polling) k = elim (turn-cases handler t s) [
    | inl (i, none_given) ↦ Idle-Served s (turn handler t s) i k
    | inr (h, one_given) ↦ Handled-Served s (turn handler t s) h k
  ]

  -- The messages that the socket gives in a step, and on the way to a state, in order.
  abbrev pub step_messages : {s v : Server World} → Step handler s v → List Bytes
  step_messages (stops s) = []
  step_messages (tests s looping) = []
  step_messages (turns s t polling) = message_of t

  abbrev pub messages : {s v : Server World} → Reach handler s v → List Bytes
  messages here = []
  messages (next r step) = messages r ++ step_messages step

  Step-requests :
      {s v : Server World} (step : Step handler s v)
      → requests v.log ≡ requests s.log ++ step_messages step
  unfolding stop test
  Step-requests (stops s) = sym (append-nil (requests s.log))
  Step-requests (tests s looping) = sym (append-nil (requests s.log))
  Step-requests (turns s t polling) = elim (turn-cases handler t s) [
    | inl (i, none_given) ↦
        ap requests i.log_eq
        ∙ sym (append-nil (requests s.log))
        ∙ ap (λ ms. requests s.log ++ ms) (sym none_given)
    | inr (h, one_given) ↦
        Handled-requests s (turn handler t s) h ∙ ap (λ ms. requests s.log ++ ms) (sym one_given)
  ]

  Reach-requests :
      (o : Opening) (w : World) {s : Server World} (r : Reach handler (start handler o w) s)
      → requests s.log ≡ messages r
  unfolding start
  Reach-requests o w here = refl
  Reach-requests o w (next r step) =
      Step-requests step ∙ ap (λ ms. ms ++ step_messages step) (Reach-requests o w r)

  pub Reach-Handled :
      (o : Opening) (w : World) {s : Server World}
      → Reach handler (start handler o w) s
      → Served w s
  unfolding start serve answers
  Reach-Handled o w here = record { world_eq = refl; answers_eq = refl }
  Reach-Handled o w (next r step) = Step-Served step (Reach-Handled o w r)

  -- In every state that a server reaches from its start, whatever the calls of ZeroMQ return
  -- and whenever it is stopped, the messages of its log are exactly those that the socket gave
  -- it on the way there, in order: none is lost, repeated or handled twice; and the world and
  -- the handler's answers are those of handling these messages one after the other.
  pub Reach-Served :
      (o : Opening) (w : World) {s : Server World} (r : Reach handler (start handler o w) s)
      → (requests s.log ≡ messages r)
        × (s.world ≡ serve handler (messages r) w)
        × (results s.log ≡ answers handler (messages r) w)
  Reach-Served o w r =
      let same = Reach-requests o w r in
      let k = Reach-Handled o w r in
      (
        same,
        k.world_eq ∙ ap (λ ms. serve handler ms w) same,
        k.answers_eq ∙ ap (λ ms. answers handler ms w) same,
      )
