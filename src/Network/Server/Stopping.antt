-- ===== src/Network/Server/Stopping.antt =====
-- Server.cpp: `stop`.
use chain_db.Base.{◌≡◌, refl, subst, ap, ◌∙◌, ◌⊎◌, inl, inr, false, Option, [], ◌∷◌, ◌++◌}
use chain_db.Base.Bytes.{Bytes}
use chain_db.Base.Action.{Run}
use chain_db.Network.Server.{Server, polling, ended, Turn, stop, test, turn}
use chain_db.Network.Server.Steps.{Step, stops, tests, turns, Reach, here, next}
use chain_db.Network.Server.Log.{Idle, Handled, turn-cases, turn-Leaves}

module _ {World : Type 0} (handler : Bytes → World → Run (Option Bytes) × World) where
  -- From `s`, in which the flag is cleared, to `v`: one message is handled at most, and that one only
  -- if the body of the loop was running; the flag stays clear until the loop is left; and the body is
  -- not run again.
  pub record Stopped (s v : Server World) : Type 0 where
    pub handled : Idle handler s v ⊎ ((s.phase ≡ polling) × Handled handler s v)
    pub flag : (v.is_stopped ≡ false) ⊎ (v.phase ≡ ended)
    pub once : v.phase ≡ polling → (s.phase ≡ polling) × Idle handler s v

  Idle-Handled :
      (s u v : Server World) → Idle handler s u → Handled handler u v → Handled handler s v
  Idle-Handled s u v i h = record {
    entry = h.entry;
    log_eq = h.log_eq ∙ ap (λ l. l ++ h.entry ∷ []) i.log_eq;
    answer_eq = subst (λ w. (handler h.entry.request w).0 ≡ h.entry.answer) i.world_eq h.answer_eq;
    world_eq = h.world_eq ∙ ap (λ w. (handler h.entry.request w).1) i.world_eq;
  }

  turn-Stopped :
      (s u : Server World) (t : Turn)
      → u.phase ≡ polling
      → Stopped s u
      → Stopped s (turn handler t u)
  turn-Stopped s u t running k =
      let (began, i) = k.once running in
      let (kept, out) = turn-Leaves handler t u in
      record {
        handled = elim (turn-cases handler t u) [
          | inl (j, none_given) ↦
              inl (record { log_eq = j.log_eq ∙ i.log_eq; world_eq = j.world_eq ∙ i.world_eq })
          | inr (h, one_given) ↦ inr (began, Idle-Handled s u (turn handler t u) i h)
        ];
        flag = elim k.flag [
          | inl clear ↦ inl (kept ∙ clear)
          | inr gone ↦ absurd (cc (running, gone))
        ];
        once = λ e. absurd (out e);
      }

  -- Nothing but the flag and the phase are other in `v` than in `u`.
  moved :
      (s u v : Server World)
      → v.log ≡ u.log
      → v.world ≡ u.world
      → Stopped s u
      → Idle handler s v ⊎ ((s.phase ≡ polling) × Handled handler s v)
  moved s u v same_log same_world k = elim k.handled [
    | inl i ↦ inl (record { log_eq = same_log ∙ i.log_eq; world_eq = same_world ∙ i.world_eq })
    | inr (began, h) ↦ inr (
      began,
      record {
        entry = h.entry;
        log_eq = same_log ∙ h.log_eq;
        answer_eq = h.answer_eq;
        world_eq = same_world ∙ h.world_eq;
      },
    )
  ]

  test-ended : (u : Server World) → u.is_stopped ≡ false → (test handler u).phase ≡ ended
  unfolding test
  test-ended u clear = rw clear refl

  test-log : (u : Server World) → (test handler u).log ≡ u.log
  unfolding test
  test-log u = refl

  test-world : (u : Server World) → (test handler u).world ≡ u.world
  unfolding test
  test-world u = refl

  Step-Stopped : {s u v : Server World} → Step handler u v → Stopped s u → Stopped s v
  unfolding stop
  Step-Stopped {s} (stops u) k = record {
    handled = moved s u (stop handler u) refl refl k;
    flag = inl refl;
    once = λ e.
        (let (began, i) = k.once e in (began, record { log_eq = i.log_eq; world_eq = i.world_eq }));
  }
  Step-Stopped {s} (tests u looping) k =
      let gone : (test handler u).phase ≡ ended = elim k.flag [
        | inl clear ↦ test-ended u clear
        | inr out ↦ absurd (cc (looping, out))
      ] in
      record {
        handled = moved s u (test handler u) (test-log u) (test-world u) k;
        flag = inr gone;
        once = λ e. absurd (cc (gone, e));
      }
  Step-Stopped {s} (turns u t running) k = turn-Stopped s u t running k

  -- Once `stop` has cleared the flag of a server, however the server goes on: if the body of
  -- the loop was not running no further message is handled, and otherwise at most the one of
  -- that body; the flag stays clear until the loop is left, and the body is not entered again.
  pub Reach-Stopped :
      (s : Server World) {v : Server World} → Reach handler (stop handler s) v → Stopped s v
  unfolding stop
  Reach-Stopped s here = record {
    handled = inl (record { log_eq = refl; world_eq = refl });
    flag = inl refl;
    once = λ e. (e, record { log_eq = refl; world_eq = refl });
  }
  Reach-Stopped s (next r step) = Step-Stopped step (Reach-Stopped s r)
