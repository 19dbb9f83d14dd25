-- ===== src/Service/Settings.antt =====
-- ChainDB.cpp, `initialize`: the settings with which the service runs.
use chain_db.Base.{
  Bool-cases, inl, inr, false, ◌∙◌, ◌≡◌, refl, ap, Bool, true, List, [], ◌∷◌, All, arith,
  if◌then◌else◌,
}
use chain_db.Base.Bytes.{Bytes, text, bytes_eq}
use chain_db.Base.Int.{pos}
use chain_db.Platform.{Platform}
use chain_db.System.Arguments.{Parsed, accepted, rejected, thrown, parse_args}
use chain_db.System.Arguments.Accepts.{WellFormed, parse_args-WellFormed}
use chain_db.System.Arguments.Settles.{
  last_value, int_value, Writes, string_arg-Writes, bool_arg-Writes, int_arg-Writes,
  parse_args-last_value,
}
use chain_db.Service.{
  ChainDb, Forked, in_child, in_parent, not_forked, daemonize, ready, exited, initialize,
  with_settings, with_generator, initialize_random_generator, instance_settings, handlers,
}

abbrev pub is_true : Bytes → Bool
is_true value = bytes_eq value (text "true")

abbrev pub verbatim : Bytes → Bytes
verbatim value = value

module _ {B : Type 0} (f : ChainDb → B) (key : Bytes) (read : Bytes → B) where
  -- `f` is what the value of a pair whose key is `k` says, if that is its key.
  abbrev Follows : Bytes → (Bytes → ChainDb → ChainDb) → Type 0
  Follows k put = (v : Bytes) (c : ChainDb) → f (put v c) ≡ (if bytes_eq k key then read v else f c)

  handlers-Writes :
      Follows (text "--daemonize") (λ v c. record c { daemonize = is_true v })
      → Follows (text "--log-path") (λ v c. record c { log_path = v })
      → Follows (text "--storage-path") (λ v c. record c { storage_dir = v })
      → Follows (text "--password") (λ v c. record c { password = v })
      → Follows (text "--port") (λ v c. record c { server_port = int_value v })
      → All (λ p. Writes f key read p.0 p.1) handlers
  handlers-Writes daemonize log_path storage_dir password port = (
    bool_arg-Writes f key read _ _ daemonize,
    (
      string_arg-Writes f key read _ _ log_path,
      (
        string_arg-Writes f key read _ _ storage_dir,
        (string_arg-Writes f key read _ _ password, (int_arg-Writes f key read _ _ port, tt)),
      ),
    ),
  )

  settled :
      (program : Bytes) (args : List Bytes) (c : ChainDb)
      → parse_args handlers (program ∷ args) instance_settings ≡ (accepted, c)
      → Follows (text "--daemonize") (λ v c. record c { daemonize = is_true v })
      → Follows (text "--log-path") (λ v c. record c { log_path = v })
      → Follows (text "--storage-path") (λ v c. record c { storage_dir = v })
      → Follows (text "--password") (λ v c. record c { password = v })
      → Follows (text "--port") (λ v c. record c { server_port = int_value v })
      → f c ≡ last_value key read args (f instance_settings)
  settled program args c e h₁ h₂ h₃ h₄ h₅ =
      parse_args-last_value f key read handlers program args instance_settings c
        (handlers-Writes h₁ h₂ h₃ h₄ h₅) e

-- Each setting is what the last argument for it says, or else what the constructor set.
pub record Configured (args : List Bytes) (c : ChainDb) : Type 0 where
  pub daemonize_eq : c.daemonize ≡ last_value (text "--daemonize") is_true args true
  pub log_path_eq :
      c.log_path ≡ last_value (text "--log-path") verbatim args (text "chain_db_service.log")
  pub storage_dir_eq : c.storage_dir ≡ last_value (text "--storage-path") verbatim args []
  pub password_eq : c.password ≡ last_value (text "--password") verbatim args []
  pub server_port_eq : c.server_port ≡ last_value (text "--port") int_value args (pos 8888)

parsed-Configured :
    (program : Bytes) (args : List Bytes) (c : ChainDb)
    → parse_args handlers (program ∷ args) instance_settings ≡ (accepted, c)
    → Configured args c
unfolding bytes_eq
parsed-Configured program args c e = record {
  daemonize_eq =
      settled (λ c. c.daemonize) (text "--daemonize") is_true program args c e (λ v d. refl)
        (λ v d. refl) (λ v d. refl) (λ v d. refl) (λ v d. refl);
  log_path_eq =
      settled (λ c. c.log_path) (text "--log-path") verbatim program args c e (λ v d. refl)
        (λ v d. refl) (λ v d. refl) (λ v d. refl) (λ v d. refl);
  storage_dir_eq =
      settled (λ c. c.storage_dir) (text "--storage-path") verbatim program args c e (λ v d. refl)
        (λ v d. refl) (λ v d. refl) (λ v d. refl) (λ v d. refl);
  password_eq =
      settled (λ c. c.password) (text "--password") verbatim program args c e (λ v d. refl)
        (λ v d. refl) (λ v d. refl) (λ v d. refl) (λ v d. refl);
  server_port_eq =
      settled (λ c. c.server_port) (text "--port") int_value program args c e (λ v d. refl)
        (λ v d. refl) (λ v d. refl) (λ v d. refl) (λ v d. refl);
}

module _ (P : Platform) where
  -- `RAND_status` said that the generator is seeded, and `RAND_poll` after it added to the seed.
  abbrev pub Seeded : P.World → P.World → Type 0
  Seeded w v =
      ((P.rng.rand_status w).0 ≡ true)
      × ((P.rng.rand_poll (P.rng.rand_status w).1).0 ≡ true)
      × (v ≡ (P.rng.rand_poll (P.rng.rand_status w).1).1)

  initialize_random_generator-Seeded :
      (w : P.World)
      → (initialize_random_generator P w).0 ≡ true
      → Seeded w (initialize_random_generator P w).1
  unfolding initialize_random_generator
  initialize_random_generator-Seeded w e = elim (Bool-cases (P.rng.rand_status w).0) [
    | inl seeded ↦ (
      seeded,
      rw (seeded, initialize_random_generator) at e,
      rw (seeded, initialize_random_generator) refl,
    )
    | inr empty ↦ absurd (ground arith)
  ]

  with_generator-ready :
      (c d : ChainDb) (w : P.World)
      → (with_generator P c w).0 ≡ ready d
      → (c ≡ d) × Seeded w (with_generator P c w).1
  with_generator-ready c d w e =
      let (same, ok) : (c ≡ d) × ((initialize_random_generator P w).0 ≡ true) = ground arith in
      (same, initialize_random_generator-Seeded w ok)

  forked-ready :
      (b : Bool) (forked : Forked) (c d : ChainDb) (w : P.World)
      → (if b
          then (if daemonize forked then with_generator P c w else (exited, w))
          else with_generator P c w).0
        ≡ ready d
      → (c ≡ d)
        × Seeded w
            (if b
              then (if daemonize forked then with_generator P c w else (exited, w))
              else with_generator P c w).1
        × (b ≡ true → forked ≡ in_child)
  forked-ready false forked c d w e =
      let (same, seeded) = with_generator-ready c d w e in (same, seeded, λ f. absurd (cc f))
  forked-ready true in_child c d w e =
      let (same, seeded) = with_generator-ready c d w e in (same, seeded, λ f. refl)
  forked-ready true in_parent c d w e = absurd (ground arith)
  forked-ready true not_forked c d w e = absurd (ground arith)

  with_settings-ready :
      (forked : Forked) (r : Parsed × ChainDb) (d : ChainDb) (w : P.World)
      → (with_settings P forked r w).0 ≡ ready d
      → (r ≡ (accepted, d))
        × Seeded w (with_settings P forked r w).1
        × (d.daemonize ≡ true → forked ≡ in_child)
  with_settings-ready forked (accepted, c) d w e =
      let (same, seeded, child) = forked-ready c.daemonize forked c d w e in
      (ap (λ x. (accepted, x)) same, seeded, λ wanted. child (ap (λ x. x.daemonize) same ∙ wanted))
  with_settings-ready forked (rejected, c) d w e = absurd (ground arith)
  with_settings-ready forked (thrown, c) d w e = absurd (ground arith)

  -- If `initialize` of the service returns true, the arguments are pairs of a known key and a
  -- fitting value, each setting is what the last value for its key says or else the
  -- constructor's value, `RAND_status` said that the generator is seeded and then `RAND_poll`
  -- succeeded, nothing else was done to the world, and `fork` returned 0 if the service was to
  -- be a daemon.
  pub initialize-ready :
      (forked : Forked) (program : Bytes) (args : List Bytes) (c : ChainDb) (w : P.World)
      → (initialize P forked (program ∷ args) w).0 ≡ ready c
      → WellFormed handlers args
        × Configured args c
        × Seeded w (initialize P forked (program ∷ args) w).1
        × (c.daemonize ≡ true → forked ≡ in_child)
  unfolding initialize
  initialize-ready forked program args c w e =
      let (parsed, seeded, child) =
        with_settings-ready forked (parse_args handlers (program ∷ args) instance_settings) c w e in
      (
        (parse_args-WellFormed handlers program args instance_settings).0 (ap (λ r. r.0) parsed),
        parsed-Configured program args c parsed,
        seeded,
        child,
      )
