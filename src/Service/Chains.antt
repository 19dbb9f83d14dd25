-- ===== src/Service/Chains.antt =====
-- src/ChainDB.cpp, src/Network/Server/Server.cpp, src/Handler.cpp and src/Storage/Manager.cpp together: the chains that the service
-- stores.
use chain_db.Base.{
  ℕ, suc, ◌^◌, ◌<◌, ◌≤◌, ◌≡◌, refl, sym, subst, ◌∙◌, true, false, none, some, List, length, arith,
  length-map, Bool-cases, inl, inr,
}
use chain_db.Base.Bytes.{Bytes}
use chain_db.Base.Action.{returned}
use chain_db.Platform.{Platform, IsPlatform}
use chain_db.Platform.Wire.{Wire}
use chain_db.Platform.Engine.{IsReliable}
use chain_db.Platform.Sha.{IsTotalSha}
use chain_db.Storage.Chain.Header.{Header}
use chain_db.Storage.Manager.{verify_chain, get_chain_header}
use chain_db.Storage.Manager.Runs.{run_verifies}
use chain_db.Storage.Manager.Runs
use chain_db.Storage.Manager.Removals.{free-AllComplete}
use chain_db.Handler.Requested.{session_calls}
use chain_db.Handler.Calls.{serve-runs}
use chain_db.Network.Server.{Server, Opening}
use chain_db.Network.Server.Steps.{Reach}
use chain_db.Network.Server.Transcript.{requests, Reach-Handled}
use chain_db.System.Arguments.{Parsed, accepted, rejected, thrown, parse_args}
use chain_db.Service.{
  service_handler, ChainDb, Forked, ready, initialize, initialize_random_generator, with_settings,
  run, handlers, instance_settings, daemonize,
}

module _ (P : Platform) (L : IsPlatform P) where
  -- The databases are as before, and none is open that was not.
  pub record Untouched (w v : P.World) : Type 0 where
    pub content_eq : (q : Bytes) → L.engine.content v q ≡ L.engine.content w q
    pub locked_eq : (q : Bytes) → L.engine.locked v q ≡ L.engine.locked w q

  generator-Untouched : (w : P.World) → Untouched w (initialize_random_generator P w).1
  unfolding initialize_random_generator
  generator-Untouched w = elim (Bool-cases (P.rng.rand_status w).0) [
    | inl ok ↦
        rw (ok, initialize_random_generator)
          (record {
            content_eq = λ q. L.rng.poll_keeps _ q ∙ L.rng.status_keeps w q;
            locked_eq = λ q. L.rng.poll_keeps_locks _ q ∙ L.rng.status_keeps_locks w q;
          })
    | inr bad ↦
        rw (bad, initialize_random_generator)
          (record {
            content_eq = λ q. L.rng.status_keeps w q;
            locked_eq = λ q. L.rng.status_keeps_locks w q;
          })
  ]

  same-Untouched : (w : P.World) → Untouched w w
  same-Untouched w = record { content_eq = λ q. refl; locked_eq = λ q. refl }

  with_settings-Untouched :
      (forked : Forked) (r : Parsed × ChainDb) (w : P.World)
      → Untouched w (with_settings P forked r w).1
  with_settings-Untouched forked (accepted, c) w = elim (Bool-cases c.daemonize) [
    | inl apart ↦ elim (Bool-cases (daemonize forked)) [
      | inl child ↦ simp (apart, child) (generator-Untouched w)
      | inr parent ↦ simp (apart, parent) (same-Untouched w)
    ]
    | inr attached ↦ simp attached (generator-Untouched w)
  ]
  with_settings-Untouched forked (rejected, c) w = same-Untouched w
  with_settings-Untouched forked (thrown, c) w = same-Untouched w

  pub initialize-Untouched :
      (forked : Forked) (argv : List Bytes) (w : P.World)
      → Untouched w (initialize P forked argv w).1
  unfolding initialize
  initialize-Untouched forked argv w =
      with_settings-Untouched forked (parse_args handlers argv instance_settings) w

  module _ (W : Wire) where
    -- The databases are as after the calls that the messages in the log ask for.
    pub served_world :
        (c : ChainDb) (o : Opening) (w : P.World) {s : Server P.World}
        → Reach (service_handler P W c) (run P W c o w) s
        → let calls = session_calls P W c.storage_dir c.password (requests s.log) in
          (length calls ≤ length s.log) × (s.world ≡ Runs.run P c.storage_dir calls w)
    unfolding run
    served_world c o w {s} reach =
        let served = Reach-Handled (service_handler P W c) o w reach in
        let (few, limited, same) = serve-runs P W c.storage_dir c.password (requests s.log) w in
        ((let k = few in omega (arith, length-map (λ e. e.request) s.log)), served.world_eq ∙ same)

    served_verifies :
        (c : ChainDb) (o : Opening) (w : P.World) (id : ℕ) (h : Header) {s : Server P.World}
        → ((q : Bytes) → L.engine.content w q ≡ none)
        → ((q : Bytes) → L.engine.locked w q ≡ false)
        → IsReliable P.engine L.engine
        → IsTotalSha P.sha
        → Reach (service_handler P W c) (run P W c o w) s
        → suc (length s.log) < 2 ^ 64
        → (get_chain_header P c.storage_dir id s.world).0 ≡ some h
        → (verify_chain P c.storage_dir id s.world).0 ≡ returned true
    served_verifies c o w id h {s} blank free R T reach room read =
        let calls = session_calls P W c.storage_dir c.password (requests s.log) in
        let (few, now) = served_world c o w reach in
        subst (λ v. (verify_chain P c.storage_dir id v).0 ≡ returned true) (sym now)
          (run_verifies P L c.storage_dir calls w id h blank free (let k = few in omega arith)
            (free-AllComplete P L c.storage_dir R calls w free) R T
            (subst (λ v. (get_chain_header P c.storage_dir id v).0 ≡ some h) now read))

    -- With an engine and a digest that do not fail: once the service is started by `initialize`
    -- with any arguments on a disk without databases, none of them open, then in every state
    -- that its server reaches after fewer than 2^64 - 1 messages, whatever the messages are,
    -- whatever the socket does and whenever it is stopped, a chain whose header can be read is
    -- accepted by `verifyChain`.
    pub service_verifies :
        (forked : Forked) (argv : List Bytes) (c : ChainDb) (o : Opening) (w : P.World) (id : ℕ)
        (h : Header) {s : Server P.World}
        → ((q : Bytes) → L.engine.content w q ≡ none)
        → ((q : Bytes) → L.engine.locked w q ≡ false)
        → IsReliable P.engine L.engine
        → IsTotalSha P.sha
        → (initialize P forked argv w).0 ≡ ready c
        → Reach (service_handler P W c) (run P W c o (initialize P forked argv w).1) s
        → suc (length s.log) < 2 ^ 64
        → (get_chain_header P c.storage_dir id s.world).0 ≡ some h
        → (verify_chain P c.storage_dir id s.world).0 ≡ returned true
    service_verifies forked argv c o w id h blank free R T started reach room read =
        let kept = initialize-Untouched forked argv w in
        served_verifies c o (initialize P forked argv w).1 id h (λ q. kept.content_eq q ∙ blank q)
          (λ q. kept.locked_eq q ∙ free q) R T reach room read
