-- ===== src/Storage/Manager/Ledger/Endures.antt =====
-- Manager.cpp: whatever fails, the databases are as the calls and their reports say.
use chain_db.Base.{
  ℕ, suc, ◌+◌, ◌^◌, ◌<◌, ◌≡◌, ◌≢◌, refl, sym, subst, ◌⊎◌, inl, inr, List, [], ◌∷◌, arith, length,
  ◌==◌, ==_iff, Bool-cases,
}
use chain_db.Base.Bytes.{Bytes}
use chain_db.Platform.{Platform, IsPlatform}
use chain_db.Storage.Chain.Creates.{content-remove_self}
use chain_db.Storage.Chain.Frames.{content-get_header, content-get_block, content-get_blocks}
use chain_db.Storage.Manager.{get_block, get_blocks, remove_chain, get_chain_header}
use chain_db.Storage.Manager.Paths.{make_storage_path, make_storage_path_injective}
use chain_db.Storage.Manager.Frames
use chain_db.Storage.Manager.Frames.{Leaves-private_key}
use chain_db.Storage.Manager.Runs.{
  Call, creates, adds, reads, lists, removes, verifies, heads, target, step, run, Completes,
  AllComplete, content-step,
}
use chain_db.Storage.Manager.Reports.{reports}
use chain_db.Storage.Manager.Ledger.Failures.{State, absent, May, Evolves}
use chain_db.Storage.Manager.Ledger.States.{Stands, Stands-same, Stands-more}
use chain_db.Storage.Manager.Ledger.Moves.{Moves, create_chain-Moves, add_block-Moves}

same_or_not : (i j : ℕ) → (i ≡ j) ⊎ (i ≢ j)
same_or_not i j = elim (Bool-cases (i == j)) [
  | inl e ↦ inl ((==_iff i j).0 e)
  | inr e ↦ inr (λ f. ground arith)
]

module _ (P : Platform) (L : IsPlatform P) where
  module _ (dir : Bytes) where
    -- A call that reads leaves all as it is.
    quiet-Stands :
        (n : ℕ) (s : State) (w v : P.World) (path : Bytes)
        → L.engine.content v path ≡ L.engine.content w path
        → Stands P L n s w path
        → Stands P L (suc n) s v path
    quiet-Stands n s w v path e k = Stands-more P L n s v path (Stands-same P L n s w v path e k)

    self-Moves :
        (n : ℕ) (call : Call) (s : State) (w : P.World)
        → suc n < 2 ^ 64
        → Completes P dir call w
        → Stands P L n s w (make_storage_path dir (target call))
        → Moves P L
            (suc n)
            call
            (reports P dir call w)
            s
            (step P dir call w)
            (make_storage_path dir (target call))
    unfolding step reports get_block get_blocks get_chain_header remove_chain
    self-Moves n (creates id payload) s w room done k =
        let (t, m, now) = create_chain-Moves P L dir n id payload s w k in
        (t, m, Stands-more P L n t _ _ now)
    self-Moves n (adds id payload) s w room done k = add_block-Moves P L dir n id payload s w room k
    self-Moves n (removes id) s w room done k =
        rw done (absent, refl, content-remove_self P L (make_storage_path dir id) w done)
    self-Moves n (reads id i) s w room done k =
        (s, refl, quiet-Stands n s w _ _ (content-get_block P L _ i w _) k)
    self-Moves n (lists id) s w room done k =
        (s, refl, quiet-Stands n s w _ _ (content-get_blocks P L _ [] w _) k)
    self-Moves n (verifies id) s w room done k =
        (s, refl, quiet-Stands n s w _ _ ((Frames.content-verify_chain P L dir id _).at w) k)
    self-Moves n (heads id) s w room done k =
        (s, refl, quiet-Stands n s w _ _ (content-get_header P L _ w _) k)

    -- A step of the chain `id`, whichever chain the call names.
    step-Moves :
        (n id : ℕ) (call : Call) (s : State) (w : P.World)
        → suc n < 2 ^ 64
        → Completes P dir call w
        → Stands P L n s w (make_storage_path dir id)
        → (t : State) × (target call ≡ id → May call (reports P dir call w) s t)
          × (target call ≢ id → t ≡ s)
          × Stands P L (suc n) t (step P dir call w) (make_storage_path dir id)
    step-Moves n id call s w room done k = elim (same_or_not (target call) id) [
      | inl same ↦
          let (t, m, now) =
            self-Moves n call s w room done
              (subst (λ i. Stands P L n s w (make_storage_path dir i)) (sym same) k) in
          (
            t,
            (λ e. m),
            (λ other. absurd (other same)),
            subst (λ i. Stands P L (suc n) t (step P dir call w) (make_storage_path dir i)) same
                now,
          )
      | inr other ↦
          let apart : make_storage_path dir (target call) ≢ make_storage_path dir id =
            λ e. other (make_storage_path_injective dir (target call) id e) in
          (
            s,
            (λ same. absurd (other same)),
            (λ e. refl),
            quiet-Stands n s w _ _ (content-step P L dir call w _ apart) k,
          )
    ]

    -- Whatever failures the engine and the libraries have: if a chain's path holds no database,
    -- an unfinished one without a header, or a valid chain of at most n blocks with some data,
    -- then after m calls of the manager, in which every removal succeeded, it stands in a state
    -- that the calls and their reports lead to: a call for the chain that reports success has
    -- had its effect, one that reports a failure has had it or none (a creation may be left
    -- unfinished), and calls for other chains have none; with n + m below 2^64 - 1.
    pub run-Evolves :
        (calls : List Call) (n id : ℕ) (s : State) (w : P.World)
        → suc (n + length calls) < 2 ^ 64
        → AllComplete P dir calls w
        → Stands P L n s w (make_storage_path dir id)
        → (t : State) × Evolves P dir id calls w s t
          × Stands P L (n + length calls) t (run P dir calls w) (make_storage_path dir id)
    unfolding run
    run-Evolves [] n id s w room done k =
        (s, refl, subst (λ m. Stands P L m s w (make_storage_path dir id)) (omega arith) k)
    run-Evolves (call ∷ calls) n id s w room done k =
        let (m, own, others, now) = step-Moves n id call s w (omega arith) done.0 k in
        let (t, later, end) =
          run-Evolves calls (suc n) id m (step P dir call w) (omega arith) done.1 now in
        (
          t,
          (m, own, others, later),
          subst
              (λ j. Stands P L j t (run P dir calls (step P dir call w)) (make_storage_path dir id))
              (omega arith) end,
        )
