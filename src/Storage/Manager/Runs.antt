-- ===== src/Storage/Manager/Runs.antt =====
-- Sequences of calls on the manager, as a server makes them for its clients one after the other.
use chain_db.Base.{
  ℕ, suc, ◌+◌, ◌^◌, ◌<◌, ◌≡◌, ◌≢◌, refl, subst, ◌∙◌, inl, inr, true, false, none, some, List, [],
  ◌∷◌, arith, length,
}
use chain_db.Base.Bytes.{Bytes, bytes_cases}
use chain_db.Base.Action.{returned}
use chain_db.Platform.{Platform, IsPlatform}
use chain_db.Platform.Engine.{IsReliable}
use chain_db.Platform.Sha.{IsTotalSha}
use chain_db.Storage.Chain.Header.{Header}
use chain_db.Storage.Chain.Frames.{
  content-get_header, content-get_block, content-get_blocks, content-remove, locked-get_header,
  locked-get_block, locked-get_blocks, locked-remove,
}
use chain_db.Storage.Chain.Creates.{content-remove_self}
use chain_db.Storage.Manager.Paths.{make_storage_path}
use chain_db.Storage.Manager.{
  create_chain, add_block, get_block, get_blocks, remove_chain, verify_chain, get_chain_header,
}
use chain_db.Storage.Manager.Frames
use chain_db.Storage.Manager.Soundness.{Sound, Sound-same, Sound-more}
use chain_db.Storage.Manager.History.{
  add_block-Sound, create_chain-Sound, get_header-absent, get_header-headless,
}
use chain_db.Storage.Manager.Verifies.{verify_chain_decides}

-- A call of a public method, the chain's number first.
pub data Call : Type 0 where
  creates adds : ℕ → Bytes → Call
  reads : ℕ → ℕ → Call
  lists removes verifies heads : ℕ → Call

-- The chain that a call names.
abbrev pub target : Call → ℕ
target (creates id payload) = id
target (adds id payload) = id
target (reads id i) = id
target (lists id) = id
target (removes id) = id
target (verifies id) = id
target (heads id) = id

module _ (P : Platform) (dir : Bytes) where
  unfoldable pub step : Call → P.World → P.World
  step (creates id payload) w = (create_chain P dir id payload w).1
  step (adds id payload) w = (add_block P dir id payload w).1
  step (reads id i) w = (get_block P dir id i w).1
  step (lists id) w = (get_blocks P dir id [] w).1
  step (removes id) w = (remove_chain P dir id w).1
  step (verifies id) w = (verify_chain P dir id w).1
  step (heads id) w = (get_chain_header P dir id w).1

  unfoldable pub run : List Call → P.World → P.World
  unfolding step
  run [] w = w
  run (c ∷ calls) w = run calls (step c w)

  -- A removal that fails half way may leave anything.
  abbrev pub Completes : Call → P.World → Type 0
  Completes (removes id) w = (remove_chain P dir id w).0 ≡ some tt
  Completes c w = Unit

  abbrev pub AllComplete : List Call → P.World → Type 0
  AllComplete [] w = Unit
  AllComplete (c ∷ calls) w = Completes c w × AllComplete calls (step c w)

module _ (P : Platform) (L : IsPlatform P) (dir : Bytes) where
  locked-step :
      (c : Call) (w : P.World) (q : Bytes)
      → L.engine.locked (step P dir c w) q ≡ L.engine.locked w q
  unfolding step get_block get_blocks remove_chain get_chain_header
  locked-step (creates id payload) w q = (Frames.locked-create_chain P L dir id q payload).at w
  locked-step (adds id payload) w q = (Frames.locked-add_block P L dir id q payload).at w
  locked-step (reads id i) w q = locked-get_block P L _ i w q
  locked-step (lists id) w q = locked-get_blocks P L _ [] w q
  locked-step (removes id) w q = locked-remove P L _ w q
  locked-step (verifies id) w q = (Frames.locked-verify_chain P L dir id q).at w
  locked-step (heads id) w q = locked-get_header P L _ w q

  -- After any sequence of calls of the manager, failed ones among them, each database is open
  -- exactly if it was open before: every handle that a call opens is closed by the time it
  -- returns.
  pub locked-run :
      (calls : List Call) (w : P.World) (q : Bytes)
      → L.engine.locked (run P dir calls w) q ≡ L.engine.locked w q
  unfolding run
  locked-run [] w q = refl
  locked-run (c ∷ calls) w q = locked-run calls (step P dir c w) q ∙ locked-step c w q

  -- A call of the manager changes no database but the one at the path of the chain that it
  -- names.
  pub content-step :
      (c : Call) (w : P.World) (q : Bytes)
      → make_storage_path dir (target c) ≢ q
      → L.engine.content (step P dir c w) q ≡ L.engine.content w q
  unfolding step get_block get_blocks remove_chain get_chain_header
  content-step (creates id payload) w q other =
      (Frames.content-create_chain P L dir id q other payload).at w
  content-step (adds id payload) w q other =
      (Frames.content-add_block P L dir id q other payload).at w
  content-step (reads id i) w q other = content-get_block P L _ i w q
  content-step (lists id) w q other = content-get_blocks P L _ [] w q
  content-step (removes id) w q other = content-remove P L _ w q other
  content-step (verifies id) w q other = (Frames.content-verify_chain P L dir id q).at w
  content-step (heads id) w q other = content-get_header P L _ w q

  self-Sound :
      (n : ℕ) (c : Call) (w : P.World)
      → suc n < 2 ^ 64
      → Completes P dir c w
      → Sound P L n w (make_storage_path dir (target c))
      → Sound P L (suc n) (step P dir c w) (make_storage_path dir (target c))
  unfolding step get_block get_blocks remove_chain get_chain_header
  self-Sound n (creates id payload) w room done s = create_chain-Sound P L dir n id payload w s
  self-Sound n (adds id payload) w room done s = add_block-Sound P L dir n id payload w room s
  self-Sound n (reads id i) w room done s =
      Sound-more P L n _ _ (Sound-same P L n w _ _ (content-get_block P L _ i w _) s)
  self-Sound n (lists id) w room done s =
      Sound-more P L n _ _ (Sound-same P L n w _ _ (content-get_blocks P L _ [] w _) s)
  self-Sound n (removes id) w room done s = inl (content-remove_self P L _ w done)
  self-Sound n (verifies id) w room done s =
      Sound-more P L n _ _
        (Sound-same P L n w _ _ ((Frames.content-verify_chain P L dir id _).at w) s)
  self-Sound n (heads id) w room done s =
      Sound-more P L n _ _ (Sound-same P L n w _ _ (content-get_header P L _ w _) s)

  step-Sound :
      (n : ℕ) (c : Call) (w : P.World)
      → suc n < 2 ^ 64
      → Completes P dir c w
      → ((q : Bytes) → Sound P L n w q)
      → (q : Bytes) → Sound P L (suc n) (step P dir c w) q
  step-Sound n c w room done s q = elim (bytes_cases (make_storage_path dir (target c)) q) [
    | inl e ↦
        subst (Sound P L (suc n) (step P dir c w)) e
          (self-Sound n c w room done (s (make_storage_path dir (target c))))
    | inr other ↦ Sound-more P L n _ q (Sound-same P L n w _ q (content-step c w q other) (s q))
  ]

  -- If at every path there is no database, an unfinished one without a header, or a signed and
  -- linked chain of at most n blocks, then after m calls of the manager, in which every removal
  -- succeeded while other calls may have failed, the same holds with n + m in place of n, as
  -- long as n + m is below 2^64 - 1.
  pub run-Sound :
      (calls : List Call) (n : ℕ) (w : P.World)
      → suc (n + length calls) < 2 ^ 64
      → AllComplete P dir calls w
      → ((q : Bytes) → Sound P L n w q)
      → (q : Bytes) → Sound P L (n + length calls) (run P dir calls w) q
  unfolding run
  run-Sound [] n w room done s q = subst (λ m. Sound P L m w q) (omega arith) (s q)
  run-Sound (c ∷ calls) n w room done s q =
      subst (λ m. Sound P L m (run P dir calls (step P dir c w)) q) (omega arith)
        (run-Sound calls (suc n) (step P dir c w) (omega arith) done.1
          (step-Sound n c w (omega arith) done.0 s) q)

  -- With an engine and a digest that do not fail: after any sequence of fewer than 2^64 - 1
  -- calls of the manager that began on a disk without databases, none of them open, and in
  -- which every removal succeeded while any other call may have failed, a chain whose header
  -- can be read is accepted by `verifyChain`.
  pub run_verifies :
      (calls : List Call) (w : P.World) (id : ℕ) (h : Header)
      → ((q : Bytes) → L.engine.content w q ≡ none)
      → ((q : Bytes) → L.engine.locked w q ≡ false)
      → suc (length calls) < 2 ^ 64
      → AllComplete P dir calls w
      → IsReliable P.engine L.engine
      → IsTotalSha P.sha
      → (get_chain_header P dir id (run P dir calls w)).0 ≡ some h
      → (verify_chain P dir id (run P dir calls w)).0 ≡ returned true
  unfolding get_chain_header
  run_verifies calls w id h blank free room done R T read =
      let v = run P dir calls w in
      elim (run-Sound calls 0 w (omega arith) done (λ q. inl (blank q))
        (make_storage_path dir id)) [
          | inl absent ↦
              absurd (ground (arith, get_header-absent P L v (make_storage_path dir id) absent))
          | inr (inl u) ↦
              absurd (ground (arith, get_header-headless P L v (make_storage_path dir id) u))
          | inr (inr c) ↦
              (verify_chain_decides P L dir id v c.header c.blocks c.holds
                  (let k = c.size in omega arith) R T (locked-run calls w _ ∙ free _)).1.1
                c.linked
        ]
