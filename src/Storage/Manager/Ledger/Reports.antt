-- ===== src/Storage/Manager/Ledger/Reports.antt =====
-- Manager.cpp: a call reports success exactly if the ledger allows it.
use chain_db.Base.{
  ℕ, zero, suc, ◌+◌, ◌^◌, ◌<◌, ◌≡◌, refl, sym, ap, ◌∙◌, Bool, true, false, ◌&&◌, leb, is_some, none,
  some, List, [], ◌∷◌, arith, length, length-map, get_elem?,
}
use chain_db.Base.Bytes.{Bytes}
use chain_db.Base.Action.{Run, returned}
use chain_db.Platform.{Platform, IsPlatform, IsReliable, MakesKeys}
use chain_db.Storage.Storage.{Storage, opened}
use chain_db.Storage.Storage.Scope.{opened_cases}
use chain_db.Storage.Block.{Container}
use chain_db.Storage.Chain
use chain_db.Storage.Chain.Header.{Header}
use chain_db.Storage.Chain.Creates.{create-occupied}
use chain_db.Storage.Chain.Gets.{numbered, get_header_ready, get_block_ready, get_blocks_ready}
use chain_db.Crypto.Secp256k1.{generate_private_key}
use chain_db.Storage.Manager.{
  create_chain, add_block, get_block, get_blocks, verify_chain, verify_after, get_chain_header,
}
use chain_db.Storage.Manager.Paths.{make_storage_path}
use chain_db.Storage.Manager.Frames.{Leaves-private_key}
use chain_db.Storage.Manager.History.{get_header-absent}
use chain_db.Storage.Manager.Removals.{remove_chain_ready, free-AllComplete}
use chain_db.Storage.Manager.Succeeds.{add_block_succeeds}
use chain_db.Storage.Manager.Runs.{
  Call, creates, adds, reads, lists, removes, verifies, heads, target, run, locked-run,
  run_verifies,
}
use chain_db.Storage.Manager.Reports.{reports, Returns}
use chain_db.Storage.Manager.Ledger.{Contents, empty_ledger, perform_all, allows}
use chain_db.Storage.Manager.Ledger.Creates.{
  private_key_ready, public_key_ready, create_chain_ready,
}
use chain_db.Storage.Manager.Ledger.Keeps.{Matches, run-Matches}

is_some-get_elem? :
    (bs : List Container) (i : ℕ) → is_some (get_elem? bs i) ≡ leb (suc i) (length bs)
is_some-get_elem? [] i = ground arith
is_some-get_elem? (b ∷ bs) zero = ground arith
is_some-get_elem? (b ∷ bs) (suc i) = is_some-get_elem? bs i ∙ ground arith

is_some-numbered :
    (bs : List Container) (i : ℕ) → is_some (numbered bs i) ≡ (leb 1 i && leb i (length bs))
is_some-numbered bs zero = ground arith
is_some-numbered bs (suc i) = is_some-get_elem? bs i ∙ ground arith

module _ (P : Platform) (L : IsPlatform P) (S : IsReliable P L) (K : MakesKeys P)
    (dir : Bytes) where
  -- Without a database every method that opens one fails.
  opened-absent :
      {A : Type 0} (path : Bytes) (failed : A) (body : Storage P.engine → P.World → A × P.World)
      (w : P.World)
      → L.engine.content w path ≡ none
      → (opened P.engine path failed body w).0 ≡ failed
  opened-absent path failed body w absent =
      opened_cases P.engine L.engine (λ r _. r ≡ failed) path failed body w (λ w₁ _ _ _. refl)
        (λ d w₁ o. absurd (o.present absent))

  create_chain-refused :
      (n id : ℕ) (payload : Bytes) (c : Bytes × List Bytes) (w : P.World)
      → Matches P L n (some c) w (make_storage_path dir id)
      → (create_chain P dir id payload w).0 ≡ none
  unfolding create_chain
  create_chain-refused n id payload (origin, texts) w m =
      let path = make_storage_path dir id in
      let w₁ = (generate_private_key P.curve P.rng w).1 in
      let (key, e, sized, ok) = private_key_ready P L S K w in
      let (public, f) = public_key_ready P L S K key sized ok in
      let same =
        (Leaves-private_key P L (λ v. L.engine.content v path)
            (λ n v. L.rng.priv_keeps n v path)).at
          w in
      let (refused, kept) =
        create-occupied P L path payload key public w₁ m.holds.table (same ∙ m.holds.at) in
      rw (e, create_chain) (rw f (rw refused refl))

  -- Of a chain that is not there nothing but its creation and its removal succeeds.
  reports-absent :
      (n : ℕ) (call : Call) (w : P.World)
      → L.engine.locked w (make_storage_path dir (target call)) ≡ false
      → Matches P L n none w (make_storage_path dir (target call))
      → reports P dir call w ≡ allows call none
  unfolding reports add_block get_block get_blocks verify_chain verify_after get_chain_header
      Chain.get_block Chain.get_blocks
  reports-absent n (creates id payload) w free m =
      ap is_some (create_chain_ready P L S K dir id payload w m free).0
  reports-absent n (adds id payload) w free m = rw (get_header-absent P L w _ m, add_block) refl
  reports-absent n (reads id i) w free m = ap is_some (opened-absent _ none _ w m)
  reports-absent n (lists id) w free m =
      rw (opened-absent {A = Run (Bool × List Container)} _ (returned (false, [])) _ w m) refl
  reports-absent n (removes id) w free m =
      ap is_some (remove_chain_ready P L dir S.engine id w free)
  reports-absent n (verifies id) w free m = rw (get_header-absent P L w _ m, verify_chain) refl
  reports-absent n (heads id) w free m = ap is_some (get_header-absent P L w _ m)

  reports-stored :
      (n : ℕ) (call : Call) (c : Bytes × List Bytes) (w : P.World)
      → suc n < 2 ^ 64
      → L.engine.locked w (make_storage_path dir (target call)) ≡ false
      → ((h : Header)
          → (get_chain_header P dir (target call) w).0 ≡ some h
          → (verify_chain P dir (target call) w).0 ≡ returned true)
      → Matches P L n (some c) w (make_storage_path dir (target call))
      → reports P dir call w ≡ allows call (some c)
  unfolding reports get_block get_blocks get_chain_header
  reports-stored n (creates id payload) c w room free valid m =
      ap is_some (create_chain-refused n id payload c w m)
  reports-stored n (adds id payload) c w room free valid m =
      let (b, answer, _, _) =
        add_block_succeeds P L S dir payload id w m.header m.blocks m.keys
          (let k = m.size in omega arith) m.holds free in
      ap is_some answer
  reports-stored n (reads id i) (origin, texts) w room free valid m =
      ap is_some (get_block_ready P L _ m.header m.blocks S.engine w m.holds free i)
      ∙ is_some-numbered m.blocks i
      ∙ ap (λ k. leb 1 i && leb i k)
          (sym (length-map (λ b. b.payload) m.blocks) ∙ ap length m.texts_eq)
  reports-stored n (lists id) c w room free valid m =
      rw
        (get_blocks_ready P L _ m.header m.blocks S.engine w m.holds free
          (let k = m.size in omega arith))
        refl
  reports-stored n (removes id) c w room free valid m =
      ap is_some (remove_chain_ready P L dir S.engine id w free)
  reports-stored n (verifies id) c w room free valid m =
      rw (valid m.header (get_header_ready P L _ m.header m.blocks S.engine w m.holds free)) refl
  reports-stored n (heads id) c w room free valid m =
      ap is_some (get_header_ready P L _ m.header m.blocks S.engine w m.holds free)

  Matches-reports :
      (n : ℕ) (call : Call) (c : Contents) (w : P.World)
      → suc n < 2 ^ 64
      → L.engine.locked w (make_storage_path dir (target call)) ≡ false
      → ((h : Header)
          → (get_chain_header P dir (target call) w).0 ≡ some h
          → (verify_chain P dir (target call) w).0 ≡ returned true)
      → Matches P L n c w (make_storage_path dir (target call))
      → reports P dir call w ≡ allows call c
  Matches-reports n call none w room free valid m = reports-absent n call w free m
  Matches-reports n call (some c) w room free valid m = reports-stored n call c w room free valid m

  Matches-Returns :
      (n : ℕ) (call : Call) (c : Contents) (w : P.World)
      → suc n < 2 ^ 64
      → L.engine.locked w (make_storage_path dir (target call)) ≡ false
      → ((h : Header)
          → (get_chain_header P dir (target call) w).0 ≡ some h
          → (verify_chain P dir (target call) w).0 ≡ returned true)
      → Matches P L n c w (make_storage_path dir (target call))
      → Returns P dir call w
  unfolding get_blocks verify_chain verify_after get_chain_header Chain.get_blocks
  Matches-Returns n (creates id payload) c w room free valid m = tt
  Matches-Returns n (adds id payload) c w room free valid m = tt
  Matches-Returns n (reads id i) c w room free valid m = tt
  Matches-Returns n (removes id) c w room free valid m = tt
  Matches-Returns n (heads id) c w room free valid m = tt
  Matches-Returns n (lists id) none w room free valid m =
      ((false, []), opened-absent {A = Run (Bool × List Container)} _ (returned (false, [])) _ w m)
  Matches-Returns n (lists id) (some c) w room free valid m = (
    (true, m.blocks),
    get_blocks_ready P L _ m.header m.blocks S.engine w m.holds free
        (let k = m.size in omega arith),
  )
  Matches-Returns n (verifies id) none w room free valid m =
      (false, rw (get_header-absent P L w _ m, verify_chain) refl)
  Matches-Returns n (verifies id) (some c) w room free valid m =
      (true, valid m.header (get_header_ready P L _ m.header m.blocks S.engine w m.holds free))

  module _ (calls : List Call) (call : Call) (w : P.World)
      (blank : (q : Bytes) → L.engine.content w q ≡ none)
      (free : (q : Bytes) → L.engine.locked w q ≡ false) (room : suc (length calls) < 2 ^ 64) where
    run-verifies :
        (h : Header)
        → (get_chain_header P dir (target call) (run P dir calls w)).0 ≡ some h
        → (verify_chain P dir (target call) (run P dir calls w)).0 ≡ returned true
    run-verifies h read =
        run_verifies P L dir calls w (target call) h blank free room
          (free-AllComplete P L dir S.engine calls w free) S.engine S.sha read

    run-Matches_target :
        Matches P L
          (0 + length calls)
          (perform_all calls empty_ledger (target call))
          (run P dir calls w)
          (make_storage_path dir (target call))
    run-Matches_target =
        run-Matches P L S K dir calls 0 empty_ledger w (omega arith) free (λ i. blank _)
          (target call)

    -- After any sequence of calls that began on a disk without databases, none of them open, a
    -- call returns, and it reports success exactly if the ledger allows it.
    pub run-reports :
        reports P dir call (run P dir calls w)
        ≡ allows call (perform_all calls empty_ledger (target call))
    run-reports =
        Matches-reports (0 + length calls) call (perform_all calls empty_ledger (target call))
          (run P dir calls w) (omega arith) (locked-run P L dir calls w _ ∙ free _) run-verifies
          run-Matches_target

    pub run-Returns : Returns P dir call (run P dir calls w)
    run-Returns =
        Matches-Returns (0 + length calls) call (perform_all calls empty_ledger (target call))
          (run P dir calls w) (omega arith) (locked-run P L dir calls w _ ∙ free _) run-verifies
          run-Matches_target
