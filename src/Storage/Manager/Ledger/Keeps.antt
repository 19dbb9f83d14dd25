-- ===== src/Storage/Manager/Ledger/Keeps.antt =====
-- Manager.cpp: every call changes the databases as the ledger says.
use chain_db.Base.{
  ℕ, suc, ◌+◌, ◌^◌, ◌<◌, ◌≤◌, ◌≡◌, ◌≢◌, refl, sym, ap, subst, ◌∙◌, inl, inr, false, none, some,
  List, [], ◌∷◌, ◌++◌, arith, length, length-append, map, map-append, ◌==◌, ==_iff, Bool-cases,
}
use chain_db.Base.Bytes.{Bytes}
use chain_db.Platform.{Platform, IsPlatform, IsReliable, MakesKeys}
use chain_db.Platform.Engine.{Table}
use chain_db.Storage.Block.{Container}
use chain_db.Storage.Chain.Header.{Header}
use chain_db.Storage.Chain.Append.{counted}
use chain_db.Storage.Chain.Holds.{Holds, Holds-same}
use chain_db.Storage.Chain.Creates.{create-occupied, content-remove_self}
use chain_db.Storage.Chain.Frames.{content-get_header, content-get_block, content-get_blocks}
use chain_db.Crypto.Secp256k1.{generate_private_key}
use chain_db.Storage.Manager.{
  create_chain, add_block, get_block, get_blocks, remove_chain, get_chain_header,
}
use chain_db.Storage.Manager.Paths.{make_storage_path, make_storage_path_injective}
use chain_db.Storage.Manager.Frames
use chain_db.Storage.Manager.Frames.{Leaves-private_key}
use chain_db.Storage.Manager.Made.{KeyPair}
use chain_db.Storage.Manager.History.{get_header-absent, content-add_headless}
use chain_db.Storage.Manager.Succeeds.{add_block_succeeds}
use chain_db.Storage.Manager.Removals.{remove_chain_ready}
use chain_db.Storage.Manager.Runs.{
  Call, creates, adds, reads, lists, removes, verifies, heads, target, step, run, content-step,
  locked-run,
}
use chain_db.Storage.Manager.Ledger.{Contents, Ledger, created, added, effect, perform, perform_all}
use chain_db.Storage.Manager.Ledger.Creates.{
  private_key_ready, public_key_ready, create_chain_ready,
}

ne_of_test : (a b : ℕ) → (a == b) ≡ false → a ≢ b
ne_of_test a b e f = ground arith

abbrev pub payloads : List Container → List Bytes
payloads bs = map (λ b. b.payload) bs

module _ (P : Platform) (L : IsPlatform P) where
  -- A chain of at most `n` blocks with the given data.
  pub record Stored (n : ℕ) (origin : Bytes) (texts : List Bytes) (w : P.World) (path : Bytes)
      : Type 0 where
    pub header : Header
    pub blocks : List Container
    pub holds : Holds P L w path header blocks
    pub keys : KeyPair P L header
    pub origin_eq : header.payload ≡ origin
    pub texts_eq : payloads blocks ≡ texts
    pub size : length blocks ≤ n

  abbrev pub Matches : ℕ → Contents → P.World → Bytes → Type 0
  Matches n none w path = L.engine.content w path ≡ none
  Matches n (some (origin, texts)) w path = Stored n origin texts w path

  -- What is stored depends on the database alone, and a larger bound serves too.
  pub Matches-same :
      (n : ℕ) (c : Contents) (w v : P.World) (path : Bytes)
      → L.engine.content v path ≡ L.engine.content w path
      → Matches n c w path
      → Matches (suc n) c v path
  Matches-same n none w v path e m = e ∙ m
  Matches-same n (some (origin, texts)) w v path e m = record {
    header = m.header;
    blocks = m.blocks;
    holds = Holds-same P L path m.header m.blocks w v e m.holds;
    keys = m.keys;
    origin_eq = m.origin_eq;
    texts_eq = m.texts_eq;
    size = let k = m.size in omega arith;
  }

module _ (P : Platform) (L : IsPlatform P) (S : IsReliable P L) (K : MakesKeys P)
    (dir : Bytes) where
  create_chain-occupied :
      (id : ℕ) (payload : Bytes) (w : P.World) (t : Table)
      → L.engine.content w (make_storage_path dir id) ≡ some t
      → L.engine.content (create_chain P dir id payload w).1 (make_storage_path dir id) ≡ some t
  unfolding create_chain
  create_chain-occupied id payload w t there =
      let path = make_storage_path dir id in
      let w₁ = (generate_private_key P.curve P.rng w).1 in
      let (key, e, sized, ok) = private_key_ready P L S K w in
      let (public, f) = public_key_ready P L S K key sized ok in
      let same =
        (Leaves-private_key P L (λ v. L.engine.content v path)
            (λ n v. L.rng.priv_keeps n v path)).at
          w in
      let (refused, kept) = create-occupied P L path payload key public w₁ t (same ∙ there) in
      rw (e, create_chain) (rw f (rw refused kept))

  creates-Matches :
      (n id : ℕ) (payload : Bytes) (c : Contents) (w : P.World)
      → L.engine.locked w (make_storage_path dir id) ≡ false
      → Matches P L n c w (make_storage_path dir id)
      → Matches P L
          (suc n)
          (created payload c)
          (create_chain P dir id payload w).1
          (make_storage_path dir id)
  creates-Matches n id payload none w free m =
      let (_, b) = create_chain_ready P L S K dir id payload w m free in
      record {
        header = b.header;
        blocks = [];
        holds = b.holds;
        keys = b.keys;
        origin_eq = b.payload_eq;
        texts_eq = refl;
        size = omega arith;
      }
  creates-Matches n id payload (some (origin, texts)) w free m =
      Matches-same P L n (some (origin, texts)) w _ _
        (create_chain-occupied id payload w m.holds.table m.holds.at ∙ sym m.holds.at) m

  adds-Matches :
      (n id : ℕ) (payload : Bytes) (c : Contents) (w : P.World)
      → suc n < 2 ^ 64
      → L.engine.locked w (make_storage_path dir id) ≡ false
      → Matches P L n c w (make_storage_path dir id)
      → Matches P L
          (suc n)
          (added payload c)
          (add_block P dir id payload w).1
          (make_storage_path dir id)
  adds-Matches n id payload none w room free m =
      content-add_headless P L dir id payload w (get_header-absent P L w _ m) ∙ m
  adds-Matches n id payload (some (origin, texts)) w room free m =
      let (b, _, next, now) =
        add_block_succeeds P L S dir payload id w m.header m.blocks m.keys
          (let k = m.size in omega arith) m.holds free in
      record {
        header = counted m.header;
        blocks = m.blocks ++ b ∷ [];
        holds = now;
        keys = m.keys;
        origin_eq = m.origin_eq;
        texts_eq =
            map-append (λ c. c.payload) m.blocks (b ∷ [])
            ∙ ap (λ xs. xs ++ b.payload ∷ []) m.texts_eq
            ∙ ap (λ x. texts ++ x ∷ []) next.payload_eq;
        size = let k = m.size in omega (arith, length-append m.blocks (b ∷ []));
      }

  removed :
      (id : ℕ) (w : P.World)
      → L.engine.locked w (make_storage_path dir id) ≡ false
      → L.engine.content (remove_chain P dir id w).1 (make_storage_path dir id) ≡ none
  unfolding remove_chain
  removed id w free =
      content-remove_self P L (make_storage_path dir id) w
        (remove_chain_ready P L dir S.engine id w free)

  self-Matches :
      (n : ℕ) (call : Call) (c : Contents) (w : P.World)
      → suc n < 2 ^ 64
      → L.engine.locked w (make_storage_path dir (target call)) ≡ false
      → Matches P L n c w (make_storage_path dir (target call))
      → Matches P L
          (suc n)
          (effect call c)
          (step P dir call w)
          (make_storage_path dir (target call))
  unfolding step get_block get_blocks get_chain_header
  self-Matches n (creates id payload) c w room free m = creates-Matches n id payload c w free m
  self-Matches n (adds id payload) c w room free m = adds-Matches n id payload c w room free m
  self-Matches n (reads id i) c w room free m =
      Matches-same P L n c w _ _ (content-get_block P L _ i w _) m
  self-Matches n (lists id) c w room free m =
      Matches-same P L n c w _ _ (content-get_blocks P L _ [] w _) m
  self-Matches n (removes id) c w room free m = removed id w free
  self-Matches n (verifies id) c w room free m =
      Matches-same P L n c w _ _ ((Frames.content-verify_chain P L dir id _).at w) m
  self-Matches n (heads id) c w room free m =
      Matches-same P L n c w _ _ (content-get_header P L _ w _) m

  -- A call changes the database of the chain that it names as the ledger says, and no other.
  step-Matches :
      (n : ℕ) (call : Call) (l : Ledger) (w : P.World)
      → suc n < 2 ^ 64
      → ((q : Bytes) → L.engine.locked w q ≡ false)
      → ((id : ℕ) → Matches P L n (l id) w (make_storage_path dir id))
      → (id : ℕ)
      → Matches P L (suc n) (perform call l id) (step P dir call w) (make_storage_path dir id)
  step-Matches n call l w room free m id = elim (Bool-cases (target call == id)) [
    | inl same ↦
        let e = (==_iff (target call) id).0 same in
        rw same (
          subst
            (λ i.
              Matches P L (suc n) (effect call (l i)) (step P dir call w) (make_storage_path dir i))
            e (self-Matches n call (l (target call)) w room (free _) (m (target call))))
    | inr other ↦
        let apart : make_storage_path dir (target call) ≢ make_storage_path dir id = λ e.
          ne_of_test (target call) id other (make_storage_path_injective dir (target call) id e) in
        rw other (Matches-same P L n (l id) w _ _ (content-step P L dir call w _ apart) (m id))
  ]

  -- So do calls one after the other, as long as no chain can have 2^64 - 1 blocks.
  pub run-Matches :
      (calls : List Call) (n : ℕ) (l : Ledger) (w : P.World)
      → suc (n + length calls) < 2 ^ 64
      → ((q : Bytes) → L.engine.locked w q ≡ false)
      → ((id : ℕ) → Matches P L n (l id) w (make_storage_path dir id))
      → (id : ℕ)
      → Matches P L
          (n + length calls)
          (perform_all calls l id)
          (run P dir calls w)
          (make_storage_path dir id)
  unfolding run perform_all
  run-Matches [] n l w room free m id =
      subst (λ k. Matches P L k (l id) w (make_storage_path dir id)) (omega arith) (m id)
  run-Matches (call ∷ calls) n l w room free m id =
      subst
        (λ k.
          Matches P L k (perform_all calls (perform call l) id)
            (run P dir calls (step P dir call w)) (make_storage_path dir id))
        (omega arith)
        (run-Matches calls (suc n) (perform call l) (step P dir call w) (omega arith)
          (λ q. locked-run P L dir (call ∷ []) w q ∙ free q)
          (step-Matches n call l w (omega arith) free m) id)
