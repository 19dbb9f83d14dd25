-- ===== src/Storage/Manager/Ledger/Reads.antt =====
-- Manager.cpp: what can be read after calls of the manager is what the ledger says.
use chain_db.Base.{
  ℕ, suc, ◌+◌, ◌^◌, ◌<◌, ◌≡◌, sym, ap, ◌∙◌, true, false, none, some, List, [], arith, length,
  length-map,
}
use chain_db.Base.Bytes.{Bytes}
use chain_db.Base.Action.{returned}
use chain_db.Platform.{Platform, IsPlatform, IsReliable, MakesKeys}
use chain_db.Storage.Block.{Container}
use chain_db.Storage.Chain.Header.{Header}
use chain_db.Storage.Chain.Gets.{get_header_ready, get_blocks_ready}
use chain_db.Storage.Manager.{get_chain_header, get_blocks, verify_chain}
use chain_db.Storage.Manager.Paths.{make_storage_path}
use chain_db.Storage.Manager.History.{get_header-absent}
use chain_db.Storage.Manager.Removals.{free-AllComplete}
use chain_db.Storage.Manager.Runs.{Call, run, locked-run, run_verifies}
use chain_db.Storage.Manager.Ledger.{Contents, empty_ledger, perform_all}
use chain_db.Storage.Manager.Ledger.Keeps.{Matches, payloads, run-Matches}

module _ (P : Platform) (L : IsPlatform P) (dir : Bytes) where
  -- A chain that is not there cannot be read; one that is there has the given data, a header that
  -- counts the blocks, and is valid.
  abbrev pub Readable : Contents → ℕ → P.World → Type 0
  Readable none id w = (get_chain_header P dir id w).0 ≡ none
  Readable (some (origin, texts)) id w =
      (h : Header) × (bs : List Container) × ((get_chain_header P dir id w).0 ≡ some h)
      × (h.payload ≡ origin)
      × (h.index ≡ length texts)
      × ((get_blocks P dir id [] w).0 ≡ returned (true, bs))
      × (payloads bs ≡ texts)
      × ((verify_chain P dir id w).0 ≡ returned true)

  module _ (S : IsReliable P L) (K : MakesKeys P) where
    Matches-Readable :
        (n : ℕ) (c : Contents) (id : ℕ) (w : P.World)
        → suc n < 2 ^ 64
        → L.engine.locked w (make_storage_path dir id) ≡ false
        → ((h : Header)
            → (get_chain_header P dir id w).0 ≡ some h
            → (verify_chain P dir id w).0 ≡ returned true)
        → Matches P L n c w (make_storage_path dir id)
        → Readable c id w
    unfolding get_chain_header get_blocks
    Matches-Readable n none id w room free valid m = get_header-absent P L w _ m
    Matches-Readable n (some (origin, texts)) id w room free valid m =
        let path = make_storage_path dir id in
        let read = get_header_ready P L path m.header m.blocks S.engine w m.holds free in
        (
          m.header,
          m.blocks,
          read,
          m.origin_eq,
          m.holds.shows.index_eq
              ∙ sym (length-map (λ b. b.payload) m.blocks)
              ∙ ap length m.texts_eq,
          get_blocks_ready P L path m.header m.blocks S.engine w m.holds free
              (let k = m.size in omega arith),
          m.texts_eq,
          valid m.header read,
        )

    -- When neither the disk nor a library fails and every random private key is one: after any
    -- sequence of fewer than 2^64 - 1 calls of the manager that began on a disk without
    -- databases, none of them open, for each chain number, the header cannot be read if the
    -- ledger of the calls has no such chain; otherwise the header holds the data that the chain
    -- was created with and the number of its blocks, `getBlocks` gives exactly the blocks with
    -- the data that was added, in order, and `verifyChain` returns true.
    pub run-Readable :
        (calls : List Call) (w : P.World) (id : ℕ)
        → ((q : Bytes) → L.engine.content w q ≡ none)
        → ((q : Bytes) → L.engine.locked w q ≡ false)
        → suc (length calls) < 2 ^ 64
        → Readable (perform_all calls empty_ledger id) id (run P dir calls w)
    run-Readable calls w id blank free room =
        Matches-Readable (0 + length calls) (perform_all calls empty_ledger id) id
          (run P dir calls w) (omega arith) (locked-run P L dir calls w _ ∙ free _)
          (λ h read.
            run_verifies P L dir calls w id h blank free room
              (free-AllComplete P L dir S.engine calls w free) S.engine S.sha read)
          (run-Matches P L S K dir calls 0 empty_ledger w (omega arith) free (λ i. blank _) id)
