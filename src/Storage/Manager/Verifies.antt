-- ===== src/Storage/Manager/Verifies.antt =====
-- Manager.cpp, `verifyChain`, on a stored chain.
use chain_db.Base.{
  ℕ, suc, ◌^◌, ◌<◌, ◌≡◌, ◌↔◌, refl, ap, sym, ◌∙◌, ◌⊎◌, inl, inr, Bool, true, false, none, some,
  List, arith, length, All,
}
use chain_db.Base.Bytes.{Bytes}
use chain_db.Base.Action.{returned, then_run}
use chain_db.Platform.{Platform, IsPlatform}
use chain_db.Platform.Engine.{IsReliable}
use chain_db.Platform.Sha.{IsTotalSha}
use chain_db.Storage.Block.{Container, IsContainer}
use chain_db.Storage.Chain.Header.{Header, IsHeader}
use chain_db.Storage.Chain
use chain_db.Storage.Chain.Holds.{Holds, Holds-same, Shows-IsContainer, Shows-IsHeader}
use chain_db.Storage.Chain.Gets.{
  get_header-AtMost, get_blocks-cases, get_header_ready, get_blocks_ready,
}
use chain_db.Storage.Chain.Frames.{content-get_header, locked-get_header}
use chain_db.Storage.Manager.Paths.{make_storage_path}
use chain_db.Storage.Manager.{verify_blocks, verify_read, verify_after, verify_chain}
use chain_db.Storage.Manager.Linked.{genesis, Linked, tip}
use chain_db.Storage.Manager.Verified.{
  verify_blocks-Linked, verify_blocks_complete, verify_blocks_answers,
}
use chain_db.Storage.Manager.Tampering.{SameOrigin, SameBlocks, Collision, same_tip, same_genesis}

module _ (P : Platform) (L : IsPlatform P) (dir : Bytes) where
  module _ (id : ℕ) (w : P.World) (h : Header) (bs : List Container)
      (k : Holds P L w (make_storage_path dir id) h bs) (room : suc (length bs) < 2 ^ 64) where
    abbrev path : Bytes
    path = make_storage_path dir id

    abbrev after_header : P.World
    after_header = (Chain.get_header P path w).1

    still : Holds P L after_header path h bs
    still = Holds-same P L path h bs w after_header (content-get_header P L path w path) k

    pub blocks-IsContainer : All IsContainer bs
    blocks-IsContainer = Shows-IsContainer P k.table h bs k.shows

    pub Holds-IsHeader : IsHeader h
    Holds-IsHeader = Shows-IsHeader P k.table h bs k.shows L.codec

    verify_after-cases :
        ((verify_after P dir id (some h) after_header).0 ≡ returned false)
        ⊎ ((verify_after P dir id (some h) after_header).0 ≡ verify_blocks P h none bs)
    unfolding verify_after verify_read
    verify_after-cases = elim (get_blocks-cases P L path h bs after_header room still) [
      | inl e ↦ inr (ap (λ r. then_run r (verify_read P h)) e)
      | inr (seen, e) ↦ inl (ap (λ r. then_run r (verify_read P h)) e)
    ]

    -- `verifyChain` answers with what the loop says of the stored blocks, or `false`.
    verify_chain-cases :
        ((verify_chain P dir id w).0 ≡ returned false)
        ⊎ ((verify_chain P dir id w).0 ≡ verify_blocks P h none bs)
    unfolding verify_chain verify_after
    verify_chain-cases = elim (get_header-AtMost P L path h bs w k) [
      | inl e ↦ inl (rw (e, verify_chain) refl)
      | inr e ↦ rw (e, verify_chain) verify_after-cases
    ]

    -- If `verifyChain` returns true for a stored chain of fewer than 2^64 - 1 blocks, whatever
    -- failures the libraries have, then every block is signed with the chain's key and hashed
    -- over the hash before it, from the header's hash on.
    pub verify_chain-Linked :
        (verify_chain P dir id w).0 ≡ returned true → Linked P L h.public_key (genesis P L h) bs
    verify_chain-Linked e = elim verify_chain-cases [
      | inl f ↦ absurd (ground arith)
      | inr f ↦ verify_blocks-Linked P L h none bs blocks-IsContainer (sym f ∙ e)
    ]

    module _ (R : IsReliable P.engine L.engine) (T : IsTotalSha P.sha)
        (free : L.engine.locked w path ≡ false) where
      verify_after_ready :
          (verify_after P dir id (some h) after_header).0 ≡ verify_blocks P h none bs
      unfolding verify_after verify_read
      verify_after_ready =
          ap (λ r. then_run r (verify_read P h))
            (get_blocks_ready P L path h bs R after_header still
              (locked-get_header P L path w path ∙ free) room)

      verify_chain_ready : (verify_chain P dir id w).0 ≡ verify_blocks P h none bs
      unfolding verify_chain verify_after
      verify_chain_ready =
          rw (get_header_ready P L path h bs R w k free, verify_chain) verify_after_ready

      -- On a stored chain of fewer than 2^64 - 1 blocks whose database is not open, with an
      -- engine and a digest that do not fail, `verifyChain` returns a Boolean, and it returns
      -- true exactly if the blocks are linked: each signed with the chain's key and hashed over
      -- the hash before it.
      pub verify_chain_decides :
          ((ok : Bool) × ((verify_chain P dir id w).0 ≡ returned ok))
          × (((verify_chain P dir id w).0 ≡ returned true)
              ↔ Linked P L h.public_key (genesis P L h) bs)
      verify_chain_decides =
          let (ok, e) = verify_blocks_answers P L T h none bs in
          (
            (ok, verify_chain_ready ∙ e),
            (
              verify_chain-Linked,
              λ l. verify_chain_ready ∙ verify_blocks_complete P L T h none bs l,
            ),
          )

  -- Of two stored chains of one length, shorter than 2^64 - 1, that `verifyChain` accepts and
  -- whose last hashes are the same (the headers' hashes for empty chains), either the headers
  -- agree in data and keys and the blocks agree in all but the stored copy of the previous
  -- hash, or two different messages with one SHA-256 digest are given.
  pub tamper_evidence :
      (i j : ℕ) (w v : P.World) (h g : Header) (bs cs : List Container)
      → Holds P L w (make_storage_path dir i) h bs
      → Holds P L v (make_storage_path dir j) g cs
      → suc (length bs) < 2 ^ 64
      → (verify_chain P dir i w).0 ≡ returned true
      → (verify_chain P dir j v).0 ≡ returned true
      → length bs ≡ length cs
      → tip P L (genesis P L h) bs ≡ tip P L (genesis P L g) cs
      → (SameOrigin h g × SameBlocks bs cs) ⊎ Collision P L
  tamper_evidence i j w v h g bs cs k m room e f n same =
      let room' : suc (length cs) < 2 ^ 64 = omega arith in
      elim (same_tip P L h.public_key g.public_key (genesis P L h) (genesis P L g) bs cs
        (L.sha.length-digest _) (L.sha.length-digest _) (blocks-IsContainer i w h bs k room)
        (blocks-IsContainer j v g cs m room') (verify_chain-Linked i w h bs k room e)
        (verify_chain-Linked j v g cs m room' f) n same) [
          | inr found ↦ inr found
          | inl (origin, blocks) ↦
              elim (same_genesis P L h g (Holds-IsHeader i w h bs k room)
                (Holds-IsHeader j v g cs m room') origin) [
                  | inr found ↦ inr found
                  | inl keys ↦ inl (keys, blocks)
                ]
        ]
