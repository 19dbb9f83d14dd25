-- ===== src/Storage/Chain/Adds.antt =====
-- Chain.cpp, `addBlock` on a stored chain.
use chain_db.Base.{
  suc, ◌^◌, ◌<◌, ◌≡◌, refl, subst, ◌∙◌, ◌⊎◌, inl, inr, Bool, Option, none, some, List, [], ◌∷◌,
  ◌++◌, length, Option-cases, Bool-cases,
}
use chain_db.Base.Bytes.{Bytes}
use chain_db.Platform.{Platform, IsPlatform}
use chain_db.Platform.Engine.{Table, apply_batch}
use chain_db.Storage.Storage.{Storage, KeyValue, write_options, fill_batch}
use chain_db.Storage.Storage
use chain_db.Storage.Storage.Scope.{handle, opened_cases}
use chain_db.Storage.Block
use chain_db.Storage.Block.{Container, IsContainer}
use chain_db.Storage.Chain.Header.{Header}
use chain_db.Storage.Chain.Header
use chain_db.Storage.Chain.Names.{header_key, make_block_name}
use chain_db.Storage.Chain.{get_header_from, append_block, add_block}
use chain_db.Storage.Chain.Holds.{Holds, Shows, Holds-same, content-opened_handle}
use chain_db.Storage.Chain.Reads.{get_header_from-AtMost}
use chain_db.Storage.Chain.Append.{counted, Shows-append}

module _ (P : Platform) (block : Container) (s : Storage P.engine) (w : P.World) where
  -- Without a header or a packed form nothing is written.
  pub append_block-cases :
      (append_block P block s w ≡ (none, w))
      ⊎ ((h : Header) × (hb : Bytes) × (bb : Bytes) × (get_header_from P s w ≡ some h)
          × (Header.pack P.codec (counted h) ≡ some hb)
          × (Block.pack P.codec block ≡ some bb)
          × (append_block P block s w
              ≡ Storage.set P.engine s
                  (record { key = header_key; value = hb }
                    ∷ record { key = make_block_name (counted h).index; value = bb }
                    ∷ [])
                  w))
  unfolding append_block
  append_block-cases = elim (Option-cases (get_header_from P s w)) [
    | inl e ↦ inl (rw (e, append_block))
    | inr (h, e) ↦ elim (Option-cases (Header.pack P.codec (counted h))) [
      | inl f ↦ inl (rw (e, append_block) (rw (f, append_block)))
      | inr (hb, f) ↦ elim (Option-cases (Block.pack P.codec block)) [
        | inl g ↦ inl (rw (e, append_block) (rw (f, append_block) (rw (g, append_block))))
        | inr (bb, g) ↦
            inr (
              h,
              hb,
              bb,
              e,
              f,
              g,
              rw (e, append_block) (rw (f, append_block) (rw (g, append_block))),
            )
      ]
    ]
  ]

module _ (P : Platform) (L : IsPlatform P) where
  -- What `addBlock` returns and leaves: with `true` the block is there, with `false` it may be, since
  -- a write that reports a failure may have reached the disk; but it is there whole or not at all.
  abbrev pub Added :
      Bytes → Header → List Container → Container → Option (Unit {0}) → P.World → Type 0
  Added path h bs block r w =
      ((r ≡ some tt) × Holds P L w path (counted h) (bs ++ block ∷ []))
      ⊎ ((r ≡ none) × (Holds P L w path h bs ⊎ Holds P L w path (counted h) (bs ++ block ∷ [])))

  module _ (path : Bytes) (block : Container) (v : IsContainer block) (h : Header)
      (bs : List Container) (room : suc (length bs) < 2 ^ 64) where
    module _ (d : P.engine.Handle) (w : P.World) (t : Table) (here : L.engine.target d ≡ path)
        (at : L.engine.content w (L.engine.target d) ≡ some t) (shows : Shows P t h bs)
        (hb bb : Bytes) (packed_header : Header.pack P.codec (counted h) ≡ some hb)
        (packed_block : Block.pack P.codec block ≡ some bb) where
      abbrev puts : List (Bytes × Bytes)
      puts = (header_key, hb) ∷ (make_block_name (counted h).index, bb) ∷ []

      abbrev written : Bool × P.World
      written = P.engine.write write_options d puts w

      Holds_at :
          (u : Table) (g : Header) (cs : List Container)
          → Shows P u g cs
          → L.engine.content written.1 (L.engine.target d) ≡ some u
          → Holds P L (P.engine.close_db d written.1) path g cs
      Holds_at u g cs s e = record {
        table = u;
        at =
            L.engine.close_keeps d written.1 path
            ∙ subst (λ p. L.engine.content written.1 p ≡ some u) here e;
        shows = s;
      }

      after : Shows P (apply_batch t puts) (counted h) (bs ++ block ∷ [])
      after = Shows-append P L.codec t h bs shows room block v hb bb packed_header packed_block

      write-Added :
          Added path h bs block
            (Storage.status P.engine written).0
            (P.engine.close_db d (Storage.status P.engine written).1)
      write-Added = elim (Bool-cases written.0) [
        | inl ok ↦
            rw ok
              (inl (refl, Holds_at _ _ _ after (L.engine.write_ok write_options d puts w t at ok)))
        | inr failed ↦ rw failed (
            inr (
              refl,
              elim (L.engine.write_atomic write_options d puts w t at) [
                | inl old ↦ inl (Holds_at t h bs shows old)
                | inr new ↦ inr (Holds_at _ _ _ after new)
              ],
            ))
      ]

    header_eq :
        (d : P.engine.Handle) (w : P.World) (t : Table)
        → L.engine.content w (L.engine.target d) ≡ some t
        → Shows P t h bs
        → (g : Header) → get_header_from P (handle P.engine path d) w ≡ some g
        → g ≡ h
    header_eq d w t at shows g got = elim (get_header_from-AtMost P L path d w t at h bs shows) [
      | inl e ↦ cc
      | inr e ↦ cc
    ]

    -- `addBlock` of a chain, for a well-sized block and a stored chain of fewer than 2^64 - 1
    -- blocks: on success the block stands at the end and the header counts it; on failure the
    -- chain is unchanged or has that block added whole.
    pub add_block-Added :
        (w : P.World)
        → Holds P L w path h bs
        → Added path h bs block (add_block P path block w).0 (add_block P path block w).1
    unfolding add_block Storage.set
    add_block-Added w k =
        opened_cases P.engine L.engine (Added path h bs block) path none (append_block P block) w
          (λ w₁ _ same _. inr (refl, inl (Holds-same P L path h bs w w₁ (same path) k)))
          (λ d w₁ o.
            let at = content-opened_handle P L path h bs w k d w₁ o in
            let same = L.engine.close_keeps d w₁ path ∙ o.same path in
            elim (append_block-cases P block (handle P.engine path d) w₁) [
              | inl e ↦ rw e (inr (refl, inl (Holds-same P L path h bs w _ same k)))
              | inr (g, hb, bb, got, ph, pb, e) ↦
                  let eq = header_eq d w₁ k.table at k.shows g got in
                  rw e (rw eq (write-Added d w₁ k.table o.at at k.shows hb bb (rw eq at ph) pb))
            ])
