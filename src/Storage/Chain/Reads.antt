-- ===== src/Storage/Chain/Reads.antt =====
-- Chain.cpp: reading through an open database.
use chain_db.Base.{ℕ, ◌≡◌, refl, ◌⊎◌, inl, inr, true, Option, none, some, List, arith, Option-cases}
use chain_db.Base.Bytes.{Bytes}
use chain_db.Platform.{Platform, IsPlatform}
use chain_db.Platform.Engine.{Table, IsReliable}
use chain_db.Storage.Storage.{Storage, KeyValue, read_options}
use chain_db.Storage.Storage
use chain_db.Storage.Storage.Scope.{handle}
use chain_db.Storage.Block.{Container}
use chain_db.Storage.Chain.Header.{db_version}
use chain_db.Storage.Chain.Header
use chain_db.Storage.Chain.Names.{header_key, make_block_name}
use chain_db.Storage.Chain.{read_header, get_header_from, read_block}
use chain_db.Storage.Chain.Holds.{stored_header, stored_block, Shows}

-- A read returns what is stored, or fails.
abbrev pub AtMost : {A : Type 0} → Option A → Option A → Type 0
AtMost r stored = (r ≡ none) ⊎ (r ≡ stored)

module _ (P : Platform) (L : IsPlatform P) (p : Bytes) (d : P.engine.Handle) (w : P.World)
    (t : Table) (at : L.engine.content w (L.engine.target d) ≡ some t) where
  pub read_header-AtMost : AtMost (read_header P (handle P.engine p d) w) (stored_header P t)
  unfolding read_header Storage.get
  read_header-AtMost = elim (Option-cases (P.engine.get read_options d header_key w)) [
    | inl e ↦ inl (ground arith)
    | inr (v, e) ↦
        inr (ground (arith, L.engine.get_stored read_options d header_key w t v refl at e))
  ]

  pub read_block-AtMost :
      (i : ℕ) → AtMost (read_block P (handle P.engine p d) i w) (stored_block P t i)
  unfolding read_block Storage.get
  read_block-AtMost i =
      let key = make_block_name i in
      elim (Option-cases (P.engine.get read_options d key w)) [
        | inl e ↦ inl (ground arith)
        | inr (v, e) ↦ inr (ground (arith, L.engine.get_stored read_options d key w t v refl at e))
      ]

  -- The header of a chain is of the version that is supported.
  pub get_header_from-AtMost :
      (h : Header.Header) (bs : List Container)
      → Shows P t h bs
      → AtMost (get_header_from P (handle P.engine p d) w) (some h)
  unfolding get_header_from
  get_header_from-AtMost h bs v = ground (arith, read_header-AtMost, v.header_at, v.version_eq)

  module _ (R : IsReliable P.engine L.engine)
      (held : L.engine.locked w (L.engine.target d) ≡ true) where
    pub read_header-stored : read_header P (handle P.engine p d) w ≡ stored_header P t
    unfolding read_header Storage.get
    read_header-stored = ground (arith, R.get_ready read_options d header_key w t held at)

    pub read_block-stored : (i : ℕ) → read_block P (handle P.engine p d) i w ≡ stored_block P t i
    unfolding read_block Storage.get
    read_block-stored i = ground (arith, R.get_ready read_options d (make_block_name i) w t held at)

    pub get_header_from-stored :
        (h : Header.Header) (bs : List Container)
        → Shows P t h bs
        → get_header_from P (handle P.engine p d) w ≡ some h
    unfolding get_header_from
    get_header_from-stored h bs v = ground (arith, read_header-stored, v.header_at, v.version_eq)
