-- ===== src/Storage/Chain/Holds.antt =====
-- What a database says as a chain: the abstract view of Storage/Chain. The blocks are those that
-- stand under the keys 1, 2, …, and the header counts them.
use chain_db.Base.{
  ℕ, suc, ◌≡◌, inl, inr, Option, none, some, List, length, get_elem?, arith, Option-cases, ap, All,
  All-get_elem?, ◌∙◌,
}
use chain_db.Base.Bytes.{Bytes}
use chain_db.Platform.{Platform, IsPlatform}
use chain_db.Platform.Engine.{Table}
use chain_db.Platform.Codec.{IsCodec}
use chain_db.Storage.Storage.Scope.{IsOpened}
use chain_db.Storage.Block
use chain_db.Storage.Block.{Container, IsContainer}
use chain_db.Storage.Block.Packing
use chain_db.Storage.Chain.Header.{Header, IsHeader, db_version}
use chain_db.Storage.Chain.Header
use chain_db.Storage.Chain.Names.{header_key, make_block_name}

-- The entry at a key, unpacked.
abbrev opt : {A : Type 0} → (Bytes → Option A) → Option Bytes → Option A
opt unpack none = none
opt unpack (some v) = unpack v

abbrev pub unpack_at : {A : Type 0} → (Bytes → Option A) → Table → Bytes → Option A
unpack_at unpack t key = opt unpack (t key)

module _ {A : Type 0} (unpack : Bytes → Option A) (t : Table) (key : Bytes) where
  pub unpack_at-same : (u : Table) → u key ≡ t key → unpack_at unpack u key ≡ unpack_at unpack t key
  unpack_at-same u e = ap (opt unpack) e

  pub unpack_at-some : (v : Bytes) → t key ≡ some v → unpack_at unpack t key ≡ unpack v
  unpack_at-some v e = ap (opt unpack) e

  pub unpack_at-eq-some :
      (a : A)
      → unpack_at unpack t key ≡ some a
      → (v : Bytes) × (t key ≡ some v) × (unpack v ≡ some a)
  unpack_at-eq-some a e = elim (Option-cases (t key)) [
    | inl n ↦ ground arith
    | inr (v, n) ↦ (v, n, ground arith)
  ]

module _ (P : Platform) where
  abbrev pub stored_header : Table → Option Header
  stored_header t = unpack_at (Header.unpack P.codec) t header_key

  abbrev pub stored_block : Table → ℕ → Option Container
  stored_block t i = unpack_at (Block.unpack P.codec) t (make_block_name i)

  -- The table `t` holds the header `h` and the blocks `bs`.
  pub record Shows (t : Table) (h : Header) (bs : List Container) : Type 0 where
    pub header_at : stored_header t ≡ some h
    pub version_eq : h.version ≡ db_version
    pub index_eq : h.index ≡ length bs
    pub block_at :
        (i : ℕ) (b : Container) → get_elem? bs i ≡ some b → stored_block t (suc i) ≡ some b

module _ (P : Platform) (L : IsPlatform P) where
  -- The database at `path` is there and holds the header `h` and the blocks `bs`.
  pub record Holds (w : P.World) (path : Bytes) (h : Header) (bs : List Container) : Type 0 where
    pub table : Table
    pub at : L.engine.content w path ≡ some table
    pub shows : Shows P table h bs

module _ (P : Platform) (t : Table) (h : Header) (bs : List Container)
    (shown : Shows P t h bs) where
  pub Shows-IsHeader : IsCodec P.codec → IsHeader h
  Shows-IsHeader L =
      let (b, _, e) = unpack_at-eq-some (Header.unpack P.codec) t header_key h shown.header_at in
      Header.unpack-IsHeader P.codec L b h e

  -- The blocks of a chain are well-sized.
  pub Shows-IsContainer : All IsContainer bs
  Shows-IsContainer = All-get_elem? IsContainer bs (λ i b e.
      let (v, _, f) =
        unpack_at-eq-some (Block.unpack P.codec) t (make_block_name (suc i)) b
          (shown.block_at i b e) in
      Packing.unpack-IsContainer P.codec v b f)

module _ (P : Platform) (L : IsPlatform P) (path : Bytes) (h : Header) (bs : List Container) where
  -- What a chain is depends on its database alone.
  pub Holds-same :
      (w w' : P.World)
      → L.engine.content w' path ≡ L.engine.content w path
      → Holds P L w path h bs
      → Holds P L w' path h bs
  Holds-same w w' e k = record { table = k.table; at = e ∙ k.at; shows = k.shows }

  -- The table of a chain, as it is met under a handle after opening.
  pub content-opened_handle :
      (w : P.World) (k : Holds P L w path h bs) (d : P.engine.Handle) (w₁ : P.World)
      → IsOpened P.engine L.engine path w d w₁
      → L.engine.content w₁ (L.engine.target d) ≡ some k.table
  content-opened_handle w k d w₁ o =
      o.same (L.engine.target d) ∙ ap (L.engine.content w) o.at ∙ k.at
