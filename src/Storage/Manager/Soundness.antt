-- ===== src/Storage/Manager/Soundness.antt =====
-- The states of a path that the manager's methods lead to.
use chain_db.Base.{ℕ, suc, ◌≤◌, ◌≡◌, ◌∙◌, ◌⊎◌, inl, inr, none, some, List, arith, length}
use chain_db.Base.Bytes.{Bytes}
use chain_db.Platform.{Platform, IsPlatform}
use chain_db.Platform.Engine.{Table}
use chain_db.Storage.Block.{Container}
use chain_db.Storage.Chain.Header.{Header}
use chain_db.Storage.Chain.Holds.{Holds, Holds-same, stored_header}
use chain_db.Storage.Manager.Linked.{genesis, Linked}
use chain_db.Storage.Manager.Made.{KeyPair}

module _ (P : Platform) (L : IsPlatform P) where
  -- A chain of at most `n` blocks whose blocks are signed and linked.
  pub record Valid (n : ℕ) (w : P.World) (path : Bytes) : Type 0 where
    pub header : Header
    pub blocks : List Container
    pub holds : Holds P L w path header blocks
    pub keys : KeyPair P L header
    pub linked : Linked P L header.public_key (genesis P L header) blocks
    pub size : length blocks ≤ n

  -- A database that a `create` began and did not finish.
  pub record Unfinished (w : P.World) (path : Bytes) : Type 0 where
    pub table : Table
    pub at : L.engine.content w path ≡ some table
    pub headless : stored_header P table ≡ none

  abbrev pub Sound : ℕ → P.World → Bytes → Type 0
  Sound n w path = (L.engine.content w path ≡ none) ⊎ Unfinished w path ⊎ Valid n w path

  pub Sound-same :
      (n : ℕ) (w v : P.World) (path : Bytes)
      → L.engine.content v path ≡ L.engine.content w path
      → Sound n w path
      → Sound n v path
  Sound-same n w v path e (inl absent) = inl (e ∙ absent)
  Sound-same n w v path e (inr (inl u)) =
      inr (inl (record { table = u.table; at = e ∙ u.at; headless = u.headless }))
  Sound-same n w v path e (inr (inr c)) = inr (
      inr (record {
        header = c.header;
        blocks = c.blocks;
        holds = Holds-same P L path c.header c.blocks w v e c.holds;
        keys = c.keys;
        linked = c.linked;
        size = c.size;
      }))

  pub Sound-more : (n : ℕ) (w : P.World) (path : Bytes) → Sound n w path → Sound (suc n) w path
  Sound-more n w path (inl absent) = inl absent
  Sound-more n w path (inr (inl u)) = inr (inl u)
  Sound-more n w path (inr (inr c)) = inr (
      inr (record {
        header = c.header;
        blocks = c.blocks;
        holds = c.holds;
        keys = c.keys;
        linked = c.linked;
        size = let k = c.size in omega arith;
      }))
