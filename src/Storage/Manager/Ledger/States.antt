-- ===== src/Storage/Manager/Ledger/States.antt =====
-- Manager.cpp: what the states of a chain say of its database.
use chain_db.Base.{ℕ, suc, ◌≡◌, refl, subst, ◌∙◌, ◌⊎◌, inl, inr, none, some, List, [], arith}
use chain_db.Base.Bytes.{Bytes}
use chain_db.Platform.{Platform, IsPlatform}
use chain_db.Platform.Engine.{Table}
use chain_db.Storage.Chain.Header.{Header}
use chain_db.Storage.Chain.Holds.{Holds, Holds-same}
use chain_db.Storage.Manager.Made.{KeyPair}
use chain_db.Storage.Manager.Linked.{genesis, Linked}
use chain_db.Storage.Manager.Soundness.{Unfinished}
use chain_db.Storage.Manager.Ledger.Failures.{State, absent, unfinished, chain}
use chain_db.Storage.Manager.Ledger.Keeps.{Stored}

module _ (P : Platform) (L : IsPlatform P) where
  -- A valid chain of at most `n` blocks with the given data.
  pub record Standing (n : ℕ) (origin : Bytes) (texts : List Bytes) (w : P.World) (path : Bytes)
      : Type 0 where
    pub stored : Stored P L n origin texts w path
    pub linked : Linked P L stored.header.public_key (genesis P L stored.header) stored.blocks

  abbrev pub Stands : ℕ → State → P.World → Bytes → Type 0
  Stands n absent w path = L.engine.content w path ≡ none
  Stands n unfinished w path = Unfinished P L w path
  Stands n (chain origin texts) w path = Standing n origin texts w path

  pub Stands-same :
      (n : ℕ) (s : State) (w v : P.World) (path : Bytes)
      → L.engine.content v path ≡ L.engine.content w path
      → Stands n s w path
      → Stands n s v path
  Stands-same n absent w v path e k = e ∙ k
  Stands-same n unfinished w v path e k = record {
    table = k.table;
    at = e ∙ k.at;
    headless = k.headless;
  }
  Stands-same n (chain origin texts) w v path e k = record {
    stored = record {
      header = k.stored.header;
      blocks = k.stored.blocks;
      holds = Holds-same P L path k.stored.header k.stored.blocks w v e k.stored.holds;
      keys = k.stored.keys;
      origin_eq = k.stored.origin_eq;
      texts_eq = k.stored.texts_eq;
      size = k.stored.size;
    };
    linked = k.linked;
  }

  pub Stands-more :
      (n : ℕ) (s : State) (w : P.World) (path : Bytes) → Stands n s w path → Stands (suc n) s w path
  Stands-more n absent w path k = k
  Stands-more n unfinished w path k = k
  Stands-more n (chain origin texts) w path k = record {
    stored = record {
      header = k.stored.header;
      blocks = k.stored.blocks;
      holds = k.stored.holds;
      keys = k.stored.keys;
      origin_eq = k.stored.origin_eq;
      texts_eq = k.stored.texts_eq;
      size = let m = k.stored.size in omega arith;
    };
    linked = k.linked;
  }

  -- A database is there, if the state is not `absent`.
  pub table_of :
      (n : ℕ) (s : State) (w : P.World) (path : Bytes)
      → Stands n s w path
      → (s ≡ absent) ⊎ ((t : Table) × (L.engine.content w path ≡ some t))
  table_of n absent w path k = inl refl
  table_of n unfinished w path k = inr (k.table, k.at)
  table_of n (chain origin texts) w path k = inr (k.stored.holds.table, k.stored.holds.at)

  pub absent_of :
      (n : ℕ) (s : State) (w : P.World) (path : Bytes)
      → s ≡ absent
      → Stands n s w path
      → L.engine.content w path ≡ none
  absent_of n s w path e k = subst (λ r. Stands n r w path) e k

  pub fresh-Standing :
      (n : ℕ) (v : P.World) (path payload : Bytes) (h : Header)
      → Holds P L v path h []
      → KeyPair P L h
      → h.payload ≡ payload
      → Standing n payload [] v path
  fresh-Standing n v path payload h holds keys e = record {
    stored = record {
      header = h;
      blocks = [];
      holds = holds;
      keys = keys;
      origin_eq = e;
      texts_eq = refl;
      size = omega arith;
    };
    linked = tt;
  }
