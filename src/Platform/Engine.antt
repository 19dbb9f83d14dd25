-- ===== src/Platform/Engine.antt =====
-- The key-value engine: LevelDB, or RocksDB, which has the same interface.
use chain_db.Base.{
  ◌≡◌, ◌≢◌, ◌⊎◌, Bool, true, false, Option, none, some, List, [], ◌∷◌, if◌then◌else◌,
}
use chain_db.Base.Bytes.{Bytes, bytes_eq}

-- The fields of `DB::Options` that the program sets; the others have their defaults.
pub record Options : Type 0 where
  pub create_if_missing : Bool
  pub error_if_exists : Bool
  pub paranoid_checks : Bool
  pub compression : Bool

pub record ReadOptions : Type 0 where
  pub verify_checksums : Bool

pub record WriteOptions : Type 0 where
  pub sync : Bool

-- `some` and `true` stand for a status that is ok. `close_db` is the destructor of `DB::DB`, and a
-- `WriteBatch` is the list of its puts.
pub record Engine (World : Type 0) : Type 1 where
  pub Handle : Type 0
  pub open_db : Options → Bytes → World → Option Handle × World
  pub close_db : Handle → World → World
  pub get : ReadOptions → Handle → Bytes → World → Option Bytes
  pub write : WriteOptions → Handle → List (Bytes × Bytes) → World → Bool × World
  pub destroy_db : Bytes → World → Bool × World

-- What a database holds.
abbrev pub Table : Type 0
Table = Bytes → Option Bytes

abbrev pub empty_table : Table
empty_table k = none

abbrev pub put_pair : Table → Bytes → Bytes → Table
put_pair t k v j = if bytes_eq k j then some v else t j

-- The puts of a batch, in order: a later one wins.
abbrev pub apply_batch : Table → List (Bytes × Bytes) → Table
apply_batch t [] = t
apply_batch t ((k, v) ∷ rest) = apply_batch (put_pair t k v) rest

-- `content w p` is the database at the path `p`; `target h` the path that a handle was opened at;
-- `locked w p` tells whether the database is open.
pub record IsEngine {World : Type 0} (E : Engine World) : Type 0 where
  pub content : World → Bytes → Option Table
  pub locked : World → Bytes → Bool
  pub target : E.Handle → Bytes
  -- Opening makes an empty database at most: where none was, if the options ask for it.
  pub open_target :
      (o : Options) (p : Bytes) (w : World) (h : E.Handle)
      → (E.open_db o p w).0 ≡ some h
      → target h ≡ p
  pub open_present :
      (o : Options) (p : Bytes) (w : World)
      → o.create_if_missing ≡ false
      → (E.open_db o p w).0 ≢ none
      → content w p ≢ none
  pub open_fresh :
      (o : Options) (p : Bytes) (w : World)
      → o.create_if_missing ≡ true
      → o.error_if_exists ≡ true
      → (E.open_db o p w).0 ≢ none
      → (content w p ≡ none) × (content (E.open_db o p w).1 p ≡ some empty_table)
  pub open_at_most :
      (o : Options) (p : Bytes) (w : World)
      → content w p ≡ none
      → (content (E.open_db o p w).1 p ≡ none) ⊎ (content (E.open_db o p w).1 p ≡ some empty_table)
  pub open_plain :
      (o : Options) (p : Bytes) (w : World) (q : Bytes)
      → o.create_if_missing ≡ false
      → content (E.open_db o p w).1 q ≡ content w q
  pub open_keeps :
      (o : Options) (p : Bytes) (w : World) (q : Bytes) (t : Table)
      → content w q ≡ some t
      → content (E.open_db o p w).1 q ≡ some t
  pub open_keeps_others :
      (o : Options) (p : Bytes) (w : World) (q : Bytes)
      → p ≢ q
      → content (E.open_db o p w).1 q ≡ content w q
  -- A database is open at most once, until its handle is deleted.
  pub open_unlocked :
      (o : Options) (p : Bytes) (w : World) → (E.open_db o p w).0 ≢ none → locked w p ≡ false
  pub open_locks :
      (o : Options) (p : Bytes) (w : World)
      → (E.open_db o p w).0 ≢ none
      → locked (E.open_db o p w).1 p ≡ true
  pub open_failed_locks :
      (o : Options) (p : Bytes) (w : World) (q : Bytes)
      → (E.open_db o p w).0 ≡ none
      → locked (E.open_db o p w).1 q ≡ locked w q
  pub open_other_locks :
      (o : Options) (p : Bytes) (w : World) (q : Bytes)
      → p ≢ q
      → locked (E.open_db o p w).1 q ≡ locked w q
  pub close_keeps :
      (h : E.Handle) (w : World) (q : Bytes) → content (E.close_db h w) q ≡ content w q
  pub close_unlocks : (h : E.Handle) (w : World) → locked (E.close_db h w) (target h) ≡ false
  pub close_other_locks :
      (h : E.Handle) (w : World) (q : Bytes) → target h ≢ q → locked (E.close_db h w) q ≡ locked w q
  -- With checksums verified, a value that is read is the one that was stored.
  pub get_stored :
      (o : ReadOptions) (h : E.Handle) (k : Bytes) (w : World) (t : Table) (v : Bytes)
      → o.verify_checksums ≡ true
      → content w (target h) ≡ some t
      → E.get o h k w ≡ some v
      → t k ≡ some v
  -- A batch is written whole, or, if the status is not ok, perhaps not at all.
  pub write_ok :
      (o : WriteOptions) (h : E.Handle) (b : List (Bytes × Bytes)) (w : World) (t : Table)
      → content w (target h) ≡ some t
      → (E.write o h b w).0 ≡ true
      → content (E.write o h b w).1 (target h) ≡ some (apply_batch t b)
  pub write_atomic :
      (o : WriteOptions) (h : E.Handle) (b : List (Bytes × Bytes)) (w : World) (t : Table)
      → content w (target h) ≡ some t
      → (content (E.write o h b w).1 (target h) ≡ some t)
        ⊎ (content (E.write o h b w).1 (target h) ≡ some (apply_batch t b))
  pub write_keeps_others :
      (o : WriteOptions) (h : E.Handle) (b : List (Bytes × Bytes)) (w : World) (q : Bytes)
      → target h ≢ q
      → content (E.write o h b w).1 q ≡ content w q
  pub write_locks :
      (o : WriteOptions) (h : E.Handle) (b : List (Bytes × Bytes)) (w : World) (q : Bytes)
      → locked (E.write o h b w).1 q ≡ locked w q
  -- Destroying removes the one database, and a database that is open is not destroyed.
  pub destroy_ok :
      (p : Bytes) (w : World) → (E.destroy_db p w).0 ≡ true → content (E.destroy_db p w).1 p ≡ none
  pub destroy_keeps_others :
      (p : Bytes) (w : World) (q : Bytes) → p ≢ q → content (E.destroy_db p w).1 q ≡ content w q
  pub destroy_locked :
      (p : Bytes) (w : World) (t : Table)
      → locked w p ≡ true
      → content w p ≡ some t
      → ((E.destroy_db p w).0 ≡ false) × (content (E.destroy_db p w).1 p ≡ some t)
  pub destroy_locks :
      (p : Bytes) (w : World) (q : Bytes) → locked (E.destroy_db p w).1 q ≡ locked w q

-- Nothing goes wrong outside the program: a database that is there and not open can be opened,
-- read, written and destroyed.
pub record IsReliable {World : Type 0} (E : Engine World) (L : IsEngine E) : Type 0 where
  pub open_ready :
      (o : Options) (p : Bytes) (w : World)
      → o.create_if_missing ≡ false
      → o.error_if_exists ≡ false
      → L.content w p ≢ none
      → L.locked w p ≡ false
      → (E.open_db o p w).0 ≢ none
  pub create_ready :
      (o : Options) (p : Bytes) (w : World)
      → o.create_if_missing ≡ true
      → L.content w p ≡ none
      → L.locked w p ≡ false
      → (E.open_db o p w).0 ≢ none
  pub get_ready :
      (o : ReadOptions) (h : E.Handle) (k : Bytes) (w : World) (t : Table)
      → L.locked w (L.target h) ≡ true
      → L.content w (L.target h) ≡ some t
      → E.get o h k w ≡ t k
  pub write_ready :
      (o : WriteOptions) (h : E.Handle) (b : List (Bytes × Bytes)) (w : World)
      → L.locked w (L.target h) ≡ true
      → (E.write o h b w).0 ≡ true
  pub destroy_ready : (p : Bytes) (w : World) → L.locked w p ≡ false → (E.destroy_db p w).0 ≡ true
