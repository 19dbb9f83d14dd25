-- ===== src/Storage/Storage.antt =====
-- src/Storage/Storage.cpp: one database, from its opening to the destructor.
pub mod Lookup
pub mod Scope
use chain_db.Base.{ℕ, Bool, true, false, Option, none, some, List, [], ◌∷◌, ◌++◌, if◌then◌else◌}
use chain_db.Base.Bytes.{Bytes}
use chain_db.Base.Action.{Act}
use chain_db.Platform.Engine.{Engine, Options, ReadOptions, WriteOptions}

-- `Storage::KeyValue`
pub record KeyValue : Type 0 where
  pub key : Bytes
  pub value : Bytes

-- `none` stands for the null pointer.
pub record Storage {World : Type 0} (E : Engine World) : Type 0 where
  pub path : Bytes
  pub db : Option E.Handle

-- The options that `create` and `open` set; `false` at `compression` is `kNoCompression`.
abbrev pub create_options : Options
create_options = record {
  create_if_missing = true;
  error_if_exists = true;
  paranoid_checks = true;
  compression = false;
}

abbrev pub open_options : Options
open_options = record {
  create_if_missing = false;
  error_if_exists = false;
  paranoid_checks = true;
  compression = false;
}

abbrev pub read_options : ReadOptions
read_options = record { verify_checksums = true }

abbrev pub write_options : WriteOptions
write_options = record { sync = true }

-- The loop of `set` over the pairs, by `batch.Put`.
abbrev pub fill_batch : List (Bytes × Bytes) → List KeyValue → List (Bytes × Bytes)
fill_batch batch [] = batch
fill_batch batch (pair ∷ pairs) = fill_batch (batch ++ (pair.key, pair.value) ∷ []) pairs

module _ {World : Type 0} (E : Engine World) where
  abbrev pub make_storage : Bytes → Storage E
  make_storage path = record { path = path; db = none }

  -- What `create` and `open` do with the pointer that `DB::Open` sets, to null if it fails.
  abbrev attach : Storage E → Option E.Handle × World → Bool × Storage E × World
  attach s (none, w) = (false, record s { db = none }, w)
  attach s (some h, w) = (true, record s { db = some h }, w)

  unfoldable pub create : Storage E → World → Bool × Storage E × World
  create s w = elim s.db [
    | some h ↦ (false, s, w)
    | none ↦ attach s (E.open_db create_options s.path w)
  ]

  unfoldable pub open_storage : Storage E → World → Bool × Storage E × World
  open_storage s w = elim s.db [
    | some h ↦ (false, s, w)
    | none ↦ attach s (E.open_db open_options s.path w)
  ]

  unfoldable pub close : Storage E → World → Bool × Storage E × World
  close s w = elim s.db [
    | none ↦ (false, s, w)
    | some h ↦ (true, record s { db = none }, E.close_db h w)
  ]

  unfoldable pub get : Storage E → Bytes → World → Option KeyValue
  get s key w = elim s.db [
    | none ↦ none
    | some h ↦ elim (E.get read_options h key w) [
      | none ↦ none
      | some value ↦ some (record { key = key; value = value })
    ]
  ]

  abbrev pub status : Bool × World → Option (Unit {0}) × World
  status r = (if r.0 then some tt else none, r.1)

  unfoldable pub set : Storage E → List KeyValue → Act World (Unit {0})
  set s pairs w = elim s.db [
    | none ↦ (none, w)
    | some h ↦ status (E.write write_options h (fill_batch [] pairs) w)
  ]

  unfoldable pub remove : Storage E → Act World (Unit {0})
  remove s w = status (E.destroy_db s.path w)

  -- `~Storage`
  unfoldable pub destruct : Storage E → World → World
  destruct s w = elim s.db [ none ↦ w | some h ↦ E.close_db h w ]

  abbrev if_opened {ℓ} :
      {A : Type ℓ} → Bool → A → (Storage E → World → A × World) → Storage E → World → A × World
  if_opened false failed body s w = (failed, w)
  if_opened true failed body s w = body s w

  -- A method that begins with `Storage storage(_path); if (!storage.open()) return failed;` and goes
  -- on with `body`. The destructor runs on either way out.
  unfoldable pub opened {ℓ} :
      {A : Type ℓ} → Bytes → A → (Storage E → World → A × World) → World → A × World
  unfolding open_storage destruct
  opened path failed body w =
      let (ok, s, w₁) = open_storage (make_storage path) w in
      let (result, w₂) = if_opened ok failed body s w₁ in (result, destruct s w₂)
