-- ===== src/Platform.antt =====
-- What the program calls and does not implement: OpenSSL, libsecp256k1, the key-value engine
-- (LevelDB or RocksDB) and the code that protoc generates. Each is a record of operations, with a
-- record of the documented behaviour that the program relies on.
pub mod Sha
pub mod Curve
pub mod Rng
pub mod Engine
pub mod Codec
pub mod Tables
pub mod Wire
use chain_db.Base.{ℕ, ◌≡◌, ◌≢◌, true, none, some, length}
use chain_db.Base.Bytes.{Bytes}

-- One instance of every library. `World` is all that lies outside the program's memory: the
-- databases on disk, the open ones among them, and the random generator's state.
pub record Platform : Type 1 where
  pub World : Type 0
  pub sha : Sha.Sha
  pub curve : Curve.Curve
  pub rng : Rng.Rng World
  pub engine : Engine.Engine World
  pub codec : Codec.Codec

pub record IsPlatform (P : Platform) : Type 1 where
  pub sha : Sha.IsSha P.sha
  pub curve : Curve.IsCurve P.curve
  pub engine : Engine.IsEngine P.engine
  pub rng : Rng.IsRng P.rng engine.content engine.locked
  pub codec : Codec.IsCodec P.codec

-- Nothing fails, neither the disk nor the libraries.
pub record IsReliable (P : Platform) (L : IsPlatform P) : Type 1 where
  pub engine : Engine.IsReliable P.engine L.engine
  pub sha : Sha.IsTotalSha P.sha
  pub curve : Curve.IsTotalCurve P.curve
  pub rng : Rng.IsTotalRng P.rng
  pub codec : Codec.IsTotalCodec P.codec

-- Every private key that the generator gives is one, and its public key can be made and written out.
-- (Of the numbers of 32 bytes fewer than one in 2^127 is not a private key.)
pub record MakesKeys (P : Platform) : Type 0 where
  pub priv_ok : (n : ℕ) (w : P.World) → (P.rng.rand_priv_bytes n w).0 ≢ none
  pub valid :
      (w : P.World) (key : Bytes)
      → (P.rng.rand_priv_bytes 32 w).0 ≡ some key
      → P.curve.seckey_verify key ≡ true
  pub public_ok :
      (key : Bytes)
      → length key ≡ 32
      → P.curve.seckey_verify key ≡ true
      → P.curve.pubkey_create key ≢ none
  pub written_ok :
      (key : Bytes) (k : P.curve.PubKey)
      → length key ≡ 32
      → P.curve.pubkey_create key ≡ some k
      → P.curve.pubkey_serialize k ≢ none
