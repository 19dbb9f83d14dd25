-- ===== src/Crypto/Random.antt =====
-- src/Crypto/Random.cpp
use chain_db.Base.{ℕ, Bool, true, false}
use chain_db.Base.Bytes.{Bytes}
use chain_db.Base.Action.{Act}
use chain_db.Platform.Rng.{Rng}

module _ {World : Type 0} (R : Rng World) where
  abbrev pub status : World → Bool × World
  status = R.rand_status

  abbrev pub poll : World → Bool × World
  poll = R.rand_poll

  -- The buffer of `length` bytes that the call fills, or `none` for `false`.
  abbrev pub random : ℕ → Bool → Act World Bytes
  random length false = R.rand_bytes length
  random length true = R.rand_priv_bytes length
