-- ===== src/Platform/Rng.antt =====
-- RAND_status, RAND_poll, RAND_bytes and RAND_priv_bytes of OpenSSL. `none` stands for a return
-- value other than 1.
use chain_db.Base.{ℕ, ◌≡◌, Bool, Option, none, some, ◌≢◌, length}
use chain_db.Base.Bytes.{Bytes}

pub record Rng (World : Type 0) : Type 0 where
  pub rand_status : World → Bool × World
  pub rand_poll : World → Bool × World
  pub rand_bytes : ℕ → World → Option Bytes × World
  pub rand_priv_bytes : ℕ → World → Option Bytes × World

-- The buffer is filled, and databases are not touched.
pub record IsRng {World : Type 0} (R : Rng World) {D : Type 0} (content : World → Bytes → D)
    (locked : World → Bytes → Bool) : Type 0 where
  pub size : (n : ℕ) (w : World) (b : Bytes) → (R.rand_bytes n w).0 ≡ some b → length b ≡ n
  pub priv_size :
      (n : ℕ) (w : World) (b : Bytes) → (R.rand_priv_bytes n w).0 ≡ some b → length b ≡ n
  pub keeps : (n : ℕ) (w : World) (p : Bytes) → content (R.rand_bytes n w).1 p ≡ content w p
  pub priv_keeps :
      (n : ℕ) (w : World) (p : Bytes) → content (R.rand_priv_bytes n w).1 p ≡ content w p
  pub keeps_locks : (n : ℕ) (w : World) (p : Bytes) → locked (R.rand_bytes n w).1 p ≡ locked w p
  pub priv_keeps_locks :
      (n : ℕ) (w : World) (p : Bytes) → locked (R.rand_priv_bytes n w).1 p ≡ locked w p
  pub status_keeps : (w : World) (p : Bytes) → content (R.rand_status w).1 p ≡ content w p
  pub poll_keeps : (w : World) (p : Bytes) → content (R.rand_poll w).1 p ≡ content w p
  pub status_keeps_locks : (w : World) (p : Bytes) → locked (R.rand_status w).1 p ≡ locked w p
  pub poll_keeps_locks : (w : World) (p : Bytes) → locked (R.rand_poll w).1 p ≡ locked w p

-- The generator does not fail.
pub record IsTotalRng {World : Type 0} (R : Rng World) : Type 0 where
  pub bytes_ok : (n : ℕ) (w : World) → (R.rand_bytes n w).0 ≢ none
