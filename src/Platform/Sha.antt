-- ===== src/Platform/Sha.antt =====
-- SHA256_Init, SHA256_Update and SHA256_Final of OpenSSL. `none` stands for the return value 0.
use chain_db.Base.{◌≡◌, Option, some, ◌++◌, [], length, ◌≢◌, none}
use chain_db.Base.Bytes.{Bytes}

pub record Sha : Type 1 where
  pub Ctx : Type 0
  pub sha_init : Option Ctx
  pub sha_update : Ctx → Bytes → Option Ctx
  pub sha_final : Ctx → Option Bytes

-- A context stands for the message that it was given so far; the digest is a function of it, of
-- 32 bytes.
pub record IsSha (S : Sha) : Type 0 where
  pub digest : Bytes → Bytes
  pub message : S.Ctx → Bytes
  pub message-init : (c : S.Ctx) → S.sha_init ≡ some c → message c ≡ []
  pub message-update :
      (c : S.Ctx) (d : Bytes) (c' : S.Ctx)
      → S.sha_update c d ≡ some c'
      → message c' ≡ message c ++ d
  pub final-digest : (c : S.Ctx) (h : Bytes) → S.sha_final c ≡ some h → h ≡ digest (message c)
  pub length-digest : (m : Bytes) → length (digest m) ≡ 32

-- No call reports a failure.
pub record IsTotalSha (S : Sha) : Type 0 where
  pub init_ok : S.sha_init ≢ none
  pub update_ok : (c : S.Ctx) (d : Bytes) → S.sha_update c d ≢ none
  pub final_ok : (c : S.Ctx) → S.sha_final c ≢ none
