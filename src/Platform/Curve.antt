-- ===== src/Platform/Curve.antt =====
-- libsecp256k1. `none` stands for the return value 0; the context is left out, since it holds
-- only tables that do not change.
use chain_db.Base.{◌≡◌, Bool, true, Option, some, length}
use chain_db.Base.Bytes.{Bytes}

pub record Curve : Type 1 where
  pub PubKey : Type 0
  pub Sig : Type 0
  pub seckey_verify : Bytes → Bool
  pub pubkey_create : Bytes → Option PubKey
  pub pubkey_serialize : PubKey → Option Bytes
  pub pubkey_parse : Bytes → Option PubKey
  -- The message hash, then the private key.
  pub ecdsa_sign : Bytes → Bytes → Option Sig
  pub sig_serialize_compact : Sig → Option Bytes
  pub sig_parse_compact : Bytes → Option Sig
  pub ecdsa_verify : Sig → Bytes → PubKey → Bool

-- Serialised keys (compressed) and signatures (compact) have their sizes and parse back, and a
-- signature made with a private key verifies under its public key.
pub record IsCurve (C : Curve) : Type 0 where
  pub pubkey_size : (k : C.PubKey) (b : Bytes) → C.pubkey_serialize k ≡ some b → length b ≡ 33
  pub pubkey_round :
      (k : C.PubKey) (b : Bytes) → C.pubkey_serialize k ≡ some b → C.pubkey_parse b ≡ some k
  pub sig_size : (s : C.Sig) (b : Bytes) → C.sig_serialize_compact s ≡ some b → length b ≡ 64
  pub sig_round :
      (s : C.Sig) (b : Bytes) → C.sig_serialize_compact s ≡ some b → C.sig_parse_compact b ≡ some s
  pub sign_verifies :
      (h sk : Bytes) (k : C.PubKey) (s : C.Sig)
      → length h ≡ 32
      → length sk ≡ 32
      → C.pubkey_create sk ≡ some k
      → C.ecdsa_sign h sk ≡ some s
      → C.ecdsa_verify s h k ≡ true

-- Signing with a key that has a public key does not fail, nor does writing the signature out.
pub record IsTotalCurve (C : Curve) : Type 0 where
  pub signs :
      (h sk : Bytes) (k : C.PubKey)
      → length h ≡ 32
      → length sk ≡ 32
      → C.pubkey_create sk ≡ some k
      → (s : C.Sig) × (b : Bytes) × (C.ecdsa_sign h sk ≡ some s)
        × (C.sig_serialize_compact s ≡ some b)
