-- ===== src/Crypto/Secp256k1.antt =====
-- src/Crypto/ECDSA.cpp
pub mod Signing
use chain_db.Base.{ℕ, Bool, true, false, Option, none, some}
use chain_db.Base.Bytes.{Bytes}
use chain_db.Base.Action.{Act, done, ◌>>=◌, ◌>>◌, require, Run, returned, null_pointer}
use chain_db.Platform.Curve.{Curve}
use chain_db.Platform.Rng.{Rng}
use chain_db.Crypto.Data.{private_key_length}
use chain_db.Crypto.Random.{random}

module _ (C : Curve) where
  unfoldable pub generate_private_key : {World : Type 0} → Rng World → Act World Bytes
  generate_private_key R = do
    key ← random R private_key_length true
    require (C.seckey_verify key)
    done key

  unfoldable pub create_public_key : Bytes → Option Bytes
  create_public_key private_key = elim (C.pubkey_create private_key) [
    | none ↦ none
    | some k ↦ C.pubkey_serialize k
  ]

  unfoldable pub get_signature : Bytes → Bytes → Option Bytes
  get_signature hash private_key = elim (C.ecdsa_sign hash private_key) [
    | none ↦ none
    | some s ↦ C.sig_serialize_compact s
  ]

  check : Option Bytes → C.PubKey → Option C.Sig → Run Bool
  check hash k none = returned false
  check none k (some s) = null_pointer
  check (some hash) k (some s) = returned (C.ecdsa_verify s hash k)

  -- The hash is a pointer that is read last, and not tested for null.
  unfoldable pub verify_signature : Option Bytes → Bytes → Bytes → Run Bool
  unfolding check
  verify_signature hash public_key signature = elim (C.pubkey_parse public_key) [
    | none ↦ returned false
    | some k ↦ check hash k (C.sig_parse_compact signature)
  ]
