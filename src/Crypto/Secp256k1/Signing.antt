-- ===== src/Crypto/Secp256k1/Signing.antt =====
-- ECDSA.cpp: keys, signatures and their sizes.
use chain_db.Base.{◌≡◌, true, some, arith, inl, inr, Option-cases}
use chain_db.Base.Bytes.{Bytes}
use chain_db.Base.Action.{returned}
use chain_db.Platform.Curve.{Curve, IsCurve}
use chain_db.Crypto.Data.{
  IsData, hash_length, private_key_length, public_key_length, signature_length,
}
use chain_db.Crypto.Secp256k1.{create_public_key, get_signature, verify_signature}

module _ (C : Curve) (L : IsCurve C) where
  pub create_public_key-IsData :
      (key pub_key : Bytes)
      → create_public_key C key ≡ some pub_key
      → IsData public_key_length pub_key
  unfolding create_public_key
  create_public_key-IsData key pub_key e = elim (Option-cases (C.pubkey_create key)) [
    | inl p ↦ absurd (ground arith)
    | inr (k, p) ↦ ground (arith, L.pubkey_size k pub_key)
  ]

  -- For a hash and a private key of 32 bytes, what `getSignature` makes with the private key
  -- passes `verifySignature` under the public key that `createPublicKey` makes of it, and the
  -- two have 64 and 33 bytes.
  pub verify-get_signature :
      (hash key pub_key sig : Bytes)
      → IsData hash_length hash
      → IsData private_key_length key
      → create_public_key C key ≡ some pub_key
      → get_signature C hash key ≡ some sig
      → (verify_signature C (some hash) pub_key sig ≡ returned true)
        × IsData public_key_length pub_key
        × IsData signature_length sig
  unfolding create_public_key get_signature verify_signature
  verify-get_signature hash key pub_key sig lh lk e f = elim (Option-cases (C.pubkey_create key)) [
    | inl p ↦ ground arith
    | inr (k, p) ↦ elim (Option-cases (C.ecdsa_sign hash key)) [
      | inl q ↦ ground arith
      | inr (s, q) ↦ ground (
        arith,
        L.pubkey_size k pub_key,
        L.pubkey_round k pub_key,
        L.sig_size s sig,
        L.sig_round s sig,
        L.sign_verifies hash key k s,
      )
    ]
  ]
