-- ===== src/Tests/CryptoRuns.antt =====
-- The theorems on src/Crypto, with the simple digest and keys.
use chain_db.Base.{◌≡◌, refl, true, some, [], ◌∷◌, ◌++◌, arith}
use chain_db.Base.Bytes.{text}
use chain_db.Base.Action.{returned}
use chain_db.Crypto.Data.{IsData}
use chain_db.Crypto.Sha256.{get_hash, get_hash_n}
use chain_db.Crypto.Sha256.Digest.{iterate, get_hash_n_lem}
use chain_db.Crypto.Secp256k1.{create_public_key, get_signature, verify_signature}
use chain_db.Crypto.Secp256k1.Signing.{verify-get_signature}
use chain_db.Tests.Libraries.{
  plain_sha, plain_sha-IsSha, plain_sha-IsTotalSha, plain_curve, plain_curve-IsCurve, first_bytes,
}
use chain_db.Tests.Machine.{first_key, first_pub_key}

get_hash_n_lem_example :
    get_hash_n plain_sha (text "a" ∷ text "b" ∷ []) 3 ≡ some (iterate 3 first_bytes (text "ab"))
get_hash_n_lem_example =
    get_hash_n_lem plain_sha plain_sha-IsSha plain_sha-IsTotalSha (text "a" ∷ text "b" ∷ []) 3
      (omega arith) (omega arith)

plain_hash : get_hash plain_sha (text "a" ∷ text "b" ∷ []) ≡ some (first_bytes (text "ab"))
unfolding get_hash
plain_hash = refl

plain_keys : create_public_key plain_curve first_key ≡ some first_pub_key
unfolding create_public_key
plain_keys = refl

plain_signature :
    get_signature plain_curve (first_bytes (text "a")) first_key
    ≡ some (first_bytes (text "a") ++ first_key)
unfolding get_signature
plain_signature = refl

verify-get_signature_example :
    (verify_signature plain_curve
        (some (first_bytes (text "a")))
        first_pub_key
        (first_bytes (text "a") ++ first_key)
      ≡ returned true)
    × IsData 33 first_pub_key
    × IsData 64 (first_bytes (text "a") ++ first_key)
verify-get_signature_example =
    verify-get_signature plain_curve plain_curve-IsCurve (first_bytes (text "a")) first_key
      first_pub_key (first_bytes (text "a") ++ first_key) refl refl plain_keys plain_signature
