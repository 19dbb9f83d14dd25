-- ===== src/Crypto/Data.antt =====
-- include/Crypto/Data.h and the sizes it is used at. A `Data<Size>` is its array; the copy that the
-- constructor makes cannot be told from the original, since nothing writes to either.
use chain_db.Base.{ℕ, ◌≡◌, length}
use chain_db.Base.Bytes.{Bytes}

-- `Data<Size>`: an array of `Size` bytes.
abbrev pub IsData : ℕ → Bytes → Type 0
IsData size b = length b ≡ size

-- `SHA256::Hash`
abbrev pub hash_length : ℕ
hash_length = 32

-- `Secp256k1::PrivateKey`, `PublicKey` and `Signature`
abbrev pub private_key_length : ℕ
private_key_length = 32

abbrev pub public_key_length : ℕ
public_key_length = 33

abbrev pub signature_length : ℕ
signature_length = 64

-- `NONCE_LENGTH` of Defs.h
abbrev pub nonce_length : ℕ
nonce_length = 8
