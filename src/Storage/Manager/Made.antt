-- ===== src/Storage/Manager/Made.antt =====
-- Manager.cpp, `addBlock`: the block that it makes.
use mathlib.Core.Option.{some-injective}
use chain_db.Base.{◌≡◌, refl, sym, subst, inl, inr, some, [], ◌∷◌, arith, Option-cases}
use chain_db.Base.Bytes.{Bytes}
use chain_db.Platform.{Platform, IsPlatform}
use chain_db.Crypto.Data.{IsData, hash_length, nonce_length, signature_length}
use chain_db.Crypto.Sha256.{get_hash}
use chain_db.Crypto.Sha256.Digest.{get_hash-eq-digest, get_hash-IsData}
use chain_db.Crypto.Secp256k1.{create_public_key, get_signature}
use chain_db.Crypto.Secp256k1.Signing.{verify-get_signature}
use chain_db.Storage.Block.{Container, IsContainer}
use chain_db.Storage.Chain.Header.{Header, IsHeader}
use chain_db.Storage.Manager.{make_block}
use chain_db.Storage.Manager.Linked.{IsLink, Signed}
use chain_db.Storage.Manager.Verified.{verify_signature-Signed}

module _ (P : Platform) (L : IsPlatform P) where
  -- The header's public key is that of its private key.
  abbrev pub KeyPair : Header → Type 0
  KeyPair h = create_public_key P.curve h.private_key ≡ some h.public_key

  -- A new block of the data `payload` after the hash `prev`.
  pub record IsNext (h : Header) (prev payload : Bytes) (b : Container) : Type 0 where
    pub sized : IsContainer b
    pub link : IsLink P L h.public_key prev b
    pub prev_hash : b.prev_hash ≡ prev
    pub payload_eq : b.payload ≡ payload

  abbrev made_block : Bytes → Bytes → Bytes → Bytes → Bytes → Container
  made_block prev nonce payload signature hash = record {
    hash = hash;
    prev_hash = prev;
    nonce = nonce;
    payload = payload;
    signature = signature;
  }

  sign-Signed :
      (h : Header) (body signature : Bytes)
      → IsHeader h
      → KeyPair h
      → IsData hash_length body
      → get_signature P.curve body h.private_key ≡ some signature
      → Signed P L h.public_key body signature × IsData signature_length signature
  sign-Signed h body signature v keys lb m =
      let (ok, _, size) =
        verify-get_signature P.curve L.curve body h.private_key h.public_key signature lb
          v.private_key_size keys m in
      let (found, same, signed) =
        verify_signature-Signed P L (some body) h.public_key signature ok in
      (
        subst (λ d. Signed P L h.public_key d signature) (sym (some-injective _ _ same)) signed,
        size,
      )

  made-IsNext :
      (h : Header) (prev nonce payload body signature hash : Bytes)
      → IsHeader h
      → KeyPair h
      → IsData hash_length prev
      → IsData nonce_length nonce
      → get_hash P.sha (prev ∷ nonce ∷ payload ∷ []) ≡ some body
      → get_signature P.curve body h.private_key ≡ some signature
      → get_hash P.sha (prev ∷ nonce ∷ payload ∷ signature ∷ []) ≡ some hash
      → IsNext h prev payload (made_block prev nonce payload signature hash)
  made-IsNext h prev nonce payload body signature hash v keys lp ln n m l =
      let (signed, size) =
        sign-Signed h body signature v keys (get_hash-IsData P.sha L.sha _ body n) m in
      record {
        sized = record {
          hash_size = get_hash-IsData P.sha L.sha _ hash l;
          prev_hash_size = lp;
          nonce_size = ln;
          signature_size = size;
        };
        link = record {
          signed = rw (← get_hash-eq-digest P.sha L.sha _ body n) signed;
          hashed = get_hash-eq-digest P.sha L.sha _ hash l;
        };
        prev_hash = refl;
        payload_eq = refl;
      }

  pub make_block-IsNext :
      (dir : Bytes) (h : Header) (prev nonce payload : Bytes) (b : Container)
      → IsHeader h
      → KeyPair h
      → IsData hash_length prev
      → IsData nonce_length nonce
      → make_block P dir h prev nonce payload ≡ some b
      → IsNext h prev payload b
  unfolding make_block
  make_block-IsNext dir h prev nonce payload b v keys lp ln e =
      elim (Option-cases (get_hash P.sha (prev ∷ nonce ∷ payload ∷ []))) [
        | inl n ↦ absurd (ground arith)
        | inr (body, n) ↦ elim (Option-cases (get_signature P.curve body h.private_key)) [
          | inl m ↦ absurd (ground arith)
          | inr (signature, m) ↦
              elim (Option-cases (get_hash P.sha (prev ∷ nonce ∷ payload ∷ signature ∷ []))) [
                | inl l ↦ absurd (ground arith)
                | inr (hash, l) ↦
                    let made : made_block prev nonce payload signature hash ≡ b = ground arith in
                    subst (IsNext h prev payload) made
                      (made-IsNext h prev nonce payload body signature hash v keys lp ln n m l)
              ]
        ]
      ]
