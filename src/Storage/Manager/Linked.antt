-- ===== src/Storage/Manager/Linked.antt =====
-- Manager.cpp: when the blocks of a chain are signed and linked.
use chain_db.Base.{◌≡◌, true, some, List, [], ◌∷◌, ◌++◌}
use chain_db.Base.Bytes.{Bytes, concat}
use chain_db.Platform.{Platform, IsPlatform}
use chain_db.Storage.Block.{Container}
use chain_db.Storage.Chain.Header.{Header}

module _ (P : Platform) (L : IsPlatform P) where
  -- The hash of an empty chain: of the header's data and keys, hashed twice.
  abbrev pub genesis : Header → Bytes
  genesis h = L.sha.digest (L.sha.digest (concat (h.payload ∷ h.private_key ∷ h.public_key ∷ [])))

  abbrev pub body_bytes : Bytes → Container → Bytes
  body_bytes prev b = concat (prev ∷ b.nonce ∷ b.payload ∷ [])

  abbrev pub block_bytes : Bytes → Container → Bytes
  block_bytes prev b = concat (prev ∷ b.nonce ∷ b.payload ∷ b.signature ∷ [])

  abbrev pub Signed : Bytes → Bytes → Bytes → Type 0
  Signed public_key hash signature =
      (k : P.curve.PubKey) × (s : P.curve.Sig) × (P.curve.pubkey_parse public_key ≡ some k)
      × (P.curve.sig_parse_compact signature ≡ some s)
      × (P.curve.ecdsa_verify s hash k ≡ true)

  -- The block `b` follows the hash `prev`: its signature is one of its body, and its hash is that of
  -- body and signature.
  pub record IsLink (public_key prev : Bytes) (b : Container) : Type 0 where
    pub signed : Signed public_key (L.sha.digest (body_bytes prev b)) b.signature
    pub hashed : b.hash ≡ L.sha.digest (block_bytes prev b)

  abbrev pub Linked : Bytes → Bytes → List Container → Type 0
  Linked public_key prev [] = Unit
  Linked public_key prev (b ∷ bs) = IsLink public_key prev b × Linked public_key b.hash bs

  -- The hash that the next block has to follow.
  abbrev pub tip : Bytes → List Container → Bytes
  tip prev [] = prev
  tip prev (b ∷ bs) = tip b.hash bs

  pub Linked-append :
      (public_key prev : Bytes) (bs : List Container) (b : Container)
      → Linked public_key prev bs
      → IsLink public_key (tip prev bs) b
      → Linked public_key prev (bs ++ b ∷ [])
  Linked-append public_key prev [] b l k = (k, tt)
  Linked-append public_key prev (a ∷ bs) b l k = (l.0, Linked-append public_key a.hash bs b l.1 k)
