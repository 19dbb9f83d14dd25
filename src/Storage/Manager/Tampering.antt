-- ===== src/Storage/Manager/Tampering.antt =====
-- Manager.cpp, `verifyChain`: comparing two chains by their last hashes.
use chain_db.Base.{
  ℕ, ◌≡◌, ◌≢◌, sym, ◌∙◌, ◌⊎◌, inl, inr, List, [], ◌∷◌, ◌++◌, arith, length, length-append, All,
  append-nil,
}
use chain_db.Base.Bytes.{Bytes, bytes_cases, append_split, append_split_end}
use chain_db.Platform.{Platform, IsPlatform}
use chain_db.Crypto.Data.{IsData, hash_length}
use chain_db.Storage.Block.{Container, IsContainer}
use chain_db.Storage.Chain.Header.{Header, IsHeader}
use chain_db.Storage.Manager.Linked.{genesis, block_bytes, Linked, tip}

-- All that the hashes cover: everything but the stored copy of the previous hash.
pub record SameBlock (b c : Container) : Type 0 where
  pub hash : b.hash ≡ c.hash
  pub nonce : b.nonce ≡ c.nonce
  pub payload : b.payload ≡ c.payload
  pub signature : b.signature ≡ c.signature

abbrev pub SameBlocks : List Container → List Container → Type 0
SameBlocks [] [] = Unit
SameBlocks [] (c ∷ cs) = ⊥
SameBlocks (b ∷ bs) [] = ⊥
SameBlocks (b ∷ bs) (c ∷ cs) = SameBlock b c × SameBlocks bs cs

pub record SameOrigin (h g : Header) : Type 0 where
  pub payload : h.payload ≡ g.payload
  pub private_key : h.private_key ≡ g.private_key
  pub public_key : h.public_key ≡ g.public_key

module _ (P : Platform) (L : IsPlatform P) where
  -- Two messages with one digest.
  pub record Collision : Type 0 where
    pub first : Bytes
    pub second : Bytes
    pub differ : first ≢ second
    pub collide : L.sha.digest first ≡ L.sha.digest second

  digest_cases : (m n : Bytes) → L.sha.digest m ≡ L.sha.digest n → (m ≡ n) ⊎ Collision
  digest_cases m n e = elim (bytes_cases m n) [
    | inl same ↦ inl same
    | inr other ↦ inr (record { first = m; second = n; differ = other; collide = e })
  ]

  length_sized :
      (a b : Bytes) (n : ℕ) → length a ≡ n → length b ≡ n → length (a ++ []) ≡ length (b ++ [])
  length_sized a b n e f = rw (append-nil a, append-nil b) (e ∙ sym f)

  keys_sized :
      (h g : Header)
      → IsHeader h
      → IsHeader g
      → length (h.private_key ++ (h.public_key ++ []))
        ≡ length (g.private_key ++ (g.public_key ++ []))
  keys_sized h g v u =
      let a = v.private_key_size in
      let b = u.private_key_size in
      omega (
        arith,
        length-append h.private_key (h.public_key ++ []),
        length-append g.private_key (g.public_key ++ []),
        length_sized h.public_key g.public_key 33 v.public_key_size u.public_key_size,
      )

  -- The hashed bytes of a block tell its parts apart, since all but the data have fixed sizes.
  block_bytes_parts :
      (p q : Bytes) (b c : Container)
      → IsData hash_length p
      → IsData hash_length q
      → IsContainer b
      → IsContainer c
      → block_bytes P L p b ≡ block_bytes P L q c
      → (p ≡ q) × (b.nonce ≡ c.nonce) × (b.payload ≡ c.payload) × (b.signature ≡ c.signature)
  block_bytes_parts p q b c lp lq v u e =
      let (same_prev, e₁) = append_split p _ q _ (omega arith) e in
      let (same_nonce, e₂) =
        append_split b.nonce _ c.nonce _ (v.nonce_size ∙ sym u.nonce_size) e₁ in
      let (same_payload, e₃) =
        append_split_end b.payload _ c.payload _
          (length_sized b.signature c.signature 64 v.signature_size u.signature_size) e₂ in
      let (same_signature, _) =
        append_split b.signature _ c.signature _ (v.signature_size ∙ sym u.signature_size) e₃ in
      (same_prev, same_nonce, same_payload, same_signature)

  -- Two linked lists of one length that end in one hash begin after one hash and are the same.
  pub same_tip :
      (key key' p q : Bytes) (bs cs : List Container)
      → IsData hash_length p
      → IsData hash_length q
      → All IsContainer bs
      → All IsContainer cs
      → Linked P L key p bs
      → Linked P L key' q cs
      → length bs ≡ length cs
      → tip P L p bs ≡ tip P L q cs
      → ((p ≡ q) × SameBlocks bs cs) ⊎ Collision
  same_tip key key' p q [] [] lp lq v u l m n e = inl (e, tt)
  same_tip key key' p q [] (c ∷ cs) lp lq v u l m n e = absurd (omega arith)
  same_tip key key' p q (b ∷ bs) [] lp lq v u l m n e = absurd (omega arith)
  same_tip key key' p q (b ∷ bs) (c ∷ cs) lp lq v u l m n e =
      elim (same_tip key key' b.hash c.hash bs cs v.0.hash_size u.0.hash_size v.1 u.1 l.1 m.1
        (omega arith) e) [
          | inr found ↦ inr found
          | inl (same_hash, rest) ↦
              elim (digest_cases _ _ (sym l.0.hashed ∙ same_hash ∙ m.0.hashed)) [
                | inr found ↦ inr found
                | inl same_bytes ↦
                    let (same_prev, n₁, n₂, n₃) =
                      block_bytes_parts p q b c lp lq v.0 u.0 same_bytes in
                    inl (
                      same_prev,
                      (record { hash = same_hash; nonce = n₁; payload = n₂; signature = n₃ }, rest),
                    )
              ]
        ]

  -- The header's hash fixes its data and keys in the same way.
  pub same_genesis :
      (h g : Header)
      → IsHeader h
      → IsHeader g
      → genesis P L h ≡ genesis P L g
      → SameOrigin h g ⊎ Collision
  same_genesis h g v u e = elim (digest_cases _ _ e) [
    | inr found ↦ inr found
    | inl same_digest ↦ elim (digest_cases _ _ same_digest) [
      | inr found ↦ inr found
      | inl same_bytes ↦
          let (same_payload, e₁) =
            append_split_end h.payload _ g.payload _ (keys_sized h g v u) same_bytes in
          let (same_private, e₂) =
            append_split h.private_key _ g.private_key _
              (v.private_key_size ∙ sym u.private_key_size) e₁ in
          let (same_public, _) =
            append_split h.public_key _ g.public_key _ (v.public_key_size ∙ sym u.public_key_size)
              e₂ in
          inl (record {
            payload = same_payload;
            private_key = same_private;
            public_key = same_public;
          })
    ]
  ]
