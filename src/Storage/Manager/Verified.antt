-- ===== src/Storage/Manager/Verified.antt =====
-- Manager.cpp, the loop of `verifyChain`.
use chain_db.Base.{
  ◌≡◌, refl, ap, sym, subst, ◌∙◌, inl, inr, Bool, true, false, Option, none, some, List, [], ◌∷◌,
  arith, Option-cases, All,
}
use mathlib.Core.Option.{some-injective}
use chain_db.Base.Bytes.{Bytes, same_prefix, same_prefix-eq, same_prefix_refl}
use chain_db.Base.Action.{Run, returned, null_pointer, endless}
use chain_db.Platform.{Platform, IsPlatform}
use chain_db.Platform.Sha.{IsTotalSha}
use chain_db.Crypto.Data.{hash_length}
use chain_db.Crypto.Sha256.Digest.{
  get_hash-eq-digest, get_hash-IsData, get_hash_total, get_hash_n-two, get_hash_n_lem,
}
use chain_db.Crypto.Secp256k1.{verify_signature}
use chain_db.Storage.Block.{Container, IsContainer}
use chain_db.Storage.Chain.Header.{Header}
use chain_db.Storage.Manager.{
  and_then, compare_hash, verify_block, verify_blocks, header_hash, hash_before,
}
use chain_db.Storage.Manager.Linked.{genesis, Signed, IsLink, Linked}

module _ (P : Platform) (L : IsPlatform P) where
  pub verify_signature-Signed :
      (hash : Option Bytes) (public_key signature : Bytes)
      → verify_signature P.curve hash public_key signature ≡ returned true
      → (b : Bytes) × (hash ≡ some b) × Signed P L public_key b signature
  unfolding verify_signature
  verify_signature-Signed hash public_key signature e =
      elim (Option-cases (P.curve.pubkey_parse public_key)) [
        | inl f ↦ ground arith
        | inr (k, f) ↦ elim (Option-cases (P.curve.sig_parse_compact signature)) [
          | inl g ↦ ground arith
          | inr (s, g) ↦ elim (Option-cases hash) [
            | inl n ↦ ground arith
            | inr (b, n) ↦ (b, n, (k, s, f, g, ground arith))
          ]
        ]
      ]

  compare_hash-true :
      (stored : Bytes) (hash : Option Bytes)
      → compare_hash stored hash ≡ returned true
      → (b : Bytes) × (hash ≡ some b) × (same_prefix stored b hash_length ≡ true)
  compare_hash-true stored none e = absurd (ground arith)
  compare_hash-true stored (some b) e = (b, refl, ground arith)

  and_then-true :
      (r rest : Run Bool)
      → and_then r rest ≡ returned true
      → (r ≡ returned true) × (rest ≡ returned true)
  and_then-true (returned true) rest e = (refl, e)
  and_then-true (returned false) rest e = ground arith
  and_then-true null_pointer rest e = ground arith
  and_then-true endless rest e = ground arith

  verify_block-IsLink :
      (h : Header) (prev : Bytes) (b : Container)
      → IsContainer b
      → verify_block P h prev b ≡ returned true
      → IsLink P L h.public_key prev b
  unfolding verify_block
  verify_block-IsLink h prev b v e =
      let (signature_ok, hash_ok) = and_then-true _ _ e in
      let (body, got, signed) = verify_signature-Signed _ h.public_key b.signature signature_ok in
      let (hash, made, same) = compare_hash-true b.hash _ hash_ok in
      record {
        signed = rw (← get_hash-eq-digest P.sha L.sha _ body got) signed;
        hashed =
            same_prefix-eq b.hash hash hash_length v.hash_size
              (get_hash-IsData P.sha L.sha _ hash made) same
            ∙ get_hash-eq-digest P.sha L.sha _ hash made;
      }

  pub header_hash-genesis : (h : Header) (b : Bytes) → header_hash P h ≡ some b → b ≡ genesis P L h
  header_hash-genesis h b e = get_hash_n-two P.sha L.sha _ b e

  -- The hash that `verifyChain` expects before a block.
  abbrev pub expected : Header → Option Container → Bytes
  expected h none = genesis P L h
  expected h (some b) = b.hash

  hash_before-expected :
      (h : Header) (last : Option Container) (prev : Bytes)
      → hash_before P h last ≡ some prev
      → prev ≡ expected h last
  hash_before-expected h none prev e = header_hash-genesis h prev e
  hash_before-expected h (some b) prev e = sym (some-injective _ _ e)

  -- If the loop accepts, the blocks are linked.
  pub verify_blocks-Linked :
      (h : Header) (last : Option Container) (bs : List Container)
      → All IsContainer bs
      → verify_blocks P h last bs ≡ returned true
      → Linked P L h.public_key (expected h last) bs
  unfolding verify_blocks
  verify_blocks-Linked h last [] v e = tt
  verify_blocks-Linked h last (b ∷ bs) v e = elim (Option-cases (hash_before P h last)) [
    | inl n ↦ absurd (ground arith)
    | inr (prev, n) ↦
        let e' : and_then (verify_block P h prev b) (verify_blocks P h (some b) bs)
            ≡ returned true =
          ground arith in
        let (first, rest) = and_then-true _ _ e' in
        (
          rw (← hash_before-expected h last prev n) (verify_block-IsLink h prev b v.0 first),
          verify_blocks-Linked h (some b) bs v.1 rest,
        )
  ]

  module _ (T : IsTotalSha P.sha) where
    Signed-verify_signature :
        (public_key hash signature : Bytes)
        → Signed P L public_key hash signature
        → verify_signature P.curve (some hash) public_key signature ≡ returned true
    unfolding verify_signature
    Signed-verify_signature public_key hash signature (k, s, e, f, g) = ground arith

    verify_block_complete :
        (h : Header) (prev : Bytes) (b : Container)
        → IsLink P L h.public_key prev b
        → verify_block P h prev b ≡ returned true
    unfolding verify_block
    verify_block_complete h prev b k =
        rw
          (
            get_hash_total P.sha L.sha T (prev ∷ b.nonce ∷ b.payload ∷ []),
            get_hash_total P.sha L.sha T (prev ∷ b.nonce ∷ b.payload ∷ b.signature ∷ []),
            Signed-verify_signature h.public_key _ b.signature k.signed,
          )
          (ap returned (
            subst (λ d. same_prefix b.hash d hash_length ≡ true) k.hashed
              (same_prefix_refl b.hash hash_length)))

    hash_before_total :
        (h : Header) (last : Option Container) → hash_before P h last ≡ some (expected h last)
    hash_before_total h none = get_hash_n_lem P.sha L.sha T _ 2 (omega arith) (omega arith)
    hash_before_total h (some b) = refl

    -- If the blocks are linked, the loop accepts.
    pub verify_blocks_complete :
        (h : Header) (last : Option Container) (bs : List Container)
        → Linked P L h.public_key (expected h last) bs
        → verify_blocks P h last bs ≡ returned true
    unfolding verify_blocks
    verify_blocks_complete h last [] l = refl
    verify_blocks_complete h last (b ∷ bs) l =
        rw (hash_before_total h last, verify_blocks)
          (rw (verify_block_complete h (expected h last) b l.0)
            (verify_blocks_complete h (some b) bs l.1))

    verify_signature_answers :
        (hash public_key signature : Bytes)
        → (ok : Bool) × (verify_signature P.curve (some hash) public_key signature ≡ returned ok)
    unfolding verify_signature
    verify_signature_answers hash public_key signature =
        elim (Option-cases (P.curve.pubkey_parse public_key)) [
          | inl f ↦ (false, ground arith)
          | inr (k, f) ↦ elim (Option-cases (P.curve.sig_parse_compact signature)) [
            | inl g ↦ (false, ground arith)
            | inr (s, g) ↦ (P.curve.ecdsa_verify s hash k, ground arith)
          ]
        ]

    and_then_answers :
        (r rest : Run Bool)
        → (ok : Bool) × (r ≡ returned ok)
        → (ok : Bool) × (rest ≡ returned ok)
        → (ok : Bool) × (and_then r rest ≡ returned ok)
    and_then_answers r rest (true, e) (ok, f) = (ok, rw (e, f) refl)
    and_then_answers r rest (false, e) (ok, f) = (false, rw e refl)

    verify_block_answers :
        (h : Header) (prev : Bytes) (b : Container)
        → (ok : Bool) × (verify_block P h prev b ≡ returned ok)
    unfolding verify_block
    verify_block_answers h prev b =
        rw
          (
            get_hash_total P.sha L.sha T (prev ∷ b.nonce ∷ b.payload ∷ []),
            get_hash_total P.sha L.sha T (prev ∷ b.nonce ∷ b.payload ∷ b.signature ∷ []),
          )
          (and_then_answers _ _ (verify_signature_answers _ h.public_key b.signature) (_, refl))

    -- With hashes that never fail the loop answers: no null pointer is read.
    pub verify_blocks_answers :
        (h : Header) (last : Option Container) (bs : List Container)
        → (ok : Bool) × (verify_blocks P h last bs ≡ returned ok)
    unfolding verify_blocks
    verify_blocks_answers h last [] = (true, refl)
    verify_blocks_answers h last (b ∷ bs) =
        rw (hash_before_total h last, verify_blocks)
          (and_then_answers _ _ (verify_block_answers h (expected h last) b)
            (verify_blocks_answers h (some b) bs))
