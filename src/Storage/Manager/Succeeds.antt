-- ===== src/Storage/Manager/Succeeds.antt =====
-- Manager.cpp, `addBlock`, in an environment in which nothing fails.
use mathlib.Core.Option.{some-injective}
use chain_db.Base.{
  ℕ, zero, suc, ◌^◌, ◌<◌, ◌≡◌, refl, sym, subst, ◌∙◌, inl, inr, false, Option, some, List, [], ◌∷◌,
  ◌++◌, arith, length, Option-cases, Bool-cases, ◌==◌, get_elem?-some,
}
use chain_db.Base.Bytes.{Bytes, concat}
use chain_db.Platform.{Platform, IsPlatform, IsReliable}
use chain_db.Crypto.Data.{IsData, hash_length, nonce_length}
use chain_db.Crypto.Sha256.Digest.{get_hash_total, get_hash_n_lem}
use chain_db.Crypto.Secp256k1.{create_public_key, get_signature}
use chain_db.Storage.Block.{Container, generate_nonce}
use chain_db.Storage.Chain.Header.{Header, IsHeader}
use chain_db.Storage.Chain
use chain_db.Storage.Chain.Append.{counted}
use chain_db.Storage.Chain.Holds.{Holds, Holds-same, Shows-IsHeader}
use chain_db.Storage.Chain.Gets.{numbered, get_header_ready, get_block_ready}
use chain_db.Storage.Chain.Frames.{content-get_header, locked-get_header, locked-get_block}
use chain_db.Storage.Chain.Succeeds.{add_block_ready}
use chain_db.Storage.Manager.Paths.{make_storage_path}
use chain_db.Storage.Manager.{previous_hash, make_block, store_block, add_block}
use chain_db.Storage.Manager.Linked.{genesis, tip}
use chain_db.Storage.Manager.Made.{KeyPair, IsNext}
use chain_db.Storage.Manager.Adds.{
  Outcome, from_nonce, from_header, add_block-Outcome, content-previous_hash,
}

module _ (P : Platform) (L : IsPlatform P) (S : IsReliable P L) (dir : Bytes) where
  get_signature_ready :
      (h : Header) (body : Bytes)
      → IsHeader h
      → KeyPair P L h
      → IsData hash_length body
      → (s : Bytes) × (get_signature P.curve body h.private_key ≡ some s)
  unfolding get_signature create_public_key
  get_signature_ready h body v keys sized =
      elim (Option-cases (P.curve.pubkey_create h.private_key)) [
        | inl n ↦ absurd (ground arith)
        | inr (k, n) ↦
            let (s, b, e, f) = S.curve.signs body h.private_key k sized v.private_key_size n in
            (b, rw (e, get_signature) f)
      ]

  make_block_ready :
      (h : Header) (prev nonce payload : Bytes)
      → IsHeader h
      → KeyPair P L h
      → (b : Container) × (make_block P dir h prev nonce payload ≡ some b)
  unfolding make_block
  make_block_ready h prev nonce payload v keys =
      let body = get_hash_total P.sha L.sha S.sha (prev ∷ nonce ∷ payload ∷ []) in
      let (s, signed) =
        get_signature_ready h (L.sha.digest (concat (prev ∷ nonce ∷ payload ∷ []))) v keys
          (L.sha.length-digest _) in
      let whole = get_hash_total P.sha L.sha S.sha (prev ∷ nonce ∷ payload ∷ s ∷ []) in
      (
        record {
          hash = L.sha.digest (concat (prev ∷ nonce ∷ payload ∷ s ∷ []));
          prev_hash = prev;
          nonce = nonce;
          payload = payload;
          signature = s;
        },
        rw (body, make_block) (rw (signed, make_block) (rw (whole, make_block) refl)),
      )

  module _ (path payload : Bytes) (h : Header) (bs : List Container) (keys : KeyPair P L h)
      (room : suc (length bs) < 2 ^ 64) where
    store_block_ready :
        (w : P.World) (b : Container)
        → Holds P L w path h bs
        → L.engine.locked w path ≡ false
        → (store_block P dir path (some b) w).0 ≡ some b
    unfolding store_block
    store_block_ready w b k free = rw (add_block_ready P L S path b h bs w k free, store_block) refl

    last_there :
        (n : ℕ) → n ≡ length bs → (n == 0) ≡ false → (b : Container) × (numbered bs n ≡ some b)
    last_there zero e m = absurd (ground arith)
    last_there (suc n) e m = get_elem?-some bs n (omega arith)

    previous_hash_ready :
        (w : P.World)
        → Holds P L w path h bs
        → L.engine.locked w path ≡ false
        → (b : Bytes) × ((previous_hash P dir path h w).0 ≡ some b)
    unfolding previous_hash
    previous_hash_ready w k free = elim (Bool-cases (h.index == 0)) [
      | inl zero_index ↦ (
        genesis P L h,
        rw (zero_index, previous_hash)
            (get_hash_n_lem P.sha L.sha S.sha (h.payload ∷ h.private_key ∷ h.public_key ∷ []) 2
              (omega arith) (omega arith)),
      )
      | inr more ↦
          let (b, there) = last_there h.index k.shows.index_eq more in
          let read = get_block_ready P L path h bs S.engine w k free h.index ∙ there in
          (b.hash, rw (more, previous_hash) (rw read refl))
    ]

    locked-previous_hash :
        (w : P.World) (q : Bytes)
        → L.engine.locked (previous_hash P dir path h w).1 q ≡ L.engine.locked w q
    unfolding previous_hash
    locked-previous_hash w q = elim (Bool-cases (h.index == 0)) [
      | inl zero_index ↦ rw (zero_index, previous_hash) refl
      | inr more ↦
          rw (more, previous_hash)
            (elim (Option-cases (Chain.get_block P path h.index w).0) [
              | inl n ↦ rw n (locked-get_block P L path h.index w q)
              | inr (b, n) ↦ rw n (locked-get_block P L path h.index w q)
            ])
    ]

    from_nonce_ready :
        (w : P.World) (prev : Bytes)
        → Holds P L w path h bs
        → L.engine.locked w path ≡ false
        → (b : Container) × ((from_nonce P L dir path payload h bs keys room prev w).0 ≡ some b)
    unfolding generate_nonce
    from_nonce_ready w prev k free = elim (Option-cases (P.rng.rand_bytes nonce_length w).0) [
      | inl n ↦ absurd (S.rng.bytes_ok nonce_length w n)
      | inr (nonce, n) ↦
          let v = Shows-IsHeader P k.table h bs k.shows L.codec in
          let (b, made) = make_block_ready h prev nonce payload v keys in
          let k' = Holds-same P L path h bs w _ (L.rng.keeps nonce_length w path) k in
          (
            b,
            rw n
                (rw made (store_block_ready _ b k' (L.rng.keeps_locks nonce_length w path ∙ free))),
          )
    ]

    from_header_ready :
        (w : P.World)
        → Holds P L w path h bs
        → L.engine.locked w path ≡ false
        → (b : Container) × ((from_header P L dir path payload h bs keys room w).0 ≡ some b)
    from_header_ready w k free =
        let (prev, n) = previous_hash_ready w k free in
        let k' =
          Holds-same P L path h bs w _
            (content-previous_hash P L dir path payload h bs keys room w path) k in
        let (b, e) = from_nonce_ready _ prev k' (locked-previous_hash w path ∙ free) in (b, rw n e)

  returned_block :
      (path payload : Bytes) (h : Header) (bs : List Container) (w : P.World) (r : Option Container)
      (b : Container)
      → r ≡ some b
      → Outcome P L path h bs payload r w
      → IsNext P L h (tip P L (genesis P L h) bs) payload b
        × Holds P L w path (counted h) (bs ++ b ∷ [])
  returned_block path payload h bs w r b e (inl (n, k)) = absurd (cc (e, n))
  returned_block path payload h bs w r b e (inr (c, next, inr n, k)) = absurd (cc (e, n))
  returned_block path payload h bs w r b e (inr (c, next, inl n, k)) =
      let same : c ≡ b = some-injective c b (sym n ∙ e) in
      subst
        (λ x.
          IsNext P L h (tip P L (genesis P L h) bs) payload x
          × Holds P L w path (counted h) (bs ++ x ∷ []))
        same (next, k)

  -- When neither the disk nor a library fails, `addBlock` of the manager, on a stored chain of
  -- fewer than 2^64 - 1 blocks whose public key is made from its private key and whose database
  -- is not open, returns a block that holds the given data, is signed, and is hashed over the
  -- last hash, and that block stands at the end of the chain afterwards.
  pub add_block_succeeds :
      (payload : Bytes) (id : ℕ) (w : P.World) (h : Header) (bs : List Container)
      → KeyPair P L h
      → suc (length bs) < 2 ^ 64
      → Holds P L w (make_storage_path dir id) h bs
      → L.engine.locked w (make_storage_path dir id) ≡ false
      → (b : Container) × ((add_block P dir id payload w).0 ≡ some b)
        × IsNext P L h (tip P L (genesis P L h) bs) payload b
        × Holds P L
            (add_block P dir id payload w).1
            (make_storage_path dir id)
            (counted h)
            (bs ++ b ∷ [])
  unfolding add_block
  add_block_succeeds payload id w h bs keys room k free =
      let path = make_storage_path dir id in
      let k' = Holds-same P L path h bs w _ (content-get_header P L path w path) k in
      let (b, e) =
        from_header_ready path payload h bs keys room _ k'
          (locked-get_header P L path w path ∙ free) in
      let answer : (add_block P dir id payload w).0 ≡ some b =
        rw (get_header_ready P L path h bs S.engine w k free, add_block) e in
      let (next, now) =
        returned_block path payload h bs _ _ b answer
          (add_block-Outcome P L dir payload id w h bs keys room k) in
      (b, answer, next, now)
