-- ===== src/Storage/Manager/Adds.antt =====
-- Manager.cpp, `addBlock`: its outcomes on a stored chain.
use mathlib.Core.Option.{some-injective, none-ne-some}
use chain_db.Base.{
  ℕ, suc, ◌^◌, ◌<◌, ◌≡◌, refl, ap, sym, subst, ◌∙◌, ◌⊎◌, inl, inr, Option, none, some, List, [],
  ◌∷◌, ◌++◌, arith, length, All, Option-cases, Bool-cases, ◌==◌,
}
use chain_db.Base.Bytes.{Bytes}
use chain_db.Base.Action.{◌>>=◌}
use chain_db.Platform.{Platform, IsPlatform}
use chain_db.Crypto.Data.{IsData, hash_length, nonce_length}
use chain_db.Storage.Block.{Container, IsContainer, generate_nonce}
use chain_db.Storage.Chain.Header.{Header}
use chain_db.Storage.Chain
use chain_db.Storage.Chain.Append.{counted}
use chain_db.Storage.Chain.Reads.{AtMost}
use chain_db.Storage.Chain.Holds.{Holds, Holds-same, Shows-IsContainer, Shows-IsHeader}
use chain_db.Storage.Chain.Gets.{numbered, get_header-AtMost, get_block-AtMost}
use chain_db.Storage.Chain.Frames.{content-get_header, content-get_block}
use chain_db.Storage.Chain.Adds.{add_block-Added}
use chain_db.Storage.Manager.Paths.{make_storage_path}
use chain_db.Storage.Manager.{header_hash, previous_hash, make_block, store_block, add_block}
use chain_db.Storage.Manager.Linked.{genesis, tip}
use chain_db.Storage.Manager.Verified.{header_hash-genesis}
use chain_db.Storage.Manager.Made.{KeyPair, IsNext, make_block-IsNext}

module _ (P : Platform) (L : IsPlatform P) where
  -- What `addBlock` can return, and leave at the chain's path.
  abbrev pub Outcome : Bytes → Header → List Container → Bytes → Option Container → P.World → Type 0
  Outcome path h bs payload r w =
      ((r ≡ none) × Holds P L w path h bs)
      ⊎ ((b : Container) × IsNext P L h (tip P L (genesis P L h) bs) payload b
          × ((r ≡ some b) ⊎ (r ≡ none))
          × Holds P L w path (counted h) (bs ++ b ∷ []))

  module _ (dir : Bytes) (path payload : Bytes) (h : Header) (bs : List Container)
      (keys : KeyPair P L h) (room : suc (length bs) < 2 ^ 64) where
    store_block-Outcome :
        (w : P.World) (block : Option Container)
        → Holds P L w path h bs
        → ((b : Container) → block ≡ some b → IsNext P L h (tip P L (genesis P L h) bs) payload b)
        → Outcome path h bs payload
            (store_block P dir path block w).0
            (store_block P dir path block w).1
    unfolding store_block
    store_block-Outcome w none k next = inl (refl, k)
    store_block-Outcome w (some b) k next =
        elim (add_block-Added P L path b (next b refl).sized h bs room w k) [
          | inl (ok, m) ↦ rw (ok, store_block) (inr (b, next b refl, inl refl, m))
          | inr (failed, inl m) ↦ rw (failed, store_block) (inl (refl, m))
          | inr (failed, inr m) ↦ rw (failed, store_block) (inr (b, next b refl, inr refl, m))
        ]

    tip-last :
        (prev : Bytes) (cs : List Container) (b : Container)
        → numbered cs (length cs) ≡ some b
        → tip P L prev cs ≡ b.hash
    tip-last prev [] b e = absurd (none-ne-some b e)
    tip-last prev (c ∷ []) b e = ap (λ d. d.hash) (some-injective c b e)
    tip-last prev (c ∷ d ∷ cs) b e = tip-last c.hash (d ∷ cs) b e

    tip-empty : (prev : Bytes) (cs : List Container) → length cs ≡ 0 → tip P L prev cs ≡ prev
    tip-empty prev [] e = refl
    tip-empty prev (c ∷ cs) e = absurd (omega arith)

    pub tip-IsData :
        (prev : Bytes) (cs : List Container)
        → IsData hash_length prev
        → All IsContainer cs
        → IsData hash_length (tip P L prev cs)
    tip-IsData prev [] l v = l
    tip-IsData prev (c ∷ cs) l v = tip-IsData c.hash cs v.0.hash_size v.1

    last_eq :
        (w : P.World)
        → Holds P L w path h bs
        → (b : Container) → (Chain.get_block P path h.index w).0 ≡ some b
        → numbered bs (length bs) ≡ some b
    last_eq w k b n = elim (get_block-AtMost P L path h bs w h.index k) [
      | inl m ↦ cc (n, m)
      | inr m ↦ ap (numbered bs) (sym k.shows.index_eq) ∙ sym m ∙ n
    ]

    -- The hash that `addBlock` puts a block after is that of the last block, or of the header.
    pub previous_hash-AtMost :
        (w : P.World)
        → Holds P L w path h bs
        → AtMost (previous_hash P dir path h w).0 (some (tip P L (genesis P L h) bs))
    unfolding previous_hash
    previous_hash-AtMost w k = elim (Bool-cases (h.index == 0)) [
      | inl zero_index ↦
          rw (zero_index, previous_hash)
            (rw (tip-empty (genesis P L h) bs (ground (arith, k.shows.index_eq)))
              (elim (Option-cases (header_hash P h)) [
                | inl n ↦ inl n
                | inr (b, n) ↦ inr (n ∙ ap some (header_hash-genesis P L h b n))
              ]))
      | inr more ↦
          rw (more, previous_hash)
            (elim (Option-cases (Chain.get_block P path h.index w).0) [
              | inl n ↦ rw n (inl refl)
              | inr (b, n) ↦
                  rw n (inr (ap some (sym (tip-last (genesis P L h) bs b (last_eq w k b n)))))
            ])
    ]

    pub content-previous_hash :
        (w : P.World) (q : Bytes)
        → L.engine.content (previous_hash P dir path h w).1 q ≡ L.engine.content w q
    unfolding previous_hash
    content-previous_hash w q = elim (Bool-cases (h.index == 0)) [
      | inl zero_index ↦ rw (zero_index, previous_hash) refl
      | inr more ↦
          rw (more, previous_hash)
            (elim (Option-cases (Chain.get_block P path h.index w).0) [
              | inl n ↦ rw n (content-get_block P L path h.index w q)
              | inr (b, n) ↦ rw n (content-get_block P L path h.index w q)
            ])
    ]

    Outcome-same :
        (r : Option Container) (w v : P.World)
        → r ≡ none
        → L.engine.content v path ≡ L.engine.content w path
        → Holds P L w path h bs
        → Outcome path h bs payload r v
    Outcome-same r w v n same k = inl (n, Holds-same P L path h bs w v same k)

    abbrev pub from_nonce : Bytes → P.World → Option Container × P.World
    from_nonce prev = do
      nonce ← generate_nonce P.rng
      store_block P dir path (make_block P dir h prev nonce payload)

    abbrev pub from_header : P.World → Option Container × P.World
    from_header = do prev ← previous_hash P dir path h; from_nonce prev

    from_nonce-Outcome :
        (w : P.World) (prev : Bytes)
        → Holds P L w path h bs
        → prev ≡ tip P L (genesis P L h) bs
        → Outcome path h bs payload (from_nonce prev w).0 (from_nonce prev w).1
    unfolding generate_nonce
    from_nonce-Outcome w prev k at_tip =
        let same = L.rng.keeps nonce_length w path in
        let v = Shows-IsHeader P k.table h bs k.shows L.codec in
        let sized =
          tip-IsData (genesis P L h) bs (L.sha.length-digest _)
            (Shows-IsContainer P k.table h bs k.shows) in
        elim (Option-cases (P.rng.rand_bytes nonce_length w).0) [
          | inl n ↦ rw n (Outcome-same none w _ refl same k)
          | inr (nonce, n) ↦ rw n (
              store_block-Outcome _ _ (Holds-same P L path h bs w _ same k) (λ b made.
                subst (λ p. IsNext P L h p payload b) at_tip
                  (make_block-IsNext P L dir h prev nonce payload b v keys (rw at_tip sized)
                    (L.rng.size nonce_length w nonce n) made)))
        ]

    from_header-Outcome :
        (w : P.World)
        → Holds P L w path h bs
        → Outcome path h bs payload (from_header w).0 (from_header w).1
    from_header-Outcome w k =
        let same = content-previous_hash w path in
        elim (previous_hash-AtMost w k) [
          | inl n ↦ rw n (Outcome-same none w _ refl same k)
          | inr n ↦ rw n (from_nonce-Outcome _ _ (Holds-same P L path h bs w _ same k) refl)
        ]

  -- `addBlock` of the manager, on a stored chain of fewer than 2^64 - 1 blocks whose public key
  -- is made from its private key: either it fails and the chain is unchanged; or one well-sized
  -- block that holds the given data, is signed, and is hashed over the last hash stands at the
  -- end of the chain, and the call returns that block or fails to report it.
  pub add_block-Outcome :
      (dir payload : Bytes) (id : ℕ) (w : P.World) (h : Header) (bs : List Container)
      → KeyPair P L h
      → suc (length bs) < 2 ^ 64
      → Holds P L w (make_storage_path dir id) h bs
      → Outcome
          (make_storage_path dir id)
          h
          bs
          payload
          (add_block P dir id payload w).0
          (add_block P dir id payload w).1
  unfolding add_block
  add_block-Outcome dir payload id w h bs keys room k =
      let path = make_storage_path dir id in
      let same = content-get_header P L path w path in
      elim (get_header-AtMost P L path h bs w k) [
        | inl n ↦
            rw (n, add_block) (Outcome-same dir path payload h bs keys room none w _ refl same k)
        | inr n ↦
            rw (n, add_block)
              (from_header-Outcome dir path payload h bs keys room _
                (Holds-same P L path h bs w _ same k))
      ]
