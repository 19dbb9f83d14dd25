-- ===== src/Storage/Manager/Frames.antt =====
-- Manager.cpp: the locks and the databases of other chains, under each method.
use chain_db.Base.{ℕ, ◌≡◌, ◌≢◌, refl, ◌∙◌, Bool, Option, none, some, []}
use chain_db.Base.Action.{lift, require}
use chain_db.Platform.Engine.{Table}
use chain_db.Base.Bytes.{Bytes}
use chain_db.Base.Leaves.{
  Leaves, Leaves-bind, Leaves-lift, Leaves-done, Leaves-require, leaves_rules,
}
use chain_db.Platform.{Platform, IsPlatform}
use chain_db.Crypto.Data.{private_key_length, nonce_length}
use chain_db.Crypto.Secp256k1.{generate_private_key, create_public_key}
use chain_db.Storage.Block.{Container, generate_nonce}
use chain_db.Storage.Chain.Header.{Header}
use chain_db.Storage.Chain
use chain_db.Storage.Chain.Endings.{content-create, locked-create}
use chain_db.Storage.Chain.Frames.{
  content-get_header, content-get_block, content-get_blocks, content-remove, locked-get_header,
  locked-get_block, locked-get_blocks, locked-remove,
}
use chain_db.Storage.Chain.Frames
use chain_db.Storage.Manager.Paths.{make_storage_path}
use chain_db.Storage.Manager.{
  create_chain, previous_hash, store_block, add_block, verify_after, verify_chain,
}

module _ (P : Platform) {B : Type 0} (f : P.World → B) (nonce : Leaves f (generate_nonce P.rng))
    (dir : Bytes) (id : ℕ) (header : Leaves f (Chain.get_header P (make_storage_path dir id)))
    (block : (i : ℕ) → Leaves f (Chain.get_block P (make_storage_path dir id) i))
    (add : (b : Container) → Leaves f (Chain.add_block P (make_storage_path dir id) b)) where
  Leaves-previous_hash : (h : Header) → Leaves f (previous_hash P dir (make_storage_path dir id) h)
  unfolding previous_hash
  Leaves-previous_hash h = search (leaves_rules, block)

  Leaves-store_block :
      (b : Option Container) → Leaves f (store_block P dir (make_storage_path dir id) b)
  unfolding store_block
  Leaves-store_block b = search (leaves_rules, add)

  pub Leaves-add_block : (payload : Bytes) → Leaves f (add_block P dir id payload)
  unfolding add_block
  Leaves-add_block payload =
      Leaves-bind (Chain.get_header P (make_storage_path dir id)) _ header (λ h.
        Leaves-bind (previous_hash P dir (make_storage_path dir id) h) _ (Leaves-previous_hash h)
          (λ prev. Leaves-bind (generate_nonce P.rng) _ nonce (λ n. Leaves-store_block _)))

module _ (P : Platform) {B : Type 0} (f : P.World → B)
    (rng : Leaves f (generate_private_key P.curve P.rng)) (dir : Bytes) (id : ℕ)
    (create : (payload private_key public_key : Bytes)
      → Leaves f (Chain.create P (make_storage_path dir id) payload private_key public_key)) where
  pub Leaves-create_chain : (payload : Bytes) → Leaves f (create_chain P dir id payload)
  unfolding create_chain
  Leaves-create_chain payload =
      Leaves-bind (generate_private_key P.curve P.rng) _ rng (λ private_key.
        Leaves-bind (lift (create_public_key P.curve private_key)) _ (Leaves-lift _) (λ public_key.
          Leaves-bind (Chain.create P (make_storage_path dir id) payload private_key public_key) _
            (create payload private_key public_key) (λ _. Leaves-done _)))

module _ (P : Platform) {B : Type 0} (f : P.World → B) (dir : Bytes) (id : ℕ)
    (header : Leaves f (Chain.get_header P (make_storage_path dir id)))
    (blocks : Leaves f (Chain.get_blocks P (make_storage_path dir id) [])) where
  Leaves-verify_after : (h : Option Header) → Leaves f (verify_after P dir id h)
  unfolding verify_after
  Leaves-verify_after none = record { at = λ w. refl }
  Leaves-verify_after (some h) = record { at = blocks.at }

  pub Leaves-verify_chain : Leaves f (verify_chain P dir id)
  unfolding verify_chain
  Leaves-verify_chain = record { at = λ w. (Leaves-verify_after _).at _ ∙ header.at w }

module _ (P : Platform) (L : IsPlatform P) where
  pub Leaves-private_key :
      {B : Type 0} (f : P.World → B)
      → ((n : ℕ) (w : P.World) → f (P.rng.rand_priv_bytes n w).1 ≡ f w)
      → Leaves f (generate_private_key P.curve P.rng)
  unfolding generate_private_key
  Leaves-private_key f same =
      Leaves-bind (P.rng.rand_priv_bytes private_key_length) _
        (record { at = same private_key_length })
        (λ key.
          Leaves-bind (require (P.curve.seckey_verify key)) _ (Leaves-require _)
            (λ _. Leaves-done _))

  pub Leaves-nonce :
      {B : Type 0} (f : P.World → B)
      → ((n : ℕ) (w : P.World) → f (P.rng.rand_bytes n w).1 ≡ f w)
      → Leaves f (generate_nonce P.rng)
  unfolding generate_nonce
  Leaves-nonce f same = record { at = same nonce_length }

  module _ (dir : Bytes) (id : ℕ) (q : Bytes) where
    abbrev path : Bytes
    path = make_storage_path dir id

    abbrev lock : P.World → Bool
    lock w = L.engine.locked w q

    abbrev table : P.World → Option Table
    table w = L.engine.content w q

    pub locked-add_block : (payload : Bytes) → Leaves lock (add_block P dir id payload)
    locked-add_block =
        Leaves-add_block P lock (Leaves-nonce lock (λ n w. L.rng.keeps_locks n w q)) dir id
          (record { at = λ w. locked-get_header P L path w q })
          (λ i. record { at = λ w. locked-get_block P L path i w q })
          (λ b. record { at = λ w. Frames.locked-add_block P L path b w q })

    pub locked-create_chain : (payload : Bytes) → Leaves lock (create_chain P dir id payload)
    locked-create_chain =
        Leaves-create_chain P lock (Leaves-private_key lock (λ n w. L.rng.priv_keeps_locks n w q))
          dir id (λ payload a b. record { at = λ w. locked-create P L path payload a b w q })

    pub locked-verify_chain : Leaves lock (verify_chain P dir id)
    locked-verify_chain =
        Leaves-verify_chain P lock dir id (record { at = λ w. locked-get_header P L path w q })
          (record { at = λ w. locked-get_blocks P L path [] w q })

    pub content-verify_chain : Leaves table (verify_chain P dir id)
    content-verify_chain =
        Leaves-verify_chain P table dir id (record { at = λ w. content-get_header P L path w q })
          (record { at = λ w. content-get_blocks P L path [] w q })

    module _ (other : path ≢ q) where
      pub content-add_block : (payload : Bytes) → Leaves table (add_block P dir id payload)
      content-add_block =
          Leaves-add_block P table (Leaves-nonce table (λ n w. L.rng.keeps n w q)) dir id
            (record { at = λ w. content-get_header P L path w q })
            (λ i. record { at = λ w. content-get_block P L path i w q })
            (λ b. record { at = λ w. Frames.content-add_block P L path b w q other })

      pub content-create_chain : (payload : Bytes) → Leaves table (create_chain P dir id payload)
      content-create_chain =
          Leaves-create_chain P table (Leaves-private_key table (λ n w. L.rng.priv_keeps n w q)) dir
            id (λ payload a b. record { at = λ w. content-create P L path payload a b w q other })
