-- ===== src/Storage/Manager/History.antt =====
-- Manager.cpp: `addBlock` and `createChain` as steps between the states of a path that they lead
-- to.
use chain_db.Base.{
  ℕ, suc, ◌^◌, ◌<◌, ◌≤◌, ◌≡◌, refl, ap, sym, ◌∙◌, inl, inr, Option, none, some, List, [], ◌∷◌, ◌++◌,
  arith, length, length-append, Option-cases, Bool-cases,
}
use chain_db.Base.Bytes.{Bytes}
use chain_db.Base.Action.{reading}
use chain_db.Platform.{Platform, IsPlatform}
use chain_db.Platform.Engine.{empty_table}
use chain_db.Crypto.Data.{IsData, private_key_length}
use chain_db.Crypto.Secp256k1.{generate_private_key, create_public_key}
use chain_db.Crypto.Secp256k1.Signing.{create_public_key-IsData}
use chain_db.Storage.Block.{Container}
use chain_db.Storage.Storage.Scope.{opened_cases}
use chain_db.Storage.Chain.Header.{Header}
use chain_db.Storage.Chain
use chain_db.Storage.Chain.Append.{counted}
use chain_db.Storage.Chain.Reads.{read_header-AtMost}
use chain_db.Storage.Chain.Endings.{new_header}
use chain_db.Storage.Chain.Creates.{create-fresh, create-keeps}
use chain_db.Storage.Chain.Frames.{content-get_header}
use chain_db.Storage.Manager.Paths.{make_storage_path}
use chain_db.Storage.Manager.{create_chain, add_block}
use chain_db.Base.Leaves.{Leaves}
use chain_db.Storage.Manager.Frames.{Leaves-private_key}
use chain_db.Storage.Manager.Soundness.{Unfinished, Sound, Sound-same, Sound-more}
use chain_db.Storage.Manager.Linked.{genesis, Linked, Linked-append}
use chain_db.Storage.Manager.Made.{KeyPair}
use chain_db.Storage.Manager.Adds.{Outcome, add_block-Outcome}

module _ (P : Platform) (L : IsPlatform P) where
  -- Without a header there is nothing to read.
  pub get_header-absent :
      (w : P.World) (path : Bytes)
      → L.engine.content w path ≡ none
      → (Chain.get_header P path w).0 ≡ none
  unfolding Chain.get_header
  get_header-absent w path absent =
      opened_cases P.engine L.engine (λ r _. r ≡ none) path none
        (λ s. reading (Chain.read_header P s)) w (λ w₁ _ _ _. refl)
        (λ d w₁ o. absurd (o.present absent))

  pub get_header-headless :
      (w : P.World) (path : Bytes) → Unfinished P L w path → (Chain.get_header P path w).0 ≡ none
  unfolding Chain.get_header
  get_header-headless w path u =
      opened_cases P.engine L.engine (λ r _. r ≡ none) path none
        (λ s. reading (Chain.read_header P s)) w (λ w₁ _ _ _. refl)
        (λ d w₁ o.
          elim (read_header-AtMost P L path d w₁ u.table
            (o.same (L.engine.target d) ∙ ap (L.engine.content w) o.at ∙ u.at)) [
              | inl e ↦ e
              | inr e ↦ e ∙ u.headless
            ])

  module _ (dir : Bytes) where
    -- A call on a chain that cannot be read leaves it alone.
    pub content-add_headless :
        (id : ℕ) (payload : Bytes) (w : P.World)
        → (Chain.get_header P (make_storage_path dir id) w).0 ≡ none
        → L.engine.content (add_block P dir id payload w).1 (make_storage_path dir id)
          ≡ L.engine.content w (make_storage_path dir id)
    unfolding add_block
    content-add_headless id payload w n =
        rw (n, add_block) (content-get_header P L (make_storage_path dir id) w _)

    Outcome-Sound :
        (n : ℕ) (v : P.World) (path payload : Bytes) (r : Option Container) (h : Header)
        (bs : List Container)
        → KeyPair P L h
        → Linked P L h.public_key (genesis P L h) bs
        → length bs ≤ n
        → Outcome P L path h bs payload r v
        → Sound P L (suc n) v path
    Outcome-Sound n v path payload r h bs keys linked size (inl (_, k)) = inr (
        inr (record {
          header = h;
          blocks = bs;
          holds = k;
          keys = keys;
          linked = linked;
          size = omega arith;
        }))
    Outcome-Sound n v path payload r h bs keys linked size (inr (b, next, _, k)) = inr (
        inr (record {
          header = counted h;
          blocks = bs ++ b ∷ [];
          holds = k;
          keys = keys;
          linked = Linked-append P L h.public_key (genesis P L h) bs b linked next.link;
          size = omega (arith, length-append bs (b ∷ []));
        }))

    pub add_block-Sound :
        (n id : ℕ) (payload : Bytes) (w : P.World)
        → suc n < 2 ^ 64
        → Sound P L n w (make_storage_path dir id)
        → Sound P L (suc n) (add_block P dir id payload w).1 (make_storage_path dir id)
    add_block-Sound n id payload w room (inl absent) = Sound-more P L n _ _ (
        Sound-same P L n w _ _ (content-add_headless id payload w (get_header-absent w _ absent))
          (inl absent))
    add_block-Sound n id payload w room (inr (inl u)) = Sound-more P L n _ _ (
        Sound-same P L n w _ _ (content-add_headless id payload w (get_header-headless w _ u))
          (inr (inl u)))
    add_block-Sound n id payload w room (inr (inr c)) =
        Outcome-Sound n _ (make_storage_path dir id) payload _ c.header c.blocks c.keys c.linked
          c.size
          (add_block-Outcome P L dir payload id w c.header c.blocks c.keys
            (let k = c.size in omega arith) c.holds)

    -- What `createChain` leaves at its path, after the keys were made.
    created-Sound :
        (n id : ℕ) (payload private_key public_key : Bytes) (w : P.World)
        → IsData private_key_length private_key
        → create_public_key P.curve private_key ≡ some public_key
        → Sound P L n w (make_storage_path dir id)
        → Sound P L
            (suc n)
            (Chain.create P (make_storage_path dir id) payload private_key public_key w).1
            (make_storage_path dir id)
    created-Sound n id payload key public w sized keys s =
        let path = make_storage_path dir id in
        elim (Option-cases (L.engine.content w path)) [
          | inr (t, there) ↦ Sound-more P L n _ path (
              Sound-same P L n w _ path
                ((create-keeps P L path payload key public w path t there).0 ∙ sym there) s)
          | inl absent ↦
              elim (create-fresh P L path payload key public w sized
                (create_public_key-IsData P.curve L.curve key public keys) absent) [
                  | inl e ↦ inl e
                  | inr (inl e) ↦
                      inr (inl (record { table = empty_table; at = e; headless = refl }))
                  | inr (inr k) ↦ inr (
                      inr (record {
                        header = new_header P L path payload key public w;
                        blocks = [];
                        holds = k;
                        keys = keys;
                        linked = tt;
                        size = omega arith;
                      }))
                ]
        ]

    content-private_key :
        (q : Bytes) → Leaves (λ w. L.engine.content w q) (generate_private_key P.curve P.rng)
    content-private_key q =
        Leaves-private_key P L (λ w. L.engine.content w q) (λ n w. L.rng.priv_keeps n w q)

    pub generate_private_key-IsData :
        (w : P.World) (key : Bytes)
        → (generate_private_key P.curve P.rng w).0 ≡ some key
        → IsData private_key_length key
    unfolding generate_private_key
    generate_private_key-IsData w key e =
        elim (Option-cases (P.rng.rand_priv_bytes private_key_length w).0) [
          | inl n ↦ absurd (ground arith)
          | inr (b, n) ↦ elim (Bool-cases (P.curve.seckey_verify b)) [
            | inl ok ↦ ground (arith, L.rng.priv_size private_key_length w b)
            | inr bad ↦ absurd (ground arith)
          ]
        ]

    pub create_chain-Sound :
        (n id : ℕ) (payload : Bytes) (w : P.World)
        → Sound P L n w (make_storage_path dir id)
        → Sound P L (suc n) (create_chain P dir id payload w).1 (make_storage_path dir id)
    unfolding create_chain
    create_chain-Sound n id payload w s =
        let path = make_storage_path dir id in
        let same = (content-private_key path).at w in
        let w₁ = (generate_private_key P.curve P.rng w).1 in
        let s₁ = Sound-same P L n w w₁ path same s in
        elim (Option-cases (generate_private_key P.curve P.rng w).0) [
          | inl e ↦ rw (e, create_chain) (Sound-more P L n _ path s₁)
          | inr (key, e) ↦ elim (Option-cases (create_public_key P.curve key)) [
            | inl f ↦ rw (e, create_chain) (rw f (Sound-more P L n _ path s₁))
            | inr (public, f) ↦
                let made =
                  created-Sound n id payload key public w₁ (generate_private_key-IsData w key e) f
                    s₁ in
                rw (e, create_chain)
                  (rw f (elim (Option-cases (Chain.create P path payload key public w₁).0) [
                    | inl g ↦ rw g made
                    | inr (_, g) ↦ rw g made
                  ]))
          ]
        ]
