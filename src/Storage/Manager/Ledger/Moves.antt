-- ===== src/Storage/Manager/Ledger/Moves.antt =====
-- Manager.cpp: `createChain` and `addBlock` as steps between the states of a chain.
use chain_db.Base.{
  ℕ, suc, ◌^◌, ◌<◌, ◌≡◌, refl, sym, ap, ◌∙◌, inl, inr, Bool, false, is_some, Option, none, some,
  List, [], ◌∷◌, ◌++◌, arith, length-append, map-append, Option-cases,
}
use chain_db.Base.Bytes.{Bytes}
use chain_db.Platform.{Platform, IsPlatform}
use chain_db.Platform.Engine.{empty_table}
use chain_db.Crypto.Secp256k1.{generate_private_key, create_public_key}
use chain_db.Crypto.Secp256k1.Signing.{create_public_key-IsData}
use chain_db.Crypto.Data.{IsData, private_key_length}
use chain_db.Storage.Block.{Container}
use chain_db.Storage.Chain
use chain_db.Storage.Chain.Append.{counted}
use chain_db.Storage.Chain.Endings.{new_header}
use chain_db.Storage.Chain.Creates.{create-Holds, create-fresh, create-occupied}
use chain_db.Storage.Manager.{create_chain, add_block}
use chain_db.Storage.Manager.Paths.{make_storage_path}
use chain_db.Storage.Manager.Frames.{Leaves-private_key}
use chain_db.Storage.Manager.Linked.{genesis, Linked-append}
use chain_db.Storage.Manager.Adds.{Outcome, add_block-Outcome}
use chain_db.Storage.Manager.History.{
  get_header-absent, get_header-headless, content-add_headless, generate_private_key-IsData,
}
use chain_db.Storage.Manager.Runs.{Call, creates, adds}
use chain_db.Storage.Manager.Ledger.Failures.{State, absent, unfinished, chain, Grows, May}
use chain_db.Storage.Manager.Ledger.States.{
  Standing, Stands, Stands-same, Stands-more, table_of, absent_of, fresh-Standing,
}

module _ (P : Platform) (L : IsPlatform P) where
  -- `s` became `t`, in the world `v`.
  abbrev pub Moves : ℕ → Call → Bool → State → P.World → Bytes → Type 0
  Moves n call ok s v path = (t : State) × May call ok s t × Stands P L n t v path

  module _ (dir : Bytes) where
    -- What `create` of a chain leaves, once there are keys.
    created-Moves :
        (n id : ℕ) (payload key public : Bytes) (s : State) (w : P.World)
        → IsData private_key_length key
        → create_public_key P.curve key ≡ some public
        → Stands P L n s w (make_storage_path dir id)
        → let r = Chain.create P (make_storage_path dir id) payload key public w in
          Moves n (creates id payload) (is_some r.0) s r.1 (make_storage_path dir id)
    created-Moves n id payload key public s w sized keys k =
        let path = make_storage_path dir id in
        let sized' = create_public_key-IsData P.curve L.curve key public keys in
        let h = new_header P L path payload key public w in
        elim (table_of P L n s w path k) [
          | inr (t, there) ↦
              let (refused, kept) = create-occupied P L path payload key public w t there in
              rw refused (s, inl refl, Stands-same P L n s w _ path (kept ∙ sym there) k)
          | inl e ↦ elim (Option-cases (Chain.create P path payload key public w).0) [
            | inr (u, done) ↦
                let (_, holds) = create-Holds P L path payload key public w sized sized' done in
                rw done (
                  chain payload [],
                  (e, refl),
                  fresh-Standing P L n _ path payload h holds keys refl,
                )
            | inl failed ↦
                elim (create-fresh P L path payload key public w sized sized'
                  (absent_of P L n s w path e k)) [
                    | inl blank ↦ rw failed (absent, inl (sym e), blank)
                    | inr (inl begun) ↦ rw failed (
                      unfinished,
                      inr (e, inl refl),
                      record { table = empty_table; at = begun; headless = refl },
                    )
                    | inr (inr holds) ↦ rw failed (
                      chain payload [],
                      inr (e, inr refl),
                      fresh-Standing P L n _ path payload h holds keys refl,
                    )
                  ]
          ]
        ]

    same-Moves :
        (n id : ℕ) (payload : Bytes) (s : State) (w v : P.World)
        → L.engine.content v (make_storage_path dir id)
          ≡ L.engine.content w (make_storage_path dir id)
        → Stands P L n s w (make_storage_path dir id)
        → Moves n (creates id payload) false s v (make_storage_path dir id)
    same-Moves n id payload s w v e k = (s, inl refl, Stands-same P L n s w v _ e k)

    pub create_chain-Moves :
        (n id : ℕ) (payload : Bytes) (s : State) (w : P.World)
        → Stands P L n s w (make_storage_path dir id)
        → Moves n
            (creates id payload)
            (is_some (create_chain P dir id payload w).0)
            s
            (create_chain P dir id payload w).1
            (make_storage_path dir id)
    unfolding create_chain
    create_chain-Moves n id payload s w k =
        let path = make_storage_path dir id in
        let w₁ = (generate_private_key P.curve P.rng w).1 in
        let same =
          (Leaves-private_key P L (λ v. L.engine.content v path)
              (λ n v. L.rng.priv_keeps n v path)).at
            w in
        elim (Option-cases (generate_private_key P.curve P.rng w).0) [
          | inl e ↦ rw (e, create_chain) (same-Moves n id payload s w w₁ same k)
          | inr (key, e) ↦ elim (Option-cases (create_public_key P.curve key)) [
            | inl f ↦ rw (e, create_chain) (rw f (same-Moves n id payload s w w₁ same k))
            | inr (public, f) ↦
                let made =
                  created-Moves n id payload key public s w₁
                    (generate_private_key-IsData P L dir w key e) f
                    (Stands-same P L n s w w₁ path same k) in
                rw (e, create_chain)
                  (rw f (elim (Option-cases (Chain.create P path payload key public w₁).0) [
                    | inl g ↦ rw g (rw g at made)
                    | inr (u, g) ↦ rw g (rw g at made)
                  ]))
          ]
        ]

    Outcome-Moves :
        (n id : ℕ) (payload origin : Bytes) (texts : List Bytes) (w v : P.World)
        (r : Option Container) (k : Standing P L n origin texts w (make_storage_path dir id))
        → Outcome P L (make_storage_path dir id) k.stored.header k.stored.blocks payload r v
        → Moves
            (suc n)
            (adds id payload)
            (is_some r)
            (chain origin texts)
            v
            (make_storage_path dir id)
    Outcome-Moves n id payload origin texts w v r k (inl (failed, holds)) = rw failed (
      chain origin texts,
      inl refl,
      record {
        stored = record {
          header = k.stored.header;
          blocks = k.stored.blocks;
          holds = holds;
          keys = k.stored.keys;
          origin_eq = k.stored.origin_eq;
          texts_eq = k.stored.texts_eq;
          size = let m = k.stored.size in omega arith;
        };
        linked = k.linked;
      },
    )
    Outcome-Moves n id payload origin texts w v r k (inr (b, next, told, holds)) =
        let grown : Stands P L (suc n) (chain origin (texts ++ payload ∷ [])) v
            (make_storage_path dir id) =
          record {
            stored = record {
              header = counted k.stored.header;
              blocks = k.stored.blocks ++ b ∷ [];
              holds = holds;
              keys = k.stored.keys;
              origin_eq = k.stored.origin_eq;
              texts_eq =
                  map-append (λ c. c.payload) k.stored.blocks (b ∷ [])
                  ∙ ap (λ xs. xs ++ b.payload ∷ []) k.stored.texts_eq
                  ∙ ap (λ x. texts ++ x ∷ []) next.payload_eq;
              size = let m = k.stored.size in omega (arith, length-append k.stored.blocks (b ∷ []));
            };
            linked =
                Linked-append P L k.stored.header.public_key (genesis P L k.stored.header)
                  k.stored.blocks b k.linked next.link;
          } in
        let grows : Grows payload (chain origin texts) (chain origin (texts ++ payload ∷ [])) =
          (origin, texts, refl, refl) in
        elim told [
          | inl e ↦ rw e (chain origin (texts ++ payload ∷ []), grows, grown)
          | inr e ↦ rw e (chain origin (texts ++ payload ∷ []), inr grows, grown)
        ]

    headless-none :
        (id : ℕ) (payload : Bytes) (w : P.World)
        → (Chain.get_header P (make_storage_path dir id) w).0 ≡ none
        → (add_block P dir id payload w).0 ≡ none
    unfolding add_block
    headless-none id payload w e = rw (e, add_block) refl

    headless-Moves :
        (n id : ℕ) (payload : Bytes) (s : State) (w : P.World)
        → (Chain.get_header P (make_storage_path dir id) w).0 ≡ none
        → Stands P L n s w (make_storage_path dir id)
        → Moves
            (suc n)
            (adds id payload)
            (is_some (add_block P dir id payload w).0)
            s
            (add_block P dir id payload w).1
            (make_storage_path dir id)
    headless-Moves n id payload s w e k = rw (headless-none id payload w e) (
      s,
      inl refl,
      Stands-more P L n s _ _
          (Stands-same P L n s w _ _ (content-add_headless P L dir id payload w e) k),
    )

    pub add_block-Moves :
        (n id : ℕ) (payload : Bytes) (s : State) (w : P.World)
        → suc n < 2 ^ 64
        → Stands P L n s w (make_storage_path dir id)
        → Moves
            (suc n)
            (adds id payload)
            (is_some (add_block P dir id payload w).0)
            s
            (add_block P dir id payload w).1
            (make_storage_path dir id)
    add_block-Moves n id payload absent w room k =
        headless-Moves n id payload absent w (get_header-absent P L w _ k) k
    add_block-Moves n id payload unfinished w room k =
        headless-Moves n id payload unfinished w (get_header-headless P L w _ k) k
    add_block-Moves n id payload (chain origin texts) w room k =
        Outcome-Moves n id payload origin texts w _ _ k (
          add_block-Outcome P L dir payload id w k.stored.header k.stored.blocks k.stored.keys
            (let m = k.stored.size in omega arith) k.stored.holds)
