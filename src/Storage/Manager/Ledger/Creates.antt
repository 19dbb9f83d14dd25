-- ===== src/Storage/Manager/Ledger/Creates.antt =====
-- Manager.cpp, `createChain`, in an environment in which nothing fails.
use chain_db.Base.{ℕ, ◌≡◌, refl, ◌∙◌, inl, inr, true, false, none, some, [], Option-cases}
use chain_db.Base.Bytes.{Bytes}
use chain_db.Platform.{Platform, IsPlatform, IsReliable, MakesKeys}
use chain_db.Crypto.Data.{IsData, private_key_length}
use chain_db.Crypto.Secp256k1.{generate_private_key, create_public_key}
use chain_db.Crypto.Secp256k1.Signing.{create_public_key-IsData}
use chain_db.Storage.Chain.Header.{Header}
use chain_db.Storage.Chain.Holds.{Holds}
use chain_db.Storage.Chain.Begins.{create_ready}
use chain_db.Storage.Chain.Endings.{new_header}
use chain_db.Storage.Chain.Creates.{create-Holds}
use chain_db.Storage.Manager.{create_chain}
use chain_db.Storage.Manager.Paths.{make_storage_path}
use chain_db.Storage.Manager.Made.{KeyPair}
use chain_db.Storage.Manager.Frames.{Leaves-private_key}

module _ (P : Platform) (L : IsPlatform P) (S : IsReliable P L) (K : MakesKeys P) where
  pub private_key_ready :
      (w : P.World)
      → (key : Bytes) × ((generate_private_key P.curve P.rng w).0 ≡ some key)
        × IsData private_key_length key
        × (P.curve.seckey_verify key ≡ true)
  unfolding generate_private_key
  private_key_ready w = elim (Option-cases (P.rng.rand_priv_bytes private_key_length w).0) [
    | inl e ↦ absurd (K.priv_ok private_key_length w e)
    | inr (key, e) ↦
        let ok = K.valid w key e in
        (
          key,
          rw (e, generate_private_key) (rw ok refl),
          L.rng.priv_size private_key_length w key e,
          ok,
        )
  ]

  pub public_key_ready :
      (key : Bytes)
      → IsData private_key_length key
      → P.curve.seckey_verify key ≡ true
      → (public : Bytes) × (create_public_key P.curve key ≡ some public)
  unfolding create_public_key
  public_key_ready key sized ok = elim (Option-cases (P.curve.pubkey_create key)) [
    | inl e ↦ absurd (K.public_ok key sized ok e)
    | inr (k, e) ↦ elim (Option-cases (P.curve.pubkey_serialize k)) [
      | inl f ↦ absurd (K.written_ok key k sized e f)
      | inr (public, f) ↦ (public, rw (e, create_public_key) f)
    ]
  ]

  module _ (dir : Bytes) (id : ℕ) (payload : Bytes) (w : P.World) where
    -- The chain was created, with a key pair and without blocks.
    pub record Began (v : P.World) : Type 0 where
      pub header : Header
      pub holds : Holds P L v (make_storage_path dir id) header []
      pub keys : KeyPair P L header
      pub payload_eq : header.payload ≡ payload

    pub create_chain_ready :
        L.engine.content w (make_storage_path dir id) ≡ none
        → L.engine.locked w (make_storage_path dir id) ≡ false
        → ((create_chain P dir id payload w).0 ≡ some (make_storage_path dir id))
          × Began (create_chain P dir id payload w).1
    unfolding create_chain
    create_chain_ready absent free =
        let path = make_storage_path dir id in
        let w₁ = (generate_private_key P.curve P.rng w).1 in
        let (key, e, sized, ok) = private_key_ready w in
        let (public, f) = public_key_ready key sized ok in
        let same =
          (Leaves-private_key P L (λ v. L.engine.content v path)
              (λ n v. L.rng.priv_keeps n v path)).at
            w in
        let unlocked =
          (Leaves-private_key P L (λ v. L.engine.locked v path)
              (λ n v. L.rng.priv_keeps_locks n v path)).at
            w in
        let done =
          create_ready P L S path w₁ (same ∙ absent) (unlocked ∙ free) payload key public in
        let made =
          create-Holds P L path payload key public w₁ sized
            (create_public_key-IsData P.curve L.curve key public f) done in
        (
          rw (e, create_chain) (rw f (rw done refl)),
          rw (e, create_chain)
              (rw f (
                rw done (record {
                  header = new_header P L path payload key public w₁;
                  holds = made.1;
                  keys = f;
                  payload_eq = refl;
                }))),
        )
