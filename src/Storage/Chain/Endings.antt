-- ===== src/Storage/Chain/Endings.antt =====
-- The ways in which `create` ends, and what it leaves alone.
use chain_db.Base.{
  ◌≡◌, ◌≢◌, refl, ap, sym, subst, ◌∙◌, inl, inr, Option, none, some, [], ◌∷◌, Option-cases,
}
use chain_db.Base.Bytes.{Bytes, bytes_cases}
use chain_db.Platform.{Platform, IsPlatform}
use chain_db.Storage.Storage.{Storage, make_storage, create_options, write_options}
use chain_db.Storage.Storage
use chain_db.Storage.Chain.Header.{Header, IsHeader, make_header, db_version}
use chain_db.Storage.Chain.Header
use chain_db.Storage.Chain.Names.{header_key}
use chain_db.Storage.Chain.{write_header, create}

module _ (P : Platform) (L : IsPlatform P) where
  module _ {κ} (Q : Option (Unit {0}) → P.World → Type κ) (path : Bytes) (buffer : Bytes)
      (w : P.World) where
    abbrev opening : Option P.engine.Handle × P.World
    opening = P.engine.open_db create_options path w

    -- The ways in which `create` ends: the database cannot be made; or it is, and the header written.
    pub write_header_cases :
        (opening.0 ≡ none → Q none opening.1)
        → ((d : P.engine.Handle)
            → opening.0 ≡ some d
            → let r =
                Storage.status P.engine
                  (P.engine.write write_options d ((header_key, buffer) ∷ []) opening.1) in
              Q r.0 (P.engine.close_db d r.1))
        → Q (write_header P path buffer w).0 (write_header P path buffer w).1
    unfolding write_header Storage.create Storage.set Storage.destruct
    write_header_cases failed made = elim (Option-cases opening.0) [
      | inl e ↦ rw (e, write_header) (failed e)
      | inr (d, e) ↦ rw (e, write_header) (made d e)
    ]

  module _ (path payload private_key public_key : Bytes) (w : P.World) where
    abbrev pub new_header : Header
    new_header = make_header db_version payload private_key public_key

    abbrev left : P.World
    left = (create P path payload private_key public_key w).1

    -- As above, with the packing of the header before it.
    pub create_cases {κ} :
        (Q : Option (Unit {0}) → P.World → Type κ)
        → Q none w
        → ((buffer : Bytes)
            → Header.pack P.codec new_header ≡ some buffer
            → Q (write_header P path buffer w).0 (write_header P path buffer w).1)
        → Q
            (create P path payload private_key public_key w).0
            (create P path payload private_key public_key w).1
    unfolding create
    create_cases Q failed packed = elim (Option-cases (Header.pack P.codec new_header)) [
      | inl e ↦ rw (e, create) failed
      | inr (buffer, e) ↦ rw (e, create) (packed buffer e)
    ]

    abbrev after : Bytes → P.engine.Handle → P.World
    after buffer d =
        (P.engine.write write_options d ((header_key, buffer) ∷ [])
          (P.engine.open_db create_options path w).1).1

    pub content-create : (q : Bytes) → path ≢ q → L.engine.content left q ≡ L.engine.content w q
    content-create q other =
        create_cases (λ _ v. L.engine.content v q ≡ L.engine.content w q) refl
          (λ buffer _.
            write_header_cases (λ _ v. L.engine.content v q ≡ L.engine.content w q) path buffer w
              (λ _. L.engine.open_keeps_others create_options path w q other)
              (λ d made.
                let here = L.engine.open_target create_options path w d made in
                L.engine.close_keeps d (after buffer d) q
                ∙ L.engine.write_keeps_others write_options d _ _ q (λ e. other (sym here ∙ e))
                ∙ L.engine.open_keeps_others create_options path w q other))

    pub locked-create : (q : Bytes) → L.engine.locked left q ≡ L.engine.locked w q
    locked-create q =
        create_cases (λ _ v. L.engine.locked v q ≡ L.engine.locked w q) refl
          (λ buffer _.
            write_header_cases (λ _ v. L.engine.locked v q ≡ L.engine.locked w q) path buffer w
              (L.engine.open_failed_locks create_options path w q)
              (λ d made.
                let there : (P.engine.open_db create_options path w).0 ≢ none = λ e. cc (e, made) in
                let here = L.engine.open_target create_options path w d made in
                elim (bytes_cases path q) [
                  | inl same ↦
                      subst
                        (λ p.
                          L.engine.locked (P.engine.close_db d (after buffer d)) p
                          ≡ L.engine.locked w p)
                        (here ∙ same)
                        (L.engine.close_unlocks d (after buffer d)
                          ∙ sym (L.engine.open_unlocked create_options path w there)
                          ∙ ap (L.engine.locked w) (sym here))
                  | inr other ↦
                      L.engine.close_other_locks d (after buffer d) q (λ e. other (sym here ∙ e))
                      ∙ L.engine.write_locks write_options d _ _ q
                      ∙ L.engine.open_other_locks create_options path w q other
                ]))
