-- ===== src/Storage/Chain/Begins.antt =====
-- Chain.cpp, `create`, in an environment in which nothing fails.
use chain_db.Base.{◌≡◌, refl, ap, ◌∙◌, inl, inr, false, none, some, [], ◌∷◌, Option-cases}
use chain_db.Base.Bytes.{Bytes}
use chain_db.Platform.{Platform, IsPlatform, IsReliable}
use chain_db.Storage.Storage.{create_options, write_options}
use chain_db.Storage.Chain.Header
use chain_db.Storage.Chain.Names.{header_key}
use chain_db.Storage.Chain.{write_header, create}
use chain_db.Storage.Chain.Endings.{write_header_cases, new_header}

module _ (P : Platform) (L : IsPlatform P) (S : IsReliable P L) (path : Bytes) (w : P.World)
    (absent : L.engine.content w path ≡ none) (free : L.engine.locked w path ≡ false) where
  write_header_ready : (buffer : Bytes) → (write_header P path buffer w).0 ≡ some tt
  write_header_ready buffer =
      write_header_cases P L (λ r _. r ≡ some tt) path buffer w
        (λ e. absurd (S.engine.create_ready create_options path w refl absent free e))
        (λ d made.
          let there = S.engine.create_ready create_options path w refl absent free in
          let here = L.engine.open_target create_options path w d made in
          let held =
            ap (L.engine.locked (P.engine.open_db create_options path w).1) here
            ∙ L.engine.open_locks create_options path w there in
          rw (S.engine.write_ready write_options d ((header_key, buffer) ∷ []) _ held) refl)

  -- Where there is no database, a chain can be created.
  pub create_ready :
      (payload private_key public_key : Bytes)
      → (create P path payload private_key public_key w).0 ≡ some tt
  unfolding create Header.pack
  create_ready payload private_key public_key =
      let h = new_header P L path payload private_key public_key w in
      elim (Option-cases (Header.pack P.codec h)) [
        | inl e ↦ absurd (S.codec.header_ok _ e)
        | inr (buffer, e) ↦ rw (e, create) (write_header_ready buffer)
      ]
