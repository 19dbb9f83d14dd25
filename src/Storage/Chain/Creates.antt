-- ===== src/Storage/Chain/Creates.antt =====
-- `create` and `remove`: the beginning and the end of a chain.
use mathlib.Core.Option.{none-ne-some}
use chain_db.Base.{
  ◌≡◌, ◌≢◌, refl, ap, sym, ◌∙◌, ◌⊎◌, inl, inr, Bool, true, Option, none, some, [], ◌∷◌, Bool-cases,
  arith,
}
use chain_db.Base.Bytes.{Bytes}
use chain_db.Platform.{Platform, IsPlatform}
use chain_db.Platform.Engine.{Table, empty_table}
use chain_db.Crypto.Data.{IsData, private_key_length, public_key_length}
use chain_db.Storage.Storage.{Storage, make_storage, create_options, write_options}
use chain_db.Storage.Storage
use chain_db.Storage.Chain.Header.{Header, IsHeader, make_header, db_version}
use chain_db.Storage.Chain.Header
use chain_db.Storage.Chain.Names.{header_key}
use chain_db.Storage.Chain.{create, remove}
use chain_db.Storage.Chain.Endings.{write_header_cases, create_cases, new_header}
use chain_db.Storage.Chain.Holds.{Holds}
use chain_db.Storage.Chain.Append.{Shows-create, new_table}

module _ (P : Platform) (L : IsPlatform P) where
  module _ (path payload private_key public_key : Bytes) (w : P.World) where
    abbrev header : Header
    header = new_header P L path payload private_key public_key w

    abbrev result : Option (Unit {0})
    result = (create P path payload private_key public_key w).0

    abbrev left : P.World
    left = (create P path payload private_key public_key w).1

    new_header-IsHeader :
        IsData private_key_length private_key
        → IsData public_key_length public_key
        → IsHeader header
    new_header-IsHeader n m = record {
      version_range = omega arith;
      index_range = omega arith;
      private_key_size = n;
      public_key_size = m;
    }

    abbrev written : Bytes → P.engine.Handle → Bool × P.World
    written buffer d =
        P.engine.write write_options d ((header_key, buffer) ∷ [])
          (P.engine.open_db create_options path w).1

    created :
        IsData private_key_length private_key
        → IsData public_key_length public_key
        → (buffer : Bytes) → Header.pack P.codec header ≡ some buffer
        → (d : P.engine.Handle) → (P.engine.open_db create_options path w).0 ≡ some d
        → (written buffer d).0 ≡ true
        → (L.engine.content w path ≡ none)
          × Holds P L (P.engine.close_db d (written buffer d).1) path header []
    created n m buffer packed d made done =
        let there : (P.engine.open_db create_options path w).0 ≢ none = λ e. cc (e, made) in
        let (fresh, blank) = L.engine.open_fresh create_options path w refl refl there in
        let here = L.engine.open_target create_options path w d made in
        let t =
          L.engine.write_ok write_options d ((header_key, buffer) ∷ []) _ empty_table
            (rw here blank) done in
        (
          fresh,
          record {
            table = new_table P L.codec header buffer (new_header-IsHeader n m) refl refl packed;
            at = L.engine.close_keeps d (written buffer d).1 path ∙ (rw here at t);
            shows = Shows-create P L.codec header buffer (new_header-IsHeader n m) refl refl packed;
          },
        )

    -- If `create` of a chain succeeds, with keys of the right sizes, there was no database at
    -- its path before, and there is one now that holds the new header and no blocks.
    pub create-Holds :
        IsData private_key_length private_key
        → IsData public_key_length public_key
        → result ≡ some tt
        → (L.engine.content w path ≡ none) × Holds P L left path header []
    create-Holds n m =
        create_cases P L path payload private_key public_key w
          (λ r v. r ≡ some tt → (L.engine.content w path ≡ none) × Holds P L v path header [])
          (λ e. absurd (none-ne-some tt e))
          (λ buffer packed.
            write_header_cases P L
              (λ r v. r ≡ some tt → (L.engine.content w path ≡ none) × Holds P L v path header [])
              path buffer w (λ _ e. absurd (none-ne-some tt e))
              (λ d made ok. elim (Bool-cases (written buffer d).0) [
                | inl done ↦ created n m buffer packed d made done
                | inr lost ↦ ground arith
              ]))

    -- Where there was no database `create` leaves none, an empty one, or a chain without blocks.
    pub create-fresh :
        IsData private_key_length private_key
        → IsData public_key_length public_key
        → L.engine.content w path ≡ none
        → (L.engine.content left path ≡ none)
          ⊎ (L.engine.content left path ≡ some empty_table)
          ⊎ Holds P L left path header []
    create-fresh n m absent =
        create_cases P L path payload private_key public_key w
          (λ _ v.
            (L.engine.content v path ≡ none)
            ⊎ (L.engine.content v path ≡ some empty_table)
            ⊎ Holds P L v path header [])
          (inl absent)
          (λ buffer packed.
            write_header_cases P L
              (λ _ v.
                (L.engine.content v path ≡ none)
                ⊎ (L.engine.content v path ≡ some empty_table)
                ⊎ Holds P L v path header [])
              path buffer w
              (λ _. elim (L.engine.open_at_most create_options path w absent) [
                | inl e ↦ inl e
                | inr e ↦ inr (inl e)
              ])
              (λ d made. inr (wrote buffer packed d made)))
      where
        wrote :
            (buffer : Bytes)
            → Header.pack P.codec header ≡ some buffer
            → (d : P.engine.Handle) → (P.engine.open_db create_options path w).0 ≡ some d
            → (L.engine.content (P.engine.close_db d (written buffer d).1) path ≡ some empty_table)
              ⊎ Holds P L (P.engine.close_db d (written buffer d).1) path header []
        wrote buffer packed d made =
            let there : (P.engine.open_db create_options path w).0 ≢ none = λ e. cc (e, made) in
            let (_, blank) = L.engine.open_fresh create_options path w refl refl there in
            let here = L.engine.open_target create_options path w d made in
            let shut = L.engine.close_keeps d (written buffer d).1 path in
            let ok = new_header-IsHeader n m in
            elim (L.engine.write_atomic write_options d ((header_key, buffer) ∷ [])
              (P.engine.open_db create_options path w).1 empty_table (rw here blank)) [
                | inl e ↦ inl (shut ∙ (rw here at e))
                | inr e ↦ inr (record {
                  table = new_table P L.codec header buffer ok refl refl packed;
                  at = shut ∙ (rw here at e);
                  shows = Shows-create P L.codec header buffer ok refl refl packed;
                })
              ]

    -- Creating makes no existing database different, neither at this path nor elsewhere; in
    -- particular a chain is not created twice.
    pub create-keeps :
        (q : Bytes) (t : Table)
        → L.engine.content w q ≡ some t
        → (L.engine.content left q ≡ some t) × (path ≡ q → result ≡ none)
    create-keeps q t here =
        create_cases P L path payload private_key public_key w
          (λ r v. (L.engine.content v q ≡ some t) × (path ≡ q → r ≡ none)) (here, λ _. refl)
          (λ buffer _.
            write_header_cases P L (λ r v. (L.engine.content v q ≡ some t) × (path ≡ q → r ≡ none))
              path buffer w (λ _. (L.engine.open_keeps create_options path w q t here, λ _. refl))
              (λ d made. elsewhere buffer d made))
      where
        elsewhere :
            (buffer : Bytes) (d : P.engine.Handle)
            → (P.engine.open_db create_options path w).0 ≡ some d
            → (L.engine.content (P.engine.close_db d (written buffer d).1) q ≡ some t)
              × (path ≡ q → (Storage.status P.engine (written buffer d)).0 ≡ none)
        elsewhere buffer d made =
            let there : (P.engine.open_db create_options path w).0 ≢ none = λ e. cc (e, made) in
            let (fresh, _) = L.engine.open_fresh create_options path w refl refl there in
            let other : path ≢ q =
              λ e. none-ne-some t (sym fresh ∙ ap (L.engine.content w) e ∙ here) in
            let here' = L.engine.open_target create_options path w d made in
            (
              L.engine.close_keeps d (written buffer d).1 q
                  ∙ L.engine.write_keeps_others write_options d _ _ q (λ e. other (sym here' ∙ e))
                  ∙ L.engine.open_keeps create_options path w q t here,
              λ e. absurd (other e),
            )

  -- Where there is a database already, `create` of a chain fails and leaves the contents of
  -- that database as they were.
  pub create-occupied :
      (path payload private_key public_key : Bytes) (w : P.World) (t : Table)
      → L.engine.content w path ≡ some t
      → ((create P path payload private_key public_key w).0 ≡ none)
        × (L.engine.content (create P path payload private_key public_key w).1 path ≡ some t)
  create-occupied path payload private_key public_key w t there =
      let (kept, refused) = create-keeps path payload private_key public_key w path t there in
      (refused refl, kept)

  -- If `remove` of a chain succeeds there is no database at its path any more.
  pub content-remove_self :
      (path : Bytes) (w : P.World)
      → (remove P path w).0 ≡ some tt
      → L.engine.content (remove P path w).1 path ≡ none
  unfolding remove Storage.remove
  content-remove_self path w ok = elim (Bool-cases (P.engine.destroy_db path w).0) [
    | inl done ↦ L.engine.destroy_ok path w done
    | inr lost ↦ ground arith
  ]
