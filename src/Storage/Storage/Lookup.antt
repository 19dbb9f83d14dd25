-- ===== src/Storage/Storage/Lookup.antt =====
-- Storing pairs and reading them back.
use chain_db.Base.{
  ◌≡◌, refl, ap, ◌∙◌, true, Option, none, some, List, [], ◌∷◌, ◌++◌, if◌then◌else◌, inl, inr,
  Option-cases,
}
use chain_db.Base.Bytes.{Bytes, bytes_eq}
use chain_db.Platform.Engine.{Engine, IsEngine, IsReliable, Table, put_pair, apply_batch}
use chain_db.Storage.Storage.{Storage, KeyValue, fill_batch, get, set, read_options, write_options}

-- What a key has after some pairs were stored in order, if it had `v` before.
abbrev pub stored_value : Bytes → List KeyValue → Option Bytes → Option Bytes
stored_value key [] v = v
stored_value key (p ∷ pairs) v =
    stored_value key pairs (if bytes_eq p.key key then some p.value else v)

abbrev pub as_pair : Bytes → Option Bytes → Option KeyValue
as_pair key none = none
as_pair key (some value) = some (record { key = key; value = value })

apply_batch-append :
    (t : Table) (batch : List (Bytes × Bytes)) (k v key : Bytes)
    → apply_batch t (batch ++ (k, v) ∷ []) key
      ≡ (if bytes_eq k key then some v else apply_batch t batch key)
apply_batch-append t [] k v key = refl
apply_batch-append t ((j, u) ∷ batch) k v key = apply_batch-append (put_pair t j u) batch k v key

apply_batch-fill_batch :
    (t : Table) (batch : List (Bytes × Bytes)) (pairs : List KeyValue) (key : Bytes)
    → apply_batch t (fill_batch batch pairs) key ≡ stored_value key pairs (apply_batch t batch key)
apply_batch-fill_batch t batch [] key = refl
apply_batch-fill_batch t batch (p ∷ pairs) key =
    apply_batch-fill_batch t (batch ++ (p.key, p.value) ∷ []) pairs key
    ∙ ap (stored_value key pairs) (apply_batch-append t batch p.key p.value key)

module _ {World : Type 0} (E : Engine World) (L : IsEngine E) (R : IsReliable E L) where
  get-stored :
      (s : Storage E) (h : E.Handle) (w : World) (t : Table) (key : Bytes)
      → s.db ≡ some h
      → L.locked w (L.target h) ≡ true
      → L.content w (L.target h) ≡ some t
      → get E s key w ≡ as_pair key (t key)
  unfolding get
  get-stored s h w t key e held at =
      let read = R.get_ready read_options h key w t held at in
      elim (Option-cases (t key)) [
        | inl n ↦ rw (e, get) (rw read (rw n refl))
        | inr (v, n) ↦ rw (e, get) (rw read (rw n refl))
      ]

  -- While a database is open, with an engine that does not fail, `set` of any list of pairs
  -- succeeds, and `get` of any key then returns the value of the last of those pairs with that
  -- key, or what the key had before.
  pub get-set :
      (s : Storage E) (h : E.Handle) (w : World) (t : Table) (pairs : List KeyValue) (key : Bytes)
      → s.db ≡ some h
      → L.locked w (L.target h) ≡ true
      → L.content w (L.target h) ≡ some t
      → ((set E s pairs w).0 ≡ some tt)
        × (get E s key (set E s pairs w).1 ≡ as_pair key (stored_value key pairs (t key)))
  unfolding set
  get-set s h w t pairs key e held at =
      let batch = fill_batch [] pairs in
      let ok = R.write_ready write_options h batch w held in
      let now = L.write_ok write_options h batch w t at ok in
      let held' = L.write_locks write_options h batch w (L.target h) ∙ held in
      let left : (set E s pairs w).1 ≡ (E.write write_options h batch w).1 = rw (e, set) refl in
      (
        rw (e, set) (rw ok refl),
        ap (get E s key) left
            ∙ get-stored s h _ _ key e held' now
            ∙ ap (as_pair key) (apply_batch-fill_batch t [] pairs key),
      )
