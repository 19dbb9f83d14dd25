-- ===== src/Storage/Storage/Scope.antt =====
-- What a method does that opens its database, works on it and lets the destructor close it.
use chain_db.Base.{
  ◌≡◌, ◌≢◌, refl, sym, ap, subst, ◌∙◌, true, false, none, some, inl, inr, Option-cases,
}
use chain_db.Base.Bytes.{Bytes, bytes_cases}
use chain_db.Platform.Engine.{Engine, IsEngine, IsReliable}
use chain_db.Storage.Storage.{Storage, open_options, opened}

module _ {World : Type 0} (E : Engine World) where
  abbrev pub handle : Bytes → E.Handle → Storage E
  handle path h = record { path = path; db = some h }

module _ {World : Type 0} (E : Engine World) (L : IsEngine E) where
  -- The world `w₁` after the database at `path` was opened in `w`, under the handle `h`.
  pub record IsOpened (path : Bytes) (w : World) (h : E.Handle) (w₁ : World) : Type 0 where
    pub at : L.target h ≡ path
    pub present : L.content w path ≢ none
    pub same : (q : Bytes) → L.content w₁ q ≡ L.content w q
    pub was_free : L.locked w path ≡ false
    pub now_held : L.locked w₁ path ≡ true
    pub other_locks : (q : Bytes) → path ≢ q → L.locked w₁ q ≡ L.locked w q

  open_db-IsOpened :
      (path : Bytes) (w : World) (h : E.Handle)
      → (E.open_db open_options path w).0 ≡ some h
      → IsOpened path w h (E.open_db open_options path w).1
  open_db-IsOpened path w h e =
      let there : (E.open_db open_options path w).0 ≢ none = λ p. cc (e, p) in
      record {
        at = L.open_target open_options path w h e;
        present = L.open_present open_options path w refl there;
        same = λ q. L.open_plain open_options path w q refl;
        was_free = L.open_unlocked open_options path w there;
        now_held = L.open_locks open_options path w there;
        other_locks = L.open_other_locks open_options path w;
      }

  pub locked-close :
      (path : Bytes) (w : World) (h : E.Handle) (w₁ : World)
      → IsOpened path w h w₁
      → (v : World) → ((q : Bytes) → L.locked v q ≡ L.locked w₁ q)
      → (q : Bytes) → L.locked (E.close_db h v) q ≡ L.locked w q
  locked-close path w h w₁ o v keeps q = elim (bytes_cases path q) [
    | inl e ↦
        subst (λ p. L.locked (E.close_db h v) p ≡ L.locked w p) (o.at ∙ e)
          (L.close_unlocks h v ∙ sym o.was_free ∙ ap (L.locked w) (sym o.at))
    | inr ne ↦ L.close_other_locks h v q (λ e. ne (sym o.at ∙ e)) ∙ keeps q ∙ o.other_locks q ne
  ]

  -- A property of what such a method returns and leaves behind: it holds if it does where the
  -- database cannot be opened, and after the body and the destructor where it can.
  pub opened_cases {ℓ κ} :
      {A : Type ℓ} (Q : A → World → Type κ) (path : Bytes) (failed : A)
      (body : Storage E → World → A × World) (w : World)
      → ((w₁ : World)
          → (E.open_db open_options path w).0 ≡ none
          → ((q : Bytes) → L.content w₁ q ≡ L.content w q)
          → ((q : Bytes) → L.locked w₁ q ≡ L.locked w q)
          → Q failed w₁)
      → ((h : E.Handle) (w₁ : World)
          → IsOpened path w h w₁
          → Q (body (handle E path h) w₁).0 (E.close_db h (body (handle E path h) w₁).1))
      → Q (opened E path failed body w).0 (opened E path failed body w).1
  unfolding opened
  opened_cases Q path failed body w shut ready =
      elim (Option-cases (E.open_db open_options path w).0) [
        | inl e ↦
            rw (e, opened)
              (shut _ e (λ q. L.open_plain open_options path w q refl)
                (λ q. L.open_failed_locks open_options path w q e))
        | inr (h, e) ↦ rw (e, opened) (ready h _ (open_db-IsOpened path w h e))
      ]

  -- The destructor gives the lock back, if the body leaves the locks alone.
  pub locked-opened {ℓ} :
      {A : Type ℓ} (path : Bytes) (failed : A) (body : Storage E → World → A × World)
      → ((s : Storage E) (v : World) (q : Bytes) → L.locked (body s v).1 q ≡ L.locked v q)
      → (w : World) (q : Bytes) → L.locked (opened E path failed body w).1 q ≡ L.locked w q
  locked-opened path failed body keeps w q =
      opened_cases (λ _ w'. L.locked w' q ≡ L.locked w q) path failed body w (λ w₁ _ _ same. same q)
        (λ h w₁ o. locked-close path w h w₁ o _ (keeps _ w₁) q)

  -- In a reliable engine a database that is there and not in use is opened.
  pub opened_ready {ℓ κ} :
      {A : Type ℓ} (Q : A → World → Type κ) (path : Bytes) (failed : A)
      (body : Storage E → World → A × World) (w : World)
      → IsReliable E L
      → L.content w path ≢ none
      → L.locked w path ≡ false
      → ((h : E.Handle) (w₁ : World)
          → IsOpened path w h w₁
          → Q (body (handle E path h) w₁).0 (E.close_db h (body (handle E path h) w₁).1))
      → Q (opened E path failed body w).0 (opened E path failed body w).1
  opened_ready Q path failed body w R there free =
      opened_cases Q path failed body w
        (λ w₁ shut _ _. absurd (R.open_ready open_options path w refl refl there free shut))

  -- A method whose body leaves a database alone leaves it alone.
  pub content-opened {ℓ} :
      {A : Type ℓ} (path : Bytes) (failed : A) (body : Storage E → World → A × World) (w : World)
      (q : Bytes)
      → ((h : E.Handle) (w₁ : World)
          → L.target h ≡ path
          → L.content (body (handle E path h) w₁).1 q ≡ L.content w₁ q)
      → L.content (opened E path failed body w).1 q ≡ L.content w q
  content-opened path failed body w q keeps =
      opened_cases (λ _ w'. L.content w' q ≡ L.content w q) path failed body w
        (λ w₁ _ same _. same q) (λ h w₁ o. L.close_keeps h _ q ∙ keeps h w₁ o.at ∙ o.same q)
