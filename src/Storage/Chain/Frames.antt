-- ===== src/Storage/Chain/Frames.antt =====
-- Chain.cpp: the locks, the other databases, and, for the reading methods, the method's own.
use chain_db.Base.{◌≡◌, ◌≢◌, refl, sym, ◌∙◌, false, none, inl, inr, Option-cases, ℕ, List}
use chain_db.Base.Bytes.{Bytes}
use chain_db.Base.Action.{reading, returned}
use chain_db.Platform.{Platform, IsPlatform}
use chain_db.Storage.Storage.{Storage, KeyValue, make_storage, create_options}
use chain_db.Storage.Storage
use chain_db.Storage.Storage.Scope.{handle, locked-opened, content-opened}
use chain_db.Storage.Block.{Container}
use chain_db.Storage.Chain.{
  read_header, get_header, append_block, add_block, get_block_from, get_block, get_blocks_from,
  get_blocks, remove,
}
use chain_db.Storage.Chain.Adds.{append_block-cases}

module _ (P : Platform) (L : IsPlatform P) where
  locked-set :
      (s : Storage P.engine) (pairs : List KeyValue) (w : P.World) (q : Bytes)
      → L.engine.locked (Storage.set P.engine s pairs w).1 q ≡ L.engine.locked w q
  unfolding Storage.set
  locked-set s pairs w q = elim (Option-cases s.db) [
    | inl e ↦ rw (e, Storage.set) refl
    | inr (d, e) ↦ rw (e, Storage.set) (L.engine.write_locks _ d _ w q)
  ]

  locked-append_block :
      (block : Container) (s : Storage P.engine) (w : P.World) (q : Bytes)
      → L.engine.locked (append_block P block s w).1 q ≡ L.engine.locked w q
  locked-append_block block s w q = elim (append_block-cases P block s w) [
    | inl e ↦ rw e refl
    | inr (_, _, _, _, _, _, e) ↦ rw e (locked-set s _ w q)
  ]

  pub locked-add_block :
      (path : Bytes) (block : Container) (w : P.World) (q : Bytes)
      → L.engine.locked (add_block P path block w).1 q ≡ L.engine.locked w q
  unfolding add_block
  locked-add_block path block w q =
      locked-opened P.engine L.engine path none (append_block P block) (locked-append_block block) w
        q

  pub locked-get_header :
      (path : Bytes) (w : P.World) (q : Bytes)
      → L.engine.locked (get_header P path w).1 q ≡ L.engine.locked w q
  unfolding get_header
  locked-get_header path w q =
      locked-opened P.engine L.engine path none (λ s. reading (read_header P s)) (λ _ _ _. refl) w q

  pub content-get_header :
      (path : Bytes) (w : P.World) (q : Bytes)
      → L.engine.content (get_header P path w).1 q ≡ L.engine.content w q
  unfolding get_header
  content-get_header path w q =
      content-opened P.engine L.engine path none (λ s. reading (read_header P s)) w q
        (λ _ _ _. refl)

  pub locked-get_block :
      (path : Bytes) (i : ℕ) (w : P.World) (q : Bytes)
      → L.engine.locked (get_block P path i w).1 q ≡ L.engine.locked w q
  unfolding get_block
  locked-get_block path i w q =
      locked-opened P.engine L.engine path none (λ s. reading (get_block_from P i s))
        (λ _ _ _. refl) w q

  pub content-get_block :
      (path : Bytes) (i : ℕ) (w : P.World) (q : Bytes)
      → L.engine.content (get_block P path i w).1 q ≡ L.engine.content w q
  unfolding get_block
  content-get_block path i w q =
      content-opened P.engine L.engine path none (λ s. reading (get_block_from P i s)) w q
        (λ _ _ _. refl)

  pub locked-get_blocks :
      (path : Bytes) (blocks : List Container) (w : P.World) (q : Bytes)
      → L.engine.locked (get_blocks P path blocks w).1 q ≡ L.engine.locked w q
  unfolding get_blocks
  locked-get_blocks path blocks w q =
      locked-opened P.engine L.engine path (returned (false, blocks))
        (λ s v. (get_blocks_from P blocks s v, v)) (λ _ _ _. refl) w q

  pub content-get_blocks :
      (path : Bytes) (blocks : List Container) (w : P.World) (q : Bytes)
      → L.engine.content (get_blocks P path blocks w).1 q ≡ L.engine.content w q
  unfolding get_blocks
  content-get_blocks path blocks w q =
      content-opened P.engine L.engine path (returned (false, blocks))
        (λ s v. (get_blocks_from P blocks s v, v)) w q (λ _ _ _. refl)

  content-append_block :
      (block : Container) (path : Bytes) (d : P.engine.Handle) (w : P.World) (q : Bytes)
      → L.engine.target d ≢ q
      → L.engine.content (append_block P block (handle P.engine path d) w).1 q
        ≡ L.engine.content w q
  unfolding Storage.set
  content-append_block block path d w q other =
      elim (append_block-cases P block (handle P.engine path d) w) [
        | inl e ↦ rw e refl
        | inr (_, _, _, _, _, _, e) ↦ rw e (L.engine.write_keeps_others _ d _ w q other)
      ]

  pub content-add_block :
      (path : Bytes) (block : Container) (w : P.World) (q : Bytes)
      → path ≢ q
      → L.engine.content (add_block P path block w).1 q ≡ L.engine.content w q
  unfolding add_block
  content-add_block path block w q other =
      content-opened P.engine L.engine path none (append_block P block) w q
        (λ d w₁ at. content-append_block block path d w₁ q (λ e. other (sym at ∙ e)))

  pub locked-remove :
      (path : Bytes) (w : P.World) (q : Bytes)
      → L.engine.locked (remove P path w).1 q ≡ L.engine.locked w q
  unfolding remove Storage.remove
  locked-remove path w q = L.engine.destroy_locks path w q

  pub content-remove :
      (path : Bytes) (w : P.World) (q : Bytes)
      → path ≢ q
      → L.engine.content (remove P path w).1 q ≡ L.engine.content w q
  unfolding remove Storage.remove
  content-remove path w q other = L.engine.destroy_keeps_others path w q other
