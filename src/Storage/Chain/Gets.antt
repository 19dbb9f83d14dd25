-- ===== src/Storage/Chain/Gets.antt =====
-- Chain.cpp: the reading methods on a stored chain.
use chain_db.Base.{
  ℕ, zero, suc, ◌^◌, ◌<◌, ◌≡◌, ◌≢◌, refl, ap, sym, subst, ◌∙◌, ◌⊎◌, inl, inr, true, false, Option,
  none, some, List, [], length, get_elem?, arith, Bool-cases, ◌==◌, ◌||◌, ltb, get_elem?-some,
  get_elem?-none,
}
use mathlib.Core.Option.{some-ne-none}
use chain_db.Base.Bytes.{Bytes}
use chain_db.Base.Action.{returned, reading}
use chain_db.Platform.{Platform, IsPlatform}
use chain_db.Platform.Engine.{Table, IsReliable}
use chain_db.Storage.Storage.Scope.{handle, IsOpened, opened_cases, opened_ready}
use chain_db.Storage.Block.{Container}
use chain_db.Storage.Chain.Header.{Header}
use chain_db.Storage.Chain.{
  read_header, get_header_from, get_header, read_block, get_block_from, get_block, get_blocks_from,
  get_blocks,
}
use chain_db.Storage.Chain.Holds.{Holds, Shows, content-opened_handle}
use chain_db.Storage.Chain.Reads.{
  AtMost, read_header-AtMost, read_block-AtMost, get_header_from-AtMost, read_header-stored,
  read_block-stored, get_header_from-stored,
}
use chain_db.Storage.Chain.Loop.{Finds, read_blocks-Finds}

-- The block with a number, counted from 1.
abbrev pub numbered : List Container → ℕ → Option Container
numbered bs zero = none
numbered bs (suc i) = get_elem? bs i

module _ (P : Platform) (L : IsPlatform P) (path : Bytes) (h : Header) (bs : List Container) where
  pub get_header-AtMost :
      (w : P.World) → Holds P L w path h bs → AtMost (get_header P path w).0 (some h)
  unfolding get_header
  get_header-AtMost w k =
      opened_cases P.engine L.engine (λ r _. AtMost r (some h)) path none
        (λ s. reading (read_header P s)) w (λ w₁ _ _ _. inl refl)
        (λ d w₁ o.
          elim (read_header-AtMost P L path d w₁ k.table
            (content-opened_handle P L path h bs w k d w₁ o)) [
              | inl e ↦ inl e
              | inr e ↦ inr (e ∙ k.shows.header_at)
            ])

  module _ (d : P.engine.Handle) (w : P.World) (t : Table)
      (at : L.engine.content w (L.engine.target d) ≡ some t) (v : Shows P t h bs) where
    numbered-AtMost :
        (i : ℕ) (b : Container)
        → numbered bs i ≡ some b
        → AtMost (read_block P (handle P.engine path d) i w) (some b)
    numbered-AtMost zero b e = absurd (cc)
    numbered-AtMost (suc i) b e = elim (read_block-AtMost P L path d w t at (suc i)) [
      | inl f ↦ inl f
      | inr f ↦ inr (f ∙ v.block_at i b e)
    ]

    numbered-some :
        (i : ℕ) → (i == 0 || ltb h.index i) ≡ false → (b : Container) × (numbered bs i ≡ some b)
    numbered-some zero e = absurd (cc)
    numbered-some (suc i) e = get_elem?-some bs i (ground (arith, v.index_eq))

    get_block_from-AtMost :
        (i : ℕ) → AtMost (get_block_from P i (handle P.engine path d) w) (numbered bs i)
    unfolding get_block_from
    get_block_from-AtMost i = elim (get_header_from-AtMost P L path d w t at h bs v) [
      | inl e ↦ inl (rw (e, get_block_from) refl)
      | inr e ↦ elim (Bool-cases (i == 0 || ltb h.index i)) [
        | inl out ↦ inl (rw (e, get_block_from) (rw out refl))
        | inr within ↦
            let (b, f) = numbered-some i within in
            rw (e, get_block_from) (rw within (rw f (numbered-AtMost i b f)))
      ]
    ]

    get_blocks_from-Finds :
        suc (length bs) < 2 ^ 64
        → ((get_header_from P (handle P.engine path d) w ≡ none)
            × (get_blocks_from P [] (handle P.engine path d) w ≡ returned (false, [])))
          ⊎ Finds P
              (handle P.engine path d)
              w
              (length bs)
              bs
              (get_blocks_from P [] (handle P.engine path d) w)
    unfolding get_blocks_from
    get_blocks_from-Finds room = elim (get_header_from-AtMost P L path d w t at h bs v) [
      | inl e ↦ inl (e, rw (e, get_blocks_from) refl)
      | inr e ↦ inr (
          rw (e, get_blocks_from)
            (rw (v.index_eq) (
              read_blocks-Finds P (handle P.engine path d) w bs [] (suc (length bs)) (length bs) 1 0
                (λ j b f.
                  subst (λ i. AtMost (read_block P (handle P.engine path d) i w) (some b))
                    (omega arith) (numbered-AtMost (suc j) b f))
                (omega arith) refl (omega arith) room)))
    ]

    module _ (R : IsReliable P.engine L.engine)
        (held : L.engine.locked w (L.engine.target d) ≡ true) where
      read_block-numbered :
          (i : ℕ) (b : Container)
          → numbered bs i ≡ some b
          → read_block P (handle P.engine path d) i w ≡ some b
      read_block-numbered zero b e = absurd (cc)
      read_block-numbered (suc i) b e =
          read_block-stored P L path d w t at R held (suc i) ∙ v.block_at i b e

      numbered-none : (i : ℕ) → (i == 0 || ltb h.index i) ≡ true → numbered bs i ≡ none
      numbered-none zero e = refl
      numbered-none (suc i) e = get_elem?-none bs i (ground (arith, v.index_eq))

      get_block_from-numbered :
          (i : ℕ) → get_block_from P i (handle P.engine path d) w ≡ numbered bs i
      unfolding get_block_from
      get_block_from-numbered i =
          let e = get_header_from-stored P L path d w t at R held h bs v in
          elim (Bool-cases (i == 0 || ltb h.index i)) [
            | inl out ↦ rw (e, get_block_from) (rw out (sym (numbered-none i out)))
            | inr within ↦
                let (b, f) = numbered-some i within in
                rw (e, get_block_from) (rw within (read_block-numbered i b f ∙ sym f))
          ]

      get_blocks_from-all :
          suc (length bs) < 2 ^ 64
          → get_blocks_from P [] (handle P.engine path d) w ≡ returned (true, bs)
      get_blocks_from-all room =
          let e = get_header_from-stored P L path d w t at R held h bs v in
          elim (get_blocks_from-Finds room) [
            | inl (n, _) ↦ cc (e, n)
            | inr (inl all) ↦ all
            | inr (inr (_, i, _, low, high, n)) ↦
                let (b, f) = numbered-some i (ground (arith, v.index_eq)) in
                let there = read_block-numbered i b f in cc (there, n)
          ]

  -- On a stored chain, whatever failures the engine has, `getBlock` returns the block with the
  -- given number, counted from 1, or fails; it never returns another block, and for 0 or a
  -- number beyond the last it fails.
  pub get_block-AtMost :
      (w : P.World) (i : ℕ)
      → Holds P L w path h bs
      → AtMost (get_block P path i w).0 (numbered bs i)
  unfolding get_block
  get_block-AtMost w i k =
      opened_cases P.engine L.engine (λ r _. AtMost r (numbered bs i)) path none
        (λ s. reading (get_block_from P i s)) w (λ w₁ _ _ _. inl refl)
        (λ d w₁ o.
          get_block_from-AtMost d w₁ k.table (content-opened_handle P L path h bs w k d w₁ o)
            k.shows i)

  -- On a stored chain of fewer than 2^64 - 1 blocks, whatever failures the engine has,
  -- `getBlocks` into an empty vector ends, and it either succeeds with exactly the blocks, in
  -- order, or reports failure.
  pub get_blocks-cases :
      (w : P.World)
      → suc (length bs) < 2 ^ 64
      → Holds P L w path h bs
      → ((get_blocks P path [] w).0 ≡ returned (true, bs))
        ⊎ ((seen : List Container) × ((get_blocks P path [] w).0 ≡ returned (false, seen)))
  unfolding get_blocks
  get_blocks-cases w room k =
      opened_cases P.engine L.engine
        (λ r _.
          (r ≡ returned (true, bs)) ⊎ ((seen : List Container) × (r ≡ returned (false, seen))))
        path (returned (false, [])) (λ s w. (get_blocks_from P [] s w, w)) w
        (λ w₁ _ _ _. inr ([], refl))
        (λ d w₁ o.
          elim (get_blocks_from-Finds d w₁ k.table (content-opened_handle P L path h bs w k d w₁ o)
            k.shows room) [
              | inl (_, e) ↦ inr ([], e)
              | inr (inl e) ↦ inl e
              | inr (inr (seen, _, e, _, _, _)) ↦ inr (seen, e)
            ])

  module _ (R : IsReliable P.engine L.engine) (w : P.World) (k : Holds P L w path h bs)
      (free : L.engine.locked w path ≡ false) where
    present : L.engine.content w path ≢ none
    present e = some-ne-none k.table (sym k.at ∙ e)

    now_held :
        (d : P.engine.Handle) (w₁ : P.World)
        → IsOpened P.engine L.engine path w d w₁
        → L.engine.locked w₁ (L.engine.target d) ≡ true
    now_held d w₁ o = ap (L.engine.locked w₁) o.at ∙ o.now_held

    pub get_header_ready : (get_header P path w).0 ≡ some h
    unfolding get_header
    get_header_ready =
        opened_ready P.engine L.engine (λ r _. r ≡ some h) path none
          (λ s. reading (read_header P s)) w R present free
          (λ d w₁ o.
            read_header-stored P L path d w₁ k.table
              (content-opened_handle P L path h bs w k d w₁ o) R (now_held d w₁ o)
            ∙ k.shows.header_at)

    -- On a stored chain whose database is not open, with an engine that does not fail,
    -- `getBlock` returns the block with the given number, counted from 1, and fails for 0 and
    -- for numbers beyond the last.
    pub get_block_ready : (i : ℕ) → (get_block P path i w).0 ≡ numbered bs i
    unfolding get_block
    get_block_ready i =
        opened_ready P.engine L.engine (λ r _. r ≡ numbered bs i) path none
          (λ s. reading (get_block_from P i s)) w R present free
          (λ d w₁ o.
            get_block_from-numbered d w₁ k.table (content-opened_handle P L path h bs w k d w₁ o)
              k.shows R (now_held d w₁ o) i)

    -- On a stored chain of fewer than 2^64 - 1 blocks whose database is not open, with an
    -- engine that does not fail, `getBlocks` into an empty vector ends with success and gives
    -- exactly the blocks, in order.
    pub get_blocks_ready :
        suc (length bs) < 2 ^ 64 → (get_blocks P path [] w).0 ≡ returned (true, bs)
    unfolding get_blocks
    get_blocks_ready room =
        opened_ready P.engine L.engine (λ r _. r ≡ returned (true, bs)) path (returned (false, []))
          (λ s w. (get_blocks_from P [] s w, w)) w R present free
          (λ d w₁ o.
            get_blocks_from-all d w₁ k.table (content-opened_handle P L path h bs w k d w₁ o)
              k.shows R (now_held d w₁ o) room)
