-- ===== src/Storage/Chain/Succeeds.antt =====
-- Chain.cpp, `addBlock`, in an environment in which nothing fails.
use mathlib.Core.Option.{some-ne-none}
use chain_db.Base.{◌≡◌, refl, sym, ap, ◌∙◌, inl, inr, true, false, none, some, List, Option-cases}
use chain_db.Base.Bytes.{Bytes}
use chain_db.Platform.{Platform, IsPlatform, IsReliable}
use chain_db.Storage.Storage.{write_options}
use chain_db.Storage.Storage
use chain_db.Storage.Storage.Scope.{handle, opened_ready}
use chain_db.Storage.Block
use chain_db.Storage.Block.{Container}
use chain_db.Storage.Chain.Header
use chain_db.Storage.Chain.Header.{Header}
use chain_db.Storage.Chain.{append_block, add_block, get_header_from}
use chain_db.Storage.Chain.Append.{counted}
use chain_db.Storage.Chain.Holds.{Holds, content-opened_handle}
use chain_db.Storage.Chain.Reads.{get_header_from-stored}

module _ (P : Platform) (L : IsPlatform P) (S : IsReliable P L) (path : Bytes) (block : Container)
    (h : Header) (bs : List Container) where
  append_block_ready :
      (d : P.engine.Handle) (w : P.World)
      → get_header_from P (handle P.engine path d) w ≡ some h
      → L.engine.locked w (L.engine.target d) ≡ true
      → (append_block P block (handle P.engine path d) w).0 ≡ some tt
  unfolding append_block Header.pack Block.pack Storage.set
  append_block_ready d w e held = elim (Option-cases (Header.pack P.codec (counted h))) [
    | inl f ↦ absurd (S.codec.header_ok _ f)
    | inr (hb, f) ↦ elim (Option-cases (Block.pack P.codec block)) [
      | inl g ↦ absurd (S.codec.block_ok _ g)
      | inr (bb, g) ↦
          rw (e, append_block)
            (rw (f, append_block)
              (rw (g, append_block) (rw (S.engine.write_ready write_options d _ w held) refl)))
    ]
  ]

  pub add_block_ready :
      (w : P.World)
      → Holds P L w path h bs
      → L.engine.locked w path ≡ false
      → (add_block P path block w).0 ≡ some tt
  unfolding add_block
  add_block_ready w k free =
      opened_ready P.engine L.engine (λ r _. r ≡ some tt) path none (append_block P block) w
        S.engine (λ e. some-ne-none k.table (sym k.at ∙ e)) free
        (λ d w₁ o.
          let held = ap (L.engine.locked w₁) o.at ∙ o.now_held in
          append_block_ready d w₁
            (get_header_from-stored P L path d w₁ k.table
              (content-opened_handle P L path h bs w k d w₁ o) S.engine held h bs k.shows)
            held)
