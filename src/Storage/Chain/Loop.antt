-- ===== src/Storage/Chain/Loop.antt =====
-- Chain.cpp, the loop of `getBlocks`.
use chain_db.Base.{
  ℕ, zero, suc, ◌+◌, ◌^◌, ◌<◌, ◌≤◌, ◌≡◌, refl, subst, ◌⊎◌, inl, inr, Bool, true, false, none, some,
  List, [], ◌∷◌, ◌++◌, length, get_elem?, arith, append-nil, append_assoc, leb-true, leb-false,
}
use chain_db.Base.Action.{Run, returned}
use chain_db.Platform.{Platform}
use chain_db.Storage.Storage.{Storage}
use chain_db.Storage.Block.{Container}
use chain_db.Storage.Chain.{next_index, read_block, read_blocks}
use chain_db.Storage.Chain.Reads.{AtMost}

module _ (P : Platform) (s : Storage P.engine) (w : P.World) where
  -- All of `bs`, or `false` because one of the first `last` blocks cannot be read.
  abbrev pub Finds : ℕ → List Container → Run (Bool × List Container) → Type 0
  Finds last bs r =
      (r ≡ returned (true, bs))
      ⊎ ((seen : List Container) × (i : ℕ) × (r ≡ returned (false, seen))
          × (1 ≤ i)
          × (i ≤ last)
          × (read_block P s i w ≡ none))

  -- From the counter `i` on, after `k` blocks, `rest` being what is stored there.
  pub read_blocks-Finds :
      (rest seen : List Container) (fuel last i k : ℕ)
      → ((j : ℕ) (b : Container)
          → get_elem? rest j ≡ some b
          → AtMost (read_block P s (i + j) w) (some b))
      → length rest < fuel
      → i ≡ suc k
      → last ≡ k + length rest
      → suc last < 2 ^ 64
      → Finds last (seen ++ rest) (read_blocks P fuel s last i seen w)
  unfolding read_blocks
  read_blocks-Finds rest seen zero last i k reads room ei el bound = absurd (omega arith)
  read_blocks-Finds [] seen (suc fuel) last i k reads room ei el bound =
      rw (append-nil seen) (inl (rw (leb-false i last (omega arith), read_blocks) refl))
  read_blocks-Finds (b ∷ rest) seen (suc fuel) last i k reads room ei el bound =
      let later =
        read_blocks-Finds rest (seen ++ b ∷ []) fuel last (next_index i) (suc k)
          (λ j b' e.
            subst (λ m. AtMost (read_block P s m w) (some b')) (omega arith) (reads (suc j) b' e))
          (omega arith) (omega arith) (omega arith) bound in
      let first : AtMost (read_block P s i w) (some b) =
        subst (λ m. AtMost (read_block P s m w) (some b)) (omega arith) (reads 0 b refl) in
      rw (leb-true i last (omega arith), read_blocks)
        (elim first [
          | inl e ↦ inr (seen, i, rw (e, read_blocks) refl, omega arith, omega arith, e)
          | inr e ↦ rw (e, read_blocks) (rw (append_assoc seen (b ∷ []) rest) at later)
        ])
