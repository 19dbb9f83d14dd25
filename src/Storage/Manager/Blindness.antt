-- ===== src/Storage/Manager/Blindness.antt =====
-- Manager.cpp, `verifyChain`, and the copy of the previous hash that each block stores.
use chain_db.Base.{◌≡◌, refl, none, some, List, [], ◌∷◌, map, arith}
use chain_db.Base.Bytes.{Bytes}
use chain_db.Platform.{Platform}
use chain_db.Storage.Block.{Container}
use chain_db.Storage.Chain.Header.{Header}
use chain_db.Storage.Manager.{verify_block, verify_blocks}

-- A block whose stored previous hash was replaced.
abbrev pub with_prev_hash : (Container → Bytes) → Container → Container
with_prev_hash f b = record b { prev_hash = f b }

module _ (P : Platform) (f : Container → Bytes) where
  verify_blocks_from :
      (h : Header) (last : Container) (bs : List Container)
      → verify_blocks P h (some last) bs
        ≡ verify_blocks P h (some (with_prev_hash f last)) (map (with_prev_hash f) bs)
  unfolding verify_blocks verify_block
  verify_blocks_from h last [] = refl
  verify_blocks_from h last (b ∷ bs) = rw (verify_blocks_from h b bs) refl

  -- The loop of `verifyChain` gives the same verdict on a list of blocks whatever they store as
  -- their previous hash.
  pub verify_blocks-map :
      (h : Header) (bs : List Container)
      → verify_blocks P h none bs ≡ verify_blocks P h none (map (with_prev_hash f) bs)
  unfolding verify_blocks verify_block
  verify_blocks-map h [] = refl
  verify_blocks-map h (b ∷ bs) = ground (arith, verify_blocks_from h b bs)
