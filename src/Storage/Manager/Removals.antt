-- ===== src/Storage/Manager/Removals.antt =====
-- Manager.cpp: `removeChain` where the disk does not fail.
use chain_db.Base.{ℕ, ◌≡◌, refl, ◌∙◌, false, some, List, [], ◌∷◌}
use chain_db.Base.Bytes.{Bytes}
use chain_db.Platform.{Platform, IsPlatform}
use chain_db.Platform.Engine.{IsReliable}
use chain_db.Storage.Storage
use chain_db.Storage.Chain
use chain_db.Storage.Manager.{remove_chain}
use chain_db.Storage.Manager.Paths.{make_storage_path}
use chain_db.Storage.Manager.Runs.{
  Call, creates, adds, reads, lists, removes, verifies, heads, step, run, Completes, AllComplete,
  locked-run,
}

module _ (P : Platform) (L : IsPlatform P) (dir : Bytes) (R : IsReliable P.engine L.engine) where
  pub remove_chain_ready :
      (id : ℕ) (w : P.World)
      → L.engine.locked w (make_storage_path dir id) ≡ false
      → (remove_chain P dir id w).0 ≡ some tt
  unfolding remove_chain Chain.remove Storage.remove
  remove_chain_ready id w free = rw (R.destroy_ready (make_storage_path dir id) w free) refl

  free-Completes :
      (c : Call) (w : P.World) → ((q : Bytes) → L.engine.locked w q ≡ false) → Completes P dir c w
  free-Completes (creates id payload) w free = tt
  free-Completes (adds id payload) w free = tt
  free-Completes (reads id i) w free = tt
  free-Completes (lists id) w free = tt
  free-Completes (removes id) w free = remove_chain_ready id w (free (make_storage_path dir id))
  free-Completes (verifies id) w free = tt
  free-Completes (heads id) w free = tt

  -- If no database is open at first, every removal succeeds.
  pub free-AllComplete :
      (calls : List Call) (w : P.World)
      → ((q : Bytes) → L.engine.locked w q ≡ false)
      → AllComplete P dir calls w
  unfolding run
  free-AllComplete [] w free = tt
  free-AllComplete (c ∷ calls) w free = (
    free-Completes c w free,
    free-AllComplete calls (step P dir c w) (λ q. locked-run P L dir (c ∷ []) w q ∙ free q),
  )
