-- ===== src/Storage/Manager/Reports.antt =====
-- Manager.cpp: what a call of a public method reports.
use chain_db.Base.{Bool, false, is_some, ◌≡◌, []}
use chain_db.Base.{List}
use chain_db.Base.Bytes.{Bytes}
use chain_db.Base.Action.{Run, returned, null_pointer, endless, then_run}
use chain_db.Platform.{Platform}
use chain_db.Storage.Block.{Container}
use chain_db.Storage.Manager.{
  create_chain, add_block, get_block, get_blocks, remove_chain, verify_chain, get_chain_header,
}
use chain_db.Storage.Manager.Runs.{Call, creates, adds, reads, lists, removes, verifies, heads}

abbrev is_true : Run Bool → Bool
is_true (returned b) = b
is_true null_pointer = false
is_true endless = false

module _ (P : Platform) (dir : Bytes) where
  -- Whether a call reports success.
  unfoldable pub reports : Call → P.World → Bool
  reports (creates id payload) w = is_some (create_chain P dir id payload w).0
  reports (adds id payload) w = is_some (add_block P dir id payload w).0
  reports (reads id i) w = is_some (get_block P dir id i w).0
  reports (lists id) w = is_true (then_run (get_blocks P dir id [] w).0 (λ r. returned r.0))
  reports (removes id) w = is_some (remove_chain P dir id w).0
  reports (verifies id) w = is_true (verify_chain P dir id w).0
  reports (heads id) w = is_some (get_chain_header P dir id w).0

  -- The call returns.
  abbrev pub Returns : Call → P.World → Type 0
  Returns (lists id) w = (r : Bool × List Container) × ((get_blocks P dir id [] w).0 ≡ returned r)
  Returns (verifies id) w = (b : Bool) × ((verify_chain P dir id w).0 ≡ returned b)
  Returns (creates id payload) w = Unit
  Returns (adds id payload) w = Unit
  Returns (reads id i) w = Unit
  Returns (removes id) w = Unit
  Returns (heads id) w = Unit
