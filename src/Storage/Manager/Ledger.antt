-- ===== src/Storage/Manager/Ledger.antt =====
-- What the manager promises, without databases, hashes and keys: for each chain the data that it was
-- created with, and the data of its blocks in order.
pub mod Creates
pub mod Keeps
pub mod Reads
pub mod Reports
pub mod Failures
pub mod States
pub mod Moves
pub mod Endures
use chain_db.Base.{
  ℕ, ◌==◌, Bool, true, false, ◌&&◌, leb, length, is_some, Option, none, some, List, [], ◌∷◌, ◌++◌,
  if◌then◌else◌,
}
use chain_db.Base.Bytes.{Bytes}
use chain_db.Storage.Manager.Runs.{
  Call, creates, adds, reads, lists, removes, verifies, heads, target,
}

abbrev pub Contents : Type 0
Contents = Option (Bytes × List Bytes)

abbrev pub Ledger : Type 0
Ledger = ℕ → Contents

abbrev pub empty_ledger : Ledger
empty_ledger id = none

-- A chain is created once, and a block is added to a chain that is there.
abbrev pub created : Bytes → Contents → Contents
created payload none = some (payload, [])
created payload (some c) = some c

abbrev pub added : Bytes → Contents → Contents
added payload none = none
added payload (some (origin, blocks)) = some (origin, blocks ++ payload ∷ [])

abbrev pub effect : Call → Contents → Contents
effect (creates id payload) c = created payload c
effect (adds id payload) c = added payload c
effect (removes id) c = none
effect (reads id i) c = c
effect (lists id) c = c
effect (verifies id) c = c
effect (heads id) c = c

abbrev pub perform : Call → Ledger → Ledger
perform call l id = if target call == id then effect call (l id) else l id

unfoldable pub perform_all : List Call → Ledger → Ledger
perform_all [] l = l
perform_all (c ∷ calls) l = perform_all calls (perform c l)

-- Whether a call succeeds: a chain is created where there is none, a block is read from 1 to the
-- last, removing always succeeds, and for the rest there must be a chain.
abbrev pub allows : Call → Contents → Bool
allows (creates id payload) none = true
allows (creates id payload) (some c) = false
allows (reads id i) none = false
allows (reads id i) (some (origin, blocks)) = leb 1 i && leb i (length blocks)
allows (removes id) c = true
allows (adds id payload) c = is_some c
allows (lists id) c = is_some c
allows (verifies id) c = is_some c
allows (heads id) c = is_some c
