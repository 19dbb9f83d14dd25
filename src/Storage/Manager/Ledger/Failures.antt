-- ===== src/Storage/Manager/Ledger/Failures.antt =====
-- What the manager promises when the disk or a library fails: a call that reports success has had its
-- effect, and one that reports a failure has had it or not.
use chain_db.Base.{ℕ, ◌≡◌, ◌≢◌, ◌⊎◌, Bool, true, false, List, [], ◌∷◌, ◌++◌}
use chain_db.Base.Bytes.{Bytes}
use chain_db.Platform.{Platform}
use chain_db.Storage.Manager.Runs.{
  Call, creates, adds, reads, lists, removes, verifies, heads, target, step,
}
use chain_db.Storage.Manager.Reports.{reports}

-- A chain that `createChain` began and did not finish can only be removed.
pub data State : Type 0 where
  absent unfinished : State
  chain : Bytes → List Bytes → State

abbrev pub Grows : Bytes → State → State → Type 0
Grows payload s t =
    (origin : Bytes) × (blocks : List Bytes) × (s ≡ chain origin blocks)
    × (t ≡ chain origin (blocks ++ payload ∷ []))

-- From `s` to `t` by a call that reports success or not. (A removal that fails is left out.)
abbrev pub May : Call → Bool → State → State → Type 0
May (creates id payload) true s t = (s ≡ absent) × (t ≡ chain payload [])
May (creates id payload) false s t =
    (t ≡ s) ⊎ ((s ≡ absent) × ((t ≡ unfinished) ⊎ (t ≡ chain payload [])))
May (adds id payload) true s t = Grows payload s t
May (adds id payload) false s t = (t ≡ s) ⊎ Grows payload s t
May (removes id) true s t = t ≡ absent
May (removes id) false s t = ⊥
May (reads id i) ok s t = t ≡ s
May (lists id) ok s t = t ≡ s
May (verifies id) ok s t = t ≡ s
May (heads id) ok s t = t ≡ s

-- The states of the chain `id` under calls, from `s` to `t`.
abbrev pub Evolves : (P : Platform) → Bytes → ℕ → List Call → P.World → State → State → Type 0
Evolves P dir id [] w s t = t ≡ s
Evolves P dir id (call ∷ calls) w s t =
    (m : State) × (target call ≡ id → May call (reports P dir call w) s m)
    × (target call ≢ id → m ≡ s)
    × Evolves P dir id calls (step P dir call w) m t
