-- ===== src/Crypto/Sha256.antt =====
-- src/Crypto/SHA256.cpp
pub mod Digest
use chain_db.Base.{ℕ, zero, suc, ◌+◌, ◌-◌, ◌%◌, ◌^◌, Option, none, some, List, [], ◌∷◌}
use chain_db.Base.Bytes.{Bytes}
use chain_db.Platform.Sha.{Sha}

-- The rounds of `for (size_t i = 0; i < n - 1; i++)`: at `n = 0` the bound wraps around.
abbrev pub rounds : ℕ → ℕ
rounds n = (n + 2 ^ 64 - 1) % 2 ^ 64

module _ (S : Sha) where
  absorb : S.Ctx → List Bytes → Option S.Ctx
  absorb ctx [] = some ctx
  absorb ctx (d ∷ input) = elim (S.sha_update ctx d) [ none ↦ none | some ctx' ↦ absorb ctx' input ]

  finish : Option S.Ctx → Option Bytes
  finish none = none
  finish (some ctx) = S.sha_final ctx

  unfoldable pub get_hash : List Bytes → Option Bytes
  unfolding absorb finish
  get_hash input = elim S.sha_init [ none ↦ none | some ctx ↦ finish (absorb ctx input) ]

  rehash : ℕ → Bytes → Option Bytes
  rehash zero hash = some hash
  rehash (suc k) hash = elim (get_hash (hash ∷ [])) [ none ↦ none | some hash' ↦ rehash k hash' ]

  unfoldable pub get_hash_n : List Bytes → ℕ → Option Bytes
  unfolding rehash
  get_hash_n input n = elim (get_hash input) [ none ↦ none | some hash ↦ rehash (rounds n) hash ]
