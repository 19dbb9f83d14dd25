-- ===== src/Crypto/Sha256/Digest.antt =====
-- SHA256.cpp: `getHash` and `getHashN`, and the library's digest.
use chain_db.Base.{
  ℕ, zero, suc, ◌≤◌, ◌<◌, ◌^◌, ◌≡◌, ◌≢◌, refl, ap, ◌∙◌, inl, inr, none, some, List, [], ◌∷◌, ◌++◌,
  arith, Option-cases, append_assoc, append-nil,
}
use chain_db.Base.Bytes.{Bytes, concat}
use chain_db.Platform.Sha.{Sha, IsSha, IsTotalSha}
use chain_db.Crypto.Data.{IsData, hash_length}
use chain_db.Crypto.Sha256.{rounds, absorb, finish, get_hash, rehash, get_hash_n}

-- `f` applied `n` times.
abbrev pub iterate : ℕ → (Bytes → Bytes) → Bytes → Bytes
iterate zero f m = m
iterate (suc n) f m = iterate n f (f m)

module _ (S : Sha) (L : IsSha S) where
  message-absorb :
      (c : S.Ctx) (input : List Bytes) (c' : S.Ctx)
      → absorb S c input ≡ some c'
      → L.message c' ≡ L.message c ++ concat input
  unfolding absorb
  message-absorb c [] c' e = ground (arith, append-nil (L.message c))
  message-absorb c (d ∷ input) c' e = elim (Option-cases (S.sha_update c d)) [
    | inl p ↦ ground arith
    | inr (c₁, p) ↦ ground (
      arith,
      L.message-update c d c₁,
      message-absorb c₁ input c',
      append_assoc (L.message c) d (concat input),
    )
  ]

  message-finish :
      (c : S.Ctx) (input : List Bytes) (h : Bytes)
      → finish S (absorb S c input) ≡ some h
      → h ≡ L.digest (L.message c ++ concat input)
  unfolding finish
  message-finish c input h e = elim (Option-cases (absorb S c input)) [
    | inl p ↦ ground arith
    | inr (c', p) ↦ ground (arith, message-absorb c input c', L.final-digest c' h)
  ]

  -- If `getHash` returns a hash, it is the digest of the concatenation of the chunks.
  pub get_hash-eq-digest :
      (input : List Bytes) (h : Bytes) → get_hash S input ≡ some h → h ≡ L.digest (concat input)
  unfolding get_hash
  get_hash-eq-digest input h e = elim (Option-cases S.sha_init) [
    | inl p ↦ ground arith
    | inr (c, p) ↦ ground (arith, L.message-init c, message-finish c input h)
  ]

  pub get_hash-IsData :
      (input : List Bytes) (h : Bytes) → get_hash S input ≡ some h → IsData hash_length h
  get_hash-IsData input h e = rw (get_hash-eq-digest input h e) (L.length-digest (concat input))

  iterate-rehash : (k : ℕ) (h h' : Bytes) → rehash S k h ≡ some h' → h' ≡ iterate k L.digest h
  unfolding rehash
  iterate-rehash zero h h' e = cc
  iterate-rehash (suc k) h h' e = elim (Option-cases (get_hash S (h ∷ []))) [
    | inl p ↦ ground arith
    | inr (h₁, p) ↦
        ground (arith, iterate-rehash k h₁ h', get_hash-eq-digest (h ∷ []) h₁, append-nil h)
  ]

  get_hash_n-eq-iterate :
      (input : List Bytes) (n : ℕ) (h : Bytes)
      → get_hash_n S input n ≡ some h
      → h ≡ iterate (suc (rounds n)) L.digest (concat input)
  unfolding get_hash_n
  get_hash_n-eq-iterate input n h e = elim (Option-cases (get_hash S input)) [
    | inl p ↦ ground arith
    | inr (h₁, p) ↦ ground (arith, iterate-rehash (rounds n) h₁ h, get_hash-eq-digest input h₁)
  ]

  pub get_hash_n-two :
      (input : List Bytes) (h : Bytes)
      → get_hash_n S input 2 ≡ some h
      → h ≡ L.digest (L.digest (concat input))
  get_hash_n-two input h e = get_hash_n-eq-iterate input 2 h e

  module _ (T : IsTotalSha S) where
    absorb_total : (c : S.Ctx) (input : List Bytes) → absorb S c input ≢ none
    unfolding absorb
    absorb_total c [] e = cc
    absorb_total c (d ∷ input) e = elim (Option-cases (S.sha_update c d)) [
      | inl p ↦ T.update_ok c d p
      | inr (c₁, p) ↦ absorb_total c₁ input (ground arith)
    ]

    get_hash-ne-none : (input : List Bytes) → get_hash S input ≢ none
    unfolding get_hash finish
    get_hash-ne-none input e = elim (Option-cases S.sha_init) [
      | inl p ↦ T.init_ok p
      | inr (c, p) ↦ elim (Option-cases (absorb S c input)) [
        | inl q ↦ absorb_total c input q
        | inr (c', q) ↦ T.final_ok c' (ground arith)
      ]
    ]

    pub get_hash_total : (input : List Bytes) → get_hash S input ≡ some (L.digest (concat input))
    get_hash_total input = elim (Option-cases (get_hash S input)) [
      | inl p ↦ absurd (get_hash-ne-none input p)
      | inr (h, p) ↦ p ∙ ap some (get_hash-eq-digest input h p)
    ]

    rehash_total : (k : ℕ) (h : Bytes) → rehash S k h ≡ some (iterate k L.digest h)
    unfolding rehash
    rehash_total zero h = refl
    rehash_total (suc k) h =
        rw (get_hash_total (h ∷ []), rehash) (rw (append-nil h) (rehash_total k (L.digest h)))

    -- For n from 1 up to 2^64 - 1, `getHashN` of several chunks is the digest applied n times
    -- to their concatenation, if the library does not fail.
    pub get_hash_n_lem :
        (input : List Bytes) (n : ℕ)
        → 1 ≤ n
        → n < 2 ^ 64
        → get_hash_n S input n ≡ some (iterate n L.digest (concat input))
    unfolding get_hash_n
    get_hash_n_lem input n h k =
        let e : suc (rounds n) ≡ n = omega arith in
        rw (get_hash_total input, get_hash_n, rehash_total (rounds n) (L.digest (concat input)))
          (ap (λ j. some (iterate j L.digest (concat input))) e)
