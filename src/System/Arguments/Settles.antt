-- ===== src/System/Arguments/Settles.antt =====
-- IApplication.cpp, `parseArgs`: the settings after it.
use mathlib.Core.Option.{some-injective, none-ne-some}
use chain_db.Base.{
  ◌≡◌, refl, sym, subst, ◌∙◌, ap, inl, inr, Bool, some, List, [], ◌∷◌, arith, Option-cases,
  Bool-cases, All, if◌then◌else◌,
}
use chain_db.Base.Bytes.{Bytes, bytes_eq, bytes_eq_iff, text}
use chain_db.Base.Int.{ℤ, pos}
use chain_db.System.Stoi.{Stoi, number, invalid_argument, out_of_range, stoi}
use chain_db.System.Arguments.{
  ArgData, bool_arg, int_arg, string_arg, set_int, HandlerMap, Parsed, accepted, rejected, thrown,
  find, assign, go_on, parse_from, parse_args,
}

-- What a setting is after the pairs of `args`, if its key is `key` and it was `v` before.
abbrev pub last_value {ℓ} : {B : Type ℓ} → Bytes → (Bytes → B) → List Bytes → B → B
last_value key read [] v = v
last_value key read (k ∷ []) v = v
last_value key read (k ∷ value ∷ rest) v =
    last_value key read rest (if bytes_eq k key then read value else v)

-- The number that is written, 0 where there is none.
abbrev int_or_zero : Stoi → ℤ
int_or_zero (number n) = n
int_or_zero invalid_argument = pos 0
int_or_zero out_of_range = pos 0

abbrev pub int_value : Bytes → ℤ
int_value value = int_or_zero (stoi value)

module _ {S : Type 0} where
  pub set_int-put :
      (put : ℤ → S → S) (r : Stoi) (s s' : S)
      → set_int put r s ≡ (accepted, s')
      → s' ≡ put (int_or_zero r) s
  set_int-put put (number n) s s' e = sym (ap (λ r. r.1) e)
  set_int-put put invalid_argument s s' e = absurd (ground arith)
  set_int-put put out_of_range s s' e = absurd (ground arith)

  pub accepted-same : (s s' : S) → ◌≡◌ {A = Parsed × S} (accepted, s) (accepted, s') → s' ≡ s
  accepted-same s s' e = sym (ap (λ r. r.1) e)

  go_on-accepted :
      (r : Parsed × S) (rest : S → Parsed × S) (s' : S)
      → go_on r rest ≡ (accepted, s')
      → (s : S) × (r ≡ (accepted, s)) × (rest s ≡ (accepted, s'))
  go_on-accepted (accepted, s) rest s' e = (s, refl, e)
  go_on-accepted (rejected, s) rest s' e = absurd (ground arith)
  go_on-accepted (thrown, s) rest s' e = absurd (ground arith)

module _ {S B : Type 0} (f : S → B) (key : Bytes) (read : Bytes → B) where
  -- The setting `f` is written under the key `key` alone, where it gets what is read from the value.
  abbrev pub Writes : Bytes → ArgData S → Type 0
  Writes k arg =
      (value : Bytes) (s s' : S)
      → assign arg value s ≡ (accepted, s')
      → f s' ≡ (if bytes_eq k key then read value else f s)

  pub string_arg-Writes :
      (k : Bytes) (put : Bytes → S → S)
      → ((value : Bytes) (s : S) → f (put value s) ≡ (if bytes_eq k key then read value else f s))
      → Writes k (string_arg put)
  unfolding assign
  string_arg-Writes k put h value s s' e = ap f (sym (ap (λ r. r.1) e)) ∙ h value s

  pub bool_arg-Writes :
      (k : Bytes) (put : Bool → S → S)
      → ((value : Bytes) (s : S)
          → f (put (bytes_eq value (text "true")) s) ≡ (if bytes_eq k key then read value else f s))
      → Writes k (bool_arg put)
  unfolding assign
  bool_arg-Writes k put h value s s' e = ap f (sym (ap (λ r. r.1) e)) ∙ h value s

  pub int_arg-Writes :
      (k : Bytes) (put : ℤ → S → S)
      → ((value : Bytes) (s : S)
          → f (put (int_value value) s) ≡ (if bytes_eq k key then read value else f s))
      → Writes k (int_arg put)
  unfolding assign
  int_arg-Writes k put h value s s' e = ap f (set_int-put put (stoi value) s s' e) ∙ h value s

  find-Writes :
      (handlers : HandlerMap S) (k : Bytes) (arg : ArgData S)
      → All (λ p. Writes p.0 p.1) handlers
      → find handlers k ≡ some arg
      → Writes k arg
  unfolding find
  find-Writes [] k arg h e = absurd (none-ne-some arg e)
  find-Writes ((j, a) ∷ handlers) k arg h e = elim (Bool-cases (bytes_eq j k)) [
    | inl same ↦
        subst (Writes k) (some-injective a arg (rw same at e))
          (subst (λ x. Writes x a) ((bytes_eq_iff j k).0 same) h.0)
    | inr other ↦ find-Writes handlers k arg h.1 (rw other at e)
  ]

  parse_from-last_value :
      (handlers : HandlerMap S) (args : List Bytes) (s s' : S)
      → All (λ p. Writes p.0 p.1) handlers
      → parse_from handlers args s ≡ (accepted, s')
      → f s' ≡ last_value key read args (f s)
  unfolding parse_from
  parse_from-last_value handlers [] s s' h e = ap f (sym (ap (λ r. r.1) e))
  parse_from-last_value handlers (k ∷ []) s s' h e = absurd (ground arith)
  parse_from-last_value handlers (k ∷ value ∷ rest) s s' h e =
      elim (Option-cases (find handlers k)) [
        | inl n ↦ absurd (ground arith)
        | inr (arg, n) ↦
            let (t, now, later) =
              go_on-accepted (assign arg value s) (parse_from handlers rest) s'
                (rw (n, parse_from) at e) in
            parse_from-last_value handlers rest t s' h later
            ∙ ap (last_value key read rest) (find-Writes handlers k arg h n value s t now)
      ]

  -- If `parseArgs` returns true, a setting that is written under one key alone is what the last
  -- value for that key says, or what it was before.
  pub parse_args-last_value :
      (handlers : HandlerMap S) (program : Bytes) (args : List Bytes) (s s' : S)
      → All (λ p. Writes p.0 p.1) handlers
      → parse_args handlers (program ∷ args) s ≡ (accepted, s')
      → f s' ≡ last_value key read args (f s)
  unfolding parse_args
  parse_args-last_value handlers program args s s' h e =
      parse_from-last_value handlers args s s' h e

module _ {S : Type 0} (after : List Bytes → S → S) where
  -- Under the key `k` a value is written as `after` says for this one pair.
  abbrev pub Assigns : Bytes → ArgData S → Type 0
  Assigns k arg =
      (value : Bytes) (s s' : S)
      → assign arg value s ≡ (accepted, s')
      → s' ≡ after (k ∷ value ∷ []) s

  find-Assigns :
      (handlers : HandlerMap S) (k : Bytes) (arg : ArgData S)
      → All (λ p. Assigns p.0 p.1) handlers
      → find handlers k ≡ some arg
      → Assigns k arg
  unfolding find
  find-Assigns [] k arg h e = absurd (none-ne-some arg e)
  find-Assigns ((j, a) ∷ handlers) k arg h e = elim (Bool-cases (bytes_eq j k)) [
    | inl same ↦
        subst (Assigns k) (some-injective a arg (rw same at e))
          (subst (λ x. Assigns x a) ((bytes_eq_iff j k).0 same) h.0)
    | inr other ↦ find-Assigns handlers k arg h.1 (rw other at e)
  ]

  parse_from-after :
      (handlers : HandlerMap S) (args : List Bytes) (s s' : S)
      → ((t : S) → after [] t ≡ t)
      → ((k value : Bytes) (rest : List Bytes) (t : S)
          → after rest (after (k ∷ value ∷ []) t) ≡ after (k ∷ value ∷ rest) t)
      → All (λ p. Assigns p.0 p.1) handlers
      → parse_from handlers args s ≡ (accepted, s')
      → s' ≡ after args s
  unfolding parse_from
  parse_from-after handlers [] s s' h₀ h₁ h e = sym (ap (λ r. r.1) e) ∙ sym (h₀ s)
  parse_from-after handlers (k ∷ []) s s' h₀ h₁ h e = absurd (ground arith)
  parse_from-after handlers (k ∷ value ∷ rest) s s' h₀ h₁ h e =
      elim (Option-cases (find handlers k)) [
        | inl n ↦ absurd (ground arith)
        | inr (arg, n) ↦
            let (t, now, later) =
              go_on-accepted (assign arg value s) (parse_from handlers rest) s'
                (rw (n, parse_from) at e) in
            parse_from-after handlers rest t s' h₀ h₁ h later
            ∙ ap (after rest) (find-Assigns handlers k arg h n value s t now)
            ∙ h₁ k value rest s
      ]

  -- If `parseArgs` returns true, the settings are those that `after` says for the pairs.
  pub parse_args-folds :
      (handlers : HandlerMap S) (program : Bytes) (args : List Bytes) (s s' : S)
      → ((t : S) → after [] t ≡ t)
      → ((k value : Bytes) (rest : List Bytes) (t : S)
          → after rest (after (k ∷ value ∷ []) t) ≡ after (k ∷ value ∷ rest) t)
      → All (λ p. Assigns p.0 p.1) handlers
      → parse_args handlers (program ∷ args) s ≡ (accepted, s')
      → s' ≡ after args s
  unfolding parse_args
  parse_args-folds handlers program args s s' h₀ h₁ h e =
      parse_from-after handlers args s s' h₀ h₁ h e
