-- ===== src/System/Arguments/Ranges.antt =====
-- IApplication.cpp, `parseArgs`: what is true of all settings stays true.
use mathlib.Core.Option.{some-injective, none-ne-some}
use chain_db.Base.{
  ◌≡◌, refl, subst, Bool, inl, inr, some, List, [], ◌∷◌, All, Option-cases, Bool-cases,
}
use chain_db.Base.Bytes.{Bytes, bytes_eq, text}
use chain_db.Base.Int.{ℤ}
use chain_db.System.Stoi.{Stoi, number, invalid_argument, out_of_range, stoi}
use chain_db.System.Stoi.Numbers.{IsInt, stoi-IsInt}
use chain_db.System.Arguments.{
  ArgData, bool_arg, int_arg, string_arg, HandlerMap, Parsed, accepted, rejected, thrown, find,
  set_int, assign, go_on, parse_from, parse_args,
}

module _ {S : Type 0} (Q : S → Type 0) where
  -- Writing to the setting keeps `Q`, if a number that is written is one of an `int`.
  abbrev pub Keeps : ArgData S → Type 0
  Keeps (bool_arg put) = (b : Bool) (s : S) → Q s → Q (put b s)
  Keeps (int_arg put) = (n : ℤ) (s : S) → IsInt n → Q s → Q (put n s)
  Keeps (string_arg put) = (v : Bytes) (s : S) → Q s → Q (put v s)

  find-Keeps :
      (handlers : HandlerMap S) (key : Bytes) (arg : ArgData S)
      → All (λ p. Keeps p.1) handlers
      → find handlers key ≡ some arg
      → Keeps arg
  unfolding find
  find-Keeps [] key arg h e = absurd (none-ne-some arg e)
  find-Keeps ((j, a) ∷ handlers) key arg h e = elim (Bool-cases (bytes_eq j key)) [
    | inl same ↦ subst Keeps (some-injective a arg (rw same at e)) h.0
    | inr other ↦ find-Keeps handlers key arg h.1 (rw other at e)
  ]

  set_int-keeps :
      (put : ℤ → S → S) (value : Bytes) (r : Stoi) (s : S)
      → stoi value ≡ r
      → Keeps (int_arg put)
      → Q s
      → Q (set_int put r s).1
  set_int-keeps put value (number n) s e h k = h n s (stoi-IsInt value n e) k
  set_int-keeps put value invalid_argument s e h k = k
  set_int-keeps put value out_of_range s e h k = k

  assign-keeps :
      (arg : ArgData S) (value : Bytes) (s : S) → Keeps arg → Q s → Q (assign arg value s).1
  unfolding assign
  assign-keeps (bool_arg put) value s h k = h (bytes_eq value (text "true")) s k
  assign-keeps (int_arg put) value s h k = set_int-keeps put value (stoi value) s refl h k
  assign-keeps (string_arg put) value s h k = h value s k

  go_on-keeps :
      (r : Parsed × S) (rest : S → Parsed × S)
      → Q r.1
      → ((s : S) → Q s → Q (rest s).1)
      → Q (go_on r rest).1
  go_on-keeps (accepted, s) rest k later = later s k
  go_on-keeps (rejected, s) rest k later = k
  go_on-keeps (thrown, s) rest k later = k

  parse_from-keeps :
      (handlers : HandlerMap S) (args : List Bytes) (s : S)
      → All (λ p. Keeps p.1) handlers
      → Q s
      → Q (parse_from handlers args s).1
  unfolding parse_from
  parse_from-keeps handlers [] s h k = k
  parse_from-keeps handlers (key ∷ []) s h k = k
  parse_from-keeps handlers (key ∷ value ∷ rest) s h k = elim (Option-cases (find handlers key)) [
    | inl n ↦ rw (n, parse_from) k
    | inr (arg, n) ↦
        rw (n, parse_from)
          (go_on-keeps (assign arg value s) (parse_from handlers rest)
            (assign-keeps arg value s (find-Keeps handlers key arg h n) k)
            (λ t. parse_from-keeps handlers rest t h))
  ]

  -- However parsing ends, the settings that were written keep `Q`.
  pub parse_args-keeps :
      (handlers : HandlerMap S) (argv : List Bytes) (s : S)
      → All (λ p. Keeps p.1) handlers
      → Q s
      → Q (parse_args handlers argv s).1
  unfolding parse_args
  parse_args-keeps handlers [] s h k = k
  parse_args-keeps handlers (program ∷ args) s h k = parse_from-keeps handlers args s h k
