-- ===== src/System/Arguments/Accepts.antt =====
-- IApplication.cpp, `parseArgs`: the command lines that it accepts.
use chain_db.Base.{◌≡◌, ◌↔◌, refl, inl, inr, some, List, [], ◌∷◌, arith, Option-cases}
use chain_db.Base.Bytes.{Bytes}
use chain_db.Base.Int.{ℤ}
use chain_db.System.Stoi.{Stoi, number, invalid_argument, out_of_range, stoi}
use chain_db.System.Arguments.{
  ArgData, bool_arg, int_arg, string_arg, HandlerMap, Parsed, accepted, rejected, thrown, find,
  assign, parse_from, parse_args, set_int, go_on,
}

module _ {S : Type 0} where
  -- The value fits the kind of its setting.
  abbrev pub Takes : ArgData S → Bytes → Type 0
  Takes (bool_arg put) value = Unit
  Takes (int_arg put) value = (n : ℤ) × (stoi value ≡ number n)
  Takes (string_arg put) value = Unit

  -- Pairs of a known key and a value that fits it.
  abbrev pub WellFormed : HandlerMap S → List Bytes → Type 0
  WellFormed handlers [] = Unit
  WellFormed handlers (key ∷ []) = ⊥
  WellFormed handlers (key ∷ value ∷ rest) =
      ((arg : ArgData S) × (find handlers key ≡ some arg) × Takes arg value)
      × WellFormed handlers rest

  set_int-accepted :
      (put : ℤ → S → S) (r : Stoi) (s : S)
      → (set_int put r s).0 ≡ accepted
      → (n : ℤ) × (r ≡ number n)
  set_int-accepted put (number n) s e = (n, refl)
  set_int-accepted put invalid_argument s e = absurd (ground arith)
  set_int-accepted put out_of_range s e = absurd (ground arith)

  assign-Takes :
      (arg : ArgData S) (value : Bytes) (s : S)
      → (assign arg value s).0 ≡ accepted
      → Takes arg value
  unfolding assign
  assign-Takes (bool_arg put) value s e = tt
  assign-Takes (string_arg put) value s e = tt
  assign-Takes (int_arg put) value s e = set_int-accepted put (stoi value) s e

  Takes-assign :
      (arg : ArgData S) (value : Bytes) (s : S)
      → Takes arg value
      → (s' : S) × (assign arg value s ≡ (accepted, s'))
  unfolding assign
  Takes-assign (bool_arg put) value s t = (_, refl)
  Takes-assign (string_arg put) value s t = (_, refl)
  Takes-assign (int_arg put) value s (n, e) = (put n s, rw e refl)

  go_on-accepted :
      (r : Parsed × S) (rest : S → Parsed × S)
      → (go_on r rest).0 ≡ accepted
      → (r.0 ≡ accepted) × ((rest r.1).0 ≡ accepted)
  go_on-accepted (accepted, s) rest e = (refl, e)
  go_on-accepted (rejected, s) rest e = absurd (ground arith)
  go_on-accepted (thrown, s) rest e = absurd (ground arith)

  parse_from-WellFormed :
      (handlers : HandlerMap S) (args : List Bytes) (s : S)
      → (parse_from handlers args s).0 ≡ accepted
      → WellFormed handlers args
  unfolding parse_from
  parse_from-WellFormed handlers [] s e = tt
  parse_from-WellFormed handlers (key ∷ []) s e = absurd (ground arith)
  parse_from-WellFormed handlers (key ∷ value ∷ rest) s e =
      elim (Option-cases (find handlers key)) [
        | inl n ↦ absurd (ground arith)
        | inr (arg, n) ↦
            let (now, later) =
              go_on-accepted (assign arg value s) (parse_from handlers rest)
                (rw (n, parse_from) at e) in
            ((arg, n, assign-Takes arg value s now), parse_from-WellFormed handlers rest _ later)
      ]

  WellFormed-parse_from :
      (handlers : HandlerMap S) (args : List Bytes) (s : S)
      → WellFormed handlers args
      → (parse_from handlers args s).0 ≡ accepted
  unfolding parse_from
  WellFormed-parse_from handlers [] s w = refl
  WellFormed-parse_from handlers (key ∷ []) s w = absurd w
  WellFormed-parse_from handlers (key ∷ value ∷ rest) s ((arg, n, t), w) =
      let (s', e) = Takes-assign arg value s t in
      rw (n, parse_from) (rw e (WellFormed-parse_from handlers rest s' w))

  -- `parseArgs` returns true exactly if the arguments after the program's name are pairs of a
  -- key that has a setting and a value that fits the type of that setting.
  pub parse_args-WellFormed :
      (handlers : HandlerMap S) (program : Bytes) (args : List Bytes) (s : S)
      → ((parse_args handlers (program ∷ args) s).0 ≡ accepted) ↔ WellFormed handlers args
  unfolding parse_args
  parse_args-WellFormed handlers program args s =
      (parse_from-WellFormed handlers args s, WellFormed-parse_from handlers args s)
