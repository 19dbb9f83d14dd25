-- ===== src/System/Arguments.antt =====
-- src/System/IApplication.cpp: the command line.
pub mod Accepts
pub mod Settles
pub mod Ranges
use chain_db.Base.{Bool, true, false, Option, none, some, List, [], ◌∷◌, if◌then◌else◌}
use chain_db.Base.Bytes.{Bytes, bytes_eq, text}
use chain_db.Base.Int.{ℤ}
use chain_db.System.Stoi.{Stoi, number, invalid_argument, out_of_range, stoi}

module _ (S : Type 0) where
  -- `ArgData`: a pointer to a setting of the object `S`, as the function that writes to it.
  pub data ArgData : Type 0 where
    bool_arg : (Bool → S → S) → ArgData
    int_arg : (ℤ → S → S) → ArgData
    string_arg : (Bytes → S → S) → ArgData

  abbrev pub HandlerMap : Type 0
  HandlerMap = List (Bytes × ArgData)

-- How `parseArgs` ends: it returns `true` or `false`, or an exception leaves it, since it catches
-- `std::invalid_argument` alone.
pub data Parsed : Type 0 where
  accepted rejected thrown : Parsed

module _ {S : Type 0} where
  -- `handlers.find`
  unfoldable pub find : HandlerMap S → Bytes → Option (ArgData S)
  find [] key = none
  find ((k, arg) ∷ handlers) key = if bytes_eq k key then some arg else find handlers key

  abbrev pub set_int : (ℤ → S → S) → Stoi → S → Parsed × S
  set_int put (number n) s = (accepted, put n s)
  set_int put invalid_argument s = (rejected, s)
  set_int put out_of_range s = (thrown, s)

  unfoldable pub assign : ArgData S → Bytes → S → Parsed × S
  assign (bool_arg put) value s = (accepted, put (bytes_eq value (text "true")) s)
  assign (int_arg put) value s = set_int put (stoi value) s
  assign (string_arg put) value s = (accepted, put value s)

  abbrev pub go_on : Parsed × S → (S → Parsed × S) → Parsed × S
  go_on (accepted, s) rest = rest s
  go_on (rejected, s) rest = (rejected, s)
  go_on (thrown, s) rest = (thrown, s)

  -- The loop, over the arguments from `argv[i]` on.
  unfoldable pub parse_from : HandlerMap S → List Bytes → S → Parsed × S
  parse_from handlers [] s = (accepted, s)
  parse_from handlers (key ∷ []) s = (rejected, s)
  parse_from handlers (key ∷ value ∷ rest) s =
      let later = parse_from handlers rest in
      elim (find handlers key) [
        | none ↦ (rejected, s)
        | some arg ↦ go_on (assign arg value s) later
      ]

  -- `argv[0]` is not looked at.
  unfoldable pub parse_args : HandlerMap S → List Bytes → S → Parsed × S
  unfolding parse_from
  parse_args handlers [] s = (accepted, s)
  parse_args handlers (program ∷ args) s = parse_from handlers args s
