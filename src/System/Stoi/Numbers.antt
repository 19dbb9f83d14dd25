-- ===== src/System/Stoi/Numbers.antt =====
-- `std::stoi` on decimal numbers, and the range of its results.
use mathlib.Core.List.{foldl}
use chain_db.Base.{
  ℕ, zero, suc, ◌+◌, ◌-◌, ◌*◌, ◌^◌, ◌<◌, ◌≡◌, ◌≢◌, refl, ap, ◌∙◌, true, false, inl, inr, [], ◌∷◌,
  arith, leb, ltb, ◌==◌, All, Bool-cases, Bool,
}
use chain_db.Base.Bytes.{Bytes}
use chain_db.Base.Decimal.{
  to_string, IsDigit, value, shift_in, All-to_string, value-to_string, to_string-ne-nil,
}
use chain_db.Base.Int.{ℤ, pos, negsuc}
use chain_db.System.Stoi.{
  Stoi, number, invalid_argument, out_of_range, stoi, signed, skip_spaces, magnitude, in_range,
  read_digits, is_digit, is_space,
}

-- The numbers of an `int`.
abbrev pub IsInt : ℤ → Type 0
IsInt (pos n) = n < 2 ^ 31
IsInt (negsuc n) = n < 2 ^ 31

abbrev InRange : Stoi → Type 0
InRange (number z) = IsInt z
InRange invalid_argument = Unit
InRange out_of_range = Unit

in_range-InRange : (negative : Bool) (n : ℕ) → InRange (in_range negative n)
in_range-InRange true zero = omega arith
in_range-InRange true (suc n) = elim (Bool-cases (leb (suc n) (2 ^ 31))) [
  | inl e ↦ rw e (ground arith)
  | inr e ↦ rw e tt
]
in_range-InRange false n = elim (Bool-cases (ltb n (2 ^ 31))) [
  | inl e ↦ rw e (ground arith)
  | inr e ↦ rw e tt
]

magnitude-InRange : (negative : Bool) (s : Bytes) → InRange (magnitude negative s)
magnitude-InRange negative [] = tt
magnitude-InRange negative (c ∷ s) = elim (Bool-cases (is_digit c)) [
  | inl e ↦ rw e (in_range-InRange negative (read_digits 0 (c ∷ s)))
  | inr e ↦ rw e tt
]

signed-InRange : (s : Bytes) → InRange (signed s)
signed-InRange [] = tt
signed-InRange (c ∷ s) = elim (Bool-cases (c == b'-')) [
  | inl e ↦ rw e (magnitude-InRange true s)
  | inr e ↦ rw e (elim (Bool-cases (c == b'+')) [
    | inl f ↦ rw f (magnitude-InRange false s)
    | inr f ↦ rw f (magnitude-InRange false (c ∷ s))
  ])
]

stoi-InRange : (s : Bytes) → InRange (stoi s)
unfolding stoi
stoi-InRange s = signed-InRange (skip_spaces s)

-- A number that `std::stoi` returns is one of an `int`.
pub stoi-IsInt : (s : Bytes) (z : ℤ) → stoi s ≡ number z → IsInt z
stoi-IsInt s z e = rw e at (stoi-InRange s)

read_digits-foldl : (n : ℕ) (s : Bytes) → All IsDigit s → read_digits n s ≡ foldl shift_in n s
unfolding read_digits
read_digits-foldl n [] h = refl
read_digits-foldl n (c ∷ s) h = ground (arith, read_digits-foldl (n * 10 + (c - b'0')) s h.1)

magnitude-digits :
    (negative : Bool) (s : Bytes)
    → s ≢ []
    → All IsDigit s
    → magnitude negative s ≡ in_range negative (value s)
unfolding value
magnitude-digits negative [] n h = absurd (n refl)
magnitude-digits negative (c ∷ s) n h =
    let digit : is_digit c ≡ true = ground arith in
    rw digit (ap (in_range negative) (read_digits-foldl 0 (c ∷ s) h))

skip_spaces-cons : (c : ℕ) (s : Bytes) → is_space c ≡ false → skip_spaces (c ∷ s) ≡ c ∷ s
skip_spaces-cons c s e = rw e refl

stoi-digits : (s : Bytes) → s ≢ [] → All IsDigit s → stoi s ≡ magnitude false s
unfolding stoi
stoi-digits [] n h = absurd (n refl)
stoi-digits (c ∷ s) n h =
    let space : is_space c ≡ false = ground arith in
    let minus : (c == b'-') ≡ false = ground arith in
    let plus : (c == b'+') ≡ false = ground arith in
    ap signed (skip_spaces-cons c s space) ∙ (rw minus (rw plus refl))

stoi-minus : (s : Bytes) → stoi (b'-' ∷ s) ≡ magnitude true s
unfolding stoi
stoi-minus s = refl

-- The decimal digits of a number are read as that number, or as its negative behind a minus sign, if
-- it is in range.
pub stoi-to_string :
    (n : ℕ)
    → (stoi (to_string n) ≡ in_range false n) × (stoi (b'-' ∷ to_string n) ≡ in_range true n)
stoi-to_string n =
    let there = to_string-ne-nil n in
    let all = All-to_string n in
    let back = value-to_string n in
    (
      stoi-digits (to_string n) there all
          ∙ magnitude-digits false (to_string n) there all
          ∙ ap (in_range false) back,
      stoi-minus (to_string n)
          ∙ magnitude-digits true (to_string n) there all
          ∙ ap (in_range true) back,
    )
