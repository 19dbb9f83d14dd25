-- ===== src/Base/Decimal.antt =====
-- `std::to_string` of an unsigned integer: its decimal digits. Enough fuel is the number itself
-- and one more, since every round divides it by ten.
use chain_db.Base.{
  ℕ, zero, suc, ◌+◌, ◌-◌, ◌*◌, ◌/◌, ◌%◌, ◌<◌, ◌≤◌, ◌≡◌, ◌≢◌, All, All-append, ap, sym, ◌∙◌, [], ◌∷◌,
  ◌++◌, arith, ltb, if◌then◌else◌, inl, inr, Bool-cases,
}
use chain_db.Base.Bytes.{Bytes}
use mathlib.Core.List.{foldl, foldl-append, cons-ne-nil}

append-cons-ne-nil : (xs : Bytes) (c : ℕ) → xs ++ c ∷ [] ≢ []
append-cons-ne-nil [] c e = cons-ne-nil c [] e
append-cons-ne-nil (x ∷ xs) c e = cons-ne-nil x (xs ++ c ∷ []) e

digits : ℕ → ℕ → Bytes
digits zero n = []
digits (suc fuel) n =
    let rest = digits fuel (n / 10) in
    if ltb n 10 then (48 + n) ∷ [] else rest ++ (48 + n % 10) ∷ []

unfoldable pub to_string : ℕ → Bytes
unfolding digits
to_string n = digits (suc n) n

-- The number that a digit string stands for.
abbrev pub shift_in : ℕ → ℕ → ℕ
shift_in acc c = acc * 10 + (c - 48)

unfoldable pub value : Bytes → ℕ
value = foldl shift_in 0

value-digits : (fuel n : ℕ) → n < fuel → value (digits fuel n) ≡ n
unfolding value digits
value-digits zero n h = absurd (omega arith)
value-digits (suc fuel) n h = elim (Bool-cases (ltb n 10)) [
  | inl small ↦ rw small (omega arith)
  | inr large ↦ rw (large, foldl-append, value-digits fuel (n / 10) (ground arith)) (omega arith)
]

-- Different numbers have different decimal forms.
pub to_string_injective : (m n : ℕ) → to_string m ≡ to_string n → m ≡ n
unfolding to_string
to_string_injective m n e =
    sym (value-digits (suc m) m (omega arith)) ∙ ap value e ∙ value-digits (suc n) n (omega arith)

abbrev pub IsDigit : ℕ → Type 0
IsDigit c = (b'0' ≤ c) × (c ≤ b'9')

All-digits : (fuel n : ℕ) → All IsDigit (digits fuel n)
unfolding digits
All-digits zero n = tt
All-digits (suc fuel) n = elim (Bool-cases (ltb n 10)) [
  | inl small ↦ rw small ((omega arith, ground arith), tt)
  | inr large ↦ rw large (
      All-append IsDigit (digits fuel (n / 10)) (48 + n % 10) (All-digits fuel (n / 10))
        (omega arith, omega arith))
]

pub All-to_string : (n : ℕ) → All IsDigit (to_string n)
unfolding to_string
All-to_string n = All-digits (suc n) n

pub value-to_string : (n : ℕ) → value (to_string n) ≡ n
unfolding to_string
value-to_string n = value-digits (suc n) n (omega arith)

pub to_string-ne-nil : (n : ℕ) → to_string n ≢ []
unfolding to_string
to_string-ne-nil n e = elim (Bool-cases (ltb n 10)) [
  | inl small ↦ cons-ne-nil (48 + n) [] (rw small at e)
  | inr large ↦ append-cons-ne-nil (digits n (n / 10)) (48 + n % 10) (rw large at e)
]
