-- ===== src/System/Stoi.antt =====
-- `std::stoi` in base ten, which `parseArgs` calls: white space, a sign, and digits; what follows them
-- is ignored.
pub mod Numbers
use chain_db.Base.{
  ℕ, zero, suc, ◌+◌, ◌-◌, ◌*◌, ◌^◌, ◌<◌, ◌≤◌, ◌≡◌, Bool, true, false, ◌&&◌, ◌||◌, List, [], ◌∷◌,
  ltb, leb, ◌==◌, if◌then◌else◌,
}
use chain_db.Base.Bytes.{Bytes}
use chain_db.Base.Int.{ℤ, pos, negsuc, neg}

pub data Stoi : Type 0 where
  number : ℤ → Stoi
  invalid_argument out_of_range : Stoi

abbrev pub is_digit : ℕ → Bool
is_digit c = leb b'0' c && leb c b'9'

abbrev pub is_space : ℕ → Bool
is_space c = c == b' ' || (leb 9 c && leb c 13)

abbrev pub skip_spaces : Bytes → Bytes
skip_spaces [] = []
skip_spaces (c ∷ s) = if is_space c then skip_spaces s else c ∷ s

-- The value of the digits in front, behind those that spell `n`.
unfoldable pub read_digits : ℕ → Bytes → ℕ
read_digits n [] = n
read_digits n (c ∷ s) = if is_digit c then read_digits (n * 10 + (c - b'0')) s else n

-- `int` has 32 bits.
abbrev pub in_range : Bool → ℕ → Stoi
in_range true n = if leb n (2 ^ 31) then number (neg n) else out_of_range
in_range false n = if ltb n (2 ^ 31) then number (pos n) else out_of_range

abbrev pub magnitude : Bool → Bytes → Stoi
magnitude negative [] = invalid_argument
magnitude negative (c ∷ s) =
    if is_digit c then in_range negative (read_digits 0 (c ∷ s)) else invalid_argument

abbrev pub signed : Bytes → Stoi
signed [] = invalid_argument
signed (c ∷ s) =
    if c == b'-'
    then magnitude true s
    else if c == b'+'
    then magnitude false s
    else magnitude false (c ∷ s)

unfoldable pub stoi : Bytes → Stoi
stoi s = signed (skip_spaces s)
