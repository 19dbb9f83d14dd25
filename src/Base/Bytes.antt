-- ===== src/Base/Bytes.antt =====
-- Byte strings (`std::string`, fixed arrays): their equality, concatenation and text literals.
use Prim.Native.Char.{code}
use chain_db.Base.{
  ℕ, ◌≡◌, refl, ◌↔◌, Bool, true, false, ◌&&◌, List, [], ◌∷◌, ◌++◌, String, arith, ◌==◌, ==_iff,
  length, take, take_all, length-append, ap, sym, ◌∙◌, ◌⊎◌, ◌≢◌, inl, inr, Bool-cases,
}

abbrev pub Bytes : Type 0
Bytes = List ℕ

-- The bytes of an ASCII literal.
abbrev pub text : String → Bytes
text String.[] = []
text (String.◌∷◌ c s) = code c ∷ text s

unfoldable pub bytes_eq : Bytes → Bytes → Bool
bytes_eq [] [] = true
bytes_eq [] (y ∷ ys) = false
bytes_eq (x ∷ xs) [] = false
bytes_eq (x ∷ xs) (y ∷ ys) = x == y && bytes_eq xs ys

pub bytes_eq_iff : (xs ys : Bytes) → (bytes_eq xs ys ≡ true) ↔ (xs ≡ ys)
unfolding bytes_eq
bytes_eq_iff [] [] = (λ _. refl, λ _. refl)
bytes_eq_iff [] (y ∷ ys) = ((λ h. cc), (λ h. cc))
bytes_eq_iff (x ∷ xs) [] = ((λ h. cc), (λ h. cc))
bytes_eq_iff (x ∷ xs) (y ∷ ys) = ground (arith, bytes_eq_iff xs ys, ==_iff x y)

pub bytes_eq_refl : (xs : Bytes) → bytes_eq xs xs ≡ true
bytes_eq_refl xs = (bytes_eq_iff xs xs).1 refl

-- `!memcmp(a, b, n)`: the first `n` bytes agree.
unfoldable pub same_prefix : Bytes → Bytes → ℕ → Bool
same_prefix a b n = bytes_eq (take n a) (take n b)

-- The message that a sequence of chunks makes up.
abbrev pub concat : List Bytes → Bytes
concat [] = []
concat (p ∷ ps) = p ++ concat ps

-- Two concatenations whose first parts are equally long agree only part by part.
pub append_split : (a b c d : Bytes) → length a ≡ length c → a ++ b ≡ c ++ d → (a ≡ c) × (b ≡ d)
append_split [] b [] d h e = (refl, e)
append_split [] b (y ∷ c) d h e = absurd (omega arith)
append_split (x ∷ a) b [] d h e = absurd (omega arith)
append_split (x ∷ a) b (y ∷ c) d h e =
    let rest = append_split a b c d (omega arith) (cc) in (cc (rest.0), rest.1)

pub bytes_cases : (xs ys : Bytes) → (xs ≡ ys) ⊎ (xs ≢ ys)
bytes_cases xs ys = elim (Bool-cases (bytes_eq xs ys)) [
  | inl e ↦ inl ((bytes_eq_iff xs ys).0 e)
  | inr e ↦ inr (λ p. cc (e, (bytes_eq_iff xs ys).1 p))
]

pub same_prefix-eq :
    (a b : Bytes) (n : ℕ) → length a ≡ n → length b ≡ n → same_prefix a b n ≡ true → a ≡ b
unfolding same_prefix
same_prefix-eq a b n la lb e = sym (take_all n a la) ∙ (bytes_eq_iff _ _).0 e ∙ take_all n b lb

pub same_prefix_refl : (a : Bytes) (n : ℕ) → same_prefix a a n ≡ true
unfolding same_prefix
same_prefix_refl a n = bytes_eq_refl _

-- The same for equally long last parts.
pub append_split_end : (a b c d : Bytes) → length b ≡ length d → a ++ b ≡ c ++ d → (a ≡ c) × (b ≡ d)
append_split_end a b c d h e =
    append_split a b c d (omega (arith, length-append a b, length-append c d, ap length e)) e
