-- ===== src/Cli/Keys.antt =====
-- Application.cpp, `initialize`: the arguments that the client takes.
use chain_db.Base.{◌≡◌, refl, subst, ◌⊎◌, inl, inr, some, List, [], ◌∷◌, All}
use chain_db.Base.Bytes.{Bytes, text, bytes_eq}
use chain_db.Base.Int.{ℤ}
use chain_db.System.Stoi.{number, stoi}
use chain_db.System.Arguments.{ArgData, find}
use chain_db.System.Arguments.Accepts.{Takes, WellFormed}
use chain_db.Cli.{Application, handlers}

-- The keys that take a number, and those that take any text.
abbrev number_keys : List Bytes
number_keys = text "--port" ∷ text "--timeout" ∷ text "--chain-id" ∷ text "--block-id" ∷ []

abbrev text_keys : List Bytes
text_keys =
    text "--addr"
    ∷ text "--ping"
    ∷ text "--create-chain"
    ∷ text "--remove-chain"
    ∷ text "--add-block"
    ∷ text "--get-block"
    ∷ text "--get-blocks"
    ∷ text "--verify-chain"
    ∷ text "--get-header"
    ∷ text "--get-keys"
    ∷ text "--get-info"
    ∷ text "--password"
    ∷ text "--data"
    ∷ []

abbrev pub OneOf : List Bytes → Bytes → Type 0
OneOf [] key = ⊥
OneOf (k ∷ ks) key = (k ≡ key) ⊎ OneOf ks key

-- The arguments are pairs of one of these keys and a value for it.
abbrev pub Commanded : List Bytes → Type 0
Commanded [] = Unit
Commanded (key ∷ []) = ⊥
Commanded (key ∷ value ∷ rest) =
    (OneOf text_keys key ⊎ (OneOf number_keys key × ((n : ℤ) × (stoi value ≡ number n))))
    × Commanded rest

OneOf-All : (Q : Bytes → Type 0) (ks : List Bytes) (key : Bytes) → All Q ks → OneOf ks key → Q key
OneOf-All Q [] key h m = absurd m
OneOf-All Q (k ∷ ks) key h (inl e) = subst Q e h.0
OneOf-All Q (k ∷ ks) key h (inr m) = OneOf-All Q ks key h.1 m

-- `handlers` has a setting for the key, which takes any value, or any number.
abbrev Any : Bytes → Type 0
Any key =
    (value : Bytes) → (arg : ArgData Application) × (find handlers key ≡ some arg) × Takes arg value

abbrev Number : Bytes → Type 0
Number key =
    (value : Bytes)
    → ((n : ℤ) × (stoi value ≡ number n))
    → (arg : ArgData Application) × (find handlers key ≡ some arg) × Takes arg value

text_keys-Any : All Any text_keys
unfolding find bytes_eq
text_keys-Any = (
  λ v. (_, refl, tt),
  (
    λ v. (_, refl, tt),
    (
      λ v. (_, refl, tt),
      (
        λ v. (_, refl, tt),
        (
          λ v. (_, refl, tt),
          (
            λ v. (_, refl, tt),
            (
              λ v. (_, refl, tt),
              (
                λ v. (_, refl, tt),
                (
                  λ v. (_, refl, tt),
                  (
                    λ v. (_, refl, tt),
                    (λ v. (_, refl, tt), (λ v. (_, refl, tt), (λ v. (_, refl, tt), tt))),
                  ),
                ),
              ),
            ),
          ),
        ),
      ),
    ),
  ),
)

number_keys-Number : All Number number_keys
unfolding find bytes_eq
number_keys-Number =
    (λ v n. (_, refl, n), (λ v n. (_, refl, n), (λ v n. (_, refl, n), (λ v n. (_, refl, n), tt))))

pub Commanded-WellFormed : (args : List Bytes) → Commanded args → WellFormed handlers args
Commanded-WellFormed [] h = tt
Commanded-WellFormed (key ∷ []) h = absurd h
Commanded-WellFormed (key ∷ value ∷ rest) (inl m, h) =
    (OneOf-All Any text_keys key text_keys-Any m value, Commanded-WellFormed rest h)
Commanded-WellFormed (key ∷ value ∷ rest) (inr (m, n), h) =
    (OneOf-All Number number_keys key number_keys-Number m value n, Commanded-WellFormed rest h)
