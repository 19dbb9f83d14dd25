-- ===== src/Base/Action.antt =====
-- Methods that change the outside world and may fail. A null pointer and `false` are `none`; what
-- was changed before a failure stays changed, so the world comes back beside either result.
use chain_db.Base.{Bool, true, false, Option, none, some}

abbrev pub Act : Type 0 → Type 0 → Type 0
Act W A = W → Option A × W

module _ {W A : Type 0} where
  abbrev pub done : A → Act W A
  done a w = (some a, w)

  abbrev pub fail : Act W A
  fail w = (none, w)

  -- A step that reads or computes and may fail.
  abbrev pub lift : Option A → Act W A
  lift r w = (r, w)

  abbrev pub reading : (W → Option A) → Act W A
  reading f w = (f w, w)

module _ {W A B : Type 0} where
  abbrev pub continue : Option A → (A → Act W B) → Act W B
  continue none f w = (none, w)
  continue (some a) f w = f a w

  infixl 10 ◌>>=◌ ◌>>◌
  abbrev pub ◌>>=◌ : Act W A → (A → Act W B) → Act W B
  ◌>>=◌ m f w = let (r, w') = m w in continue r f w'

  abbrev pub ◌>>◌ : Act W A → Act W B → Act W B
  m >> n = m >>= λ _. n

-- `if (!test) return false;`
abbrev pub require : {W : Type 0} → Bool → Act W (Unit {0})
require true = done tt
require false = fail

-- A call that can also go wrong without an answer: by reading through a null pointer, or by a loop
-- that does not end.
pub data Run {ℓ} (A : Type ℓ) : Type ℓ where
  returned : A → Run A
  null_pointer : Run A
  endless : Run A

abbrev pub then_run {ℓ κ} : {A : Type ℓ} {B : Type κ} → Run A → (A → Run B) → Run B
then_run (returned a) f = f a
then_run null_pointer f = null_pointer
then_run endless f = endless
