-- ===== src/Base/Leaves.antt =====
-- Actions that leave an observation of the world alone, one rule for each way to build an action.
use chain_db.Base.{◌≡◌, refl, ◌∙◌, Bool, true, false, Option, none, some, if◌then◌else◌}
use chain_db.Base.Action.{Act, done, lift, require, continue, ◌>>=◌}

-- `f` is the same before and after `m`.
pub record Leaves {W B A : Type 0} (f : W → B) (m : W → A × W) : Type 0 where
  pub at : (w : W) → f (m w).1 ≡ f w

module _ {W B A : Type 0} {f : W → B} where
  pub Leaves-done : (a : A) → Leaves f (done {W = W} a)
  Leaves-done a = record { at = λ w. refl }

  pub Leaves-lift : (r : Option A) → Leaves f (lift {W = W} r)
  Leaves-lift r = record { at = λ w. refl }

  pub Leaves-if :
      (b : Bool) (m n : Act W A) → Leaves f m → Leaves f n → Leaves f (if b then m else n)
  Leaves-if true m n km kn = km
  Leaves-if false m n km kn = kn

module _ {W B : Type 0} {f : W → B} where
  pub Leaves-require : (b : Bool) → Leaves f (require {W = W} b)
  Leaves-require true = record { at = λ w. refl }
  Leaves-require false = record { at = λ w. refl }

module _ {W B A C : Type 0} {f : W → B} where
  Leaves-continue :
      (r : Option A) (k : A → Act W C)
      → ((a : A) → Leaves f (k a))
      → (w : W) → f (continue r k w).1 ≡ f w
  Leaves-continue none k h w = refl
  Leaves-continue (some a) k h w = (h a).at w

  pub Leaves-bind :
      (m : Act W A) (k : A → Act W C) → Leaves f m → ((a : A) → Leaves f (k a)) → Leaves f (m >>= k)
  Leaves-bind m k km kk = record { at = λ w. Leaves-continue (m w).0 k kk (m w).1 ∙ km.at w }

pub ruleset leaves_rules = (Leaves-done, Leaves-lift, Leaves-if, Leaves-require, Leaves-bind)
