-- ===== src/Base/OnSome.antt =====
-- Properties of the result of a step that may be undefined.
use mathlib.Core.Path.{◌≡◌, subst}
use mathlib.Core.Option.{Option, none, some}
use libthumb2sim.Base.Tests.{◌>>=◌}

-- What holds of the result of a step that may be undefined, where it is defined.
pub data OnSome {A : Type 0} (P : A → Type 0) : Option A → Type 0 where
  undefined : OnSome P none
  defined : {a : A} → P a → OnSome P (some a)

some_inj : {A : Type 0} {a b : A} → some a ≡ some b → a ≡ b
some_inj e = cc e

module _ {A : Type 0} {P : A → Type 0} where
  pub OnSome-lem : {o : Option A} {a : A} → OnSome P o → o ≡ some a → P a
  OnSome-lem undefined e = absurd (cc e)
  OnSome-lem (defined p) e = subst P (some_inj e) p

  pub OnSome-bind :
      {B : Type 0} {Q : B → Type 0} (o : Option A) (f : A → Option B)
      → OnSome P o
      → ((a : A) → P a → OnSome Q (f a))
      → OnSome Q (o >>= f)
  OnSome-bind none f undefined k = undefined
  OnSome-bind (some a) f (defined p) k = k a p
