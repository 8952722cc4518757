-- ===== src/Base/Try.antt =====
-- Functions that return a value or raise, with no state.
use mathlib.Core.Option.{Option, none, some}
use mathlib.Core.Bool.{Bool, true, false}
use mathlib.Core.Path.{◌≡◌, refl}
use mathlib.Core.Logic.{◌⊎◌, inl, inr}
use native.Mathlib.Omega.{arith}
use sasori.Base.Comp.{Outcome, returned, raised}

module _ {E A : Type 0} where
  pub Outcome-cases : (m : Outcome E A) → ((a : A) × (m ≡ returned a)) ⊎ ((e : E) × (m ≡ raised e))
  Outcome-cases (returned a) = inl (a, refl)
  Outcome-cases (raised e) = inr (e, refl)

module _ {E A B : Type 0} where
  infixl 5 ◌>>=◌
  abbrev pub ◌>>=◌ : Outcome E A → (A → Outcome E B) → Outcome E B
  returned a >>= f = f a
  raised e >>= f = raised e

  -- What a bind that returned has computed.
  pub >>=-returned :
      (m : Outcome E A) (f : A → Outcome E B) (b : B)
      → (m >>= f) ≡ returned b
      → (a : A) × (m ≡ returned a) × (f a ≡ returned b)
  >>=-returned (returned a) f b h = (a, refl, h)
  >>=-returned (raised e) f b h = cc

  -- A bind raises nothing that neither of its parts raises.
  pub >>=-avoids :
      (m : Outcome E A) (f : A → Outcome E B) (e : E)
      → ¬ (m ≡ raised e)
      → ((a : A) → m ≡ returned a → ¬ (f a ≡ raised e))
      → ¬ ((m >>= f) ≡ raised e)
  >>=-avoids (returned a) f e n k h = k a refl h
  >>=-avoids (raised d) f e n k h = n (ground arith)

module _ {E B : Type 0} where
  infixl 5 ◌>>◌
  abbrev pub ◌>>◌ : Outcome E (Unit {0}) → Outcome E B → Outcome E B
  m >> n = m >>= λ _. n

  -- What follows a check that passed.
  pub >>-returned :
      (m : Outcome E (Unit {0})) (n : Outcome E B) (b : B)
      → (m >> n) ≡ returned b
      → (m ≡ returned tt) × (n ≡ returned b)
  >>-returned (returned tt) n b h = (refl, h)
  >>-returned (raised e) n b h = cc

module _ {E : Type 0} where
  abbrev pub refuse_if : Bool → E → Outcome E (Unit {0})
  refuse_if true e = raised e
  refuse_if false e = returned tt

  -- A check that passed.
  pub refuse_if-returned : (b : Bool) (e : E) → refuse_if b e ≡ returned tt → b ≡ false
  refuse_if-returned true e h = cc
  refuse_if-returned false e h = refl

module _ {E A : Type 0} where
  abbrev pub from_option : E → Option A → Outcome E A
  from_option e none = raised e
  from_option e (some a) = returned a
