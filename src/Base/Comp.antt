-- ===== src/Base/Comp.antt =====
-- Methods that change an object and may raise: what was written before a raise stays written,
-- so the state comes back beside the error too.
use mathlib.Core.Bool.{Bool}
use mathlib.Core.Option.{Option, none, some}
use sasori.Base.Bools.{if◌then◌else◌}

pub data Outcome (E A : Type 0) : Type 0 where
  returned : A → Outcome E A
  raised : E → Outcome E A

-- A method on a state `S` that raises values of `E`.
abbrev pub Comp : Type 0 → Type 0 → Type 0 → Type 0
Comp S E A = S → Outcome E A × S

module _ {S E A : Type 0} where
  abbrev pub pure : A → Comp S E A
  pure a s = (returned a, s)

  abbrev pub raise : E → Comp S E A
  raise e s = (raised e, s)

  abbrev pub gets : (S → A) → Comp S E A
  gets f s = (returned (f s), s)

  abbrev pub or_raise : E → Option A → Comp S E A
  or_raise e none s = (raised e, s)
  or_raise e (some a) s = (returned a, s)

module _ {S E : Type 0} where
  abbrev pub modify : (S → S) → Comp S E (Unit {0})
  modify f s = (returned tt, f s)

  abbrev pub raise_if : Bool → E → Comp S E (Unit {0})
  raise_if b e s = (if b then raised e else returned tt, s)

module _ {S E A B : Type 0} where
  -- What follows a method that has ended so.
  abbrev pub continue : Outcome E A × S → (A → Comp S E B) → Outcome E B × S
  continue (returned a, s) f = f a s
  continue (raised e, s) f = (raised e, s)

  infixl 5 ◌>>=◌
  abbrev pub ◌>>=◌ : Comp S E A → (A → Comp S E B) → Comp S E B
  ◌>>=◌ m f s = continue (m s) f

module _ {S E B : Type 0} where
  infixl 5 ◌>>◌
  abbrev pub ◌>>◌ : Comp S E (Unit {0}) → Comp S E B → Comp S E B
  m >> n = m >>= λ _. n
