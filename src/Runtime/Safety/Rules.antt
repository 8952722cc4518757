-- ===== src/Runtime/Safety/Rules.antt =====
-- One rule for each way in which the harness's methods are put together.
use sasori.Base.{◌+◌, ◌≡◌, refl, Bool, true, false, Option, none, some, List, ◌++◌, if◌then◌else◌}
use sasori.Base.Comp.{
  Outcome, returned, raised, pure, raise, or_raise, raise_if, continue, ◌>>=◌, ◌>>◌,
}
use sasori.Contracts.Types.{Snapshot, Event}
use sasori.Store.State.{Store, StoreComp, StoreError}
use sasori.Store.Growth.{Extends, Grown-refl}
use sasori.Runtime.World.{
  Environment, World, Run, RunError, FaultPoint, on_store, lift_outcome, fault, observe, persist,
}
use sasori.Runtime.Safety.{Advance, Step, IsSafe, Step-refl, Step-trans, Step-store}

module _ {env : Environment} {A : Type 0} where
  pub IsSafe-pure : (a : A) → IsSafe env (pure a)
  IsSafe-pure a = record { at = λ w. Step-refl env w }

  pub IsSafe-raise : (e : RunError) → IsSafe env (raise {A = A} e)
  IsSafe-raise e = record { at = λ w. Step-refl env w }

  pub IsSafe-or_raise : (e : RunError) (o : Option A) → IsSafe env (or_raise e o)
  IsSafe-or_raise e none = record { at = λ w. Step-refl env w }
  IsSafe-or_raise e (some a) = record { at = λ w. Step-refl env w }

  pub IsSafe-if :
      (b : Bool) (m n : Run A)
      → (b ≡ true → IsSafe env m)
      → (b ≡ false → IsSafe env n)
      → IsSafe env (if b then m else n)
  IsSafe-if true m n f g = f refl
  IsSafe-if false m n f g = g refl

  lift_outcome-Step :
      (w : World) (p : Outcome StoreError A × Store)
      → Extends w.store p.1
      → Step env w (lift_outcome p w).1
  lift_outcome-Step w (returned a, s) g = Step-store env w (record w { store = s }) refl g
  lift_outcome-Step w (raised e, s) g = Step-store env w (record w { store = s }) refl g

  pub IsSafe-on_store :
      (m : StoreComp A) → ((s : Store) → Extends s (m s).1) → IsSafe env (on_store m)
  unfolding on_store
  IsSafe-on_store m g = record { at = λ w. lift_outcome-Step w (m w.store) (g w.store) }

module _ {env : Environment} where
  pub IsSafe-raise_if : (b : Bool) (e : RunError) → IsSafe env (raise_if b e)
  IsSafe-raise_if b e = record { at = λ w. Step-refl env w }

  pub IsSafe-fault : (point : FaultPoint) → IsSafe env (fault env point)
  unfolding fault
  IsSafe-fault point = record {
    at = λ w.
        Step-store env w (record w { faults = w.faults + 1 }) refl (λ c. (c, Grown-refl w.store));
  }

  pub IsSafe-observe : (es : List Event) → IsSafe env (observe env es)
  unfolding observe
  IsSafe-observe es = record { at = λ w. observed w env.has_event_sink }
    where
      observed :
          (w : World) (b : Bool)
          → Step env w (if b then record w { observed = w.observed ++ es } else w)
      observed w true =
          Step-store env w (record w { observed = w.observed ++ es }) refl
            (λ c. (c, Grown-refl w.store))
      observed w false = Step-refl env w

module _ {env : Environment} {A B : Type 0} where
  pub continue-Step :
      (w : World) (p : Outcome RunError A × World) (f : A → Run B)
      → Step env w p.1
      → ((a : A) → p.0 ≡ returned a → Step env p.1 (f a p.1).1)
      → Step env w (continue p f).1
  continue-Step w (returned a, v) f g h = Step-trans env w v (f a v).1 g (h a refl)
  continue-Step w (raised e, v) f g h = g

  pub IsSafe-bind :
      (m : Run A) (f : A → Run B)
      → IsSafe env m
      → ((a : A) → IsSafe env (f a))
      → IsSafe env (m >>= f)
  IsSafe-bind m f g h = record {
    at = λ w. continue-Step w (m w) f (g.at w) (λ a _. (h a).at (m w).1);
  }

  -- The rest may use what the first part returned, and from where.
  pub IsSafe-bind_eq :
      (m : Run A) (f : A → Run B) (w : World)
      → IsSafe env m
      → ((a : A) → (m w).0 ≡ returned a → Step env (m w).1 (f a (m w).1).1)
      → Step env w ((m >>= f) w).1
  IsSafe-bind_eq m f w g h = continue-Step w (m w) f (g.at w) h

module _ {env : Environment} {B : Type 0} where
  pub IsSafe-then :
      (m : Run (Unit {0})) (n : Run B) → IsSafe env m → IsSafe env n → IsSafe env (m >> n)
  IsSafe-then m n g h = IsSafe-bind m (λ _. n) g (λ _. h)

pub ruleset safe_rules = (
  IsSafe-pure, IsSafe-raise, IsSafe-or_raise, IsSafe-if, IsSafe-raise_if, IsSafe-fault,
  IsSafe-observe, IsSafe-bind, IsSafe-then,
)

module _ {env : Environment} where
  pub IsSafe-persist :
      (action : StoreComp Snapshot) (es : List Event)
      → ((s : Store) → Extends s (action s).1)
      → IsSafe env (persist env action es)
  unfolding persist
  IsSafe-persist action es g =
      IsSafe-then (fault env FaultPoint.before_checkpoint_commit) _
        (IsSafe-fault FaultPoint.before_checkpoint_commit)
        (IsSafe-bind (on_store action) _ (IsSafe-on_store action g) (λ state.
          IsSafe-then (fault env FaultPoint.after_checkpoint_commit) _
            (IsSafe-fault FaultPoint.after_checkpoint_commit)
            (IsSafe-then (observe env es) _ (IsSafe-observe es) (IsSafe-pure state))))

-- `m` is safe from the worlds where `P` holds.
pub record IsSafeFrom (env : Environment) {A : Type 0} (P : World → Type 0) (m : Run A)
    : Type 0 where
  pub at : (w : World) → P w → Step env w (m w).1

-- `P` outlasts every safe step.
abbrev pub Lasts : Environment → (World → Type 0) → Type 0
Lasts env P = (w w' : World) → Advance env w w' → P w → P w'

module _ {env : Environment} {A : Type 0} {P : World → Type 0} where
  pub IsSafeFrom-safe : (m : Run A) → IsSafe env m → IsSafeFrom env P m
  IsSafeFrom-safe m g = record { at = λ w p. g.at w }

  pub IsSafeFrom-if :
      (b : Bool) (m n : Run A)
      → IsSafeFrom env P m
      → IsSafeFrom env P n
      → IsSafeFrom env P (if b then m else n)
  IsSafeFrom-if true m n f g = f
  IsSafeFrom-if false m n f g = g

module _ {env : Environment} {A B : Type 0} {P : World → Type 0} where
  pub IsSafeFrom-bind :
      (m : Run A) (f : A → Run B)
      → Lasts env P
      → IsSafe env m
      → ((a : A) → IsSafeFrom env P (f a))
      → IsSafeFrom env P (m >>= f)
  IsSafeFrom-bind m f lasts g h = record { at = λ w p. go w p (m w) (g.at w) }
    where
      go :
          (w : World)
          → P w
          → (q : Outcome RunError A × World) → Step env w q.1
          → Step env w (continue q f).1
      go w p (returned a, v) step c =
          let first = step c in
          Step-trans env w v (f a v).1 (λ _. first) ((h a).at v (lasts w v first p)) c
      go w p (raised e, v) step c = step c

module _ {env : Environment} {A B : Type 0} {P : World → Type 0} where
  pub IsSafeFrom-last :
      (m : Run A) (f : A → Run B)
      → IsSafeFrom env P m
      → ((a : A) → IsSafe env (f a))
      → IsSafeFrom env P (m >>= f)
  IsSafeFrom-last m f g h = record {
    at = λ w p. continue-Step w (m w) f (g.at w p) (λ a _. (h a).at (m w).1);
  }
