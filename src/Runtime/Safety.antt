-- ===== src/Runtime/Safety.antt =====
-- What every path through the harness (packages/sasori-core/src/sasori_core/runtime.py) keeps, however
-- it ends: the store grows as its own methods promise, and a handler is called only for a call
-- that may run.
pub mod Rules
pub mod Outcomes
pub mod Tools
pub mod Models
pub mod Rounds
pub mod Runs
pub mod Sessions
use sasori.Base.{
  ℕ, ◌≡◌, refl, Bool, true, false, Option, none, some, List, [], ◌∷◌, ◌++◌, All, sym, ap, ◌∙◌,
}
use mathlib.Core.List.{append-nil, append_assoc}
use sasori.Text.{Text, text_eq}
use sasori.Dict.{get}
use sasori.Contracts.Types.{CallRecord}
use sasori.Runtime.Records.{validate_call}
use sasori.Runtime.Calls.Dispatch.{is_read_only}
use sasori.Runtime.World.{Environment, World, Invocation, Run}
use sasori.Store.Growth.{IsConsistent, Grown, Grown-refl, Grown-trans}
use sasori.Store.State.{Store}

-- The call passed validation, and unless it only reads, its approval is on record.
abbrev pub Authorised : Environment → Invocation → Type 0
Authorised env i =
    (validate_call env i.call ≡ none)
    × (is_read_only i.call.effect ≡ false
        → get i.call.fingerprint i.store.approvals ≡ some (some true))

pub record Advance (env : Environment) (w w' : World) : Type 0 where
  pub consistent : IsConsistent w'.store
  pub grown : Grown w.store w'.store
  pub called :
      (zs : List Invocation) × (w'.invocations ≡ w.invocations ++ zs) × All (Authorised env) zs

-- What a step from a consistent store has done.
abbrev pub Step : Environment → World → World → Type 0
Step env w w' = IsConsistent w.store → Advance env w w'

-- `m` makes such a step, whether it returns or raises.
pub record IsSafe (env : Environment) {A : Type 0} (m : Run A) : Type 0 where
  pub at : (w : World) → Step env w (m w).1

pub All-append {ℓ κ} :
    {A : Type ℓ} (P : A → Type κ) (xs ys : List A) → All P xs → All P ys → All P (xs ++ ys)
All-append P [] ys h k = k
All-append P (x ∷ xs) ys h k = (h.0, All-append P xs ys h.1 k)

-- A step that calls no handler.
pub Step-store :
    (env : Environment) (w w' : World)
    → w'.invocations ≡ w.invocations
    → (IsConsistent w.store → IsConsistent w'.store × Grown w.store w'.store)
    → Step env w w'
Step-store env w w' same g c = record {
  consistent = (g c).0;
  grown = (g c).1;
  called = ([], same ∙ sym (append-nil w.invocations), tt);
}

pub Step-refl : (env : Environment) (w : World) → Step env w w
Step-refl env w = Step-store env w w refl (λ c. (c, Grown-refl w.store))

pub Step-trans : (env : Environment) (u v w : World) → Step env u v → Step env v w → Step env u w
Step-trans env u v w g h c =
    let a = g c in
    let b = h a.consistent in
    let (xs, p, px) = a.called in
    let (ys, q, qy) = b.called in
    record {
      consistent = b.consistent;
      grown = Grown-trans a.grown b.grown;
      called = (
        xs ++ ys,
        q ∙ ap (λ l. l ++ ys) p ∙ append_assoc u.invocations xs ys,
        All-append (Authorised env) xs ys px qy,
      );
    }
