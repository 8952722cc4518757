-- ===== src/Runtime/Safety/Sessions.antt =====
-- Any use of one store through harnesses: each request comes with its own harness and its own
-- surroundings, so a restart with other tools or limits is a session too.
use sasori.Base.{ℕ, Bool, true, false, ◌&&◌, Option, List, [], ◌∷◌}
use sasori.Text.{Text, is_blank}
use sasori.Json.{Value}
use sasori.Contracts.Types.{Snapshot, Message, CallRecord, Event}
use sasori.Contracts.Ids.{validate_run_id}
use sasori.Store.State.{load}
use sasori.Store.Calls.{calls_of}
use sasori.Store.Approvals
use sasori.Store.Growth.{IsConsistent, Grown, Grown-refl, Grown-trans}
use sasori.Store.Growth.Decisions.{resolve_approval-Extends}
use sasori.Runtime.World.{Environment, World, on_store, value_error}
use sasori.Runtime.Loop
use sasori.Runtime.Recovery
use sasori.Runtime.Recovery.{
  RecoveryAction, apply_recovery, record_recovery, observe_if, action_named, matching_call,
  is_retry, is_cancelled,
}
use sasori.Runtime.Safety.{Advance, Step, IsSafe, Step-refl}
use sasori.Runtime.Safety.Rules.{
  IsSafe-on_store, IsSafe-bind, IsSafe-then, IsSafe-or_raise, IsSafe-raise_if, IsSafe-fault,
  IsSafe-observe,
}
use sasori.Runtime.Safety.Outcomes.{load-Extends, calls_of-Extends, updating-IsSafe}
use sasori.Runtime.Safety.Runs.{run-IsSafe, resume-IsSafe}

module _ {env : Environment} where
  observe_if-IsSafe : (b : Bool) (es : List Event) → IsSafe env (observe_if env b es)
  observe_if-IsSafe true es = IsSafe-observe es
  observe_if-IsSafe false es = record { at = λ w. Step-refl env w }

  pub resolve_approval-IsSafe :
      (id : Value) (f : Text) (b : Bool) → IsSafe env (Recovery.resolve_approval env id f b)
  unfolding Recovery.resolve_approval
  resolve_approval-IsSafe id f b = IsSafe-bind _ _ (IsSafe-or_raise _ (validate_run_id id)) (λ k.
      IsSafe-bind (on_store (load k)) _ (IsSafe-on_store (load k) (load-Extends k)) (λ s.
        IsSafe-then _ _ (IsSafe-fault _) (
          IsSafe-bind (on_store (Approvals.resolve_approval k f b _)) _
            (IsSafe-on_store (Approvals.resolve_approval k f b _)
              (resolve_approval-Extends k f b _))
            (λ r. IsSafe-then _ _ (IsSafe-fault _) (observe_if-IsSafe r.1 _)))))

  record_recovery-IsSafe :
      (s : Snapshot) (c : CallRecord) (e : Event) (f content : Text) (code : Option Text)
      → IsSafe env (record_recovery env s c e f content code)
  unfolding record_recovery
  record_recovery-IsSafe s c e f content code = updating-IsSafe _ _ _ _ _ _ _

  apply_recovery-IsSafe :
      (s : Snapshot) (c : CallRecord) (f : Text) (a : RecoveryAction) (reason : Text) (v : Value)
      → IsSafe env (apply_recovery env s c f a reason v)
  unfolding apply_recovery
  apply_recovery-IsSafe s c f RecoveryAction.retry reason v = updating-IsSafe _ _ _ _ _ _ _
  apply_recovery-IsSafe s c f RecoveryAction.fail reason v = record_recovery-IsSafe _ _ _ _ _ _
  apply_recovery-IsSafe s c f RecoveryAction.record_result reason v =
      record_recovery-IsSafe _ _ _ _ _ _

  pub resolve_effect-IsSafe :
      (id : Value) (f name reason : Text) (v : Value)
      → IsSafe env (Recovery.resolve_effect env id f name reason v)
  unfolding Recovery.resolve_effect
  resolve_effect-IsSafe id f name reason v =
      IsSafe-bind _ _ (IsSafe-or_raise _ (validate_run_id id)) (λ k.
        IsSafe-bind _ _ (IsSafe-or_raise value_error (action_named name)) (λ a.
          IsSafe-then _ _ (IsSafe-raise_if (is_blank reason) value_error) (
            IsSafe-bind (on_store (load k)) _ (IsSafe-on_store (load k) (load-Extends k)) (λ s.
              IsSafe-bind (on_store (calls_of k s.step)) _
                (IsSafe-on_store (calls_of k s.step) (calls_of-Extends k s.step))
                (λ cs. IsSafe-bind _ _ (IsSafe-or_raise value_error (matching_call s f cs)) (λ c.
                  IsSafe-then _ _
                    (IsSafe-raise_if (is_cancelled s.status && is_retry a) value_error)
                    (apply_recovery-IsSafe s c f a reason v)))))))

-- What a client asks of a harness, with the fuel of its loop where it has one.
pub data Demand : Type 0 where
  run : ℕ → List Message → Value → Option Text → Demand
  resume : ℕ → Value → Demand
  resolve_approval : Value → Text → Bool → Demand
  resolve_effect : Value → Text → Text → Text → Value → Demand

unfoldable pub serve : Environment → Demand → World → World
serve env (Demand.run fuel messages id app_id) w = (Loop.run fuel env messages id app_id w).1
serve env (Demand.resume fuel id) w = (Loop.resume fuel env id w).1
serve env (Demand.resolve_approval id f b) w = (Recovery.resolve_approval env id f b w).1
serve env (Demand.resolve_effect id f name reason v) w =
    (Recovery.resolve_effect env id f name reason v w).1

serve-Step : (env : Environment) (d : Demand) (w : World) → Step env w (serve env d w)
unfolding serve
serve-Step env (Demand.run fuel messages id app_id) w = (run-IsSafe fuel messages id app_id).at w
serve-Step env (Demand.resume fuel id) w = (resume-IsSafe fuel id).at w
serve-Step env (Demand.resolve_approval id f b) w = (resolve_approval-IsSafe id f b).at w
serve-Step env (Demand.resolve_effect id f name reason v) w =
    (resolve_effect-IsSafe id f name reason v).at w

-- A session of any kind, from a consistent store, and however it ends: the store stays consistent
-- and only grows, and each handler that was called was called for a call that had passed
-- validation, and whose approval was on record unless it only reads.
pub serve-Advance :
    (env : Environment) (d : Demand) (w : World)
    → IsConsistent w.store
    → Advance env w (serve env d w)
serve-Advance env d w c = serve-Step env d w c

-- One session after the other on the same store; each has a harness of its own, with the fuel of
-- its loops.
unfoldable pub serve_all : List (Environment × Demand) → World → World
unfolding serve
serve_all [] w = w
serve_all ((env, d) ∷ ds) w = serve_all ds (serve env d w)

-- Any sequence of sessions from a consistent store, each with its own tools, limits and surroundings:
-- the store stays consistent, its logs and revisions only grow, and no decision or row is lost.
pub serve_all_grows :
    (ds : List (Environment × Demand)) (w : World)
    → IsConsistent w.store
    → IsConsistent (serve_all ds w).store × Grown w.store (serve_all ds w).store
unfolding serve_all
serve_all_grows [] w c = (c, Grown-refl w.store)
serve_all_grows ((env, d) ∷ ds) w c =
    let first = serve-Step env d w c in
    let rest = serve_all_grows ds (serve env d w) first.consistent in
    (rest.0, Grown-trans first.grown rest.1)
