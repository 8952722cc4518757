-- ===== src/Runtime/Safety/Tools.antt =====
-- `_process_call` is safe: a call that did not pass validation, or that does more than read and
-- has no approval on record, is never handed to its handler.
use sasori.Base.{◌≡◌, refl, Bool, true, false, not, Option, none, some, [], ◌∷◌, arith}
use sasori.Base.Comp.{returned, ◌>>=◌}
use sasori.Text.{Text, text_eq}
use sasori.Dict.{get}
use sasori.Json.{Value, Entries, mapping}
use sasori.Contracts.Types.{Snapshot, CallRecord, Effect}
use sasori.Contracts.Equality.{effect_beq}
use sasori.Store.State.{Store}
use sasori.Store.Approvals.{approval}
use sasori.Store.Growth.{Extends, Extends-refl, Grown-refl}
use sasori.Store.Growth.Decisions.{request_approval-Extends}
use sasori.Runtime.World.{Environment, World, Run, Tool, on_store}
use sasori.Json.Copies.{json_copy}
use sasori.Runtime.Records.{validate_call, tool_named, Refusal}
use sasori.Runtime.Calls.Dispatch.{
  settle_call, invoke, dispatch, is_read_only, is_requested, is_denied,
}
use sasori.Runtime.Calls.Gates.{
  ask_approval, decide, approval_gate, bind_call, contract_gate, copied_gate, validation_gate,
  process_call, bind_error_of, key_problem, bound_call, keyed_call, revision_gate, revision_changed,
  named_call, validated_call,
}
use sasori.Store.Growth.{IsConsistent}
use sasori.Runtime.Safety.{Advance, Step, IsSafe}
use sasori.Runtime.Safety.Rules.{
  IsSafe-persist, IsSafe-on_store, IsSafe-bind, IsSafe-if, IsSafe-raise, IsSafe-fault,
  IsSafe-bind_eq, IsSafeFrom, IsSafeFrom-safe, IsSafeFrom-if, IsSafeFrom-last, IsSafeFrom-bind,
  Lasts,
}
use sasori.Runtime.Safety.Outcomes.{
  current_call-IsSafe, updating-IsSafe, record_tool_error-IsSafe, mark_effect_unknown-IsSafe,
  request_call-IsSafe, settle_call-IsSafe,
}

-- The approval of a call that does more than read is on record.
abbrev pub IsApproved : CallRecord → World → Type 0
IsApproved call w =
    is_read_only call.effect ≡ false → get call.fingerprint w.store.approvals ≡ some (some true)

module _ {env : Environment} (call : CallRecord) where
  IsApproved-Lasts : Lasts env (IsApproved call)
  IsApproved-Lasts w w' a p h = a.grown.decisions call.fingerprint true (p h)

  invoke-IsSafe : validate_call env call ≡ none → IsSafeFrom env (IsApproved call) (invoke env call)
  unfolding invoke
  invoke-IsSafe valid = record {
    at = λ w p c. record {
      consistent = c;
      grown = Grown-refl w.store;
      called = (record { call = call; store = w.store } ∷ [], refl, ((valid, p), tt));
    };
  }

  dispatch-IsSafe :
      (tool : Tool) (state : Snapshot)
      → validate_call env call ≡ none
      → IsSafeFrom env (IsApproved call) (dispatch env tool state call)
  unfolding dispatch
  dispatch-IsSafe tool state valid =
      IsSafeFrom-if _ _ _ (IsSafeFrom-safe _ (mark_effect_unknown-IsSafe _ _ _ _ _)) (
        from (IsSafe-fault _) (λ _. from (updating-IsSafe _ _ _ _ _ _ _) (λ s.
          from (current_call-IsSafe s call.ordinal)
            (λ c. from (IsSafe-fault _) (λ _. invoked tool s c)))))
    where
      from :
          {A B : Type 0} {m : Run A} {f : A → Run B}
          → IsSafe env m
          → ((a : A) → IsSafeFrom env (IsApproved call) (f a))
          → IsSafeFrom env (IsApproved call) (m >>= f)
      from {A} {B} {m} {f} g h = IsSafeFrom-bind m f IsApproved-Lasts g h

      invoked :
          (tool : Tool) (s : Snapshot) (c : CallRecord)
          → IsSafeFrom env (IsApproved call) (invoke env call >>= λ o. settle_call env tool s c o)
      invoked tool s c =
          IsSafeFrom-last (invoke env call) _ (invoke-IsSafe valid)
            (λ o. settle_call-IsSafe tool s c o)

  ask_approval-IsSafe : (state : Snapshot) → IsSafe env (ask_approval env state call)
  unfolding ask_approval
  ask_approval-IsSafe state =
      IsSafe-bind _ _ (IsSafe-persist _ _ (request_approval-Extends _ _ _ _))
        (λ s. IsSafe-bind _ _ (current_call-IsSafe s call.ordinal) (λ c. IsSafe-raise _))

-- What the approval on record says.
approval_known :
    (f : Text) (w : World) (d : Option Bool)
    → (on_store (approval f) w).0 ≡ returned d
    → d ≡ some true
    → get f (on_store (approval f) w).1.store.approvals ≡ some (some true)
unfolding approval on_store
approval_known f w d h e = ground arith

approval-Extends : (f : Text) (s : Store) → Extends s (approval f s).1
unfolding approval
approval-Extends f s = rw same (Extends-refl s)
  where
    same : (approval f s).1 ≡ s
    same = ground arith

same_reading : (a b : Effect) → effect_beq a b ≡ true → is_read_only a ≡ is_read_only b
unfolding effect_beq
same_reading Effect.read_only b h = ground arith
same_reading Effect.idempotent b h = ground arith
same_reading Effect.side_effecting b h = ground arith

module _ {env : Environment} (call : CallRecord) (valid : validate_call env call ≡ none) where
  decide-IsSafe :
      (tool : Tool) (state : Snapshot) (d : Option Bool) (w : World)
      → (d ≡ some true → get call.fingerprint w.store.approvals ≡ some (some true))
      → Step env w (decide env tool state call d w).1
  unfolding decide
  decide-IsSafe tool state none w known =
      (IsSafe-if (is_requested call.status) _ _ (λ _. ask_approval-IsSafe call state)
          (λ _.
            IsSafe-if (is_denied call.status) _ _ (λ _. record_tool_error-IsSafe _ _ _ _)
              (λ _. IsSafe-raise _))).at
        w
  decide-IsSafe tool state (some false) w known = (record_tool_error-IsSafe _ _ _ _).at w
  decide-IsSafe tool state (some true) w known =
      (IsSafeFrom-if (is_denied call.status) _ _
          (IsSafeFrom-safe _ (record_tool_error-IsSafe _ _ _ _))
          (dispatch-IsSafe call tool state valid)).at
        w (λ _. known refl)

  approval_gate-IsSafe :
      (tool : Tool) (state : Snapshot)
      → is_read_only tool.effect ≡ is_read_only call.effect
      → IsSafe env (approval_gate env tool state call)
  unfolding approval_gate
  approval_gate-IsSafe tool state same =
      IsSafe-if (is_read_only tool.effect) _ _
        (λ e. record { at = λ w. (dispatch-IsSafe call tool state valid).at w (λ h. cc) })
        (λ e. record {
          at = λ w.
              IsSafe-bind_eq (on_store (approval call.fingerprint)) _ w
                (IsSafe-on_store _ (approval-Extends call.fingerprint))
                (λ d h. decide-IsSafe tool state d _ (approval_known call.fingerprint w d h));
        })

  bind_call-IsSafe :
      (tool : Tool) (state : Snapshot) (es : Entries)
      → is_read_only tool.effect ≡ is_read_only call.effect
      → IsSafe env (bind_call env tool state call es)
  unfolding bind_call
  bind_call-IsSafe tool state es same = bound (bind_error_of tool.inspected tool.effect call es)
    where
      bound : (o : Option Text) → IsSafe env (bound_call env tool state call o)
      bound none = approval_gate-IsSafe tool state same
      bound (some e) = record_tool_error-IsSafe _ _ _ _

  revision_gate-IsSafe :
      (tool : Tool) (state : Snapshot) (es : Entries)
      → is_read_only tool.effect ≡ is_read_only call.effect
      → IsSafe env (revision_gate env tool state call es)
  unfolding revision_gate
  revision_gate-IsSafe tool state es same =
      IsSafe-if (revision_changed tool call) _ _ (λ _. mark_effect_unknown-IsSafe _ _ _ _ _)
        (λ _. keyed (key_problem tool call))
    where
      keyed : (o : Option Text) → IsSafe env (keyed_call env tool state call es o)
      keyed none = bind_call-IsSafe tool state es same
      keyed (some message) = mark_effect_unknown-IsSafe _ _ _ _ _

  contract_gate-IsSafe :
      (tool : Tool) (state : Snapshot) (es : Entries)
      → IsSafe env (contract_gate env tool state call es)
  unfolding contract_gate
  contract_gate-IsSafe tool state es =
      IsSafe-if (not (effect_beq tool.effect call.effect)) _ _
        (λ _. mark_effect_unknown-IsSafe _ _ _ _ _)
        (λ e.
          revision_gate-IsSafe tool state es (same_reading tool.effect call.effect (ground arith)))

  copied_gate-IsSafe :
      (tool : Tool) (state : Snapshot) (v : Option Value)
      → IsSafe env (copied_gate env tool state call v)
  unfolding copied_gate
  copied_gate-IsSafe tool state (some (mapping es)) = contract_gate-IsSafe tool state es
  copied_gate-IsSafe tool state _ = IsSafe-raise _

module _ {env : Environment} where
  validation_gate-IsSafe :
      (state : Snapshot) (call : CallRecord) → IsSafe env (validation_gate env state call)
  unfolding validation_gate
  validation_gate-IsSafe state call = validated (validate_call env call) refl
    where
      named :
          validate_call env call ≡ none
          → (o : Option Tool) → IsSafe env (named_call env state call o)
      named valid none = IsSafe-raise _
      named valid (some tool) = copied_gate-IsSafe call valid tool state (json_copy call.arguments)

      validated :
          (o : Option Refusal)
          → validate_call env call ≡ o
          → IsSafe env (validated_call env state call o)
      validated none valid = named valid (tool_named env call.name)
      validated (some r) e = record_tool_error-IsSafe _ _ _ _

  -- Processing a call is safe.
  pub process_call-IsSafe :
      (state : Snapshot) (call : CallRecord) → IsSafe env (process_call env state call)
  unfolding process_call
  process_call-IsSafe state call =
      IsSafe-bind _ _ (request_call-IsSafe state call) (λ sc. validation_gate-IsSafe sc.0 sc.1)

-- The pipeline for one call, from a consistent store, and however it ends: the store stays
-- consistent and only grows, and the handler is called, if at all, for a call that passed
-- validation, and with its approval on record unless it only reads.
pub process_call-Advance :
    (env : Environment) (state : Snapshot) (call : CallRecord) (w : World)
    → IsConsistent w.store
    → Advance env w (process_call env state call w).1
process_call-Advance env state call w = (process_call-IsSafe state call).at w
