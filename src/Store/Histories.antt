-- ===== src/Store/Histories.antt =====
-- Sequences of method calls on one `EphemeralRunStore`
-- (packages/sasori-core/src/sasori_core/store.py), in any order and with any arguments, whether
-- they return or raise.
use sasori.Base.{refl, Bool, Option, List, [], ◌∷◌}
use sasori.Text.{Text}
use sasori.Dict.{get}
use sasori.Contracts.Types.{Event, Snapshot, CallRecord, CallStatus, Message, ModelReply}
use sasori.Store.State
use sasori.Store.State.{Store, init}
use sasori.Store.Runs
use sasori.Store.Calls
use sasori.Store.Approvals
use sasori.Store.Growth.{IsConsistent, Grown, Extends, Extends-refl, Extends-trans}
use sasori.Store.Growth.Methods.{
  start-Extends, commit-Extends, accept_reply-Extends, update_call-Extends, close-Extends,
}
use sasori.Store.Growth.Decisions.{request_approval-Extends, resolve_approval-Extends}

-- A call of a public method that writes to the store.
pub data Request : Type 0 where
  close : Request
  start : Text → List Message → Event → Option Text → Request
  transition : Snapshot → Snapshot → List Event → Request
  accept_reply : Snapshot → Snapshot → ModelReply → List CallRecord → List Event → Request
  update_call :
      Snapshot → Snapshot → CallRecord → CallStatus → List Event → Option Message → Request
  request_approval : Snapshot → Snapshot → CallRecord → Event → Request
  resolve_approval : Text → Text → Bool → Event → Request

-- The store after the call, however it ended.
unfoldable pub perform : Request → Store → Store
perform Request.close s = (State.close s).1
perform (Request.start k ms e a) s = (Runs.start k ms e a s).1
perform (Request.transition c u es) s = (Runs.transition c u es s).1
perform (Request.accept_reply c u r cs es) s = (Calls.accept_reply c u r cs es s).1
perform (Request.update_call c u call st es o) s = (Calls.update_call c u call st es o s).1
perform (Request.request_approval c u call e) s = (Approvals.request_approval c u call e s).1
perform (Request.resolve_approval k f b e) s = (Approvals.resolve_approval k f b e s).1

unfoldable pub after : List Request → Store → Store
unfolding perform
after [] s = s
after (r ∷ rs) s = after rs (perform r s)

perform-Extends : (r : Request) (s : Store) → Extends s (perform r s)
unfolding perform
perform-Extends Request.close s = close-Extends s
perform-Extends (Request.start k ms e a) s = start-Extends k ms e a s
perform-Extends (Request.transition c u es) s = unfold Runs.transition in commit-Extends c u es s
perform-Extends (Request.accept_reply c u r cs es) s = accept_reply-Extends c u r cs es s
perform-Extends (Request.update_call c u call st es o) s = update_call-Extends c u call st es o s
perform-Extends (Request.request_approval c u call e) s = request_approval-Extends c u call e s
perform-Extends (Request.resolve_approval k f b e) s = resolve_approval-Extends k f b e s

-- Whatever calls are made on a consistent store, the tables stay consistent, logs stay gapless
-- and only grow at their end, revisions do not go back, decided approvals keep their decision and
-- runs keep their rows.
pub history_grows :
    (rs : List Request) (s : Store)
    → IsConsistent s
    → IsConsistent (after rs s) × Grown s (after rs s)
unfolding after
history_grows [] s = Extends-refl s
history_grows (r ∷ rs) s =
    Extends-trans s (perform r s) (after rs (perform r s)) (perform-Extends r s)
      (history_grows rs (perform r s))

-- A new store is consistent.
pub init-IsConsistent : IsConsistent init
unfolding get
init-IsConsistent = record {
  known_log = λ k. refl;
  known_row = λ k. refl;
  known_approval = λ f. refl;
  gapless = λ k es h. cc;
  rows_below = λ k n h. cc;
  rows_differ = λ j k n h l. cc;
}
