-- ===== src/Examples/Data.antt =====
-- One tool with effects, a provider that asks for it and then ends, and the snapshots and calls
-- that go with them.
use sasori.Base.{ℕ, zero, suc, true, false, none, some, [], ◌∷◌}
use sasori.Text.{Text, codes}
use sasori.Json.{Entries, string, mapping, boolean, fields}
use sasori.Contracts.Types.{
  Effect, ReplyCall, tool_call, given, ModelReply, Message, Snapshot, RunStatus, CallRecord,
  CallStatus, Event, EventType,
}
use sasori.Store.State.{Store, init}
use sasori.Runtime.World.{Environment, World, Tool, signature, ModelOutcome, completes, outputs}

abbrev pub wipe : Tool
wipe = record {
  name = string (codes "wipe");
  callable = true;
  inspected =
      signature (record { idempotency_key = none; tool_context = none; bind_error = λ es. none });
  effect = Effect.side_effecting;
  idempotency_key = none;
  tool_revision = some (codes "1");
}

abbrev pub disk : Entries
disk = fields ((codes "disk", string (codes "sda")) ∷ [])

abbrev pub wipe_call : Text → ReplyCall
wipe_call id = tool_call (record {
  id = string id;
  name = string (codes "wipe");
  arguments = given (mapping disk);
  complete = boolean true;
})

abbrev pub asking : ModelReply
asking = record {
  content = string (codes "I shall wipe it");
  tool_calls = wipe_call (codes "c1") ∷ [];
  provider_state = none;
}

abbrev pub ending : ModelReply
ending = record { content = string (codes "done"); tool_calls = []; provider_state = none }

abbrev provider : ℕ → ModelOutcome
provider zero = completes asking
provider (suc n) = completes ending

abbrev pub harness : Environment
harness = record {
  tools = (codes "wipe", wipe) ∷ [];
  max_steps = 8;
  model = provider;
  tool = λ n. outputs (string (codes "wiped"));
  fault = λ p n. false;
  has_event_sink = true;
  digest = λ v. codes "f1";
  render_object = λ v. codes "?";
  model_timeout = codes "60";
  tool_timeout = codes "30";
}

abbrev pub world_with : Store → World
world_with s = record {
  store = s;
  active_runs = [];
  idle_waiters = [];
  woken = [];
  observed = [];
  faults = 0;
  model_calls = 0;
  tool_calls = 0;
  invocations = [];
}

abbrev pub new_world : World
new_world = world_with init

abbrev pub request : Message
request = record {
  role = codes "user";
  content = codes "wipe the disk";
  tool_calls = [];
  tool_call_id = none;
  tool_name = none;
  error_code = none;
  provider_state = none;
}

abbrev pub snapshot_of : Text → RunStatus → Snapshot
snapshot_of run_id status = record {
  run_id = run_id;
  revision = 3;
  generation = 3;
  status = status;
  step = 1;
  history = request ∷ [];
  accepted_reply = none;
  final_message = none;
  app_id = none;
}

abbrev pub stored_call : Text → CallStatus → CallRecord
stored_call call_id status = record {
  run_id = codes "r1";
  step = 1;
  ordinal = 0;
  call_id = some call_id;
  fingerprint = codes "f1";
  name = some (codes "wipe");
  arguments = mapping disk;
  arguments_valid = true;
  complete = true;
  effect = Effect.side_effecting;
  idempotency_key = none;
  tool_revision = codes "1";
  status = status;
  outcome = none;
}

abbrev pub resolved : Event
resolved = record {
  type = EventType.approval_resolved;
  run_id = codes "r1";
  step = 1;
  fields = fields [];
  version = 1;
  tool_name = none;
  call_id = none;
}
