-- ===== src/Lib.antt =====
-- The core of the sasori agent runtime (packages/sasori-core/src/sasori_core): durable runs of a
-- model and its tools, in which every step is committed to a store before anything follows from it;
-- and two packages on it: the bounded model context (src/sasori_context) and the workflows of tool
-- steps (src/sasori_flow).
--
-- Parts, and how they interact. A `Harness` drives a run: it asks the model for a reply, keeps the
-- tool calls of the reply as records in a `RunStore`, processes them one after the other, and asks
-- again, until a reply has no calls. A call with effects waits for a person's decision. Where an
-- outcome is in doubt, the run waits for a person to settle it. Each commit has a revision, and
-- what each one means is appended to the run's event log. Projections are views of the store. A
-- `ContextProjector` stands before a model: it cuts a history to a budget, by whole turns. A
-- `WorkflowModel` stands for a model: from the records of its history it computes the one reply that
-- comes next, so that the harness runs the steps of a `WorkflowSpec` in their order.
--
-- Files and sources:
--   Text, Dict, Json: Python texts as code points, dicts in insertion order, the JSON-like values
--     that cross the boundaries, and the checks and copies of contracts.py and runtime.py on them
--     (`_freeze_event_value`, `_bounded_json_value`, `_json_copy`, `json.dumps` as it is used).
--   Contracts: the identifiers and the records of contracts.py, and those of store.py.
--   Store: `EphemeralRunStore` of store.py, one function for each method. A method takes the store
--     and gives its result or what it raised, with the store as it was left. Store.Growth has the
--     invariant of the tables and the order between an earlier and a later store.
--   Runtime.Detach, Runtime.Stream, Runtime.Progress: the snapshots of a reply, the transient
--     model stream (`_collect_model_stream`), and `_ToolProgressReporter`, of runtime.py.
--   Runtime.World: the harness's state and its surroundings. The model, the handlers, the fault
--     injector, SHA-256 and the texts that Python makes of objects are fields of `Environment`; the
--     n-th call of each gives what `Environment` says of n. `World` records each handler call with
--     the store as it was then.
--   Runtime.Setup: the checks of `Tool` and of `Harness.__init__`.
--   Runtime.Drives: `_enter_drive`, `_leave_drive` and `wait_for_idle`.
--   Runtime.Records, Runtime.Calls, Runtime.Model, Runtime.Loop, Runtime.Recovery: the methods of
--     `Harness` and `run_agent_loop`, cut where the source returns early.
--   Runtime.Safety: what each of those methods keeps, one module for each group of them.
--   Projection: the views of projection.py.
--   Context.Messages, Context.Rejections, Context.Atoms, Context.Summary, Context.Project: budget.py of
--     src/sasori_context: the values and digests of messages, the turns that the runtime refused, the
--     division of a history into atoms and turns, the summary of what is removed, the projector and the
--     model behind it.
--     `json.dumps`, SHA-256, `dict` of an object and the estimator are parameters (`Host`,
--     `Estimator`). A digest in hexadecimal is taken not to be empty.
--   Flow.Values, Flow.Types, Flow.Spec, Flow.Inputs: spec.py of src/sasori_flow: JSON data, the parts
--     of a definition, `WorkflowSpec`, and `validate_input` and `resolve_arguments`.
--   Flow.Records, Flow.Replay, Flow.Wrappers: runtime.py of src/sasori_flow: the control, input, call
--     and result records, `WorkflowModel`, and the wrapper tools that check a call's envelope before
--     they run the tool under it. SHA-256, `json.loads` and the tools are parameters (`Host`,
--     `BaseTool`).
--   Flow.Manifest: `validate_workflow_manifest` and `compose_workflow_manifest` of manifest.py of
--     src/sasori_flow.
--   Examples: concrete runs, stores, streams and values.
--
-- Fuel. The stack walk of `_bounded_json_value` has 100001 rounds, one more than the nodes after
-- which the source stops. `run_agent_loop` takes its fuel as an argument and raises `out_of_fuel`
-- where it is used up; what is stated of it holds for every fuel. A resolved approval looks at the
-- calls by recursion on the table. The loop of `_atoms` has one round for each message of the history,
-- and each round takes one message at least; the other loops of Context and Flow are recursions on
-- their lists and on the number of turns.
--
-- Numbers. Steps, revisions, ordinals and sequence numbers are naturals: the source only counts up
-- from 0 or 1, and Python's integers have no bound. The checks of the types of `limit` and `before`
-- and of negative numbers are void then.
--
-- Not modelled: tasks and deadlines of asyncio (a call gives its outcome, a timeout among them, and
-- cancellation is an outcome too), the tasks that deliver progress, the cancellation of one waiter,
-- what sinks do; of the workflows the checks against live tools, the harness facade, the catalog and
-- the authoring files; of the context semantic.py; and the other packages around the core: providers,
-- the SQLite store, the server, the command line, plugins, memory, artifacts, the market and the web
-- client.
pub mod Base
pub mod Text
pub mod Dict
pub mod Json
pub mod Contracts
pub mod Store
pub mod Runtime
pub mod Projection
pub mod Context
pub mod Flow
pub mod Examples
