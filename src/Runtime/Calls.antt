-- ===== src/Runtime/Calls.antt =====
-- `Harness._process_call` of packages/sasori-core/src/sasori_core/runtime.py, with what it calls to
-- record how a tool call went. Progress reports go to an observer and to nothing here, so the
-- reporter is left out: see Progress.
pub mod Outcomes
pub mod Dispatch
pub mod Gates
