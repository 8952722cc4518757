-- ===== src/Flow.antt =====
-- Workflows of tool steps: spec.py, runtime.py and manifest.py of src/sasori_flow.
pub mod Values
pub mod Types
pub mod Spec
pub mod Inputs
pub mod Records
pub mod Replay
pub mod Wrappers
pub mod Manifest
