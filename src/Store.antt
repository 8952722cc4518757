-- ===== src/Store.antt =====
-- The run store of packages/sasori-core/src/sasori_core/store.py.
pub mod State
pub mod Runs
pub mod Calls
pub mod Approvals
pub mod Pages
pub mod Refusals
pub mod Growth
pub mod Histories
