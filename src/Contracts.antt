-- ===== src/Contracts.antt =====
-- packages/sasori-core/src/sasori_core/contracts.py
pub mod Ids
pub mod Types
pub mod Equality
