-- ===== src/Context.antt =====
-- Projection of a message history into a bounded model context: src/sasori_context/budget.py.
pub mod Messages
pub mod Rejections
pub mod Atoms
pub mod Summary
pub mod Project
