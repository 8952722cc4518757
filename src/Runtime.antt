-- ===== src/Runtime.antt =====
-- packages/sasori-core/src/sasori_core/runtime.py
pub mod Detach
pub mod Stream
pub mod World
pub mod Drives
pub mod Setup
pub mod Records
pub mod Calls
pub mod Model
pub mod Loop
pub mod Recovery
pub mod Progress
pub mod Safety
