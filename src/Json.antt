-- ===== src/Json.antt =====
-- The Python values that cross the core's boundaries, as far as the core tells them apart, and
-- the checks and copies of packages/sasori-core/src/sasori_core/{contracts,runtime}.py on them.
-- A float is known by its `repr`, by whether it is finite and by the integer that it equals.
mod Tree
pub mod Bounded
pub mod Copies
pub mod Canonical
unfoldable pub use Tree.*
