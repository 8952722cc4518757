-- ===== src/Examples.antt =====
-- Concrete runs of the model: a tool, a provider, stores and streams.
pub mod Data
pub mod Sessions
pub mod Stores
pub mod Values
pub mod Contexts
pub mod Workflows
pub mod Manifests
