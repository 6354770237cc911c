-- ===== src/Registry.antt =====
-- The model registry (packages/cli/services/registry).
pub mod Types
pub mod MemoryCache
pub mod Server
mod Examples
mod ServerExamples
