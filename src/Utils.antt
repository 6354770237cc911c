-- ===== src/Utils.antt =====
-- Helpers that several services share (packages/cli/utils), and what they use of strconv.
pub mod Filters
pub mod Decimal
pub mod Endpoint
mod Examples
