-- ===== src/Proxy.antt =====
-- The web proxy (packages/cli/services/proxy): the trials that actors take part in.
pub mod Trial
pub mod Manager
mod Examples
