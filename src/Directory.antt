-- ===== src/Directory.antt =====
-- The directory service, packages/cli/services/directory/grpcservers: its database, its health checks
-- and the handlers of its requests.
pub mod Db
pub mod Health
pub mod Server
pub mod Inquire
pub mod Steps
mod Examples
