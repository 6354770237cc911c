-- ===== src/Datastore.antt =====
-- The trial datastore, packages/cli/services/datastore: the observable list, the memory backend, the
-- sample filters, the batches and the gRPC servers.
pub mod Observable
pub mod Memory
pub mod SampleFilter
pub mod Datalog
pub mod Batcher
pub mod Server
mod ServerExamples
mod Examples
