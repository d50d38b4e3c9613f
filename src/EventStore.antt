-- ===== src/EventStore.antt =====
-- src/ledger/eventstore: the append-only log, its envelopes and registry, and the repository.
pub mod Events
pub mod Records
pub mod Registry
pub mod Memory
pub mod Repository
