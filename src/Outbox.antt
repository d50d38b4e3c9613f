-- ===== src/Outbox.antt =====
-- src/ledger/outbox: the events of the log, handed on to a publisher.
pub mod Relay
