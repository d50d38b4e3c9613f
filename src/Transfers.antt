-- ===== src/Transfers.antt =====
-- src/ledger/domain/transfers: the Transfer aggregate, its events and the ids of the saga's steps.
pub mod Events
pub mod Operations
pub mod Transfer
