-- ===== src/Journal.antt =====
-- src/ledger/domain/ledger: the double-entry journal.
pub mod Leg
pub mod Totals
pub mod Entry
pub mod Posting
