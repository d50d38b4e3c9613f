-- ===== src/Projections.antt =====
-- src/ledger/projections: the read models and the runner that feeds them from the log.
pub mod Balances
pub mod Runner
pub mod ReadModels
pub mod Statements
