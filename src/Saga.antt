-- ===== src/Saga.antt =====
-- src/ledger/temporal: the saga of a transfer.
pub mod Messages
pub mod Activities
pub mod Applied
pub mod Clean
pub mod Tidy
pub mod Written
pub mod Effects
pub mod Recorded
pub mod Flow
pub mod Reasons
pub mod Workflow
