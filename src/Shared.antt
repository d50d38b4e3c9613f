-- ===== src/Shared.antt =====
-- src/ledger/domain/shared: identifiers, errors, Money, the aggregate base class, and the result
-- type of code that may raise.
pub mod Errors
pub mod Result
pub mod Exec
pub mod Money
pub mod Aggregate
