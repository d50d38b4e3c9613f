-- ===== src/Accounts.antt =====
-- src/ledger/domain/accounts: the Account aggregate.
pub mod Events
pub mod Account
