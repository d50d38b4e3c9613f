-- ===== src/Api.antt =====
-- src/ledger/api: what it keeps between requests.
pub mod Idempotency
pub mod Problems
pub mod Schemas
pub mod Context
pub mod AccountRoutes
pub mod TransferRoutes
pub mod Changes
pub mod Pages
pub mod ReadRoutes
pub mod Reads
pub mod Retries
pub mod PostgresIdempotency
