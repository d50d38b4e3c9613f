-- ===== src/Tests.antt =====
-- Concrete runs: the theorems at inputs that exercise the code.
mod Accounts
mod Api
mod Transfers
mod Journal
mod Store
mod Saga
mod Script
mod Workflow
mod Requests
mod Projections
