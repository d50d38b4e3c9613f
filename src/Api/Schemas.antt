-- ===== src/Api/Schemas.antt =====
-- api/schemas.py: the models of requests and responses. What pydantic refuses never arrives.
use Prim.Native.String.{String}
use ledger_py.Base.{ℕ, Option}
use ledger_py.Base.Int.{ℤ}
use ledger_py.Shared.Errors.{Uuid, Currency, StreamType}
use ledger_py.Accounts.Events.{AccountStatus}
use ledger_py.Transfers.Events.{TransferStatus, FailureReason}
use ledger_py.Saga.Messages.{ReconciliationResolution}

pub record OpenAccountRequest : Type 0 where
  pub currency : Currency

pub record DepositRequest : Type 0 where
  pub amount : ℤ
  pub currency : Currency

pub record AccountResponse : Type 0 where
  pub account_id : Uuid
  pub currency : Currency
  pub status : AccountStatus
  pub available : ℤ
  pub reserved : ℤ
  pub total : ℤ

pub record StatementLineResponse : Type 0 where
  pub global_position : ℕ
  pub kind : String
  pub amount : ℤ
  pub currency : Currency
  pub occurred_at : ℕ

pub record EventResponse (P : Type 0) : Type 0 where
  pub global_position : ℕ
  pub version : ℕ
  pub event_type : String
  pub occurred_at : ℕ
  pub payload : P

pub record GlobalEventResponse : Type 0 where
  pub global_position : ℕ
  pub stream_type : StreamType
  pub stream_id : Uuid
  pub event_type : String
  pub occurred_at : ℕ

pub record CreateTransferRequest : Type 0 where
  pub source_account_id : Uuid
  pub destination_account_id : Uuid
  pub amount : ℤ
  pub currency : Currency

pub record TransferAccepted : Type 0 where
  pub transfer_id : Uuid
  pub status : String

pub record ResolveTransferRequest : Type 0 where
  pub resolution : ReconciliationResolution

pub record TransferResponse : Type 0 where
  pub transfer_id : Uuid
  pub status : TransferStatus
  pub source_account_id : Option Uuid
  pub destination_account_id : Option Uuid
  pub amount : Option ℤ
  pub currency : Option Currency
  pub journal_entry_id : Option Uuid
  pub failure_reason : Option FailureReason
