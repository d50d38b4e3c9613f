-- ===== src/Saga/Messages.antt =====
-- temporal/messages.py.
use Prim.Native.String.{String}
use ledger_py.Base.{Option}
use ledger_py.Shared.Errors.{Uuid, Message}
use ledger_py.Shared.Money.{Money}
use ledger_py.Transfers.Events.{FailureReason, TransferStatus}

pub data ReconciliationResolution : Type 0 where
  retry_credit : ReconciliationResolution
  refund_source : ReconciliationResolution

pub record TransferInput : Type 0 where
  pub transfer_id : Uuid
  pub source_account_id : Uuid
  pub destination_account_id : Uuid
  pub amount : Money
  pub reversal_of : Option Uuid
  pub traceparent : Option String

pub record FailInput : Type 0 where
  pub transfer_id : Uuid
  pub reason : FailureReason
  pub detail : Option Message

pub record ParkInput : Type 0 where
  pub transfer_id : Uuid
  pub detail : Message

pub record RefundInput : Type 0 where
  pub transfer_id : Uuid
  pub source_account_id : Uuid
  pub amount : Money

pub record TransferResult : Type 0 where
  pub transfer_id : Uuid
  pub status : TransferStatus
  pub journal_entry_id : Option Uuid
  pub failure_reason : Option FailureReason
  pub detail : Option Message
