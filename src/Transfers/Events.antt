-- ===== src/Transfers/Events.antt =====
-- domain/transfers/events.py, and the status that transfer.py declares.
use Prim.Native.String.{String}
use ledger_py.Base.{Bool, true, false, Option}
use ledger_py.Shared.Errors.{Uuid, Message}
use ledger_py.Shared.Money.{Money}

pub data FailureReason : Type 0 where
  insufficient_funds : FailureReason
  conflict : FailureReason
  unknown_account : FailureReason
  account_not_active : FailureReason
  currency_mismatch : FailureReason
  unbalanced : FailureReason
  other : FailureReason

pub data TransferStatus : Type 0 where
  initiated : TransferStatus
  held : TransferStatus
  posted : TransferStatus
  completed : TransferStatus
  failed : TransferStatus
  needs_reconciliation : TransferStatus
  reconciled : TransferStatus

-- `f"{status}"`
abbrev pub status_value : TransferStatus → String
status_value initiated = "initiated"
status_value held = "held"
status_value posted = "posted"
status_value completed = "completed"
status_value failed = "failed"
status_value needs_reconciliation = "needs_reconciliation"
status_value reconciled = "reconciled"

-- `self.status is expected`
abbrev pub same_status : TransferStatus → TransferStatus → Bool
same_status initiated initiated = true
same_status held held = true
same_status posted posted = true
same_status completed completed = true
same_status failed failed = true
same_status needs_reconciliation needs_reconciliation = true
same_status reconciled reconciled = true
same_status _ _ = false

-- `_NON_TERMINAL`
abbrev pub is_non_terminal : TransferStatus → Bool
is_non_terminal initiated = true
is_non_terminal held = true
is_non_terminal posted = true
is_non_terminal _ = false

-- POSTED or NEEDS_RECONCILIATION
abbrev pub is_completable : TransferStatus → Bool
is_completable posted = true
is_completable needs_reconciliation = true
is_completable _ = false

pub data TransferEvent : Type 0 where
  -- source, destination, amount, and the transfer that this one reverses
  transfer_initiated : Uuid → Uuid → Money → Option Uuid → TransferEvent
  transfer_held : TransferEvent
  transfer_posted : Uuid → TransferEvent
  transfer_completed : TransferEvent
  transfer_failed : FailureReason → Option Message → TransferEvent
  transfer_parked_for_reconciliation : Message → TransferEvent
  transfer_reconciled : String → Option Message → TransferEvent
