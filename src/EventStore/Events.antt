-- ===== src/EventStore/Events.antt =====
-- The union of all domain events, as the event store sees it, and what the store takes from
-- outside: pydantic's serialization, fresh UUIDs and the clock.
use Prim.Native.String.{String}
use ledger_py.Base.{ℕ, ◌≡◌, Option, none, some}
use ledger_py.Shared.Errors.{Uuid}
use ledger_py.Shared.Result.{Result, ok}
use ledger_py.Shared.Money.{Money}
use ledger_py.Accounts.Events.{
  AccountEvent, account_opened, funds_deposited, funds_held, hold_released, account_debited,
  account_credited, account_frozen, account_closed,
}
use ledger_py.Journal.Leg.{JournalEvent, journal_entry_posted}
use ledger_py.Transfers.Events.{
  TransferEvent, transfer_initiated, transfer_held, transfer_posted, transfer_completed,
  transfer_failed, transfer_parked_for_reconciliation, transfer_reconciled,
}

pub data DomainEvent : Type 0 where
  of_account : AccountEvent → DomainEvent
  of_journal : JournalEvent → DomainEvent
  of_transfer : TransferEvent → DomainEvent

-- `type(event)`, by its `__name__`: the program's classes have different names.
unfoldable pub class_of : DomainEvent → String
class_of (of_account (account_opened c)) = "AccountOpened"
class_of (of_account (funds_deposited m)) = "FundsDeposited"
class_of (of_account (funds_held m op)) = "FundsHeld"
class_of (of_account (hold_released m op)) = "HoldReleased"
class_of (of_account (account_debited m op)) = "AccountDebited"
class_of (of_account (account_credited m op)) = "AccountCredited"
class_of (of_account account_frozen) = "AccountFrozen"
class_of (of_account account_closed) = "AccountClosed"
class_of (of_journal (journal_entry_posted legs reference)) = "JournalEntryPosted"
class_of (of_transfer (transfer_initiated s d m r)) = "TransferInitiated"
class_of (of_transfer transfer_held) = "TransferHeld"
class_of (of_transfer (transfer_posted entry_id)) = "TransferPosted"
class_of (of_transfer transfer_completed) = "TransferCompleted"
class_of (of_transfer (transfer_failed reason detail)) = "TransferFailed"
class_of (of_transfer (transfer_parked_for_reconciliation detail)) =
    "TransferParkedForReconciliation"
class_of (of_transfer (transfer_reconciled resolution detail)) = "TransferReconciled"

-- The `amount` of an event that has one.
unfoldable pub amount_of : DomainEvent → Option Money
amount_of (of_account (funds_deposited m)) = some m
amount_of (of_account (funds_held m op)) = some m
amount_of (of_account (hold_released m op)) = some m
amount_of (of_account (account_debited m op)) = some m
amount_of (of_account (account_credited m op)) = some m
amount_of e = none

-- What is not the program's own. `P` is the type of JSON payloads, `dict[str, Any]`.
pub record Host (P : Type 0) : Type 0 where
  -- `event.model_dump(mode="json")`
  pub model_dump : DomainEvent → P
  -- `event_cls.model_validate(data)`, by the name of the class
  pub model_validate : String → P → Result DomainEvent
  -- pydantic reads back what it dumped
  pub validate_dump : (e : DomainEvent) → model_validate (class_of e) (model_dump e) ≡ ok e
  -- `payload["amount"]`, with its `amount` and `currency`
  pub payload_amount : P → Option Money
  -- a field of a dumped model is the dumped field
  pub dump_amount : (e : DomainEvent) → payload_amount (model_dump e) ≡ amount_of e
  -- `new_event_id()` and `datetime.now(UTC)` at the append to each global position
  pub new_event_id : ℕ → Uuid
  pub now : ℕ → ℕ
