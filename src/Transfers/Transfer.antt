-- ===== src/Transfers/Transfer.antt =====
-- domain/transfers/transfer.py: the saga's state machine and audit stream.
pub mod Steps
pub mod Coherent
pub mod Replay
use Prim.Native.String.{String}
use ledger_py.Base.{not, Option, none, some, [], ◌∷◌, ◌==◌}
use ledger_py.Shared.Errors.{
  Uuid, Message, domain, invalid_transition, same_account_transfer, formatted, word_value,
}
use ledger_py.Shared.Result.{Result, ok, ◌>>=◌, ◌>>◌, raise_if}
use ledger_py.Shared.Money.{Money, assert_positive}
use ledger_py.Shared.Aggregate.{Aggregate, new, record_event}
use ledger_py.Transfers.Events.{
  FailureReason, TransferStatus, initiated, held, posted, completed, failed, needs_reconciliation,
  reconciled, status_value, same_status, is_non_terminal, is_completable, TransferEvent,
  transfer_initiated, transfer_held, transfer_posted, transfer_completed, transfer_failed,
  transfer_parked_for_reconciliation, transfer_reconciled,
}

pub record Transfer : Type 0 where
  pub transfer_id : Option Uuid
  pub source_account_id : Option Uuid
  pub destination_account_id : Option Uuid
  pub amount : Option Money
  pub status : TransferStatus
  pub journal_entry_id : Option Uuid
  pub failure_reason : Option FailureReason
  pub reversal_of : Option Uuid

abbrev pub init : Transfer
init = record {
  transfer_id = none;
  source_account_id = none;
  destination_account_id = none;
  amount = none;
  status = initiated;
  journal_entry_id = none;
  failure_reason = none;
  reversal_of = none;
}

abbrev pub Root : Type 0
Root = Aggregate Transfer TransferEvent

-- `_apply`: it cannot raise
unfoldable pub apply : Transfer → TransferEvent → Result Transfer
apply t (transfer_initiated source destination amount reversal_of) = ok (record t {
  source_account_id = some source;
  destination_account_id = some destination;
  amount = some amount;
  reversal_of = reversal_of;
  status = initiated;
})
apply t transfer_held = ok (record t { status = held })
apply t (transfer_posted entry_id) =
    ok (record t { journal_entry_id = some entry_id; status = posted })
apply t transfer_completed = ok (record t { status = completed })
apply t (transfer_failed reason detail) =
    ok (record t { failure_reason = some reason; status = failed })
apply t (transfer_parked_for_reconciliation detail) =
    ok (record t { status = needs_reconciliation })
apply t (transfer_reconciled resolution detail) = ok (record t { status = reconciled })

-- `_record`
unfoldable pub emit : TransferEvent → Root → Result Root
unfolding record_event apply
emit = record_event apply

-- `Transfer.initiate`
unfoldable pub initiate : Uuid → Uuid → Uuid → Money → Option Uuid → Result Root
unfolding assert_positive emit
initiate transfer_id source destination amount reversal_of = do
  assert_positive amount
  raise_if (source == destination) (
      domain same_account_transfer
        (formatted "source and destination must be different accounts" []))
  emit (transfer_initiated source destination amount reversal_of)
      (new (record init { transfer_id = some transfer_id }))

unfoldable pub assert_status : TransferStatus → Root → Result (Unit {0})
assert_status expected r = raise_if (not (same_status r.state.status expected)) (
    domain invalid_transition (
      formatted "expected {}, transfer is {}"
        (word_value (status_value expected) ∷ word_value (status_value r.state.status) ∷ [])))

unfoldable pub mark_held : Root → Result Root
unfolding assert_status emit
mark_held r = do assert_status initiated r; emit transfer_held r

unfoldable pub mark_posted : Uuid → Root → Result Root
unfolding assert_status emit
mark_posted entry_id r = do assert_status held r; emit (transfer_posted entry_id) r

unfoldable pub complete : Root → Result Root
unfolding emit
complete r = do
  raise_if (not (is_completable r.state.status)) (
      domain invalid_transition
        (formatted "cannot complete a {} transfer" (word_value (status_value r.state.status) ∷ [])))
  emit transfer_completed r

unfoldable pub fail : FailureReason → Option Message → Root → Result Root
unfolding emit
fail reason detail r = do
  raise_if (not (is_non_terminal r.state.status)) (
      domain invalid_transition
        (formatted "cannot fail a {} transfer" (word_value (status_value r.state.status) ∷ [])))
  emit (transfer_failed reason detail) r

unfoldable pub park_for_reconciliation : Message → Root → Result Root
unfolding assert_status emit
park_for_reconciliation detail r = do
  assert_status posted r
  emit (transfer_parked_for_reconciliation detail) r

unfoldable pub reconcile : String → Option Message → Root → Result Root
unfolding assert_status emit
reconcile resolution detail r = do
  assert_status needs_reconciliation r
  emit (transfer_reconciled resolution detail) r
