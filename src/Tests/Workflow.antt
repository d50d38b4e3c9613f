-- ===== src/Tests/Workflow.antt =====
-- The transfer workflow on scripts that lose a step.
use ledger_py.Base.{◌≡◌, refl, true, false, ◌⊎◌, Option, none, some, [], ◌∷◌}
use ledger_py.Shared.Errors.{Uuid, Message, formatted}
use ledger_py.Transfers.Events.{
  TransferStatus, FailureReason, completed, reconciled, failed, needs_reconciliation,
}
use ledger_py.EventStore.Events.{DomainEvent}
use ledger_py.EventStore.Memory.{Store}
use ledger_py.Saga.Flow.{Outcome, reported}
use ledger_py.Saga.Workflow.{call, Situation, run, RunStatus, returned}
use ledger_py.Base.Int.{◌+ℤ◌, ◌-ℤ◌}
use ledger_py.Saga.Reasons.{reason_from}
use ledger_py.Saga.Workflow.{forward, settle, compensate, await_resolution, park_loop}
use ledger_py.Saga.Workflow.Promises.{HasPosting, HasDebit, HasCredit, HasRefund, HasReversal}
use ledger_py.Saga.Workflow.Outcomes.{
  run-completed, run-reconciled, run-failed_debited, run-waiting,
}
use ledger_py.Saga.Workflow.Status.{run-status}
use ledger_py.Saga.Workflow.Own.{debits, call-IsClean}
use ledger_py.Saga.Activities.Retried.{settles_debit}
use ledger_py.Saga.Activities.Blocks.{IsStore}
use ledger_py.Saga.Clean.{IsClean}
use ledger_py.Saga.Activities
use ledger_py.Saga.Activities.{
  record_initiated, hold_funds, post_journal, settle_debit, settle_credit, reverse_journal,
  release_held_funds, fail_transfer, park_transfer, change_account, milestone,
}
use ledger_py.EventStore.Repository.{load, save, rehydrate, decode_all}
use ledger_py.EventStore.Memory.{load_stream, append, current_version, append_loop, make_stored}
use ledger_py.EventStore.Registry.{deserialize, name_for, schema_version_for}
use ledger_py.EventStore.Events.{class_of}
use ledger_py.Shared.Aggregate.{load_from_history, expected_version}
use ledger_py.Accounts.Account
use ledger_py.Accounts.Account.{hold}
use ledger_py.Transfers.Transfer
use ledger_py.Transfers.Transfer.{mark_held}
use ledger_py.Tests.Store.{host}
use ledger_py.Saga.Messages.{TransferResult, refund_source}
use ledger_py.Journal.Posting.{post_entry}
use ledger_py.Journal.Entry.{post}
use ledger_py.Saga.Workflow.{current_status, waiting, resolve_reconciliation}
use ledger_py.Transfers.Operations.{journal_entry_id_for}
use ledger_py.Tests.Saga.{uuid5, request}
use ledger_py.Tests.Script.{
  World, temporal, two_accounts, two_accounts-IsStore, two_accounts-IsClean, at_start,
}

abbrev Run : Type 0
Run = Outcome RunStatus × Situation World

abbrev lost : Message
lost = formatted "activity timed out" []

abbrev result :
    TransferStatus → Option Uuid → Option FailureReason → Option Message → TransferResult
result status entry_id reason detail = record {
  transfer_id = 5;
  status = status;
  journal_entry_id = entry_id;
  failure_reason = reason;
  detail = detail;
}

-- Every activity is run.
abbrev settled : Run
settled = run temporal.execute [] request (at_start [])

abbrev settled_result : TransferResult
settled_result = result completed (some 40) none none

-- The credit is lost, and the operator refunds.
abbrev refunded : Run
refunded =
    run temporal.execute (refund_source ∷ []) request
      (at_start (true ∷ true ∷ true ∷ true ∷ false ∷ []))

abbrev refunded_result : TransferResult
refunded_result = result reconciled (some 40) none (some (formatted "refunded to source" []))

-- The debit is lost.
abbrev undone : Run
undone = run temporal.execute [] request (at_start (true ∷ true ∷ true ∷ false ∷ []))

-- The credit is lost, and then the parking.
abbrev debited : Run
debited =
    run temporal.execute [] request (at_start (true ∷ true ∷ true ∷ true ∷ false ∷ false ∷ []))

abbrev failed_result : TransferResult
failed_result = result failed none (some FailureReason.other) (some lost)

-- The credit is lost, and no operator decides.
abbrev parked : Run
parked = run temporal.execute [] request (at_start (true ∷ true ∷ true ∷ true ∷ false ∷ []))

settled_runs : settled ≡ (reported (returned settled_result), settled.1)
unfolding run forward settle reason_from compensate await_resolution park_loop call record_initiated
    hold_funds post_journal settle_debit settle_credit reverse_journal release_held_funds
    fail_transfer park_transfer Activities.refund_source change_account milestone load load_stream
    rehydrate load_from_history ◌+ℤ◌ ◌-ℤ◌ decode_all deserialize class_of Account.apply hold save
    append current_version expected_version append_loop make_stored name_for schema_version_for
    Transfer.apply mark_held post_entry Transfer.mark_posted Account.debit Account.credit
    Transfer.complete Account.release_hold Transfer.fail Transfer.park_for_reconciliation
    Transfer.reconcile post resolve_reconciliation
settled_runs = refl

refunded_runs : refunded ≡ (reported (returned refunded_result), refunded.1)
unfolding run forward settle reason_from compensate await_resolution park_loop call record_initiated
    hold_funds post_journal settle_debit settle_credit reverse_journal release_held_funds
    fail_transfer park_transfer Activities.refund_source change_account milestone load load_stream
    rehydrate load_from_history ◌+ℤ◌ ◌-ℤ◌ decode_all deserialize class_of Account.apply hold save
    append current_version expected_version append_loop make_stored name_for schema_version_for
    Transfer.apply mark_held post_entry Transfer.mark_posted Account.debit Account.credit
    Transfer.complete Account.release_hold Transfer.fail Transfer.park_for_reconciliation
    Transfer.reconcile post resolve_reconciliation
refunded_runs = refl

debited_runs :
    (debited ≡ (reported (returned failed_result), debited.1))
    × (debited.1.posted ≡ true)
    × (debited.1.holding ≡ false)
unfolding run forward settle reason_from compensate await_resolution park_loop call record_initiated
    hold_funds post_journal settle_debit settle_credit reverse_journal release_held_funds
    fail_transfer park_transfer Activities.refund_source change_account milestone load load_stream
    rehydrate load_from_history ◌+ℤ◌ ◌-ℤ◌ decode_all deserialize class_of Account.apply hold save
    append current_version expected_version append_loop make_stored name_for schema_version_for
    Transfer.apply mark_held post_entry Transfer.mark_posted Account.debit Account.credit
    Transfer.complete Account.release_hold Transfer.fail Transfer.park_for_reconciliation
    Transfer.reconcile post resolve_reconciliation
debited_runs = (refl, refl, refl)

parked_runs : parked ≡ (reported waiting, parked.1)
unfolding run forward settle reason_from compensate await_resolution park_loop call record_initiated
    hold_funds post_journal settle_debit settle_credit reverse_journal release_held_funds
    fail_transfer park_transfer Activities.refund_source change_account milestone load load_stream
    rehydrate load_from_history ◌+ℤ◌ ◌-ℤ◌ decode_all deserialize class_of Account.apply hold save
    append current_version expected_version append_loop make_stored name_for schema_version_for
    Transfer.apply mark_held post_entry Transfer.mark_posted Account.debit Account.credit
    Transfer.complete Account.release_hold Transfer.fail Transfer.park_for_reconciliation
    Transfer.reconcile post resolve_reconciliation
parked_runs = refl

abbrev log_of : Run → Store DomainEvent
log_of p = p.1.world.0

run-completed_example :
    HasPosting host uuid5 request (log_of settled)
    × HasDebit host uuid5 request (log_of settled)
    × HasCredit host uuid5 request (log_of settled)
    × (settled_result.journal_entry_id ≡ some (journal_entry_id_for uuid5 5))
run-completed_example =
    run-completed host uuid5 request temporal [] (at_start []) settled.1 two_accounts-IsStore
      two_accounts-IsClean settled_result settled_runs refl

run-reconciled_example :
    HasPosting host uuid5 request (log_of refunded)
    × HasDebit host uuid5 request (log_of refunded)
    × HasRefund host uuid5 request (log_of refunded)
    × (refunded_result.journal_entry_id ≡ some (journal_entry_id_for uuid5 5))
run-reconciled_example =
    run-reconciled host uuid5 request temporal (refund_source ∷ [])
      (at_start (true ∷ true ∷ true ∷ true ∷ false ∷ [])) refunded.1 two_accounts-IsStore
      two_accounts-IsClean refunded_result refunded_runs refl

run-status_example :
    ((refunded_result.status ≡ completed)
      ⊎ ((refunded_result.status ≡ reconciled) ⊎ (refunded_result.status ≡ failed)))
    × (current_status refunded.1.workflow ≡ "reconciled")
run-status_example =
    run-status temporal.execute request (refund_source ∷ [])
      (at_start (true ∷ true ∷ true ∷ true ∷ false ∷ [])) refunded.1 refunded_result refunded_runs

run-failed_debited_example :
    HasDebit host uuid5 request (log_of debited) × HasReversal host uuid5 request (log_of debited)
run-failed_debited_example =
    run-failed_debited host uuid5 request temporal []
      (at_start (true ∷ true ∷ true ∷ true ∷ false ∷ false ∷ [])) debited.1 two_accounts-IsStore
      two_accounts-IsClean failed_result debited_runs.0 refl debited_runs.1 debited_runs.2

run-waiting_example :
    (parked.1.workflow.status ≡ needs_reconciliation)
    × HasPosting host uuid5 request (log_of parked)
    × HasDebit host uuid5 request (log_of parked)
run-waiting_example =
    run-waiting host uuid5 request temporal [] (at_start (true ∷ true ∷ true ∷ true ∷ false ∷ []))
      parked.1 two_accounts-IsStore two_accounts-IsClean parked_runs

-- The refund is lost once, and then carried out.
abbrev parked_world : Situation World
parked_world = at_start (false ∷ [])

call-IsClean_example :
    let s' = (call host uuid5 (settles_debit request) two_accounts).1 in
    IsStore host s' × IsClean uuid5 request host s'
call-IsClean_example =
    call-IsClean host uuid5 request (settles_debit request) two_accounts debits two_accounts-IsStore
      two_accounts-IsClean
