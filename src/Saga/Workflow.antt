-- ===== src/Saga/Workflow.antt =====
-- temporal/workflows/transfer_workflow.py: which activities the workflow calls, in which order, and
-- what it calls when one fails. The decisions of the operator are the list of the values that the
-- park loop takes out of `_resolution`, one at each pass.
pub mod Attempts
pub mod Own
pub mod Sound
pub mod Ends
pub mod Forward
pub mod Compensation
pub mod Promises
pub mod Outcomes
pub mod Status
pub mod Parking
use Prim.Native.String.{String}
use text.Mathlib.Text.{◌==◌ as str_eq}
use ledger_py.Base.{
  ℕ, Bool, true, false, ◌||◌, Option, none, some, List, [], ◌∷◌, map, if◌then◌else◌,
}
use ledger_py.Shared.Errors.{Uuid, Message, wrapped, formatted}
use ledger_py.Transfers.Events.{
  FailureReason, TransferStatus, initiated, held, posted, completed, failed, needs_reconciliation,
  reconciled, status_value,
}
use ledger_py.Transfers.Operations.{Uuid5}
use ledger_py.EventStore.Events.{Host}
use ledger_py.EventStore.Memory.{Store}
use ledger_py.Shared.Exec
use ledger_py.Shared.Exec.{Exec}
use ledger_py.Saga.Messages.{
  ReconciliationResolution, retry_credit, refund_source, TransferInput, FailInput, ParkInput,
  RefundInput, TransferResult,
}
use ledger_py.Saga.Reasons.{reason_from, reason_value}
use ledger_py.Saga.Flow.{
  Cause, application, other_cause, no_cause, Outcome, Flow, reported, raised, pure, update, catch,
  ◌>>=◌, ◌>>◌,
}
use ledger_py.Saga.Activities
use ledger_py.Saga.Activities.Retried.{
  Activity, records_initiated, holds_funds, posts_journal, reverses_journal, settles_debit,
  settles_credit, releases_hold, fails_transfer, parks_transfer, refunds_source,
}

-- The fields of the workflow object.
pub record TransferWorkflow : Type 0 where
  pub status : TransferStatus
  pub failure : Option FailureReason
  pub resolution : Option ReconciliationResolution

abbrev pub new_workflow : TransferWorkflow
new_workflow = record { status = initiated; failure = none; resolution = none }

unfoldable pub current_status : TransferWorkflow → String
current_status w = status_value w.status

unfoldable pub failure_reason : TransferWorkflow → Option String
failure_reason w = elim w.failure [ none ↦ none | some reason ↦ some (reason_value reason) ]

unfoldable pub resolve_reconciliation :
    ReconciliationResolution → TransferWorkflow → TransferWorkflow
resolve_reconciliation decision w = record w { resolution = some decision }

-- What an activity reports: `post_journal` reports the id of the entry.
abbrev pub Answer : Activity → Type 0
Answer (posts_journal d) = Uuid
Answer a = Unit {0}

module _ {P : Type 0} (host : Host P) (uuid5 : Uuid5) where
  -- the activity that a name stands for at the worker
  unfoldable pub call : (a : Activity) → Exec (Store P) (Answer a)
  call (records_initiated d) = Activities.record_initiated host d
  call (holds_funds d) = Activities.hold_funds host uuid5 d
  call (posts_journal d) = Activities.post_journal host uuid5 d
  call (reverses_journal d) = Activities.reverse_journal host uuid5 d
  call (settles_debit d) = Activities.settle_debit host uuid5 d
  call (settles_credit d) = Activities.settle_credit host uuid5 d
  call (releases_hold d) = Activities.release_held_funds host uuid5 d
  call (fails_transfer d) = Activities.fail_transfer host d
  call (parks_transfer d) = Activities.park_transfer host d
  call (refunds_source d) = Activities.refund_source host uuid5 d

-- The object, the two local variables of `run` that its handler reads, and the world around the
-- workflow: Temporal, the event store, and whoever else writes to it.
pub record Situation (W : Type 0) : Type 0 where
  pub workflow : TransferWorkflow
  pub holding : Bool
  pub posted : Bool
  pub world : W

-- A run that has not returned waits in `_await_resolution`.
pub data RunStatus : Type 0 where
  waiting : RunStatus
  returned : TransferResult → RunStatus

abbrev default_retry : ℕ
default_retry = 5

abbrev credit_retry : ℕ
credit_retry = 3

-- `workflow.execute_activity_method`, with the largest number of attempts
module _ {W : Type 0} (execute : ℕ → (a : Activity) → W → Outcome (Answer a) × W) where
  abbrev pub step : ℕ → (a : Activity) → Flow (Situation W) (Answer a)
  step attempts a s =
      let (outcome, w) = execute attempts a s.world in (outcome, record s { world = w })

  abbrev pub set_status : TransferStatus → Situation W → Situation W
  set_status x s = record s { workflow = record s.workflow { status = x } }

  abbrev result_of :
      TransferInput → Uuid → TransferStatus → Option Message → Flow (Situation W) RunStatus
  result_of d entry_id x detail s = (
    reported (
        returned (record {
          transfer_id = d.transfer_id;
          status = x;
          journal_entry_id = some entry_id;
          failure_reason = none;
          detail = detail;
        })),
    set_status x s,
  )

  -- One pass of the park loop: what was decided, or none if it could not be done.
  abbrev pub decide :
      ReconciliationResolution → TransferInput → Uuid → Flow (Situation W) (Option RunStatus)
  decide retry_credit d entry_id =
      catch
        (do
          step credit_retry (settles_credit d)
          result ← result_of d entry_id completed none
          pure (some result))
        (λ _. pure none)
  decide refund_source d entry_id =
      catch
        (do
          step default_retry (
              refunds_source (record {
                transfer_id = d.transfer_id;
                source_account_id = d.source_account_id;
                amount = d.amount;
              }))
          result ← result_of d entry_id reconciled (some (formatted "refunded to source" []))
          pure (some result))
        (λ _. pure none)

  -- the value of `_resolution` is taken out
  abbrev take_resolution : Situation W → Situation W
  take_resolution s = record s { workflow = record s.workflow { resolution = none } }

  unfoldable pub park_loop :
      List ReconciliationResolution → TransferInput → Uuid → Flow (Situation W) RunStatus
  unfolding resolve_reconciliation
  park_loop [] d entry_id = pure waiting
  park_loop (decision ∷ decisions) d entry_id = do
    update (λ s. record s { workflow = resolve_reconciliation decision s.workflow })
    update take_resolution
    outcome ← decide decision d entry_id
    elim outcome [ some progress ↦ pure progress | none ↦ park_loop decisions d entry_id ]

  -- `_await_resolution`
  unfoldable pub await_resolution :
      List ReconciliationResolution → TransferInput → Uuid → Flow (Situation W) RunStatus
  await_resolution decisions d entry_id = do
    update (set_status needs_reconciliation)
    park_loop decisions d entry_id

  -- the credit, inside its own `try`
  unfoldable pub settle :
      List ReconciliationResolution → TransferInput → Uuid → Flow (Situation W) RunStatus
  settle decisions d entry_id = do
    outcome ← catch (do step credit_retry (settles_credit d); pure none) (λ c. pure (some c))
    elim outcome [
      | none ↦ result_of d entry_id completed none
      | some credit_err ↦ (do
        step default_retry (
            parks_transfer (record {
              transfer_id = d.transfer_id;
              detail = wrapped "credit failed after debit: {}" (reason_from credit_err).1;
            }))
        await_resolution decisions d entry_id)
    ]

  -- the `try` block of `run`
  unfoldable pub forward :
      List ReconciliationResolution → TransferInput → Flow (Situation W) RunStatus
  forward decisions d = do
    step default_retry (holds_funds d)
    update (λ s. record (set_status held s) { holding = true })
    entry_id ← step default_retry (posts_journal d)
    update (λ s. record (set_status posted s) { posted = true })
    step default_retry (settles_debit d)
    update (λ s. record s { holding = false })
    settle decisions d entry_id

  abbrev pub step_if : Bool → ℕ → (a : Activity) → Flow (Situation W) (Unit {0})
  step_if true attempts a = do step attempts a; pure tt
  step_if false attempts a = pure tt

  -- its handler
  unfoldable pub compensate : TransferInput → Cause → Flow (Situation W) RunStatus
  compensate d cause s =
      let reason = (reason_from cause).0 in
      let detail = (reason_from cause).1 in
      (do
        step_if s.holding default_retry (releases_hold d)
        step_if s.posted default_retry (reverses_journal d)
        step default_retry (
            fails_transfer
              (record { transfer_id = d.transfer_id; reason = reason; detail = some detail }))
        update (λ s'. record s' {
          workflow = record s'.workflow { status = failed; failure = some reason };
        })
        pure (
            returned (record {
              transfer_id = d.transfer_id;
              status = failed;
              journal_entry_id = none;
              failure_reason = some reason;
              detail = some detail;
            })))
        s

  unfoldable pub run : List ReconciliationResolution → TransferInput → Flow (Situation W) RunStatus
  run decisions d = do
    step default_retry (records_initiated d)
    update (λ s. record s { holding = false; posted = false })
    catch (forward decisions d) (compensate d)
