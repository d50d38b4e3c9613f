-- ===== src/Saga/Activities.antt =====
-- temporal/activities/transfer_activities.py: each activity is an Exec of the event store. What it
-- has saved stays saved when it raises later.
pub mod Blocks
pub mod Steady
pub mod Onward
pub mod Milestones
pub mod Repeat
pub mod Creates
pub mod Postings
pub mod Releases
pub mod Retried
pub mod Reversal
use Prim.Native.String.{String}
use ledger_py.Base.{
  Bool, true, false, not, ◌||◌, Option, none, some, List, [], ◌∷◌, map, if◌then◌else◌,
}
use ledger_py.Shared.Errors.{
  Uuid, Error, Code, Message, domain, application_error, formatted, uuid_value, insufficient_funds,
  account_not_active, currency_mismatch, unknown_account, invalid_amount, same_account_transfer,
  unbalanced_entry,
}
use ledger_py.Shared.Result.{Result, ok, err}
use ledger_py.Shared.Exec.{Exec, pure, raise, lift, reads, catch, ◌>>=◌, ◌>>◌}
use ledger_py.Shared.Aggregate.{Aggregate}
use ledger_py.Shared.Money.{Money}
use ledger_py.Accounts.Account
use ledger_py.Accounts.Account.{Account, hold, release_hold}
use ledger_py.Journal.Leg
use ledger_py.Journal.Leg.{Leg, opposite}
use ledger_py.Journal.Entry
use ledger_py.Journal.Entry.{JournalEntry, post}
use ledger_py.Journal.Posting.{AccountSnapshot, Reader, post_entry}
use ledger_py.Transfers.Events.{
  TransferStatus, initiated, held, posted, needs_reconciliation, same_status, is_non_terminal,
  is_completable,
}
use ledger_py.Transfers.Operations.{
  Uuid5, Step, hold_step, debit_step, credit_step, refund_step, release_step, operation_id,
  journal_entry_id_for, journal_reversal_id_for,
}
use ledger_py.Transfers.Transfer
use ledger_py.Transfers.Transfer.{
  Transfer, initiate, mark_held, mark_posted, complete, fail, park_for_reconciliation, reconcile,
}
use ledger_py.EventStore.Events.{Host}
use ledger_py.EventStore.Records.{EventMetadata}
use ledger_py.EventStore.Memory.{Store}
use ledger_py.EventStore.Repository.{load, save, accounts, journals, transfers}
use ledger_py.Saga.Messages.{TransferInput, FailInput, ParkInput, RefundInput}

abbrev Unit₀ : Type 0
Unit₀ = Unit

-- `_terminal`, for the exception classes that an `except` clause lists; others pass through
abbrev is_any : List Code → Code → (Code → Code → Bool) → Bool
is_any [] c same = false
is_any (d ∷ ds) c same = same c d || is_any ds c same

abbrev pub is_code : Code → Code → Bool
is_code insufficient_funds insufficient_funds = true
is_code account_not_active account_not_active = true
is_code currency_mismatch currency_mismatch = true
is_code unknown_account unknown_account = true
is_code invalid_amount invalid_amount = true
is_code same_account_transfer same_account_transfer = true
is_code unbalanced_entry unbalanced_entry = true
is_code _ _ = false

unfoldable pub terminal : List Code → Error → Error
terminal codes (domain code message) =
    if is_any codes code is_code then application_error message code else domain code message
terminal codes e = e

abbrev pub terminating : {S A : Type 0} → List Code → Exec S A → Exec S A
terminating codes m = catch m (λ e. raise (terminal codes e))

-- `_meta`
abbrev pub meta : Uuid → Option String → Option EventMetadata
meta transfer_id traceparent =
    some
      (record { correlation_id = some transfer_id; causation_id = none; traceparent = traceparent })

abbrev pub found_account : Uuid → Option Account.Root → Result Account.Root
found_account id none = err (domain unknown_account (formatted "{}" (uuid_value id ∷ [])))
found_account id (some a) = ok a

abbrev pub reversed_leg : Leg → Leg
reversed_leg leg = record leg { direction = opposite leg.direction }

module _ {P : Type 0} (host : Host P) where
  -- load an account, run a command on it, and save it
  unfoldable pub change_account :
      Uuid → Option EventMetadata → (Account.Root → Result Account.Root) → Exec (Store P) (Unit {0})
  change_account id metadata command = do
    found ← reads (load host accounts id)
    account ← lift (found_account id found)
    changed ← lift (command account)
    save host accounts id changed metadata
    pure tt

  -- `transfer = await self.transfers.load(id)`, and if there is one and its status passes the test,
  -- a milestone is recorded and saved
  abbrev pub milestone_of :
      Uuid
      → Option EventMetadata
      → (TransferStatus → Bool)
      → (Transfer.Root → Result Transfer.Root)
      → Option Transfer.Root
      → Exec (Store P) (Unit {0})
  milestone_of id metadata test command none = pure tt
  milestone_of id metadata test command (some transfer) =
      if not (test transfer.state.status)
      then pure tt
      else do changed ← lift (command transfer); save host transfers id changed metadata; pure tt

  unfoldable pub milestone :
      Uuid
      → Option EventMetadata
      → (TransferStatus → Bool)
      → (Transfer.Root → Result Transfer.Root)
      → Exec (Store P) (Unit {0})
  milestone id metadata test command = do
    found ← reads (load host transfers id)
    milestone_of id metadata test command found

  abbrev pub initiate_new : TransferInput → Option Transfer.Root → Exec (Store P) (Unit {0})
  initiate_new d (some transfer) = pure tt
  initiate_new d none = do
    transfer ← terminating (same_account_transfer ∷ invalid_amount ∷ []) (
        lift (
          initiate d.transfer_id d.source_account_id d.destination_account_id d.amount
            d.reversal_of))
    save host transfers d.transfer_id transfer (meta d.transfer_id d.traceparent)
    pure tt

  unfoldable pub record_initiated : TransferInput → Exec (Store P) (Unit {0})
  record_initiated d = do found ← reads (load host transfers d.transfer_id); initiate_new d found

  unfoldable pub fail_transfer : FailInput → Exec (Store P) (Unit {0})
  unfolding milestone
  fail_transfer d =
      milestone d.transfer_id (meta d.transfer_id none) is_non_terminal (fail d.reason d.detail)

  unfoldable pub park_transfer : ParkInput → Exec (Store P) (Unit {0})
  unfolding milestone
  park_transfer d =
      milestone d.transfer_id (meta d.transfer_id none) (λ s. same_status s posted)
        (park_for_reconciliation d.detail)

  -- `_RepositoryStatusReader.snapshot`
  abbrev snapshot_of : Uuid → Option Account.Root → Option AccountSnapshot
  snapshot_of id none = none
  snapshot_of id (some a) =
      some (record { account_id = id; currency = a.state.currency; status = a.state.status })

  abbrev pub map_result : {A B : Type 0} → (A → B) → Result A → Result B
  map_result f (ok a) = ok (f a)
  map_result f (err e) = err e

  abbrev pub status_reader : Store P → Reader
  status_reader s id = map_result (snapshot_of id) (load host accounts id s)

  abbrev pub post_new : TransferInput → Uuid → Option Entry.Root → Exec (Store P) (Unit {0})
  post_new d entry_id (some entry) = pure tt
  post_new d entry_id none = do
    let legs =
        Leg.debit d.source_account_id d.amount ∷ Leg.credit d.destination_account_id d.amount ∷ []
    entry ←
        terminating
          (unknown_account ∷ account_not_active ∷ currency_mismatch ∷ unbalanced_entry ∷ [])
          (reads (λ s.
            post_entry (status_reader s) entry_id legs
              (some (formatted "{}" (uuid_value d.transfer_id ∷ [])))))
    save host journals entry_id entry (meta d.transfer_id d.traceparent)
    pure tt

module _ {P : Type 0} (host : Host P) (uuid5 : Uuid5) where
  unfoldable pub hold_funds : TransferInput → Exec (Store P) (Unit {0})
  unfolding change_account milestone
  hold_funds d = do
    let op = operation_id uuid5 d.transfer_id hold_step
    terminating (insufficient_funds ∷ account_not_active ∷ currency_mismatch ∷ unknown_account ∷ [])
        (change_account host d.source_account_id (meta d.transfer_id d.traceparent)
          (hold d.amount op))
    milestone host d.transfer_id (meta d.transfer_id d.traceparent) (λ s. same_status s initiated)
        mark_held

  unfoldable pub post_journal : TransferInput → Exec (Store P) Uuid
  unfolding milestone
  post_journal d = do
    let entry_id = journal_entry_id_for uuid5 d.transfer_id
    found ← reads (load host journals entry_id)
    post_new host d entry_id found
    milestone host d.transfer_id (meta d.transfer_id d.traceparent) (λ s. same_status s held)
        (mark_posted entry_id)
    pure entry_id

  abbrev pub reverse_found : TransferInput → Uuid → Option Entry.Root → Exec (Store P) (Unit {0})
  reverse_found d reversal_id none = pure tt
  reverse_found d reversal_id (some original) = do
    entry ← lift (
        post reversal_id (map reversed_leg original.state.legs)
          (some (formatted "reversal of {}" (uuid_value d.transfer_id ∷ []))))
    save host journals reversal_id entry (meta d.transfer_id d.traceparent)
    pure tt

  abbrev pub reverse_new : TransferInput → Uuid → Option Entry.Root → Exec (Store P) (Unit {0})
  reverse_new d reversal_id (some reversal) = pure tt
  reverse_new d reversal_id none = do
    original ← reads (load host journals (journal_entry_id_for uuid5 d.transfer_id))
    reverse_found d reversal_id original

  unfoldable pub reverse_journal : TransferInput → Exec (Store P) (Unit {0})
  reverse_journal d = do
    let reversal_id = journal_reversal_id_for uuid5 d.transfer_id
    found ← reads (load host journals reversal_id)
    reverse_new d reversal_id found

  unfoldable pub settle_debit : TransferInput → Exec (Store P) (Unit {0})
  unfolding change_account
  settle_debit d = do
    let op = operation_id uuid5 d.transfer_id debit_step
    terminating (insufficient_funds ∷ account_not_active ∷ unknown_account ∷ []) (
        change_account host d.source_account_id (meta d.transfer_id d.traceparent)
          (Account.debit d.amount op))

  unfoldable pub settle_credit : TransferInput → Exec (Store P) (Unit {0})
  unfolding change_account milestone
  settle_credit d = do
    let op = operation_id uuid5 d.transfer_id credit_step
    terminating (account_not_active ∷ unknown_account ∷ []) (
        change_account host d.destination_account_id (meta d.transfer_id d.traceparent)
          (Account.credit d.amount op))
    milestone host d.transfer_id (meta d.transfer_id d.traceparent) is_completable complete

  unfoldable pub refund_source : RefundInput → Exec (Store P) (Unit {0})
  unfolding change_account milestone
  refund_source d = do
    let op = operation_id uuid5 d.transfer_id refund_step
    terminating (account_not_active ∷ unknown_account ∷ []) (
        change_account host d.source_account_id (meta d.transfer_id none)
          (Account.credit d.amount op))
    milestone host d.transfer_id (meta d.transfer_id none) (λ s. same_status s needs_reconciliation)
        (reconcile "refunded" (some (formatted "funds returned to source" [])))

  abbrev pub release_found : TransferInput → Option Account.Root → Exec (Store P) (Unit {0})
  release_found d none = pure tt
  release_found d (some source) = do
    changed ← lift (release_hold d.amount (operation_id uuid5 d.transfer_id release_step) source)
    save host accounts d.source_account_id changed (meta d.transfer_id d.traceparent)
    pure tt

  -- `release_hold`, of the activities
  unfoldable pub release_held_funds : TransferInput → Exec (Store P) (Unit {0})
  release_held_funds d = do
    found ← reads (load host accounts d.source_account_id)
    release_found d found
