-- ===== src/Saga/Workflow/Promises.antt =====
-- What the saga promises of the log: the events that its steps leave, with their amounts and legs.
use ledger_py.Base.{◌≡◌, refl, true}
use ledger_py.Shared.Errors.{account_stream, journal_stream}
use ledger_py.Accounts.Events.{hold_released, account_debited, account_credited}
use ledger_py.Transfers.Operations.{
  Uuid5, debit_step, credit_step, refund_step, release_step, operation_id, journal_entry_id_for,
  journal_reversal_id_for,
}
use ledger_py.EventStore.Events.{of_account, of_journal, Host}
use ledger_py.EventStore.Memory.{Store}
use ledger_py.Saga.Messages.{TransferInput}
use ledger_py.Saga.Clean.{entry_event, reversal_event}
use ledger_py.Saga.Written.{HasEvent, applied-HasEvent, entry-HasEvent, reversal-HasEvent}
use ledger_py.Saga.Workflow.{Situation}
use ledger_py.Saga.Workflow.Attempts.{Temporal}
use ledger_py.Saga.Workflow.Sound.{
  store, is_debited, is_credited, is_refunded, is_released, is_booked, is_reversed,
}
use ledger_py.Saga.Workflow.Ends.{Sound}

module _ {P : Type 0} (host : Host P) (uuid5 : Uuid5) (d : TransferInput) where
  -- the amount drawn from the reserved bucket of the source
  abbrev pub HasDebit : Store P → Type 0
  HasDebit s =
      HasEvent host account_stream d.source_account_id
        (of_account (account_debited d.amount (operation_id uuid5 d.transfer_id debit_step))) s

  -- the amount paid to the destination
  abbrev pub HasCredit : Store P → Type 0
  HasCredit s =
      HasEvent host account_stream d.destination_account_id
        (of_account (account_credited d.amount (operation_id uuid5 d.transfer_id credit_step))) s

  -- the amount paid back to the source
  abbrev pub HasRefund : Store P → Type 0
  HasRefund s =
      HasEvent host account_stream d.source_account_id
        (of_account (account_credited d.amount (operation_id uuid5 d.transfer_id refund_step))) s

  -- the hold of the amount on the source released
  abbrev pub HasRelease : Store P → Type 0
  HasRelease s =
      HasEvent host account_stream d.source_account_id
        (of_account (hold_released d.amount (operation_id uuid5 d.transfer_id release_step))) s

  -- the amount posted from the source to the destination
  abbrev pub HasPosting : Store P → Type 0
  HasPosting s =
      HasEvent host journal_stream (journal_entry_id_for uuid5 d.transfer_id)
        (of_journal (entry_event uuid5 d)) s

  -- and the other way round
  abbrev pub HasReversal : Store P → Type 0
  HasReversal s =
      HasEvent host journal_stream (journal_reversal_id_for uuid5 d.transfer_id)
        (of_journal (reversal_event uuid5 d)) s

module _ {P W : Type 0} (host : Host P) (uuid5 : Uuid5) (d : TransferInput)
    (t : Temporal host uuid5 W d) (s : Situation W) (sound : Sound host uuid5 d t s) where
  abbrev log : Store P
  log = store host uuid5 d t s

  pub log-HasDebit : is_debited host uuid5 d t log ≡ true → HasDebit host uuid5 d log
  log-HasDebit h = applied-HasEvent host uuid5 d _ debit_step _ log refl sound.clean h

  pub log-HasCredit : is_credited host uuid5 d t log ≡ true → HasCredit host uuid5 d log
  log-HasCredit h = applied-HasEvent host uuid5 d _ credit_step _ log refl sound.clean h

  pub log-HasRefund : is_refunded host uuid5 d t log ≡ true → HasRefund host uuid5 d log
  log-HasRefund h = applied-HasEvent host uuid5 d _ refund_step _ log refl sound.clean h

  pub log-HasRelease : is_released host uuid5 d t log ≡ true → HasRelease host uuid5 d log
  log-HasRelease h = applied-HasEvent host uuid5 d _ release_step _ log refl sound.clean h

  pub log-HasPosting : is_booked host uuid5 d t log ≡ true → HasPosting host uuid5 d log
  log-HasPosting h = entry-HasEvent host uuid5 d log sound.clean h

  pub log-HasReversal : is_reversed host uuid5 d t log ≡ true → HasReversal host uuid5 d log
  log-HasReversal h = reversal-HasEvent host uuid5 d log sound.clean h
