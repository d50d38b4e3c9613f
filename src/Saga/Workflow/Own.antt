-- ===== src/Saga/Workflow/Own.antt =====
-- The activities that the workflow of a transfer calls keep the log clean.
use ledger_py.Transfers.Operations.{Uuid5}
use ledger_py.EventStore.Events.{Host}
use ledger_py.Saga.Messages.{TransferInput, FailInput, ParkInput}
use ledger_py.Saga.Activities.Retried.{
  Activity, records_initiated, holds_funds, posts_journal, reverses_journal, settles_debit,
  settles_credit, releases_hold, fails_transfer, parks_transfer, refunds_source,
}
use ledger_py.EventStore.Memory.{Store}
use ledger_py.Saga.Activities.Blocks.{IsStore}
use ledger_py.Saga.Clean.{IsClean}
use ledger_py.Saga.Tidy.{Tidy}
use ledger_py.Saga.Tidy.Steps.{
  record_initiated-Tidy, hold_funds-Tidy, settle_debit-Tidy, settle_credit-Tidy, refund,
  refund_source-Tidy, release-Tidy, fail_transfer-Tidy, park_transfer-Tidy, post_journal-Tidy,
  reverse_journal-Tidy,
}
use ledger_py.Saga.Workflow.{call}

-- The activities that the workflow of a transfer calls.
pub data IsOwn (d : TransferInput) : Activity → Type 0 where
  initiates : IsOwn d (records_initiated d)
  holds : IsOwn d (holds_funds d)
  posts : IsOwn d (posts_journal d)
  reverses : IsOwn d (reverses_journal d)
  debits : IsOwn d (settles_debit d)
  credits : IsOwn d (settles_credit d)
  releases : IsOwn d (releases_hold d)
  fails : (x : FailInput) → IsOwn d (fails_transfer x)
  parks : (x : ParkInput) → IsOwn d (parks_transfer x)
  refunds : IsOwn d (
      refunds_source (record {
        transfer_id = d.transfer_id;
        source_account_id = d.source_account_id;
        amount = d.amount;
      }))

module _ {P : Type 0} (host : Host P) (uuid5 : Uuid5) (d : TransferInput) where
  abbrev pub KeepsClean : Activity → Type 0
  KeepsClean a = Tidy host uuid5 d (call host uuid5 a)

  pub own_initiate : KeepsClean (records_initiated d)
  unfolding call
  own_initiate = record_initiated-Tidy host uuid5 d

  pub own_hold : KeepsClean (holds_funds d)
  unfolding call
  own_hold = hold_funds-Tidy host uuid5 d

  pub own_posting : KeepsClean (posts_journal d)
  unfolding call
  own_posting = post_journal-Tidy host uuid5 d

  pub own_reversal : KeepsClean (reverses_journal d)
  unfolding call
  own_reversal = reverse_journal-Tidy host uuid5 d

  pub own_debit : KeepsClean (settles_debit d)
  unfolding call
  own_debit = settle_debit-Tidy host uuid5 d

  pub own_credit : KeepsClean (settles_credit d)
  unfolding call
  own_credit = settle_credit-Tidy host uuid5 d

  pub own_release : KeepsClean (releases_hold d)
  unfolding call
  own_release = release-Tidy host uuid5 d

  pub own_refund : KeepsClean (refunds_source (refund host uuid5 d))
  unfolding call
  own_refund = refund_source-Tidy host uuid5 d

  pub own_failure : (x : FailInput) → KeepsClean (fails_transfer x)
  unfolding call
  own_failure x = fail_transfer-Tidy host uuid5 d x

  pub own_parking : (x : ParkInput) → KeepsClean (parks_transfer x)
  unfolding call
  own_parking x = park_transfer-Tidy host uuid5 d x

  own-KeepsClean : (a : Activity) → IsOwn d a → KeepsClean a
  own-KeepsClean a initiates = own_initiate
  own-KeepsClean a holds = own_hold
  own-KeepsClean a posts = own_posting
  own-KeepsClean a reverses = own_reversal
  own-KeepsClean a debits = own_debit
  own-KeepsClean a credits = own_credit
  own-KeepsClean a releases = own_release
  own-KeepsClean a (fails x) = own_failure x
  own-KeepsClean a (parks x) = own_parking x
  own-KeepsClean a refunds = own_refund

  -- On a well-formed store in which the ids of a transfer stand for nothing but its own events, each
  -- activity that its workflow calls leaves such a store, whether it returns or raises: an operation
  -- id only ever stands for the one event of its step with the amount of the transfer, and the two
  -- journal streams only hold the posting and its reversal.
  pub call-IsClean :
      (a : Activity) (s : Store P)
      → IsOwn d a
      → IsStore host s
      → IsClean uuid5 d host s
      → let s' = (call host uuid5 a s).1 in IsStore host s' × IsClean uuid5 d host s'
  call-IsClean a s own store clean = own-KeepsClean a own s (store, clean)
