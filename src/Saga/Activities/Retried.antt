-- ===== src/Saga/Activities/Retried.antt =====
-- The ten activities as values, and what a retry of any of them does.
use ledger_py.Base.{◌≡◌, ◌∙◌, inl, inr, arith}
use ledger_py.Shared.Exec.{Exec-cases, Exec, pure, ◌>>=◌}
use ledger_py.Shared.Result.{ok}
use ledger_py.Transfers.Operations.{Uuid5}
use ledger_py.EventStore.Events.{Host}
use ledger_py.EventStore.Memory.{Store}
use ledger_py.Saga.Messages.{TransferInput, FailInput, ParkInput, RefundInput}
use ledger_py.Saga.Activities.{
  record_initiated, fail_transfer, park_transfer, hold_funds, post_journal, reverse_journal,
  settle_debit, settle_credit, refund_source, release_held_funds,
}
use ledger_py.Saga.Activities.Blocks.{IsStore}
use ledger_py.Saga.Activities.Repeat.{
  fail_transfer_again, park_transfer_again, hold_funds_again, settle_debit_again,
  settle_credit_again, refund_source_again,
}
use ledger_py.Saga.Activities.Creates.{record_initiated_again}
use ledger_py.Saga.Activities.Postings.{post_journal_again, reverse_journal_again}
use ledger_py.Saga.Activities.Releases.{release_again}

pub data Activity : Type 0 where
  records_initiated : TransferInput → Activity
  holds_funds : TransferInput → Activity
  posts_journal : TransferInput → Activity
  reverses_journal : TransferInput → Activity
  settles_debit : TransferInput → Activity
  settles_credit : TransferInput → Activity
  releases_hold : TransferInput → Activity
  fails_transfer : FailInput → Activity
  parks_transfer : ParkInput → Activity
  refunds_source : RefundInput → Activity

module _ {P : Type 0} (host : Host P) (uuid5 : Uuid5) where
  -- An activity, without the id that `post_journal` returns.
  unfoldable pub perform : Activity → Exec (Store P) (Unit {0})
  unfolding record_initiated fail_transfer park_transfer hold_funds post_journal reverse_journal
      settle_debit settle_credit refund_source release_held_funds
  perform (records_initiated d) = record_initiated host d
  perform (holds_funds d) = hold_funds host uuid5 d
  perform (posts_journal d) = do entry_id ← post_journal host uuid5 d; pure tt
  perform (reverses_journal d) = reverse_journal host uuid5 d
  perform (settles_debit d) = settle_debit host uuid5 d
  perform (settles_credit d) = settle_credit host uuid5 d
  perform (releases_hold d) = release_held_funds host uuid5 d
  perform (fails_transfer d) = fail_transfer host d
  perform (parks_transfer d) = park_transfer host d
  perform (refunds_source d) = refund_source host uuid5 d

  -- On a well-formed store whose registry knows every event, an activity that succeeded succeeds
  -- again at once, and the second run leaves the store exactly as it is: an activity that is
  -- retried because its completion was lost happens once.
  pub perform_again :
      (activity : Activity) (s s' : Store P)
      → IsStore host s
      → perform activity s ≡ (ok tt, s')
      → perform activity s' ≡ (ok tt, s')
  unfolding perform
  perform_again (records_initiated d) s s' h done = record_initiated_again host d s s' h done
  perform_again (holds_funds d) s s' h done = hold_funds_again host uuid5 d s s' h done
  perform_again (posts_journal d) s s' h done = elim (Exec-cases (post_journal host uuid5 d s)) [
    | inr (e, s₁, failed) ↦ absurd (ground (arith, failed, done))
    | inl (entry_id, s₁, posted) ↦
        let same : s₁ ≡ s' = ground (arith, posted, done) in
        let again =
          post_journal_again host uuid5 d entry_id s s' h (posted ∙ λ i. (ok entry_id, same i)) in
        ground (arith, again)
  ]
  perform_again (reverses_journal d) s s' h done = reverse_journal_again host uuid5 d s s' h done
  perform_again (settles_debit d) s s' h done = settle_debit_again host uuid5 d s s' h done
  perform_again (settles_credit d) s s' h done = settle_credit_again host uuid5 d s s' h done
  perform_again (releases_hold d) s s' h done = release_again host uuid5 d s s' h done
  perform_again (fails_transfer d) s s' h done = fail_transfer_again host d s s' h done
  perform_again (parks_transfer d) s s' h done = park_transfer_again host d s s' h done
  perform_again (refunds_source d) s s' h done = refund_source_again host uuid5 d s s' h done
