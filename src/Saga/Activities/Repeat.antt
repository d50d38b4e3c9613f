-- ===== src/Saga/Activities/Repeat.antt =====
-- An activity that is retried after it succeeded: nothing happens the second time.
use Prim.Native.String.{String}
use ledger_py.Base.{
  ◌≡◌, refl, Bool, true, false, inl, inr, Option, some, none, List, [], ◌∷◌, ◌∙◌, arith,
}
use ledger_py.Shared.Errors.{
  Uuid, Message, formatted, Code, insufficient_funds, account_not_active, currency_mismatch,
  unknown_account,
}
use ledger_py.Shared.Result.{Result, ok}
use ledger_py.Shared.Exec.{Exec-cases, Exec, ◌>>◌}
use ledger_py.Shared.Aggregate.Replay.{Extends-refl}
use ledger_py.Accounts.Account
use ledger_py.Accounts.Account.Commands.{Command, holds, debits, credits, run}
use ledger_py.Accounts.Account.Outcome.{has_op, run-cleared}
use ledger_py.Accounts.Account.Replay.{run-Extends}
use ledger_py.Transfers.Events.{
  FailureReason, TransferStatus, initiated, held, posted, needs_reconciliation, same_status,
  is_non_terminal, is_completable,
}
use ledger_py.Transfers.Operations.{
  Uuid5, hold_step, debit_step, credit_step, refund_step, operation_id,
}
use ledger_py.Transfers.Transfer
use ledger_py.Transfers.Transfer.{
  mark_held, mark_posted, complete, fail, park_for_reconciliation, reconcile,
}
use ledger_py.Transfers.Transfer.Steps
use ledger_py.Transfers.Transfer.Steps.{
  marks_held, marks_posted, completes, fails, parks, reconciles,
}
use ledger_py.Transfers.Transfer.Replay
use ledger_py.EventStore.Events.{Host}
use ledger_py.EventStore.Records.{EventMetadata}
use ledger_py.EventStore.Memory.{Store}
use ledger_py.Saga.Messages.{TransferInput, RefundInput, FailInput, ParkInput}
use ledger_py.Saga.Activities.{
  change_account, milestone, terminating, meta, settle_debit, hold_funds, settle_credit,
  refund_source, fail_transfer, park_transfer,
}
use ledger_py.Saga.Activities.Blocks.{
  IsStore, IsRepeatable, change_account-Changed, changed-IsStore, change_account_again,
}
use ledger_py.Saga.Activities.Milestones.{IsMilestone, milestone-IsSettled}

module _ {P : Type 0} (host : Host P) where
  pub command-IsRepeatable : (c : Command) → has_op c ≡ true → IsRepeatable host (run c)
  command-IsRepeatable c e = record {
    extends = λ b r clean h. run-Extends c b b r (Extends-refl Account.apply b clean) h;
    stable = λ b r h. run-cleared c b r e h;
  }

  module _ (id : Uuid) (m : Option EventMetadata) (codes : List Code)
      (command : Account.Root → Result Account.Root) (c : IsRepeatable host command) where
    account_again :
        (s s' : Store P)
        → IsStore host s
        → terminating codes (change_account host id m command) s ≡ (ok tt, s')
        → terminating codes (change_account host id m command) s' ≡ (ok tt, s')
    account_again s s' h done = elim (Exec-cases (change_account host id m command s)) [
      | inr (e, s₁, failed) ↦ absurd (ground (arith, failed, done))
      | inl (tt, s₁, first) ↦
          let same : s₁ ≡ s' = ground (arith, first, done) in
          let x =
            change_account-Changed host id m command c s s' h (first ∙ λ i. (ok tt, same i)) in
          let kept = changed-IsStore host id m command c s s' h x in
          let again = change_account_again host id m command c s s' s' x kept refl in
          ground (arith, again)
    ]

  module _ (id tid : Uuid) (m n : Option EventMetadata) (codes : List Code)
      (command : Account.Root → Result Account.Root) (c : IsRepeatable host command)
      (test : TransferStatus → Bool) (mark : Transfer.Root → Result Transfer.Root)
      (t : IsMilestone host test mark) where
    abbrev both : Exec (Store P) (Unit {0})
    both = do terminating codes (change_account host id m command); milestone host tid n test mark

    both_parts :
        (s s' : Store P)
        → both s ≡ (ok tt, s')
        → (s₁ : Store P) × (change_account host id m command s ≡ (ok tt, s₁))
          × (milestone host tid n test mark s₁ ≡ (ok tt, s'))
    both_parts s s' h = elim (Exec-cases (change_account host id m command s)) [
      | inr (e, s₁, failed) ↦ absurd (ground (arith, failed, h))
      | inl (tt, s₁, done) ↦ (s₁, done, ground (arith, done, h))
    ]

    both_again : (s s' : Store P) → IsStore host s → both s ≡ (ok tt, s') → both s' ≡ (ok tt, s')
    both_again s s' h done =
        let (s₁, first, second) = both_parts s s' done in
        let x = change_account-Changed host id m command c s s₁ h first in
        let y =
          milestone-IsSettled host tid n test mark t s₁ s'
            (changed-IsStore host id m command c s s₁ h x) second in
        let again =
          change_account_again host id m command c s s₁ s' x y.store (y.accounts_kept id) in
        let last = y.again in ground (arith, again, last)

  command-IsMilestone :
      (test : TransferStatus → Bool) (c : Steps.Command)
      → ((b r : Transfer.Root) → Steps.run c b ≡ ok r → test r.state.status ≡ false)
      → IsMilestone host test (Steps.run c)
  command-IsMilestone test c leaves = record {
    extends = λ b r clean h. Replay.run-Extends c b b r (Extends-refl Transfer.apply b clean) h;
    leaves = leaves;
  }

  hold-IsMilestone : IsMilestone host (λ s. same_status s initiated) (Steps.run marks_held)
  hold-IsMilestone =
      command-IsMilestone _ marks_held (λ b r h. unfold Steps.run in ground (arith, h))

  pub post-IsMilestone :
      (entry_id : Uuid)
      → IsMilestone host (λ s. same_status s held) (Steps.run (marks_posted entry_id))
  post-IsMilestone entry_id =
      command-IsMilestone _ (marks_posted entry_id) (λ b r h. unfold Steps.run in ground (arith, h))

  complete-IsMilestone : IsMilestone host is_completable (Steps.run completes)
  complete-IsMilestone =
      command-IsMilestone _ completes (λ b r h. unfold Steps.run in ground (arith, h))

  fail-IsMilestone :
      (reason : FailureReason) (detail : Option Message)
      → IsMilestone host is_non_terminal (Steps.run (fails reason detail))
  fail-IsMilestone reason detail =
      command-IsMilestone _ (fails reason detail) (λ b r h. unfold Steps.run in ground (arith, h))

  park-IsMilestone :
      (detail : Message) → IsMilestone host (λ s. same_status s posted) (Steps.run (parks detail))
  park-IsMilestone detail =
      command-IsMilestone _ (parks detail) (λ b r h. unfold Steps.run in ground (arith, h))

  reconcile-IsMilestone :
      (resolution : String) (detail : Option Message)
      → IsMilestone host
          (λ s. same_status s needs_reconciliation)
          (Steps.run (reconciles resolution detail))
  reconcile-IsMilestone resolution detail =
      command-IsMilestone _ (reconciles resolution detail)
        (λ b r h. unfold Steps.run in ground (arith, h))

  pub fail_transfer_again :
      (d : FailInput) (s s' : Store P)
      → IsStore host s
      → fail_transfer host d s ≡ (ok tt, s')
      → fail_transfer host d s' ≡ (ok tt, s')
  unfolding fail_transfer Steps.run
  fail_transfer_again d s s' h done =
      (milestone-IsSettled host d.transfer_id (meta d.transfer_id none) is_non_terminal
        (fail d.reason d.detail) (fail-IsMilestone d.reason d.detail) s s' h done).again

  pub park_transfer_again :
      (d : ParkInput) (s s' : Store P)
      → IsStore host s
      → park_transfer host d s ≡ (ok tt, s')
      → park_transfer host d s' ≡ (ok tt, s')
  unfolding park_transfer Steps.run
  park_transfer_again d s s' h done =
      (milestone-IsSettled host d.transfer_id (meta d.transfer_id none) (λ x. same_status x posted)
        (park_for_reconciliation d.detail) (park-IsMilestone d.detail) s s' h done).again

module _ {P : Type 0} (host : Host P) (uuid5 : Uuid5) where
  pub hold_funds_again :
      (d : TransferInput) (s s' : Store P)
      → IsStore host s
      → hold_funds host uuid5 d s ≡ (ok tt, s')
      → hold_funds host uuid5 d s' ≡ (ok tt, s')
  unfolding hold_funds run Steps.run
  hold_funds_again d =
      let op = operation_id uuid5 d.transfer_id hold_step in
      let m = meta d.transfer_id d.traceparent in
      both_again host d.source_account_id d.transfer_id m m
        (insufficient_funds ∷ account_not_active ∷ currency_mismatch ∷ unknown_account ∷ [])
        (run (holds d.amount op)) (command-IsRepeatable host (holds d.amount op) refl)
        (λ x. same_status x initiated) mark_held (hold-IsMilestone host)

  pub settle_debit_again :
      (d : TransferInput) (s s' : Store P)
      → IsStore host s
      → settle_debit host uuid5 d s ≡ (ok tt, s')
      → settle_debit host uuid5 d s' ≡ (ok tt, s')
  unfolding settle_debit run
  settle_debit_again d =
      let op = operation_id uuid5 d.transfer_id debit_step in
      account_again host d.source_account_id (meta d.transfer_id d.traceparent)
        (insufficient_funds ∷ account_not_active ∷ unknown_account ∷ []) (run (debits d.amount op))
        (command-IsRepeatable host (debits d.amount op) refl)

  pub settle_credit_again :
      (d : TransferInput) (s s' : Store P)
      → IsStore host s
      → settle_credit host uuid5 d s ≡ (ok tt, s')
      → settle_credit host uuid5 d s' ≡ (ok tt, s')
  unfolding settle_credit run Steps.run
  settle_credit_again d =
      let op = operation_id uuid5 d.transfer_id credit_step in
      let m = meta d.transfer_id d.traceparent in
      both_again host d.destination_account_id d.transfer_id m m
        (account_not_active ∷ unknown_account ∷ []) (run (credits d.amount op))
        (command-IsRepeatable host (credits d.amount op) refl) is_completable complete
        (complete-IsMilestone host)

  pub refund_source_again :
      (d : RefundInput) (s s' : Store P)
      → IsStore host s
      → refund_source host uuid5 d s ≡ (ok tt, s')
      → refund_source host uuid5 d s' ≡ (ok tt, s')
  unfolding refund_source run Steps.run
  refund_source_again d =
      let op = operation_id uuid5 d.transfer_id refund_step in
      let m = meta d.transfer_id none in
      let detail = some (formatted "funds returned to source" []) in
      both_again host d.source_account_id d.transfer_id m m
        (account_not_active ∷ unknown_account ∷ []) (run (credits d.amount op))
        (command-IsRepeatable host (credits d.amount op) refl)
        (λ x. same_status x needs_reconciliation) (reconcile "refunded" detail)
        (reconcile-IsMilestone host "refunded" detail)
