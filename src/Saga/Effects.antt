-- ===== src/Saga/Effects.antt =====
-- What an activity that reports success has put into the log.
use mathlib.Core.Path.{subst}
use ledger_py.Base.{
  ◌≡◌, refl, Bool, true, inl, inr, Option, none, some, List, ◌∙◌, sym, ap, arith, Option-cases,
  ==_refl,
}
use ledger_py.Base.Lists.{contains}
use ledger_py.Shared.Errors.{Uuid, Code}
use ledger_py.Shared.Result.{Result, ok, Result-cases}
use ledger_py.Shared.Exec.{Exec-cases, ◌>>◌}
use ledger_py.Shared.Aggregate.Replay.{cleared}
use ledger_py.Accounts.Account
use ledger_py.Accounts.Account.{add_op}
use ledger_py.Accounts.Account.Commands.{Command, holds, releases, debits, credits, run}
use ledger_py.Accounts.Account.Outcome.{has_op}
use ledger_py.Transfers.Events.{TransferStatus}
use ledger_py.Transfers.Operations.{
  Uuid5, hold_step, debit_step, credit_step, refund_step, release_step, operation_id,
}
use ledger_py.Transfers.Transfer
use ledger_py.EventStore.Events.{Host}
use ledger_py.EventStore.Records.{EventMetadata}
use ledger_py.EventStore.Memory.{Store}
use ledger_py.EventStore.Repository.{load, accounts}
use ledger_py.Saga.Messages.{TransferInput, RefundInput}
use ledger_py.Saga.Activities.{
  change_account, milestone, terminating, hold_funds, settle_debit, settle_credit, refund_source,
  release_held_funds,
}
use ledger_py.Saga.Activities.Blocks.{IsStore, change_account-Changed, changed-IsStore}
use ledger_py.Saga.Activities.Releases.{release_changes}
use ledger_py.Saga.Activities.Repeat.{command-IsRepeatable}
use ledger_py.Saga.Activities.Steady.{Grows, milestone-Steady}
use ledger_py.Saga.Applied.{applied, applied-Grows, applied-load, contains-load, contains-add_op}

-- The operation that a command carries.
abbrev op_of : Command → Option Uuid
op_of (holds m op) = some op
op_of (releases m op) = some op
op_of (debits m op) = some op
op_of (credits m op) = some op
op_of _ = none

run-contains :
    (c : Command) (op : Uuid) (b r : Account.Root)
    → op_of c ≡ some op
    → run c b ≡ ok r
    → contains op r.state.applied_ops ≡ true
unfolding run Account.hold Account.release_hold Account.debit Account.credit
run-contains (holds m o) op b r e h =
    ground (arith, contains-add_op op o b.state.applied_ops, ==_refl op)
run-contains (releases m o) op b r e h =
    ground (arith, contains-add_op op o b.state.applied_ops, ==_refl op)
run-contains (debits m o) op b r e h =
    ground (arith, contains-add_op op o b.state.applied_ops, ==_refl op)
run-contains (credits m o) op b r e h =
    ground (arith, contains-add_op op o b.state.applied_ops, ==_refl op)
run-contains c op b r e h = cc

module _ {P : Type 0} (host : Host P) where
  -- The operation of a change of an account that succeeded is in the log.
  module _ (id op : Uuid) (m : Option EventMetadata) (c : Command) (keyed : has_op c ≡ true)
      (carried : op_of c ≡ some op) where
    change_account-applied :
        (s s' : Store P)
        → IsStore host s
        → change_account host id m (run c) s ≡ (ok tt, s')
        → applied host id op s' ≡ true
    change_account-applied s s' h done =
        let x =
          change_account-Changed host id m (run c) (command-IsRepeatable host c keyed) s s' h
            done in
        sym (contains-load host id op (cleared x.after) s' x.reloaded)
        ∙ run-contains c op x.before x.after carried x.commanded

    -- The same with refusals made terminal.
    terminating-applied :
        (codes : List Code) (s s' : Store P)
        → IsStore host s
        → terminating codes (change_account host id m (run c)) s ≡ (ok tt, s')
        → applied host id op s' ≡ true
    terminating-applied codes s s' h done = elim (Exec-cases (change_account host id m (run c) s)) [
      | inr (e, s₁, failed) ↦ absurd (ground (arith, failed, done))
      | inl (tt, s₁, first) ↦
          let same : s₁ ≡ s' = ground (arith, first, done) in
          change_account-applied s s' h (first ∙ λ i. (ok tt, same i))
    ]

    -- And with a milestone after it.
    both-applied :
        (codes : List Code) (tid : Uuid) (n : Option EventMetadata) (test : TransferStatus → Bool)
        (mark : Transfer.Root → Result Transfer.Root) (s s' : Store P)
        → IsStore host s
        → (do terminating codes (change_account host id m (run c)); milestone host tid n test mark)
            s
          ≡ (ok tt, s')
        → applied host id op s' ≡ true
    both-applied codes tid n test mark s s' h done =
        elim (Exec-cases (change_account host id m (run c) s)) [
          | inr (e, s₁, failed) ↦ absurd (ground (arith, failed, done))
          | inl (tt, s₁, first) ↦
              let x =
                change_account-Changed host id m (run c) (command-IsRepeatable host c keyed) s s₁ h
                  first in
              let store =
                changed-IsStore host id m (run c) (command-IsRepeatable host c keyed) s s₁ h x in
              let second : milestone host tid n test mark s₁ ≡ (ok tt, s') =
                ground (arith, first, done) in
              applied-Grows host id op s₁ s'
                (subst (λ p. Grows s₁ p.1) second
                  (milestone-Steady host tid n test mark s₁ store).1)
                (change_account-applied s s₁ h first)
        ]

module _ {P : Type 0} (host : Host P) (uuid5 : Uuid5) where
  pub hold_funds-applied :
      (d : TransferInput) (s s' : Store P)
      → IsStore host s
      → hold_funds host uuid5 d s ≡ (ok tt, s')
      → applied host d.source_account_id (operation_id uuid5 d.transfer_id hold_step) s' ≡ true
  unfolding hold_funds run
  hold_funds-applied d s s' h done =
      let op = operation_id uuid5 d.transfer_id hold_step in
      both-applied host d.source_account_id op _ (holds d.amount op) refl refl _ _ _ _ _ s s' h done

  pub settle_debit-applied :
      (d : TransferInput) (s s' : Store P)
      → IsStore host s
      → settle_debit host uuid5 d s ≡ (ok tt, s')
      → applied host d.source_account_id (operation_id uuid5 d.transfer_id debit_step) s' ≡ true
  unfolding settle_debit run
  settle_debit-applied d s s' h done =
      let op = operation_id uuid5 d.transfer_id debit_step in
      terminating-applied host d.source_account_id op _ (debits d.amount op) refl refl _ s s' h done

  pub settle_credit-applied :
      (d : TransferInput) (s s' : Store P)
      → IsStore host s
      → settle_credit host uuid5 d s ≡ (ok tt, s')
      → applied host d.destination_account_id (operation_id uuid5 d.transfer_id credit_step) s'
        ≡ true
  unfolding settle_credit run
  settle_credit-applied d s s' h done =
      let op = operation_id uuid5 d.transfer_id credit_step in
      both-applied host d.destination_account_id op _ (credits d.amount op) refl refl _ _ _ _ _ s s'
        h done

  pub refund_source-applied :
      (d : RefundInput) (s s' : Store P)
      → IsStore host s
      → refund_source host uuid5 d s ≡ (ok tt, s')
      → applied host d.source_account_id (operation_id uuid5 d.transfer_id refund_step) s' ≡ true
  unfolding refund_source run
  refund_source-applied d s s' h done =
      let op = operation_id uuid5 d.transfer_id refund_step in
      both-applied host d.source_account_id op _ (credits d.amount op) refl refl _ _ _ _ _ s s' h
        done

  pub release-applied :
      (d : TransferInput) (op : Uuid) (s s' : Store P)
      → IsStore host s
      → applied host d.source_account_id op s ≡ true
      → release_held_funds host uuid5 d s ≡ (ok tt, s')
      → applied host d.source_account_id (operation_id uuid5 d.transfer_id release_step) s' ≡ true
  unfolding release_held_funds
  release-applied d op s s' h there done =
      elim (Result-cases (load host accounts d.source_account_id s)) [
        | inr (e, failed) ↦ absurd (ground (arith, failed, done))
        | inl (found, is_found) ↦ elim (Option-cases found) [
          | inl absent ↦
              absurd (applied-load host d.source_account_id op s there (is_found ∙ ap ok absent))
          | inr (b, held_there) ↦
              let release = operation_id uuid5 d.transfer_id release_step in
              let changed =
                sym (release_changes host uuid5 d b s (is_found ∙ ap ok held_there)) ∙ done in
              change_account-applied host d.source_account_id release _ (releases d.amount release)
                refl refl s s' h changed
        ]
      ]
