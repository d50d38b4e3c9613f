-- ===== src/Saga/Activities/Releases.antt =====
-- The release of a hold, done twice.
use ledger_py.Base.{◌≡◌, refl, inl, inr, some, none, ◌∙◌, sym, ap, arith}
use ledger_py.Shared.Result.{ok}
use ledger_py.Shared.Aggregate.Replay.{cleared}
use ledger_py.Accounts.Account
use ledger_py.Accounts.Account.Commands.{run}
use ledger_py.Transfers.Operations.{Uuid5, operation_id}
use ledger_py.EventStore.Events.{Host}
use ledger_py.EventStore.Memory.{Store}
use ledger_py.EventStore.Repository.{load, accounts}
use ledger_py.Saga.Messages.{TransferInput}
use ledger_py.Saga.Activities.{change_account, meta}
use ledger_py.Saga.Activities.Blocks.{
  IsStore, change_account-Changed, changed-IsStore, change_account_again,
}
use ledger_py.Base.{Option-cases}
use ledger_py.Saga.Activities.{release_held_funds}
use ledger_py.Saga.Activities.Repeat.{command-IsRepeatable}
use ledger_py.Shared.Result.{Result-cases}
use ledger_py.Accounts.Account.Commands.{releases}
use ledger_py.Transfers.Operations.{release_step}
use ledger_py.Saga.Activities.Postings.{unchanged}

module _ {P : Type 0} (host : Host P) (uuid5 : Uuid5) where
  release_missing :
      (d : TransferInput) (s : Store P)
      → load host accounts d.source_account_id s ≡ ok none
      → release_held_funds host uuid5 d s ≡ (ok tt, s)
  unfolding release_held_funds
  release_missing d s absent = ground (arith, absent)

  -- With an account there, the release is a change of the account like the others.
  pub release_changes :
      (d : TransferInput) (b : Account.Root) (s : Store P)
      → load host accounts d.source_account_id s ≡ ok (some b)
      → release_held_funds host uuid5 d s
        ≡ change_account host d.source_account_id
            (meta d.transfer_id d.traceparent)
            (run (releases d.amount (operation_id uuid5 d.transfer_id release_step)))
            s
  unfolding release_held_funds change_account run
  release_changes d b s found = rw found refl

  pub release_again :
      (d : TransferInput) (s s' : Store P)
      → IsStore host s
      → release_held_funds host uuid5 d s ≡ (ok tt, s')
      → release_held_funds host uuid5 d s' ≡ (ok tt, s')
  unfolding release_held_funds
  release_again d s s' h done = elim (Result-cases (load host accounts d.source_account_id s)) [
    | inr (e, failed) ↦ absurd (ground (arith, failed, done))
    | inl (found, is_found) ↦ elim (Option-cases found) [
      | inl absent ↦
          unchanged host uuid5 (release_held_funds host uuid5 d) s s' done
            (release_missing d s (is_found ∙ ap ok absent))
      | inr (b, there) ↦
          let id = d.source_account_id in
          let m = meta d.transfer_id d.traceparent in
          let command = releases d.amount (operation_id uuid5 d.transfer_id release_step) in
          let c = command-IsRepeatable host command refl in
          let changed = sym (release_changes d b s (is_found ∙ ap ok there)) ∙ done in
          let x = change_account-Changed host id m (run command) c s s' h changed in
          let kept = changed-IsStore host id m (run command) c s s' h x in
          release_changes d (cleared x.after) s' x.reloaded
          ∙ change_account_again host id m (run command) c s s' s' x kept refl
    ]
  ]
