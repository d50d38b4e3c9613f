-- ===== src/Saga/Activities/Onward.antt =====
-- Each activity keeps the log well formed and only adds to it, however it ends.
use ledger_py.Base.{Bool, Option, none, some, List, [], ◌∷◌, map}
use ledger_py.Shared.Errors.{
  Uuid, Code, formatted, uuid_value, account_not_active, currency_mismatch, unknown_account,
  invalid_amount, same_account_transfer, unbalanced_entry,
}
use ledger_py.Shared.Result.{Result, ok}
use ledger_py.Shared.Aggregate.{Aggregate}
use ledger_py.Shared.Exec.{pure, reads, ◌>>=◌, ◌>>◌}
use ledger_py.Accounts.Account
use ledger_py.Accounts.Account.{hold, release_hold}
use ledger_py.Journal.Leg
use ledger_py.Journal.Entry
use ledger_py.Journal.Entry.{post}
use ledger_py.Journal.Posting.{post_entry}
use ledger_py.Transfers.Events.{TransferStatus, held, same_status}
use ledger_py.Transfers.Operations.{
  Uuid5, release_step, operation_id, journal_entry_id_for, journal_reversal_id_for,
}
use ledger_py.Transfers.Transfer
use ledger_py.Transfers.Transfer.{
  initiate, mark_held, mark_posted, complete, reconcile, fail, park_for_reconciliation,
}
use ledger_py.EventStore.Events.{Host}
use ledger_py.EventStore.Records.{EventMetadata}
use ledger_py.EventStore.Memory.{Store}
use ledger_py.EventStore.Repository.{Kind, save, accounts, journals, transfers}
use ledger_py.Saga.Messages.{TransferInput}
use ledger_py.Saga.Activities.{
  change_account, milestone, initiate_new, post_new, reverse_found, reverse_new, release_found,
  status_reader, reversed_leg, meta, terminating, record_initiated, fail_transfer, park_transfer,
  hold_funds, post_journal, reverse_journal, settle_debit, settle_credit, refund_source,
  release_held_funds,
}
use ledger_py.Saga.Activities.Steady.{
  Steady, Grows-refl, still-Steady, loading-Steady, >>=-Steady, terminating-Steady, save-Steady,
  saving-Steady, change_account-Steady, milestone-Steady,
}
use ledger_py.Saga.Activities.Retried.{
  Activity, records_initiated, holds_funds, posts_journal, reverses_journal, settles_debit,
  settles_credit, releases_hold, fails_transfer, parks_transfer, refunds_source, perform,
}

module _ {P : Type 0} (host : Host P) where
  -- A change of an account whose refusals are made terminal, and a milestone after it.
  both-Steady :
      (id tid : Uuid) (m n : Option EventMetadata) (codes : List Code)
      (command : Account.Root → Result Account.Root) (test : TransferStatus → Bool)
      (mark : Transfer.Root → Result Transfer.Root)
      → Steady host
          (do terminating codes (change_account host id m command); milestone host tid n test mark)
  both-Steady id tid m n codes command test mark =
      >>=-Steady host (terminating codes (change_account host id m command)) _
        (terminating-Steady host codes _ (change_account-Steady host id m command))
        (λ _. milestone-Steady host tid n test mark)

  -- A new aggregate, made unless that raises, and saved.
  created-Steady :
      {S E : Type 0} (kind : Kind S E) (id : Uuid) (m : Option EventMetadata) (codes : List Code)
      (made : Store P → Result (Aggregate S E))
      → Steady host (do r ← terminating codes (reads made); save host kind id r m; pure tt)
  created-Steady kind id m codes made =
      >>=-Steady host (terminating codes (reads made)) _
        (terminating-Steady host codes _ (still-Steady host made))
        (λ r.
          >>=-Steady host (save host kind id r m) _ (save-Steady host kind id r m)
            (λ _. still-Steady host (λ _. ok tt)))

  record_initiated-Steady : (d : TransferInput) → Steady host (record_initiated host d)
  unfolding record_initiated
  record_initiated-Steady d = loading-Steady host transfers d.transfer_id _ fresh
    where
      fresh : (found : Option Transfer.Root) → Steady host (initiate_new host d found)
      fresh (some t) s h = (h, Grows-refl s)
      fresh none s h =
          created-Steady transfers d.transfer_id (meta d.transfer_id d.traceparent)
            (same_account_transfer ∷ invalid_amount ∷ [])
            (λ _.
              initiate d.transfer_id d.source_account_id d.destination_account_id d.amount
                d.reversal_of)
            s h

  post_new-Steady :
      (d : TransferInput) (id : Uuid) (found : Option Entry.Root)
      → Steady host (post_new host d id found)
  post_new-Steady d id (some entry) s h = (h, Grows-refl s)
  post_new-Steady d id none s h =
      created-Steady journals id (meta d.transfer_id d.traceparent)
        (unknown_account ∷ account_not_active ∷ currency_mismatch ∷ unbalanced_entry ∷ [])
        (λ x.
          post_entry (status_reader host x) id
            (Leg.debit d.source_account_id d.amount
              ∷ Leg.credit d.destination_account_id d.amount
              ∷ [])
            (some (formatted "{}" (uuid_value d.transfer_id ∷ []))))
        s h

module _ {P : Type 0} (host : Host P) (uuid5 : Uuid5) where
  pub post_journal-Steady : (d : TransferInput) → Steady host (post_journal host uuid5 d)
  unfolding post_journal
  post_journal-Steady d =
      let id = journal_entry_id_for uuid5 d.transfer_id in
      loading-Steady host journals id _ (λ found.
        >>=-Steady host (post_new host d id found) _ (post_new-Steady host d id found) (λ _.
          >>=-Steady host
            (milestone host d.transfer_id (meta d.transfer_id d.traceparent)
              (λ s. same_status s held) (mark_posted id))
            _ (milestone-Steady host d.transfer_id _ _ _) (λ _. still-Steady host (λ _. ok id))))

  reverse_journal-Steady : (d : TransferInput) → Steady host (reverse_journal host uuid5 d)
  unfolding reverse_journal
  reverse_journal-Steady d =
      let id = journal_reversal_id_for uuid5 d.transfer_id in
      loading-Steady host journals id _ fresh
    where
      of_original :
          (found : Option Entry.Root)
          → Steady host
              (reverse_found host uuid5 d (journal_reversal_id_for uuid5 d.transfer_id) found)
      of_original none s h = (h, Grows-refl s)
      of_original (some original) s h =
          saving-Steady host journals (journal_reversal_id_for uuid5 d.transfer_id)
            (meta d.transfer_id d.traceparent)
            (λ _.
              post (journal_reversal_id_for uuid5 d.transfer_id)
                (map reversed_leg original.state.legs)
                (some (formatted "reversal of {}" (uuid_value d.transfer_id ∷ []))))
            s h

      fresh :
          (found : Option Entry.Root)
          → Steady host
              (reverse_new host uuid5 d (journal_reversal_id_for uuid5 d.transfer_id) found)
      fresh (some reversal) s h = (h, Grows-refl s)
      fresh none s h =
          loading-Steady host journals (journal_entry_id_for uuid5 d.transfer_id) _ of_original s h

  release-Steady : (d : TransferInput) → Steady host (release_held_funds host uuid5 d)
  unfolding release_held_funds
  release-Steady d = loading-Steady host accounts d.source_account_id _ release
    where
      release : (found : Option Account.Root) → Steady host (release_found host uuid5 d found)
      release none s h = (h, Grows-refl s)
      release (some source) s h =
          saving-Steady host accounts d.source_account_id (meta d.transfer_id d.traceparent)
            (λ _. release_hold d.amount (operation_id uuid5 d.transfer_id release_step) source) s h

  -- Whether it returns or raises, an activity keeps the log well formed and loses no event of it.
  pub perform-Steady : (a : Activity) → Steady host (perform host uuid5 a)
  unfolding perform hold_funds settle_debit settle_credit refund_source fail_transfer park_transfer
  perform-Steady (records_initiated d) = record_initiated-Steady host d
  perform-Steady (holds_funds d) = both-Steady host d.source_account_id d.transfer_id _ _ _ _ _ _
  perform-Steady (posts_journal d) =
      >>=-Steady host (post_journal host uuid5 d) _ (post_journal-Steady d)
        (λ _. still-Steady host (λ _. ok tt))
  perform-Steady (reverses_journal d) = reverse_journal-Steady d
  perform-Steady (settles_debit d) =
      terminating-Steady host _ _ (change_account-Steady host d.source_account_id _ _)
  perform-Steady (settles_credit d) =
      both-Steady host d.destination_account_id d.transfer_id _ _ _ _ _ _
  perform-Steady (releases_hold d) = release-Steady d
  perform-Steady (fails_transfer d) = milestone-Steady host d.transfer_id _ _ _
  perform-Steady (parks_transfer d) = milestone-Steady host d.transfer_id _ _ _
  perform-Steady (refunds_source d) = both-Steady host d.source_account_id d.transfer_id _ _ _ _ _ _
