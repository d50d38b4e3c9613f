-- ===== src/Saga/Tidy/Steps.antt =====
-- The activities of a transfer, each on its own data.
use ledger_py.Base.{inl, inr, ◌≡◌, refl, Option, none, some, List, [], ◌∷◌, ◌∙◌, ap, map}
use ledger_py.Shared.Errors.{
  Uuid, Code, formatted, uuid_value, account_not_active, currency_mismatch, unknown_account,
  unbalanced_entry, same_account_transfer, invalid_amount,
}
use ledger_py.Shared.Result.{Result, ok, Result-cases}
use ledger_py.Shared.Exec.{reads, pure, ◌>>=◌, ◌>>◌}
use ledger_py.Shared.Aggregate.{Aggregate}
use ledger_py.Accounts.Account
use ledger_py.Accounts.Account.{hold, release_hold}
use ledger_py.Journal.Leg.{journal_entry_posted}
use ledger_py.Journal.Entry
use ledger_py.Journal.Entry.{post}
use ledger_py.Journal.Posting.{post_entry}
use ledger_py.Transfers.Events.{held, same_status}
use ledger_py.Transfers.Operations.{
  Uuid5, hold_step, debit_step, credit_step, refund_step, release_step, journal_entry_id_for,
  journal_reversal_id_for,
}
use ledger_py.Transfers.Transfer
use ledger_py.Transfers.Transfer.{initiate, mark_posted}
use ledger_py.EventStore.Events.{Host}
use ledger_py.EventStore.Records.{EventMetadata}
use ledger_py.EventStore.Memory.{Store}
use ledger_py.EventStore.Repository.{Kind, load, save, accounts, journals, transfers}
use ledger_py.Saga.Messages.{TransferInput, RefundInput, FailInput, ParkInput}
use ledger_py.Saga.Activities.{
  meta, reversed_leg, post_new, reverse_found, reverse_new, release_found, status_reader,
  initiate_new, record_initiated, hold_funds, post_journal, reverse_journal, settle_debit,
  settle_credit, refund_source, fail_transfer, park_transfer, release_held_funds, milestone,
  terminating,
}
use ledger_py.Saga.Activities.Blocks.{loaded-pending, accounts-Matches}
use ledger_py.Saga.Clean.{op, AllProper, entry_legs, transfers-AllProper}
use ledger_py.Saga.Tidy.{
  Tidy, IsTidy, >>=-Tidy, terminating-Tidy, reading-Tidy, saving-Tidy, change_account-Tidy,
  milestone-Tidy,
}
use ledger_py.Saga.Tidy.Journals.{loaded-legs}
use ledger_py.Saga.Tidy.Proper.{
  wanted-AllProper, hold_pending, release_pending, debit_pending, credit_pending, post_pending,
  post_entry_pending, entry-AllProper, reversal-AllProper,
}

module _ {P : Type 0} (host : Host P) (uuid5 : Uuid5) (d : TransferInput) where
  -- A new aggregate, made unless that raises, and saved.
  creating-Tidy :
      {S E : Type 0} (kind : Kind S E) (id : Uuid) (m : Option EventMetadata) (codes : List Code)
      (made : Store P → Result (Aggregate S E))
      → ((s : Store P) (r : Aggregate S E)
          → made s ≡ ok r
          → AllProper uuid5 d kind.stream_type id (map kind.embed r.pending))
      → Tidy host uuid5 d (do r ← terminating codes (reads made); save host kind id r m; pure tt)
  creating-Tidy kind id m codes made proper s h = elim (Result-cases (made s)) [
    | inr (e, failed) ↦ rw failed h
    | inl (r, done) ↦ rw done (saving-Tidy host uuid5 d kind id r m (proper s r done) s h)
  ]

  pub record_initiated-Tidy : Tidy host uuid5 d (record_initiated host d)
  unfolding record_initiated
  record_initiated-Tidy =
      reading-Tidy host uuid5 d (load host transfers d.transfer_id) _
        (λ found s e h. fresh found s h)
    where
      fresh : (found : Option Transfer.Root) → Tidy host uuid5 d (initiate_new host d found)
      fresh (some t) s h = h
      fresh none s h =
          creating-Tidy transfers d.transfer_id (meta d.transfer_id d.traceparent)
            (same_account_transfer ∷ invalid_amount ∷ [])
            (λ _.
              initiate d.transfer_id d.source_account_id d.destination_account_id d.amount
                d.reversal_of)
            (λ _ r e. transfers-AllProper uuid5 d d.transfer_id r.pending) s h

  pub hold_funds-Tidy : Tidy host uuid5 d (hold_funds host uuid5 d)
  unfolding hold_funds
  hold_funds-Tidy =
      >>=-Tidy host uuid5 d _ _
        (terminating-Tidy host uuid5 d _ _ (
          change_account-Tidy host uuid5 d d.source_account_id _
            (hold d.amount (op uuid5 d hold_step))
            (λ b r fresh done.
              wanted-AllProper uuid5 d d.source_account_id hold_step _ r.pending refl (λ o. refl)
                (hold_pending uuid5 d (op uuid5 d hold_step) b r fresh done))))
        (λ _. milestone-Tidy host uuid5 d d.transfer_id _ _ _)

  pub settle_debit-Tidy : Tidy host uuid5 d (settle_debit host uuid5 d)
  unfolding settle_debit
  settle_debit-Tidy = terminating-Tidy host uuid5 d _ _ (
      change_account-Tidy host uuid5 d d.source_account_id _
        (Account.debit d.amount (op uuid5 d debit_step))
        (λ b r fresh done.
          wanted-AllProper uuid5 d d.source_account_id debit_step _ r.pending refl (λ o. refl)
            (debit_pending uuid5 d (op uuid5 d debit_step) b r fresh done)))

  pub settle_credit-Tidy : Tidy host uuid5 d (settle_credit host uuid5 d)
  unfolding settle_credit
  settle_credit-Tidy =
      >>=-Tidy host uuid5 d _ _
        (terminating-Tidy host uuid5 d _ _ (
          change_account-Tidy host uuid5 d d.destination_account_id _
            (Account.credit d.amount (op uuid5 d credit_step))
            (λ b r fresh done.
              wanted-AllProper uuid5 d d.destination_account_id credit_step _ r.pending refl
                (λ o. refl) (credit_pending uuid5 d (op uuid5 d credit_step) b r fresh done))))
        (λ _. milestone-Tidy host uuid5 d d.transfer_id _ _ _)

  -- The refund of the transfer itself.
  abbrev pub refund : RefundInput
  refund = record {
    transfer_id = d.transfer_id;
    source_account_id = d.source_account_id;
    amount = d.amount;
  }

  pub refund_source-Tidy : Tidy host uuid5 d (refund_source host uuid5 refund)
  unfolding refund_source
  refund_source-Tidy =
      >>=-Tidy host uuid5 d _ _
        (terminating-Tidy host uuid5 d _ _ (
          change_account-Tidy host uuid5 d d.source_account_id _
            (Account.credit d.amount (op uuid5 d refund_step))
            (λ b r fresh done.
              wanted-AllProper uuid5 d d.source_account_id refund_step _ r.pending refl (λ o. refl)
                (credit_pending uuid5 d (op uuid5 d refund_step) b r fresh done))))
        (λ _. milestone-Tidy host uuid5 d d.transfer_id _ _ _)

  pub release-Tidy : Tidy host uuid5 d (release_held_funds host uuid5 d)
  unfolding release_held_funds
  release-Tidy = reading-Tidy host uuid5 d (load host accounts d.source_account_id) _ release
    where
      release :
          (found : Option Account.Root) (s : Store P)
          → load host accounts d.source_account_id s ≡ ok found
          → IsTidy host uuid5 d s
          → IsTidy host uuid5 d (release_found host uuid5 d found s).1
      release none s found h = h
      release (some b) s found h =
          reading-Tidy host uuid5 d (λ _. release_hold d.amount (op uuid5 d release_step) b) _
            (λ r u done k.
              saving-Tidy host uuid5 d accounts d.source_account_id r
                (meta d.transfer_id d.traceparent)
                (wanted-AllProper uuid5 d d.source_account_id release_step _ r.pending refl
                  (λ o. refl)
                  (release_pending uuid5 d (op uuid5 d release_step) b r
                    (loaded-pending host accounts (accounts-Matches host) d.source_account_id s b
                      found)
                    done))
                u k)
            s h

  pub fail_transfer-Tidy : (x : FailInput) → Tidy host uuid5 d (fail_transfer host x)
  unfolding fail_transfer
  fail_transfer-Tidy x = milestone-Tidy host uuid5 d x.transfer_id _ _ _

  pub park_transfer-Tidy : (x : ParkInput) → Tidy host uuid5 d (park_transfer host x)
  unfolding park_transfer
  park_transfer-Tidy x = milestone-Tidy host uuid5 d x.transfer_id _ _ _

  post_new-Tidy :
      (found : Option Entry.Root)
      → Tidy host uuid5 d (post_new host d (journal_entry_id_for uuid5 d.transfer_id) found)
  post_new-Tidy (some entry) s h = h
  post_new-Tidy none s h =
      let id = journal_entry_id_for uuid5 d.transfer_id in
      let reference = some (formatted "{}" (uuid_value d.transfer_id ∷ [])) in
      creating-Tidy journals id (meta d.transfer_id d.traceparent)
        (unknown_account ∷ account_not_active ∷ currency_mismatch ∷ unbalanced_entry ∷ [])
        (λ x. post_entry (status_reader host x) id (entry_legs uuid5 d) reference)
        (λ x r done. entry-AllProper uuid5 d r.pending (
          post_entry_pending uuid5 d (status_reader host x) id (entry_legs uuid5 d) reference r
            done))
        s h

  pub post_journal-Tidy : Tidy host uuid5 d (post_journal host uuid5 d)
  unfolding post_journal
  post_journal-Tidy =
      let id = journal_entry_id_for uuid5 d.transfer_id in
      reading-Tidy host uuid5 d (load host journals id) _ (λ found s e h.
        >>=-Tidy host uuid5 d (post_new host d id found) _ (post_new-Tidy found)
          (λ _.
            >>=-Tidy host uuid5 d
              (milestone host d.transfer_id (meta d.transfer_id d.traceparent)
                (λ x. same_status x held) (mark_posted id))
              _ (milestone-Tidy host uuid5 d d.transfer_id _ _ _) (λ _ u k. k))
          s h)

  pub reverse_journal-Tidy : Tidy host uuid5 d (reverse_journal host uuid5 d)
  unfolding reverse_journal
  reverse_journal-Tidy =
      reading-Tidy host uuid5 d (load host journals (journal_reversal_id_for uuid5 d.transfer_id)) _
        (λ found s e h. fresh found s h)
    where
      reverse :
          (found : Option Entry.Root) (s : Store P)
          → load host journals (journal_entry_id_for uuid5 d.transfer_id) s ≡ ok found
          → IsTidy host uuid5 d s
          → IsTidy host uuid5 d
              (reverse_found host uuid5 d (journal_reversal_id_for uuid5 d.transfer_id) found s).1
      reverse none s e h = h
      reverse (some original) s e h =
          let id = journal_reversal_id_for uuid5 d.transfer_id in
          let reference = some (formatted "reversal of {}" (uuid_value d.transfer_id ∷ [])) in
          let legs = loaded-legs host uuid5 d s original h.1 e in
          reading-Tidy host uuid5 d (λ _. post id (map reversed_leg original.state.legs) reference)
            _
            (λ r u done k.
              saving-Tidy host uuid5 d journals id r (meta d.transfer_id d.traceparent)
                (reversal-AllProper uuid5 d r.pending (
                  post_pending uuid5 d id (map reversed_leg original.state.legs) reference r done
                  ∙ ap (λ xs. journal_entry_posted (map reversed_leg xs) reference ∷ []) legs))
                u k)
            s h

      fresh :
          (found : Option Entry.Root)
          → Tidy host uuid5 d
              (reverse_new host uuid5 d (journal_reversal_id_for uuid5 d.transfer_id) found)
      fresh (some reversal) s h = h
      fresh none s h =
          reading-Tidy host uuid5 d (load host journals (journal_entry_id_for uuid5 d.transfer_id))
            _ reverse s h
