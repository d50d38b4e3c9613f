-- ===== src/Saga/Tidy/Proper.antt =====
-- What each command buffers on the data of a transfer uses its ids as it should.
use ledger_py.Base.{
  ◌≡◌, refl, ◌==◌, ◌⊎◌, inl, inr, Option, some, List, [], ◌∷◌, ◌∙◌, sym, ap, arith, map, ==→≡,
}
use mathlib.Core.Path.{subst}
use ledger_py.Shared.Errors.{Uuid, Message, account_stream, journal_stream}
use ledger_py.Shared.Result.{ok}
use ledger_py.Accounts.Events.{
  AccountEvent, funds_held, hold_released, account_debited, account_credited,
}
use ledger_py.Accounts.Account
use ledger_py.Accounts.Account.{hold, release_hold}
use ledger_py.Journal.Leg.{Leg, JournalEvent, journal_entry_posted}
use ledger_py.Journal.Entry
use ledger_py.Journal.Entry.{post}
use ledger_py.Journal.Posting.{Reader, post_entry}
use ledger_py.Transfers.Operations.{
  Uuid5, Step, journal_step, reversal_step, journal_entry_id_for, journal_reversal_id_for,
}
use ledger_py.EventStore.Events.{of_account, of_journal}
use ledger_py.Saga.Messages.{TransferInput}
use ledger_py.Saga.Applied.{applies}
use ledger_py.Saga.Clean.{wanted, entry_event, reversal_event, AllProper, account-IsProper, op}

module _ (uuid5 : Uuid5) (d : TransferInput) where
  -- An operation of the transfer that leaves its event, or nothing when it was applied before.
  pub wanted-AllProper :
      (i : Uuid) (step : Step) (e : AccountEvent) (es : List AccountEvent)
      → wanted uuid5 d step ≡ some (of_account e)
      → ((o : Uuid) → applies o (of_account e) ≡ (o == op uuid5 d step))
      → (es ≡ []) ⊎ (es ≡ e ∷ [])
      → AllProper uuid5 d account_stream i (map of_account es)
  wanted-AllProper i step e es is_wanted only (inl nothing) =
      subst (λ xs. AllProper uuid5 d account_stream i (map of_account xs)) (sym nothing) tt
  wanted-AllProper i step e es is_wanted only (inr one) =
      subst (λ xs. AllProper uuid5 d account_stream i (map of_account xs)) (sym one)
        (
          account-IsProper uuid5 d i e (λ other h.
              let same_id : op uuid5 d other ≡ op uuid5 d step =
                ==→≡ _ _ (sym (only (op uuid5 d other)) ∙ h) in
              ap (wanted uuid5 d) (uuid5.derive_injective _ _ other step same_id).1 ∙ is_wanted),
          tt,
        )

  pub hold_pending :
      (o : Uuid) (b r : Account.Root)
      → b.pending ≡ []
      → hold d.amount o b ≡ ok r
      → (r.pending ≡ []) ⊎ (r.pending ≡ funds_held d.amount o ∷ [])
  unfolding hold
  hold_pending o b r fresh h = ground arith

  pub release_pending :
      (o : Uuid) (b r : Account.Root)
      → b.pending ≡ []
      → release_hold d.amount o b ≡ ok r
      → (r.pending ≡ []) ⊎ (r.pending ≡ hold_released d.amount o ∷ [])
  unfolding release_hold
  release_pending o b r fresh h = ground arith

  pub debit_pending :
      (o : Uuid) (b r : Account.Root)
      → b.pending ≡ []
      → Account.debit d.amount o b ≡ ok r
      → (r.pending ≡ []) ⊎ (r.pending ≡ account_debited d.amount o ∷ [])
  unfolding Account.debit
  debit_pending o b r fresh h = ground arith

  pub credit_pending :
      (o : Uuid) (b r : Account.Root)
      → b.pending ≡ []
      → Account.credit d.amount o b ≡ ok r
      → (r.pending ≡ []) ⊎ (r.pending ≡ account_credited d.amount o ∷ [])
  unfolding Account.credit
  credit_pending o b r fresh h = ground arith

  pub post_pending :
      (id : Uuid) (legs : List Leg) (reference : Option Message) (r : Entry.Root)
      → post id legs reference ≡ ok r
      → r.pending ≡ journal_entry_posted legs reference ∷ []
  unfolding post
  post_pending id legs reference r h = ground (arith, h)

  pub post_entry_pending :
      (reader : Reader) (id : Uuid) (legs : List Leg) (reference : Option Message) (r : Entry.Root)
      → post_entry reader id legs reference ≡ ok r
      → r.pending ≡ journal_entry_posted legs reference ∷ []
  unfolding post_entry
  post_entry_pending reader id legs reference r h =
      post_pending id legs reference r (ground (arith, h))

  ids_differ :
      journal_entry_id_for uuid5 d.transfer_id ≡ journal_reversal_id_for uuid5 d.transfer_id → ⊥
  ids_differ h = ground (arith, uuid5.derive_injective _ _ journal_step reversal_step h)

  pub entry-AllProper :
      (es : List JournalEvent)
      → es ≡ entry_event uuid5 d ∷ []
      → AllProper uuid5 d journal_stream
          (journal_entry_id_for uuid5 d.transfer_id)
          (map of_journal es)
  entry-AllProper es h =
      subst
        (λ xs.
          AllProper uuid5 d journal_stream (journal_entry_id_for uuid5 d.transfer_id)
            (map of_journal xs))
        (sym h)
        (
          record {
            operations = λ x step same k. ground (arith, same, k);
            entry = λ k. refl;
            reversal = λ k. absurd (ids_differ (==→≡ _ _ k));
          },
          tt,
        )

  pub reversal-AllProper :
      (es : List JournalEvent)
      → es ≡ reversal_event uuid5 d ∷ []
      → AllProper uuid5 d journal_stream
          (journal_reversal_id_for uuid5 d.transfer_id)
          (map of_journal es)
  reversal-AllProper es h =
      subst
        (λ xs.
          AllProper uuid5 d journal_stream (journal_reversal_id_for uuid5 d.transfer_id)
            (map of_journal xs))
        (sym h)
        (
          record {
            operations = λ x step same k. ground (arith, same, k);
            entry = λ k. absurd (ids_differ (sym (==→≡ _ _ k)));
            reversal = λ k. refl;
          },
          tt,
        )
