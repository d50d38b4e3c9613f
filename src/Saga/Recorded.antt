-- ===== src/Saga/Recorded.antt =====
-- The journal entries that the activities which post and reverse have put into the log.
use mathlib.Core.Path.{subst}
use ledger_py.Base.{◌≡◌, true, inl, inr, none, some, [], ◌∷◌, ◌∙◌, ap, arith, map, Option-cases}
use ledger_py.Shared.Errors.{Uuid, formatted, uuid_value}
use ledger_py.Shared.Result.{ok, Result-cases}
use ledger_py.Journal.Entry
use ledger_py.Journal.Entry.{post}
use ledger_py.Transfers.Operations.{Uuid5, journal_entry_id_for, journal_reversal_id_for}
use ledger_py.EventStore.Events.{Host}
use ledger_py.EventStore.Memory.{Store}
use ledger_py.EventStore.Repository.{load, journals}
use ledger_py.Saga.Messages.{TransferInput}
use ledger_py.Saga.Activities.{meta, post_journal, reverse_journal, reversed_leg}
use ledger_py.Saga.Activities.Blocks.{IsStore}
use ledger_py.Saga.Activities.Creates.{create-IsPresent, post-IsCreated}
use ledger_py.Saga.Activities.Postings.{post_new-HasEntry, post_journal_parts, journals-Matches}
use ledger_py.Saga.Activities.Steady.{Grows, milestone-Steady}
use ledger_py.Saga.Applied.{recorded, recorded-Grows, recorded-load, recorded-absent}

module _ {P : Type 0} (host : Host P) (uuid5 : Uuid5) where
  pub post_journal-recorded :
      (d : TransferInput) (entry_id : Uuid) (s s' : Store P)
      → IsStore host s
      → post_journal host uuid5 d s ≡ (ok entry_id, s')
      → (entry_id ≡ journal_entry_id_for uuid5 d.transfer_id)
        × (recorded (journal_entry_id_for uuid5 d.transfer_id) s' ≡ true)
  post_journal-recorded d entry_id s s' h done =
      let id = journal_entry_id_for uuid5 d.transfer_id in
      let (same, found, s₁, is_found, first, last) =
        post_journal_parts host uuid5 d entry_id s s' done in
      let x = post_new-HasEntry host d id found s s₁ h is_found first in
      (
        same,
        recorded-Grows id s₁ s'
            (subst (λ p. Grows s₁ p.1) last
              (milestone-Steady host d.transfer_id _ _ _ s₁ x.store).1)
            (recorded-load host id x.entry s₁ x.is_found),
      )

  reversal_present :
      (d : TransferInput) (entry : Entry.Root) (s s' : Store P)
      → load host journals (journal_reversal_id_for uuid5 d.transfer_id) s ≡ ok (some entry)
      → reverse_journal host uuid5 d s ≡ (ok tt, s')
      → recorded (journal_reversal_id_for uuid5 d.transfer_id) s' ≡ true
  unfolding reverse_journal
  reversal_present d entry s s' found done =
      let same : s ≡ s' = ground (arith, found, done) in
      subst (λ x. recorded (journal_reversal_id_for uuid5 d.transfer_id) x ≡ true) same
        (recorded-load host (journal_reversal_id_for uuid5 d.transfer_id) entry s found)

  reversal_new :
      (d : TransferInput) (original : Entry.Root) (s s' : Store P)
      → IsStore host s
      → load host journals (journal_reversal_id_for uuid5 d.transfer_id) s ≡ ok none
      → load host journals (journal_entry_id_for uuid5 d.transfer_id) s ≡ ok (some original)
      → reverse_journal host uuid5 d s ≡ (ok tt, s')
      → recorded (journal_reversal_id_for uuid5 d.transfer_id) s' ≡ true
  unfolding reverse_journal
  reversal_new d original s s' h absent found done =
      let id = journal_reversal_id_for uuid5 d.transfer_id in
      let legs = map reversed_leg original.state.legs in
      let reference = some (formatted "reversal of {}" (uuid_value d.transfer_id ∷ [])) in
      let x =
        create-IsPresent journals host journals-Matches id (meta d.transfer_id d.traceparent) []
          (post id legs reference) s s' h absent (post-IsCreated id legs reference)
          (ground (arith, absent, found, done)) in
      recorded-load host id x.found s' x.is_found

  pub reverse_journal-recorded :
      (d : TransferInput) (s s' : Store P)
      → IsStore host s
      → recorded (journal_entry_id_for uuid5 d.transfer_id) s ≡ true
      → reverse_journal host uuid5 d s ≡ (ok tt, s')
      → recorded (journal_reversal_id_for uuid5 d.transfer_id) s' ≡ true
  unfolding reverse_journal
  reverse_journal-recorded d s s' h there done =
      let entry_id = journal_entry_id_for uuid5 d.transfer_id in
      let id = journal_reversal_id_for uuid5 d.transfer_id in
      elim (Result-cases (load host journals id s)) [
        | inr (e, failed) ↦ absurd (ground (arith, failed, done))
        | inl (found, is_found) ↦ elim (Option-cases found) [
          | inr (entry, present) ↦ reversal_present d entry s s' (is_found ∙ ap ok present) done
          | inl absent ↦
              let none_yet = is_found ∙ ap ok absent in
              elim (Result-cases (load host journals entry_id s)) [
                | inr (e, failed) ↦ absurd (ground (arith, none_yet, failed, done))
                | inl (o, is_o) ↦ elim (Option-cases o) [
                  | inl missing ↦
                      absurd (recorded-absent host entry_id s there (is_o ∙ ap ok missing))
                  | inr (original, present) ↦
                      reversal_new d original s s' h none_yet (is_o ∙ ap ok present) done
                ]
              ]
        ]
      ]
