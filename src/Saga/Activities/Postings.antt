-- ===== src/Saga/Activities/Postings.antt =====
-- The activities that post journal entries, done twice.
use ledger_py.Base.{◌≡◌, refl, inl, inr, Option, some, none, List, [], ◌∷◌, ◌∙◌, sym, ap, arith}
use ledger_py.Shared.Errors.{
  uuid_value, unbalanced_entry, Uuid, Message, formatted, account_not_active, currency_mismatch,
  unknown_account,
}
use ledger_py.Shared.Result.{ok}
use ledger_py.Shared.Exec.{Exec-cases, Exec}
use ledger_py.Accounts.Account.Commands.{run}
use ledger_py.Transfers.Events.{held, same_status}
use ledger_py.Transfers.Operations.{Uuid5}
use ledger_py.Transfers.Transfer.{mark_posted}
use ledger_py.Transfers.Transfer.Steps
use ledger_py.Transfers.Transfer.Steps.{
  marks_held, marks_posted, completes, fails, parks, reconciles,
}
use ledger_py.EventStore.Events.{Host}
use ledger_py.EventStore.Memory.{Store}
use ledger_py.EventStore.Repository.{load}
use ledger_py.Saga.Messages.{TransferInput}
use ledger_py.Saga.Activities.{milestone, meta}
use ledger_py.Saga.Activities.Blocks.{IsStore}
use ledger_py.Saga.Activities.Milestones.{milestone-IsSettled}
use ledger_py.Base.{Option-cases}
use ledger_py.EventStore.Repository.{journals}
use ledger_py.EventStore.Repository.Rehydrate.{Matches}
use ledger_py.Journal.Entry
use ledger_py.Journal.Entry.{post}
use ledger_py.Journal.Leg
use ledger_py.Journal.Leg.{Leg}
use ledger_py.Saga.Activities.{post_journal, reverse_journal}
use ledger_py.Saga.Activities.Repeat.{post-IsMilestone}
use mathlib.Core.Path.{subst}
use ledger_py.Shared.Result.{Result-cases}
use ledger_py.Journal.Posting.{Reader, post_entry}
use ledger_py.Base.{map}
use ledger_py.Transfers.Operations.{journal_entry_id_for, journal_reversal_id_for}
use ledger_py.Saga.Activities.{post_new, reversed_leg, status_reader}
use ledger_py.Saga.Activities.Creates.{IsCreated, create-IsPresent, post-IsCreated}

post_entry-IsCreated :
    (reader : Reader) (id : Uuid) (legs : List Leg) (reference : Option Message) (r : Entry.Root)
    → post_entry reader id legs reference ≡ ok r
    → IsCreated journals r
unfolding post_entry
post_entry-IsCreated reader id legs reference r h =
    post-IsCreated id legs reference r (ground (arith, h))

pub journals-Matches : Matches journals
journals-Matches e = refl

module _ {P : Type 0} (host : Host P) where
  -- The entry is there, and the store is well formed.
  pub record HasEntry (id : Uuid) (s : Store P) : Type 0 where
    pub store : IsStore host s
    pub entry : Entry.Root
    pub is_found : load host journals id s ≡ ok (some entry)

  pub post_new-HasEntry :
      (d : TransferInput) (id : Uuid) (found : Option Entry.Root) (s s' : Store P)
      → IsStore host s
      → load host journals id s ≡ ok found
      → post_new host d id found s ≡ (ok tt, s')
      → HasEntry id s'
  post_new-HasEntry d id (some entry) s s' h found run =
      subst (λ x. HasEntry id x) (ap (λ p. p.1) run)
        (record { store = h; entry = entry; is_found = found })
  post_new-HasEntry d id none s s' h found run =
      let legs =
        Leg.debit d.source_account_id d.amount
        ∷ Leg.credit d.destination_account_id d.amount
        ∷ [] in
      let reference = some (formatted "{}" (uuid_value d.transfer_id ∷ [])) in
      let x =
        create-IsPresent journals host journals-Matches id (meta d.transfer_id d.traceparent)
          (unknown_account ∷ account_not_active ∷ currency_mismatch ∷ unbalanced_entry ∷ [])
          (post_entry (status_reader host s) id legs reference) s s' h found
          (post_entry-IsCreated (status_reader host s) id legs reference) run in
      record { store = x.store; entry = x.found; is_found = x.is_found }

module _ {P : Type 0} (host : Host P) (uuid5 : Uuid5) where
  pub post_journal_parts :
      (d : TransferInput) (entry_id : Uuid) (s s' : Store P)
      → post_journal host uuid5 d s ≡ (ok entry_id, s')
      → let id = journal_entry_id_for uuid5 d.transfer_id in
        (entry_id ≡ id)
        × (found : Option Entry.Root) × (s₁ : Store P) × (load host journals id s ≡ ok found)
        × (post_new host d id found s ≡ (ok tt, s₁))
        × (milestone host d.transfer_id
              (meta d.transfer_id d.traceparent)
              (λ x. same_status x held)
              (Steps.run (marks_posted id))
              s₁
            ≡ (ok tt, s'))
  unfolding post_journal Steps.run
  post_journal_parts d entry_id s s' run =
      let id = journal_entry_id_for uuid5 d.transfer_id in
      elim (Result-cases (load host journals id s)) [
        | inr (e, failed) ↦ absurd (ground (arith, failed, run))
        | inl (found, is_found) ↦ elim (Exec-cases (post_new host d id found s)) [
          | inr (e, s₁, failed) ↦ absurd (ground (arith, is_found, failed, run))
          | inl (tt, s₁, done) ↦
              elim (Exec-cases (
                milestone host d.transfer_id (meta d.transfer_id d.traceparent)
                  (λ x. same_status x held) (mark_posted id) s₁)) [
                    | inr (e, s₂, failed) ↦ absurd (ground (arith, is_found, done, failed, run))
                    | inl (tt, s₂, last) ↦ (
                      ground (arith, is_found, done, last, run),
                      found,
                      s₁,
                      is_found,
                      done,
                      ground (arith, is_found, done, last, run),
                    )
                  ]
        ]
      ]

  post_journal_found :
      (d : TransferInput) (entry : Entry.Root) (s : Store P)
      → load host journals (journal_entry_id_for uuid5 d.transfer_id) s ≡ ok (some entry)
      → milestone host d.transfer_id
          (meta d.transfer_id d.traceparent)
          (λ x. same_status x held)
          (Steps.run (marks_posted (journal_entry_id_for uuid5 d.transfer_id)))
          s
        ≡ (ok tt, s)
      → post_journal host uuid5 d s ≡ (ok (journal_entry_id_for uuid5 d.transfer_id), s)
  unfolding post_journal Steps.run
  post_journal_found d entry s found last = ground (arith, found, last)

  pub post_journal_again :
      (d : TransferInput) (entry_id : Uuid) (s s' : Store P)
      → IsStore host s
      → post_journal host uuid5 d s ≡ (ok entry_id, s')
      → post_journal host uuid5 d s' ≡ (ok entry_id, s')
  post_journal_again d entry_id s s' h done =
      let id = journal_entry_id_for uuid5 d.transfer_id in
      let (same, found, s₁, is_found, first, last) = post_journal_parts d entry_id s s' done in
      let x = post_new-HasEntry host d id found s s₁ h is_found first in
      let y =
        milestone-IsSettled host d.transfer_id (meta d.transfer_id d.traceparent)
          (λ x. same_status x held) (Steps.run (marks_posted id)) (post-IsMilestone host id) s₁ s'
          x.store last in
      rw same (post_journal_found d x.entry s' (y.journals_kept id ∙ x.is_found) y.again)

  reverse_journal_found :
      (d : TransferInput) (entry : Entry.Root) (s : Store P)
      → load host journals (journal_reversal_id_for uuid5 d.transfer_id) s ≡ ok (some entry)
      → reverse_journal host uuid5 d s ≡ (ok tt, s)
  unfolding reverse_journal
  reverse_journal_found d entry s found = ground (arith, found)

  reverse_journal_missing :
      (d : TransferInput) (s : Store P)
      → load host journals (journal_reversal_id_for uuid5 d.transfer_id) s ≡ ok none
      → load host journals (journal_entry_id_for uuid5 d.transfer_id) s ≡ ok none
      → reverse_journal host uuid5 d s ≡ (ok tt, s)
  unfolding reverse_journal
  reverse_journal_missing d s absent missing = ground (arith, absent, missing)

  pub unchanged :
      (act : Exec (Store P) (Unit {0})) (s s' : Store P)
      → act s ≡ (ok tt, s')
      → act s ≡ (ok tt, s)
      → act s' ≡ (ok tt, s')
  unchanged act s s' done nop = subst (λ x. act x ≡ (ok tt, x)) (ap (λ p. p.1) (sym nop ∙ done)) nop

  reverse_journal_new :
      (d : TransferInput) (original : Entry.Root) (s s' : Store P)
      → IsStore host s
      → load host journals (journal_reversal_id_for uuid5 d.transfer_id) s ≡ ok none
      → load host journals (journal_entry_id_for uuid5 d.transfer_id) s ≡ ok (some original)
      → reverse_journal host uuid5 d s ≡ (ok tt, s')
      → reverse_journal host uuid5 d s' ≡ (ok tt, s')
  unfolding reverse_journal
  reverse_journal_new d original s s' h absent found done =
      let id = journal_reversal_id_for uuid5 d.transfer_id in
      let legs = map reversed_leg original.state.legs in
      let reference = some (formatted "reversal of {}" (uuid_value d.transfer_id ∷ [])) in
      let x =
        create-IsPresent journals host journals-Matches id (meta d.transfer_id d.traceparent) []
          (post id legs reference) s s' h absent (post-IsCreated id legs reference)
          (ground (arith, absent, found, done)) in
      reverse_journal_found d x.found s' x.is_found

  pub reverse_journal_again :
      (d : TransferInput) (s s' : Store P)
      → IsStore host s
      → reverse_journal host uuid5 d s ≡ (ok tt, s')
      → reverse_journal host uuid5 d s' ≡ (ok tt, s')
  unfolding reverse_journal
  reverse_journal_again d s s' h done =
      elim (Result-cases (load host journals (journal_reversal_id_for uuid5 d.transfer_id) s)) [
        | inr (e, failed) ↦ absurd (ground (arith, failed, done))
        | inl (found, is_found) ↦ elim (Option-cases found) [
          | inr (entry, there) ↦
              unchanged (reverse_journal host uuid5 d) s s' done
                (reverse_journal_found d entry s (is_found ∙ ap ok there))
          | inl absent ↦
              let none_yet = is_found ∙ ap ok absent in
              elim (Result-cases
                (load host journals (journal_entry_id_for uuid5 d.transfer_id) s)) [
                  | inr (e, failed) ↦ absurd (ground (arith, none_yet, failed, done))
                  | inl (o, is_o) ↦ elim (Option-cases o) [
                    | inl missing ↦
                        unchanged (reverse_journal host uuid5 d) s s' done
                          (reverse_journal_missing d s none_yet (is_o ∙ ap ok missing))
                    | inr (original, there) ↦
                        reverse_journal_new d original s s' h none_yet (is_o ∙ ap ok there) done
                  ]
                ]
        ]
      ]
