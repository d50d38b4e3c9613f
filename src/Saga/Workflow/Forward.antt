-- ===== src/Saga/Workflow/Forward.antt =====
-- The `try` block of the workflow, from its start.
use ledger_py.Base.{◌≡◌, refl, true, false, List, arith, ◌∙◌}
use ledger_py.Transfers.Events.{TransferStatus}
use ledger_py.Transfers.Operations.{Uuid5, journal_entry_id_for}
use ledger_py.EventStore.Events.{Host}
use ledger_py.Saga.Messages.{ReconciliationResolution, TransferInput}
use ledger_py.Saga.Activities.Retried.{holds_funds, posts_journal, settles_debit}
use ledger_py.Saga.Flow.{Outcome, reported, raised, ◌>>=◌, ◌>>◌, update, >>=-ends}
use ledger_py.Saga.Workflow.{
  Situation, RunStatus, waiting, returned, step, set_status, settle, forward,
}
use ledger_py.Saga.Workflow.Attempts.{Temporal}
use ledger_py.Saga.Workflow.Own.{own_debit, own_posting, own_hold}
use ledger_py.Saga.Workflow.Sound.{
  store, is_held, step-IsSound, step-held, step-booked, step-debited,
}
use ledger_py.Saga.Workflow.Ends.{Sound, Ended, settle_lem}

module _ {P W : Type 0} (host : Host P) (uuid5 : Uuid5) (d : TransferInput)
    (t : Temporal host uuid5 W d) where
  -- However the `try` block ends, its variables tell the truth; a result is one of the two above.
  abbrev pub Tried : Outcome RunStatus × Situation W → Type 0
  Tried (raised c, s) = Sound host uuid5 d t s
  Tried p = Ended host uuid5 d t p

  Ended-Tried : (p : Outcome RunStatus × Situation W) → Ended host uuid5 d t p → Tried p
  Ended-Tried (raised c, s) h = h.0
  Ended-Tried (reported waiting, s) h = h
  Ended-Tried (reported (returned r), s) h = h

  debited_lem :
      (xs : List ReconciliationResolution) (s : Situation W)
      → Sound host uuid5 d t s
      → s.posted ≡ true
      → is_held host uuid5 d t (store host uuid5 d t s) ≡ true
      → Tried (
          (do
            step t.execute 5 (settles_debit d)
            update (λ s'. record s' { holding = false })
            settle t.execute xs d (journal_entry_id_for uuid5 d.transfer_id))
            s)
  debited_lem xs s h booked there =
      >>=-ends Tried (step t.execute 5 (settles_debit d)) _ s
        (λ _ u e.
          let (sound, grows, holding, still, workflow) =
            step-IsSound host uuid5 d t 4 (settles_debit d) s u (reported tt)
              (own_debit host uuid5 d) h e in
          Ended-Tried _ (
            settle_lem host uuid5 d t xs (record u { holding = false })
              (
                record {
                  kept = sound.kept;
                  clean = sound.clean;
                  held = λ x. ground arith;
                  booked = sound.booked;
                  debited = λ x y. step-debited host uuid5 d t 4 s u h.kept e;
                },
                still ∙ booked,
                refl,
              )))
        (λ c u e.
          (step-IsSound host uuid5 d t 4 (settles_debit d) s u (raised c) (own_debit host uuid5 d) h
            e).0)

  posted_lem :
      (xs : List ReconciliationResolution) (s : Situation W)
      → Sound host uuid5 d t s
      → s.holding ≡ true
      → Tried (
          (do
            entry_id ← step t.execute 5 (posts_journal d)
            update (λ s'. record (set_status t.execute TransferStatus.posted s') { posted = true })
            step t.execute 5 (settles_debit d)
            update (λ s'. record s' { holding = false })
            settle t.execute xs d entry_id)
            s)
  posted_lem xs s h holding =
      >>=-ends Tried (step t.execute 5 (posts_journal d)) _ s
        (λ entry_id u e.
          let (sound, grows, still, same, workflow) =
            step-IsSound host uuid5 d t 4 (posts_journal d) s u (reported entry_id)
              (own_posting host uuid5 d) h e in
          let (is_id, booked) = step-booked host uuid5 d t 4 s u h.kept entry_id e in
          rw is_id (
            debited_lem xs (record (set_status t.execute TransferStatus.posted u) { posted = true })
              (record {
                kept = sound.kept;
                clean = sound.clean;
                held = sound.held;
                booked = λ x. booked;
                debited = λ x y. ground (arith, still, holding);
              })
              refl (sound.held (still ∙ holding))))
        (λ c u e.
          (step-IsSound host uuid5 d t 4 (posts_journal d) s u (raised c) (own_posting host uuid5 d)
            h e).0)

  pub forward_lem :
      (xs : List ReconciliationResolution) (s : Situation W)
      → Sound host uuid5 d t s
      → s.posted ≡ false
      → Tried (forward t.execute xs d s)
  unfolding forward
  forward_lem xs s h fresh =
      >>=-ends Tried (step t.execute 5 (holds_funds d)) _ s
        (λ _ u e.
          let (sound, grows, still, same, workflow) =
            step-IsSound host uuid5 d t 4 (holds_funds d) s u (reported tt) (own_hold host uuid5 d)
              h e in
          posted_lem xs (record (set_status t.execute TransferStatus.held u) { holding = true })
            (record {
              kept = sound.kept;
              clean = sound.clean;
              held = λ x. step-held host uuid5 d t 4 s u h.kept e;
              booked = sound.booked;
              debited = λ x y. ground arith;
            })
            refl)
        (λ c u e.
          (step-IsSound host uuid5 d t 4 (holds_funds d) s u (raised c) (own_hold host uuid5 d) h
            e).0)
