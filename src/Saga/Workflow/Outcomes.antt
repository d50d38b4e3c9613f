-- ===== src/Saga/Workflow/Outcomes.antt =====
-- What a run of the workflow promises by its result.
use mathlib.Core.Path.{subst}
use ledger_py.Base.{◌≡◌, refl, true, false, ◌⊎◌, inl, inr, some, List, arith}
use ledger_py.Transfers.Events.{completed, failed, reconciled, needs_reconciliation}
use ledger_py.Transfers.Operations.{Uuid5, journal_entry_id_for}
use ledger_py.EventStore.Events.{Host}
use ledger_py.Saga.Messages.{ReconciliationResolution, TransferInput, TransferResult}
use ledger_py.Saga.Activities.Blocks.{IsStore}
use ledger_py.Saga.Activities.Retried.{records_initiated}
use ledger_py.Saga.Flow.{Outcome, reported, raised, >>=-ends, catch-ends}
use ledger_py.Saga.Workflow.{
  Situation, RunStatus, waiting, returned, step, forward, compensate, run,
}
use ledger_py.Saga.Workflow.Attempts.{Temporal}
use ledger_py.Saga.Clean.{IsClean}
use ledger_py.Saga.Workflow.Own.{own_initiate}
use ledger_py.Saga.Workflow.Sound.{store, step-Onward, step-IsClean}
use ledger_py.Saga.Workflow.Promises.{
  HasPosting, HasDebit, HasCredit, HasRefund, HasReversal, log-HasPosting, log-HasDebit,
  log-HasCredit, log-HasRefund, log-HasReversal,
}
use ledger_py.Saga.Workflow.Ends.{Sound, Parkable, Answered, Ended}
use ledger_py.Saga.Workflow.Forward.{Tried, forward_lem}
use ledger_py.Saga.Workflow.Compensation.{Failed, Compensated, compensate_lem}

module _ {P W : Type 0} (host : Host P) (uuid5 : Uuid5) (d : TransferInput)
    (t : Temporal host uuid5 W d) where
  -- How a run ends.
  abbrev Done : Outcome RunStatus × Situation W → Type 0
  Done (raised c, s) = Unit {0}
  Done (reported waiting, s) = Ended host uuid5 d t (reported waiting, s)
  Done (reported (returned r), s) =
      (Parkable host uuid5 d t s × Answered host uuid5 d t r s) ⊎ Failed host uuid5 d t r s

  Compensated-Done : (p : Outcome RunStatus × Situation W) → Compensated host uuid5 d t p → Done p
  Compensated-Done (raised c, s) h = tt
  Compensated-Done (reported waiting, s) h = absurd h
  Compensated-Done (reported (returned r), s) h = inr h

  Tried-Done :
      (p : RunStatus) (s : Situation W)
      → Tried host uuid5 d t (reported p, s)
      → Done (reported p, s)
  Tried-Done waiting s h = h
  Tried-Done (returned r) s h = inl h

  run_lem :
      (xs : List ReconciliationResolution) (s : Situation W)
      → IsStore host (store host uuid5 d t s)
      → IsClean uuid5 d host (store host uuid5 d t s)
      → Done (run t.execute xs d s)
  unfolding run
  run_lem xs s h clean =
      let begin = records_initiated d in
      >>=-ends Done (step t.execute 5 begin) _ s
        (λ _ u e.
          let start : Situation W = record u { holding = false; posted = false } in
          let kept =
            subst (λ p. IsStore host (store host uuid5 d t p.1)) e
              (step-Onward host uuid5 d t 4 begin s h).0 in
          let still_clean =
            subst (λ p. IsClean uuid5 d host (store host uuid5 d t p.1)) e
              (step-IsClean host uuid5 d t 4 begin s (own_initiate host uuid5 d) h clean) in
          let sound : Sound host uuid5 d t start = record {
            kept = kept;
            clean = still_clean;
            held = λ x. ground arith;
            booked = λ x. ground arith;
            debited = λ x y. ground arith;
          } in
          let tried = forward_lem host uuid5 d t xs start sound refl in
          catch-ends Done (forward t.execute xs d) (compensate t.execute d) start
            (λ p v e'. Tried-Done p v (subst (Tried host uuid5 d t) e' tried))
            (λ c v e'.
              Compensated-Done _
                (compensate_lem host uuid5 d t c v (subst (Tried host uuid5 d t) e' tried))))
        (λ c u e. tt)

  module _ (xs : List ReconciliationResolution) (s s' : Situation W)
      (h : IsStore host (store host uuid5 d t s))
      (clean : IsClean uuid5 d host (store host uuid5 d t s)) where
    ended_as : (p : RunStatus) → run t.execute xs d s ≡ (reported p, s') → Done (reported p, s')
    ended_as p e = subst Done e (run_lem xs s h clean)

    -- From a well-formed store that uses the transfer's ids for nothing else, where nobody else
    -- does so either, whatever is lost of the attempts, a run that returns a completed transfer
    -- leaves a log in which the entry is posted with the amount from the source to the destination,
    -- the amount is debited from the source, and credited to the destination.
    pub run-completed :
        (r : TransferResult)
        → run t.execute xs d s ≡ (reported (returned r), s')
        → r.status ≡ completed
        → let log = store host uuid5 d t s' in
          HasPosting host uuid5 d log
          × HasDebit host uuid5 d log
          × HasCredit host uuid5 d log
          × (r.journal_entry_id ≡ some (journal_entry_id_for uuid5 d.transfer_id))
    run-completed r e done = elim (ended_as (returned r) e) [
      | inr failure ↦ ground (arith, failure)
      | inl ((sound, still, holding), (inl (_, paid), entry, status)) ↦ (
        log-HasPosting host uuid5 d t s' sound (sound.booked still),
        log-HasDebit host uuid5 d t s' sound (sound.debited still holding),
        log-HasCredit host uuid5 d t s' sound paid,
        entry,
      )
      | inl ((sound, still, holding), (inr (back, paid), entry, status)) ↦ ground (arith, back)
    ]

    -- From a well-formed store that uses the transfer's ids for nothing else, where nobody else
    -- does so either, whatever is lost of the attempts, a run that returns a reconciled transfer
    -- leaves a log in which the entry is posted with the amount from the source to the destination,
    -- and the amount is debited from the source and credited back to it.
    pub run-reconciled :
        (r : TransferResult)
        → run t.execute xs d s ≡ (reported (returned r), s')
        → r.status ≡ reconciled
        → let log = store host uuid5 d t s' in
          HasPosting host uuid5 d log
          × HasDebit host uuid5 d log
          × HasRefund host uuid5 d log
          × (r.journal_entry_id ≡ some (journal_entry_id_for uuid5 d.transfer_id))
    run-reconciled r e done = elim (ended_as (returned r) e) [
      | inr failure ↦ ground (arith, failure)
      | inl ((sound, still, holding), (inr (_, paid), entry, status)) ↦ (
        log-HasPosting host uuid5 d t s' sound (sound.booked still),
        log-HasDebit host uuid5 d t s' sound (sound.debited still holding),
        log-HasRefund host uuid5 d t s' sound paid,
        entry,
      )
      | inl ((sound, still, holding), (inl (there, paid), entry, status)) ↦ ground (arith, there)
    ]

    -- From a well-formed store that uses the transfer's ids for nothing else, where nobody else
    -- does so either, whatever is lost of the attempts, a run that returns failed after the posting
    -- was reported and with no hold left leaves a log in which the amount is debited from the
    -- source, and the entry is reversed with the amount from the destination to the source.
    pub run-failed_debited :
        (r : TransferResult)
        → run t.execute xs d s ≡ (reported (returned r), s')
        → r.status ≡ failed
        → s'.posted ≡ true
        → s'.holding ≡ false
        → let log = store host uuid5 d t s' in
          HasDebit host uuid5 d log × HasReversal host uuid5 d log
    run-failed_debited r e failure still released = elim (ended_as (returned r) e) [
      | inr (sound, undone, status, shown, reason) ↦ (
        log-HasDebit host uuid5 d t s' sound (sound.debited still released),
        log-HasReversal host uuid5 d t s' sound (undone.1 still),
      )
      | inl ((sound, still', holding), (inl (there, paid), entry, status)) ↦ ground (arith, there)
      | inl ((sound, still', holding), (inr (back, paid), entry, status)) ↦ ground (arith, back)
    ]

    -- From a well-formed store that uses the transfer's ids for nothing else, where nobody else
    -- does so either, whatever is lost of the attempts, a run that has not returned is parked: its
    -- status is needs_reconciliation, the entry is posted with the amount from the source to the
    -- destination, and the amount is debited from the source.
    pub run-waiting :
        run t.execute xs d s ≡ (reported waiting, s')
        → let log = store host uuid5 d t s' in
          (s'.workflow.status ≡ needs_reconciliation)
          × HasPosting host uuid5 d log
          × HasDebit host uuid5 d log
    run-waiting e =
        let ((sound, still, holding), status) = ended_as waiting e in
        (
          status,
          log-HasPosting host uuid5 d t s' sound (sound.booked still),
          log-HasDebit host uuid5 d t s' sound (sound.debited still holding),
        )
