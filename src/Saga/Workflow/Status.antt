-- ===== src/Saga/Workflow/Status.antt =====
-- The status that a run returns, and the one that a query shows. It depends on nothing that the
-- activities do: they are any function here.
use mathlib.Core.Path.{subst}
use ledger_py.Base.{ℕ, false, ◌≡◌, refl, ◌⊎◌, inl, inr, Option, none, some, List, [], ◌∷◌, ap}
use ledger_py.Shared.Errors.{Uuid, wrapped}
use ledger_py.Transfers.Events.{status_value, completed, failed, reconciled}
use ledger_py.Saga.Messages.{
  ReconciliationResolution, retry_credit, refund_source, TransferInput, RefundInput, TransferResult,
}
use ledger_py.Saga.Activities.Retried.{
  Activity, records_initiated, holds_funds, posts_journal, settles_debit, settles_credit,
  refunds_source, releases_hold, reverses_journal, fails_transfer, parks_transfer,
}
use ledger_py.Saga.Flow.{
  Cause, Outcome, reported, raised, Flow, Flow-cases, pure, >>=-ends, catch-ends,
}
use ledger_py.Saga.Reasons.{reason_from}
use ledger_py.Saga.Workflow.{
  Answer, Situation, RunStatus, waiting, returned, step, step_if, decide, park_loop,
  await_resolution, settle, forward, compensate, run, current_status,
}

module _ {W : Type 0} (execute : ℕ → (a : Activity) → W → Outcome (Answer a) × W)
    (d : TransferInput) where
  -- A returned status is one of three, and the workflow has it.
  abbrev Shown : Outcome RunStatus × Situation W → Type 0
  Shown (raised c, s) = Unit {0}
  Shown (reported waiting, s) = Unit {0}
  Shown (reported (returned r), s) =
      ((r.status ≡ completed) ⊎ ((r.status ≡ reconciled) ⊎ (r.status ≡ failed)))
      × (s.workflow.status ≡ r.status)

  abbrev Decided : Outcome (Option RunStatus) × Situation W → Type 0
  Decided (reported (some p), s) = Shown (reported p, s)
  Decided (reported none, s) = Unit {0}
  Decided (raised c, s) = Unit {0}

  decide-Shown :
      (x : ReconciliationResolution) (id : Uuid) (s : Situation W)
      → Decided (decide execute x d id s)
  decide-Shown retry_credit id s = elim (Flow-cases (step execute 3 (settles_credit d) s)) [
    | inl (done, u, e) ↦ rw e (inl refl, refl)
    | inr (c, u, e) ↦ rw e tt
  ]
  decide-Shown refund_source id s =
      let refund : RefundInput = record {
        transfer_id = d.transfer_id;
        source_account_id = d.source_account_id;
        amount = d.amount;
      } in
      elim (Flow-cases (step execute 5 (refunds_source refund) s)) [
        | inl (done, u, e) ↦ rw e (inr (inl refl), refl)
        | inr (c, u, e) ↦ rw e tt
      ]

  resumed-Shown :
      (rest : Flow (Situation W) RunStatus) (outcome : Option RunStatus) (u : Situation W)
      → Shown (rest u)
      → Decided (reported outcome, u)
      → Shown (
          (elim outcome as (λ _. Flow (Situation W) RunStatus) [
            | some progress ↦ pure progress
            | none ↦ rest
          ])
            u)
  resumed-Shown rest none u later ended = later
  resumed-Shown rest (some p) u later ended = ended

  park_loop-Shown :
      (xs : List ReconciliationResolution) (id : Uuid) (s : Situation W)
      → Shown (park_loop execute xs d id s)
  unfolding park_loop
  park_loop-Shown [] id s = tt
  park_loop-Shown (x ∷ xs) id s =
      let taken : Situation W = record s { workflow = record s.workflow { resolution = none } } in
      >>=-ends Shown (decide execute x d id) _ taken
        (λ outcome u e.
          resumed-Shown (park_loop execute xs d id) outcome u (park_loop-Shown xs id u)
            (subst Decided e (decide-Shown x id taken)))
        (λ c u e. tt)

  settle-Shown :
      (xs : List ReconciliationResolution) (id : Uuid) (s : Situation W)
      → Shown (settle execute xs d id s)
  unfolding settle await_resolution
  settle-Shown xs id s = elim (Flow-cases (step execute 3 (settles_credit d) s)) [
    | inl (done, u, e) ↦ rw e (inl refl, refl)
    | inr (c, u, e) ↦
        let park = parks_transfer (record {
          transfer_id = d.transfer_id;
          detail = wrapped "credit failed after debit: {}" (reason_from c).1;
        }) in
        rw e (
          >>=-ends Shown (step execute 5 park) _ u (λ _ v e'. park_loop-Shown xs id _)
            (λ c' v e'. tt))
  ]

  forward-Shown :
      (xs : List ReconciliationResolution) (s : Situation W) → Shown (forward execute xs d s)
  unfolding forward
  forward-Shown xs s =
      >>=-ends Shown (step execute 5 (holds_funds d)) _ s
        (λ _ u e.
          >>=-ends Shown (step execute 5 (posts_journal d)) _ _
            (λ id v e'.
              >>=-ends Shown (step execute 5 (settles_debit d)) _ _
                (λ _ w e''. settle-Shown xs id _) (λ c w e''. tt))
            (λ c v e'. tt))
        (λ c u e. tt)

  compensate-Shown : (c : Cause) (s : Situation W) → Shown (compensate execute d c s)
  unfolding compensate
  compensate-Shown c s =
      let fail = fails_transfer (record {
        transfer_id = d.transfer_id;
        reason = (reason_from c).0;
        detail = some (reason_from c).1;
      }) in
      >>=-ends Shown (step_if execute s.holding 5 (releases_hold d)) _ s
        (λ _ u e.
          >>=-ends Shown (step_if execute s.posted 5 (reverses_journal d)) _ u
            (λ _ v e'.
              >>=-ends Shown (step execute 5 fail) _ v (λ _ w e''. (inr (inr refl), refl))
                (λ c' w e''. tt))
            (λ c' v e'. tt))
        (λ c' u e. tt)

  run-Shown : (xs : List ReconciliationResolution) (s : Situation W) → Shown (run execute xs d s)
  unfolding run
  run-Shown xs s =
      >>=-ends Shown (step execute 5 (records_initiated d)) _ s
        (λ _ u e.
          let start : Situation W = record u { holding = false; posted = false } in
          catch-ends Shown (forward execute xs d) (compensate execute d) start
            (λ p v e'. subst Shown e' (forward-Shown xs start)) (λ c v e'. compensate-Shown c v))
        (λ c u e. tt)

  -- Whatever the activities do, a run that returns, returns the status completed, reconciled or
  -- failed, and a query of the workflow shows the same status.
  pub run-status :
      (xs : List ReconciliationResolution) (s s' : Situation W) (r : TransferResult)
      → run execute xs d s ≡ (reported (returned r), s')
      → ((r.status ≡ completed) ⊎ ((r.status ≡ reconciled) ⊎ (r.status ≡ failed)))
        × (current_status s'.workflow ≡ status_value r.status)
  unfolding current_status
  run-status xs s s' r e =
      let (known, shown) = subst Shown e (run-Shown xs s) in (known, ap status_value shown)
