-- ===== src/Saga/Workflow/Ends.antt =====
-- How a run of the workflow ends, and what the event store then holds.
use mathlib.Core.Path.{subst}
use ledger_py.Base.{
  ℕ, suc, ◌≡◌, refl, true, false, ◌⊎◌, inl, inr, Option, none, some, List, [], ◌∷◌, ◌∙◌, ap,
}
use ledger_py.Shared.Errors.{Uuid, wrapped}
use ledger_py.Transfers.Events.{completed, reconciled, needs_reconciliation}
use ledger_py.Transfers.Operations.{Uuid5, journal_entry_id_for}
use ledger_py.EventStore.Events.{Host}
use ledger_py.Saga.Messages.{
  ReconciliationResolution, retry_credit, refund_source, TransferInput, RefundInput, TransferResult,
}
use ledger_py.Saga.Activities.Retried.{Activity, settles_credit, refunds_source, parks_transfer}
use ledger_py.Saga.Flow.{Outcome, reported, raised, Flow, Flow-cases, pure, >>=-ends}
use ledger_py.Saga.Reasons.{reason_from}
use ledger_py.Saga.Workflow.{
  Answer, TransferWorkflow, Situation, RunStatus, waiting, returned, step, decide, park_loop,
  await_resolution, settle,
}
use ledger_py.Saga.Workflow.Attempts.{Temporal}
use ledger_py.Saga.Workflow.Own.{KeepsClean, own_credit, own_refund, own_parking}
use ledger_py.Saga.Workflow.Sound.{
  IsSound, store, is_credited, is_refunded, step-IsSound, step-credited, step-refunded,
}

module _ {P W : Type 0} (host : Host P) (uuid5 : Uuid5) (d : TransferInput)
    (t : Temporal host uuid5 W d) where
  abbrev pub Sound : Situation W → Type 0
  Sound s = IsSound host uuid5 d t s

  -- Past the point of no return: the entry is posted and the source debited.
  abbrev pub Parkable : Situation W → Type 0
  Parkable s = Sound s × (s.posted ≡ true) × (s.holding ≡ false)

  -- A result that says that the money is with the destination, or back at the source.
  abbrev pub Paid : TransferResult → Situation W → Type 0
  Paid r s =
      ((r.status ≡ completed) × (is_credited host uuid5 d t (store host uuid5 d t s) ≡ true))
      ⊎ ((r.status ≡ reconciled) × (is_refunded host uuid5 d t (store host uuid5 d t s) ≡ true))

  abbrev pub Answered : TransferResult → Situation W → Type 0
  Answered r s =
      Paid r s
      × (r.journal_entry_id ≡ some (journal_entry_id_for uuid5 d.transfer_id))
      × (s.workflow.status ≡ r.status)

  -- How the code after the debit ends, and the `try` block.
  abbrev pub Ended : Outcome RunStatus × Situation W → Type 0
  Ended (raised c, s) = Parkable s
  Ended (reported waiting, s) = Parkable s × (s.workflow.status ≡ needs_reconciliation)
  Ended (reported (returned r), s) = Parkable s × Answered r s

  abbrev pub Parked : Outcome RunStatus × Situation W → Type 0
  Parked (raised c, s) = ⊥
  Parked p = Ended p

  abbrev Decided : Outcome (Option RunStatus) × Situation W → Type 0
  Decided (raised c, s) = ⊥
  Decided (reported none, s) = Parkable s × (s.workflow.status ≡ needs_reconciliation)
  Decided (reported (some p), s) = Parked (reported p, s)

  step-Parkable :
      (n : ℕ) (a : Activity) (s s' : Situation W) (outcome : Outcome (Answer a))
      → KeepsClean host uuid5 d a
      → Parkable s
      → step t.execute (suc n) a s ≡ (outcome, s')
      → Parkable s' × (s'.workflow ≡ s.workflow)
  step-Parkable n a s s' outcome own h e =
      let (sound, grows, holding, still, workflow) =
        step-IsSound host uuid5 d t n a s s' outcome own h.0 e in
      ((sound, still ∙ h.1, holding ∙ h.2), workflow)

  abbrev pub id : Uuid
  id = journal_entry_id_for uuid5 d.transfer_id

  abbrev pub refund : RefundInput
  refund = record {
    transfer_id = d.transfer_id;
    source_account_id = d.source_account_id;
    amount = d.amount;
  }

  -- The status alone changes nothing of this.
  set-Parkable :
      (x : TransferWorkflow) (s : Situation W) → Parkable s → Parkable (record s { workflow = x })
  set-Parkable x s h = (
    record {
      kept = h.0.kept;
      clean = h.0.clean;
      held = h.0.held;
      booked = h.0.booked;
      debited = h.0.debited;
    },
    h.1,
    h.2,
  )

  decide_lem :
      (x : ReconciliationResolution) (s : Situation W)
      → Parkable s
      → s.workflow.status ≡ needs_reconciliation
      → Decided (decide t.execute x d id s)
  decide_lem retry_credit s h status = elim (Flow-cases (step t.execute 3 (settles_credit d) s)) [
    | inl (done, u, e) ↦
        let (parkable, workflow) =
          step-Parkable 2 (settles_credit d) s u (reported tt) (own_credit host uuid5 d) h e in
        rw e (
          set-Parkable _ u parkable,
          (inl (refl, step-credited host uuid5 d t 2 s u h.0.kept e), refl, refl),
        )
    | inr (c, u, e) ↦
        let (parkable, workflow) =
          step-Parkable 2 (settles_credit d) s u (raised c) (own_credit host uuid5 d) h e in
        rw e (parkable, ap (λ w. w.status) workflow ∙ status)
  ]
  decide_lem refund_source s h status =
      elim (Flow-cases (step t.execute 5 (refunds_source refund) s)) [
        | inl (done, u, e) ↦
            let (parkable, workflow) =
              step-Parkable 4 (refunds_source refund) s u (reported tt) (own_refund host uuid5 d) h
                e in
            rw e (
              set-Parkable _ u parkable,
              (
                inr (refl, step-refunded host uuid5 d t 4 s u h.0.kept refund refl refl e),
                refl,
                refl,
              ),
            )
        | inr (c, u, e) ↦
            let (parkable, workflow) =
              step-Parkable 4 (refunds_source refund) s u (raised c) (own_refund host uuid5 d) h
                e in
            rw e (parkable, ap (λ w. w.status) workflow ∙ status)
      ]

  resumed_lem :
      (rest : Flow (Situation W) RunStatus) (outcome : Option RunStatus) (u : Situation W)
      → (Parkable u → u.workflow.status ≡ needs_reconciliation → Parked (rest u))
      → Decided (reported outcome, u)
      → Parked (
          (elim outcome as (λ _. Flow (Situation W) RunStatus) [
            | some progress ↦ pure progress
            | none ↦ rest
          ])
            u)
  resumed_lem rest none u further (parkable, still) = further parkable still
  resumed_lem rest (some p) u further ended = ended

  park_loop_lem :
      (xs : List ReconciliationResolution) (s : Situation W)
      → Parkable s
      → s.workflow.status ≡ needs_reconciliation
      → Parked (park_loop t.execute xs d id s)
  unfolding park_loop
  park_loop_lem [] s h status = (h, status)
  park_loop_lem (x ∷ xs) s h status =
      let taken : Situation W = record s { workflow = record s.workflow { resolution = none } } in
      let decided = decide_lem x taken (set-Parkable _ s h) status in
      >>=-ends Parked (decide t.execute x d id) _ taken
        (λ outcome u e.
          resumed_lem (park_loop t.execute xs d id) outcome u (λ p q. park_loop_lem xs u p q)
            (subst Decided e decided))
        (λ c u e. subst Decided e decided)

  Parked-Ended : (p : Outcome RunStatus × Situation W) → Parked p → Ended p
  Parked-Ended (raised c, s) h = absurd h
  Parked-Ended (reported waiting, s) h = h
  Parked-Ended (reported (returned r), s) h = h

  pub settle_lem :
      (xs : List ReconciliationResolution) (s : Situation W)
      → Parkable s
      → Ended (settle t.execute xs d id s)
  unfolding settle await_resolution
  settle_lem xs s h = elim (Flow-cases (step t.execute 3 (settles_credit d) s)) [
    | inl (done, u, e) ↦
        let (parkable, workflow) =
          step-Parkable 2 (settles_credit d) s u (reported tt) (own_credit host uuid5 d) h e in
        rw e (
          set-Parkable _ u parkable,
          (inl (refl, step-credited host uuid5 d t 2 s u h.0.kept e), refl, refl),
        )
    | inr (c, u, e) ↦
        let (parkable, workflow) =
          step-Parkable 2 (settles_credit d) s u (raised c) (own_credit host uuid5 d) h e in
        let park = parks_transfer (record {
          transfer_id = d.transfer_id;
          detail = wrapped "credit failed after debit: {}" (reason_from c).1;
        }) in
        rw e (
          >>=-ends Ended (step t.execute 5 park) _ u
            (λ _ v e'.
              let (parked, same) =
                step-Parkable 4 park u v (reported tt) (own_parking host uuid5 d _) parkable e' in
              Parked-Ended _ (park_loop_lem xs _ (set-Parkable _ v parked) refl))
            (λ c' v e'.
              (step-Parkable 4 park u v (raised c') (own_parking host uuid5 d _) parkable e').0))
  ]
