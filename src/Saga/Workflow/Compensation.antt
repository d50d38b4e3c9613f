-- ===== src/Saga/Workflow/Compensation.antt =====
-- The handler of the workflow: what it undoes.
use mathlib.Core.Path.{subst}
use ledger_py.Base.{◌≡◌, refl, Bool, true, false, inl, inr, none, some, arith, sym, ◌∙◌}
use ledger_py.Transfers.Events.{failed}
use ledger_py.Transfers.Operations.{Uuid5}
use ledger_py.EventStore.Events.{Host}
use ledger_py.Saga.Messages.{TransferInput, TransferResult}
use ledger_py.Saga.Activities.Steady.{Grows, Grows-refl}
use ledger_py.Saga.Activities.Retried.{Activity, releases_hold, reverses_journal, fails_transfer}
use ledger_py.Saga.Applied.{applied-Grows, recorded-Grows}
use ledger_py.Saga.Flow.{Cause, Outcome, reported, raised, Flow-cases, ◌>>◌, pure, update, >>=-ends}
use ledger_py.Saga.Reasons.{reason_from}
use ledger_py.Saga.Workflow.{
  Answer, Situation, RunStatus, waiting, returned, step, step_if, compensate,
}
use ledger_py.Saga.Workflow.Attempts.{Temporal}
use ledger_py.Saga.Workflow.Own.{KeepsClean, own_failure, own_release, own_reversal}
use ledger_py.Saga.Workflow.Sound.{
  store, is_released, is_reversed, step-IsSound, step-released, step-reversed,
}
use ledger_py.Saga.Workflow.Ends.{Sound}

module _ {P W : Type 0} (host : Host P) (uuid5 : Uuid5) (d : TransferInput)
    (t : Temporal host uuid5 W d) where
  -- Nothing is left of a transfer that has failed: what was held is released, what was posted is
  -- reversed.
  abbrev pub Undone : Situation W → Type 0
  Undone s =
      (s.holding ≡ true → is_released host uuid5 d t (store host uuid5 d t s) ≡ true)
      × (s.posted ≡ true → is_reversed host uuid5 d t (store host uuid5 d t s) ≡ true)

  abbrev pub Failed : TransferResult → Situation W → Type 0
  Failed r s =
      Sound host uuid5 d t s
      × Undone s
      × (r.status ≡ failed)
      × (s.workflow.status ≡ failed)
      × (s.workflow.failure ≡ r.failure_reason)

  abbrev pub Compensated : Outcome RunStatus × Situation W → Type 0
  Compensated (raised c, s) = Unit {0}
  Compensated (reported waiting, s) = ⊥
  Compensated (reported (returned r), s) = Failed r s

  -- What a step leaves as it was.
  abbrev Kept : Situation W → Situation W → Type 0
  Kept s s' =
      Sound host uuid5 d t s'
      × Grows (store host uuid5 d t s) (store host uuid5 d t s')
      × (s'.holding ≡ s.holding)
      × (s'.posted ≡ s.posted)

  -- A step that is only taken where it is needed.
  step_if-Kept :
      (flag : Bool) (a : Activity) (s s' : Situation W) (Gives : Situation W → Type 0)
      → KeepsClean host uuid5 d a
      → Sound host uuid5 d t s
      → ((x : Answer a) (u : Situation W)
          → step t.execute 5 a s ≡ (reported x, u)
          → flag ≡ true
          → Gives u)
      → step_if t.execute flag 5 a s ≡ (reported tt, s')
      → Kept s s' × (flag ≡ true → Gives s')
  step_if-Kept true a s s' Gives own h gives e = elim (Flow-cases (step t.execute 5 a s)) [
    | inr (c, u, failing) ↦ absurd (ground (arith, failing, e))
    | inl (x, u, done) ↦
        let same : u ≡ s' = ground (arith, done, e) in
        let (sound, grows, holding, still, workflow) =
          step-IsSound host uuid5 d t 4 a s u (reported x) own h done in
        subst (λ v. Kept s v × (true ≡ true → Gives v)) same
          ((sound, grows, holding, still), λ yes. gives x u done yes)
  ]
  step_if-Kept false a s s' Gives own h gives e =
      let same : s ≡ s' = ground (arith, e) in
      subst (λ v. Kept s v × (false ≡ true → Gives v)) same
        ((h, Grows-refl (store host uuid5 d t s), refl, refl), λ no. ground arith)

  failing :
      (c : Cause) (s : Situation W)
      → Sound host uuid5 d t s
      → Undone s
      → let reason = (reason_from c).0 in
        let detail = (reason_from c).1 in
        Compensated (
          (do
            step t.execute 5 (
                fails_transfer
                  (record { transfer_id = d.transfer_id; reason = reason; detail = some detail }))
            update (λ s'. record s' {
              workflow = record s'.workflow { status = failed; failure = some reason };
            })
            pure (
                returned (record {
                  transfer_id = d.transfer_id;
                  status = failed;
                  journal_entry_id = none;
                  failure_reason = some reason;
                  detail = some detail;
                })))
            s)
  failing c s h undone =
      let reason = (reason_from c).0 in
      let fail = fails_transfer (record {
        transfer_id = d.transfer_id;
        reason = reason;
        detail = some (reason_from c).1;
      }) in
      >>=-ends Compensated (step t.execute 5 fail) _ s
        (λ _ u e.
          let (sound, grows, holding, still, workflow) =
            step-IsSound host uuid5 d t 4 fail s u (reported tt) (own_failure host uuid5 d _) h e in
          (
            record {
              kept = sound.kept;
              clean = sound.clean;
              held = sound.held;
              booked = sound.booked;
              debited = sound.debited;
            },
            (
              λ x. applied-Grows host _ _ _ _ grows (undone.0 (sym holding ∙ x)),
              λ x. recorded-Grows _ _ _ grows (undone.1 (sym still ∙ x)),
            ),
            refl,
            refl,
            refl,
          ))
        (λ c' u e. tt)

  pub compensate_lem :
      (c : Cause) (s : Situation W)
      → Sound host uuid5 d t s
      → Compensated (compensate t.execute d c s)
  unfolding compensate
  compensate_lem c s h =
      >>=-ends Compensated (step_if t.execute s.holding 5 (releases_hold d)) _ s
        (λ _ u e.
          let ((sound, grows, holding, still), released) =
            step_if-Kept s.holding (releases_hold d) s u
              (λ v. is_released host uuid5 d t (store host uuid5 d t v) ≡ true)
              (own_release host uuid5 d) h
              (λ _ v done yes. step-released host uuid5 d t 4 s v h.kept (h.held yes) done) e in
          >>=-ends Compensated (step_if t.execute s.posted 5 (reverses_journal d)) _ u
            (λ _ v e'.
              let ((sound', grows', holding', still'), reversed) =
                step_if-Kept s.posted (reverses_journal d) u v
                  (λ w. is_reversed host uuid5 d t (store host uuid5 d t w) ≡ true)
                  (own_reversal host uuid5 d) sound
                  (λ _ w done yes.
                    step-reversed host uuid5 d t 4 u w sound.kept (sound.booked (still ∙ yes)) done)
                  e' in
              failing c v sound' (
                λ x. applied-Grows host _ _ _ _ grows' (released (sym (holding' ∙ holding) ∙ x)),
                λ x. reversed (sym (still' ∙ still) ∙ x),
              ))
            (λ _ v e'. tt))
        (λ c' u e. tt)
