-- ===== src/Saga/Workflow/Sound.antt =====
-- What the workflow's local variables say of the event store, and what each of its activities adds.
use mathlib.Core.Path.{subst}
use ledger_py.Base.{ℕ, suc, ◌≡◌, refl, Bool, true, false, sym}
use ledger_py.Shared.Errors.{Uuid}
use ledger_py.Shared.Result.{ok}
use ledger_py.Transfers.Operations.{
  Uuid5, hold_step, debit_step, credit_step, refund_step, release_step, operation_id,
  journal_entry_id_for, journal_reversal_id_for,
}
use ledger_py.EventStore.Events.{Host}
use ledger_py.EventStore.Memory.{Store}
use ledger_py.Saga.Messages.{TransferInput, RefundInput}
use ledger_py.Saga.Activities.Blocks.{IsStore}
use ledger_py.Saga.Activities.Steady.{Grows, Onward}
use ledger_py.Saga.Activities.Retried.{
  Activity, holds_funds, posts_journal, reverses_journal, settles_debit, settles_credit,
  releases_hold, refunds_source,
}
use ledger_py.Saga.Applied.{applied, applied-Grows, recorded, recorded-Grows}
use ledger_py.Saga.Recorded.{post_journal-recorded, reverse_journal-recorded}
use ledger_py.Saga.Effects.{
  hold_funds-applied, settle_debit-applied, settle_credit-applied, refund_source-applied,
  release-applied,
}
use ledger_py.Saga.Flow.{Outcome, reported}
use ledger_py.Saga.Workflow.{Answer, call, Situation, step}
use ledger_py.Saga.Workflow.Attempts.{
  Temporal, Runs, Runs-Onward, Runs-reported, Runs-IsClean, call-Steady,
}
use ledger_py.Saga.Workflow.Own.{KeepsClean}
use ledger_py.Saga.Clean.{IsClean}

module _ {P W : Type 0} (host : Host P) (uuid5 : Uuid5) (d : TransferInput)
    (t : Temporal host uuid5 W d) where
  -- The five things that the saga may have done, as facts of the log.
  abbrev pub is_held : Store P → Bool
  is_held s = applied host d.source_account_id (operation_id uuid5 d.transfer_id hold_step) s

  abbrev pub is_debited : Store P → Bool
  is_debited s = applied host d.source_account_id (operation_id uuid5 d.transfer_id debit_step) s

  abbrev pub is_credited : Store P → Bool
  is_credited s =
      applied host d.destination_account_id (operation_id uuid5 d.transfer_id credit_step) s

  abbrev pub is_refunded : Store P → Bool
  is_refunded s = applied host d.source_account_id (operation_id uuid5 d.transfer_id refund_step) s

  abbrev pub is_released : Store P → Bool
  is_released s = applied host d.source_account_id (operation_id uuid5 d.transfer_id release_step) s

  abbrev pub is_booked : Store P → Bool
  is_booked s = recorded (journal_entry_id_for uuid5 d.transfer_id) s

  abbrev pub is_reversed : Store P → Bool
  is_reversed s = recorded (journal_reversal_id_for uuid5 d.transfer_id) s

  abbrev pub store : Situation W → Store P
  store s = t.store_of s.world

  pub record IsSound (s : Situation W) : Type 0 where
    pub kept : IsStore host (store s)
    pub clean : IsClean uuid5 d host (store s)
    pub held : s.holding ≡ true → is_held (store s) ≡ true
    pub booked : s.posted ≡ true → is_booked (store s) ≡ true
    pub debited : s.posted ≡ true → s.holding ≡ false → is_debited (store s) ≡ true

  pub step-Onward :
      (n : ℕ) (a : Activity) (s : Situation W)
      → IsStore host (store s)
      → Onward host (store s) (store (step t.execute (suc n) a s).1)
  step-Onward n a s h =
      Runs-Onward host (IsClean uuid5 d host) (call host uuid5 a) (call-Steady host uuid5 a) (suc n)
        (store s) _ _ (t.runs n a s.world h)

  pub step-IsClean :
      (n : ℕ) (a : Activity) (s : Situation W)
      → KeepsClean host uuid5 d a
      → IsStore host (store s)
      → IsClean uuid5 d host (store s)
      → IsClean uuid5 d host (store (step t.execute (suc n) a s).1)
  step-IsClean n a s own h clean =
      Runs-IsClean host (IsClean uuid5 d host) (call host uuid5 a) (call-Steady host uuid5 a)
        (λ x k c. (own x (k, c)).1) (suc n) (store s) _ _ clean (t.runs n a s.world h)

  -- However an activity ends, what was true stays true.
  pub step-IsSound :
      (n : ℕ) (a : Activity) (s s' : Situation W) (outcome : Outcome (Answer a))
      → KeepsClean host uuid5 d a
      → IsSound s
      → step t.execute (suc n) a s ≡ (outcome, s')
      → IsSound s'
        × Grows (store s) (store s')
        × (s'.holding ≡ s.holding)
        × (s'.posted ≡ s.posted)
        × (s'.workflow ≡ s.workflow)
  step-IsSound n a s s' outcome own h e =
      subst
        (λ p.
          IsSound p.1
          × Grows (store s) (store p.1)
          × (p.1.holding ≡ s.holding)
          × (p.1.posted ≡ s.posted)
          × (p.1.workflow ≡ s.workflow))
        e
        (let (kept, grows) = step-Onward n a s h.kept in
          (
            record {
              kept = kept;
              clean = step-IsClean n a s own h.kept h.clean;
              held = λ x. applied-Grows host _ _ _ _ grows (h.held x);
              booked = λ x. recorded-Grows _ _ _ grows (h.booked x);
              debited = λ x y. applied-Grows host _ _ _ _ grows (h.debited x y);
            },
            grows,
            refl,
            refl,
            refl,
          ))

  -- What an activity's success puts in the log, whatever came between its attempts.
  module _ (n : ℕ) (s s' : Situation W) (h : IsStore host (store s)) where
    reported_runs :
        (a : Activity) (answer : Answer a)
        → step t.execute (suc n) a s ≡ (reported answer, s')
        → Runs host
            (IsClean uuid5 d host)
            (call host uuid5 a)
            (suc n)
            (store s)
            (reported answer)
            (store s')
    reported_runs a answer e =
        subst
          (λ p.
            Runs host (IsClean uuid5 d host) (call host uuid5 a) (suc n) (store s) p.0 (store p.1))
          e (t.runs n a s.world h)

    step-gives :
        (a : Activity) (answer : Answer a) (Gives : Answer a → Store P → Type 0)
        → ((x y : Store P) (b : Answer a)
            → IsStore host x
            → call host uuid5 a x ≡ (ok b, y)
            → Gives b y)
        → step t.execute (suc n) a s ≡ (reported answer, s')
        → Gives answer (store s')
    step-gives a answer Gives gives e =
        Runs-reported host (IsClean uuid5 d host) (call host uuid5 a) (call-Steady host uuid5 a)
          (λ _. Unit {0}) (λ _ _ _ u. u) Gives (λ x y b k u done. gives x y b k done) (suc n)
          (store s) (store s') answer tt (reported_runs a answer e)

    pub step-held :
        step t.execute (suc n) (holds_funds d) s ≡ (reported tt, s') → is_held (store s') ≡ true
    unfolding call
    step-held e =
        step-gives (holds_funds d) tt (λ _ y. is_held y ≡ true)
          (λ x y b k done. hold_funds-applied host uuid5 d x y k done) e

    pub step-booked :
        (entry_id : Uuid)
        → step t.execute (suc n) (posts_journal d) s ≡ (reported entry_id, s')
        → (entry_id ≡ journal_entry_id_for uuid5 d.transfer_id) × (is_booked (store s') ≡ true)
    unfolding call
    step-booked entry_id e =
        step-gives (posts_journal d) entry_id
          (λ id y. (id ≡ journal_entry_id_for uuid5 d.transfer_id) × (is_booked y ≡ true))
          (λ x y b k done. post_journal-recorded host uuid5 d b x y k done) e

    pub step-debited :
        step t.execute (suc n) (settles_debit d) s ≡ (reported tt, s')
        → is_debited (store s') ≡ true
    unfolding call
    step-debited e =
        step-gives (settles_debit d) tt (λ _ y. is_debited y ≡ true)
          (λ x y b k done. settle_debit-applied host uuid5 d x y k done) e

    pub step-credited :
        step t.execute (suc n) (settles_credit d) s ≡ (reported tt, s')
        → is_credited (store s') ≡ true
    unfolding call
    step-credited e =
        step-gives (settles_credit d) tt (λ _ y. is_credited y ≡ true)
          (λ x y b k done. settle_credit-applied host uuid5 d x y k done) e

    pub step-refunded :
        (r : RefundInput)
        → r.transfer_id ≡ d.transfer_id
        → r.source_account_id ≡ d.source_account_id
        → step t.execute (suc n) (refunds_source r) s ≡ (reported tt, s')
        → is_refunded (store s') ≡ true
    unfolding call
    step-refunded r same_id same_source e =
        step-gives (refunds_source r) tt (λ _ y. is_refunded y ≡ true)
          (λ x y b k done.
            rw (sym same_id, sym same_source) (refund_source-applied host uuid5 r x y k done))
          e

    pub step-released :
        is_held (store s) ≡ true
        → step t.execute (suc n) (releases_hold d) s ≡ (reported tt, s')
        → is_released (store s') ≡ true
    unfolding call
    step-released there e =
        Runs-reported host (IsClean uuid5 d host) (call host uuid5 (releases_hold d))
          (call-Steady host uuid5 (releases_hold d)) (λ x. is_held x ≡ true)
          (λ x y g. applied-Grows host _ _ x y g) (λ _ y. is_released y ≡ true)
          (λ x y b k held done. release-applied host uuid5 d _ x y k held done) (suc n) (store s)
          (store s') tt there (reported_runs (releases_hold d) tt e)

    pub step-reversed :
        is_booked (store s) ≡ true
        → step t.execute (suc n) (reverses_journal d) s ≡ (reported tt, s')
        → is_reversed (store s') ≡ true
    unfolding call
    step-reversed there e =
        Runs-reported host (IsClean uuid5 d host) (call host uuid5 (reverses_journal d))
          (call-Steady host uuid5 (reverses_journal d)) (λ x. is_booked x ≡ true)
          (λ x y g. recorded-Grows _ x y g) (λ _ y. is_reversed y ≡ true)
          (λ x y b k booked done. reverse_journal-recorded host uuid5 d x y k booked done) (suc n)
          (store s) (store s') tt there (reported_runs (reverses_journal d) tt e)
