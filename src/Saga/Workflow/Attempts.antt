-- ===== src/Saga/Workflow/Attempts.antt =====
-- How Temporal carries out an activity: its attempts, and what is known of the store when it
-- reports.
use mathlib.Core.Path.{subst}
use ledger_py.Base.{ℕ, suc, ◌≡◌, ◌⊎◌, inl, inr, some, sym}
use ledger_py.Shared.Errors.{Message, Code, code_name, application_error}
use ledger_py.Shared.Result.{ok, err}
use ledger_py.Shared.Exec.{Exec}
use ledger_py.Transfers.Operations.{Uuid5}
use ledger_py.EventStore.Events.{Host}
use ledger_py.EventStore.Memory.{Store}
use ledger_py.Saga.Messages.{TransferInput}
use ledger_py.Saga.Clean.{IsClean}
use ledger_py.Saga.Activities.Blocks.{IsStore}
use ledger_py.Saga.Activities.Steady.{Grows, Grows-refl, Grows-trans, Steady, Onward}
use ledger_py.Saga.Activities.Onward.{perform-Steady, post_journal-Steady}
use ledger_py.Saga.Activities.Retried.{
  Activity, perform, records_initiated, holds_funds, posts_journal, reverses_journal, settles_debit,
  settles_credit, releases_hold, fails_transfer, parks_transfer, refunds_source,
}
use ledger_py.Saga.Flow.{Cause, application, Outcome, reported, raised}
use ledger_py.Saga.Workflow.{Answer, call}

module _ {P : Type 0} (host : Host P) where
  Onward-trans : (s t u : Store P) → Onward host s t → Onward host t u → Onward host s u
  Onward-trans s t u a b = (b.0, Grows-trans s t u a.1 b.1)

module _ {P : Type 0} (host : Host P) (Clean : Store P → Type 0) where
  -- What others do to the store: they keep the log well formed, only add to it, and keep it clean.
  pub record Others (s t : Store P) : Type 0 where
    pub onward : Onward host s t
    pub clean : Clean s → Clean t

  -- Before an attempt, others may have written to the store. The attempt runs and reports, raises an error that must not be retried, or counts as
  -- failed: it was never started, or it raised, or its report was lost.
  pub data Runs {A : Type 0} (m : Exec (Store P) A)
      : ℕ → Store P → Outcome A → Store P → Type 0 where
    reports :
        (n : ℕ) (s t s' : Store P) (a : A)
        → Others s t
        → m t ≡ (ok a, s')
        → Runs m (suc n) s (reported a) s'
    refuses :
        (n : ℕ) (s t s' : Store P) (detail : Message) (code : Code)
        → Others s t
        → m t ≡ (err (application_error detail code), s')
        → Runs m (suc n) s (raised (application detail (some (code_name code)))) s'
    gives_up :
        (s t s' : Store P) (c : Cause)
        → Others s t
        → (s' ≡ t) ⊎ (s' ≡ (m t).1)
        → Runs m 1 s (raised c) s'
    tries_again :
        (n : ℕ) (s t u s' : Store P) (outcome : Outcome A)
        → Others s t
        → (u ≡ t) ⊎ (u ≡ (m t).1)
        → Runs m n u outcome s'
        → Runs m (suc n) s outcome s'

  module _ {A : Type 0} (m : Exec (Store P) A) (steady : Steady host m) where
    attempted-Onward : (t u : Store P) → IsStore host t → (u ≡ t) ⊎ (u ≡ (m t).1) → Onward host t u
    attempted-Onward t u h (inl same) = subst (λ x. Onward host t x) (sym same) (h, Grows-refl t)
    attempted-Onward t u h (inr ran) = subst (λ x. Onward host t x) (sym ran) (steady t h)

    pub Runs-Onward :
        (n : ℕ) (s s' : Store P) (outcome : Outcome A) → Runs m n s outcome s' → Onward host s s'
    Runs-Onward n s s' outcome (reports _ _ t _ a o done) =
        Onward-trans host s t s' o.onward
          (subst (λ p. Onward host t p.1) done (steady t o.onward.0))
    Runs-Onward n s s' outcome (refuses _ _ t _ detail code o done) =
        Onward-trans host s t s' o.onward
          (subst (λ p. Onward host t p.1) done (steady t o.onward.0))
    Runs-Onward n s s' outcome (gives_up _ t _ c o how) =
        Onward-trans host s t s' o.onward (attempted-Onward t s' o.onward.0 how)
    Runs-Onward n s s' outcome (tries_again _ _ t u _ _ o how rest) =
        Onward-trans host s u s'
          (Onward-trans host s t u o.onward (attempted-Onward t u o.onward.0 how))
          (Runs-Onward _ u s' outcome rest)

    -- What holds after every successful attempt holds when the activity has reported, if what it
    -- needs stays true as the log grows.
    pub Runs-reported :
        (Needs : Store P → Type 0)
        → ((s s' : Store P) → Grows s s' → Needs s → Needs s')
        → (Gives : A → Store P → Type 0)
        → ((s s' : Store P) (a : A) → IsStore host s → Needs s → m s ≡ (ok a, s') → Gives a s')
        → (n : ℕ) (s s' : Store P) (a : A) → Needs s
        → Runs m n s (reported a) s'
        → Gives a s'
    Runs-reported Needs grows Gives gives n s s' a needed (reports _ _ t _ _ o done) =
        gives t s' a o.onward.0 (grows s t o.onward.1 needed) done
    Runs-reported Needs grows Gives gives n s s' a needed (tries_again _ _ t u _ _ o how rest) =
        Runs-reported Needs grows Gives gives _ u s' a
          (grows s u (Onward-trans host s t u o.onward (attempted-Onward t u o.onward.0 how)).1
            needed)
          rest

    -- An activity that keeps the log clean does so over all its attempts.
    pub Runs-IsClean :
        ((t : Store P) → IsStore host t → Clean t → Clean (m t).1)
        → (n : ℕ) (s s' : Store P) (outcome : Outcome A) → Clean s
        → Runs m n s outcome s'
        → Clean s'
    Runs-IsClean tidy n s s' outcome h (reports _ _ t _ a o done) =
        subst (λ p. Clean p.1) done (tidy t o.onward.0 (o.clean h))
    Runs-IsClean tidy n s s' outcome h (refuses _ _ t _ detail code o done) =
        subst (λ p. Clean p.1) done (tidy t o.onward.0 (o.clean h))
    Runs-IsClean tidy n s s' outcome h (gives_up _ t _ c o (inl same)) =
        subst Clean (sym same) (o.clean h)
    Runs-IsClean tidy n s s' outcome h (gives_up _ t _ c o (inr ran)) =
        subst Clean (sym ran) (tidy t o.onward.0 (o.clean h))
    Runs-IsClean tidy n s s' outcome h (tries_again _ _ t u _ _ o (inl same) rest) =
        Runs-IsClean tidy _ u s' outcome (subst Clean (sym same) (o.clean h)) rest
    Runs-IsClean tidy n s s' outcome h (tries_again _ _ t u _ _ o (inr ran) rest) =
        Runs-IsClean tidy _ u s' outcome (subst Clean (sym ran) (tidy t o.onward.0 (o.clean h)))
          rest

module _ {P : Type 0} (host : Host P) (uuid5 : Uuid5) where
  -- Temporal and the world around the workflow of a transfer. Nobody else uses the ids that are
  -- derived from the transfer's own, other than for what they stand for.
  pub record Temporal (W : Type 0) (d : TransferInput) : Type 1 where
    pub store_of : W → Store P
    pub execute : ℕ → (a : Activity) → W → Outcome (Answer a) × W
    pub runs :
        (n : ℕ) (a : Activity) (w : W)
        → IsStore host (store_of w)
        → Runs host
            (IsClean uuid5 d host)
            (call host uuid5 a)
            (suc n)
            (store_of w)
            (execute (suc n) a w).0
            (store_of (execute (suc n) a w).1)

  pub call-Steady : (a : Activity) → Steady host (call host uuid5 a)
  unfolding call perform
  call-Steady (records_initiated d) = perform-Steady host uuid5 (records_initiated d)
  call-Steady (holds_funds d) = perform-Steady host uuid5 (holds_funds d)
  call-Steady (posts_journal d) = post_journal-Steady host uuid5 d
  call-Steady (reverses_journal d) = perform-Steady host uuid5 (reverses_journal d)
  call-Steady (settles_debit d) = perform-Steady host uuid5 (settles_debit d)
  call-Steady (settles_credit d) = perform-Steady host uuid5 (settles_credit d)
  call-Steady (releases_hold d) = perform-Steady host uuid5 (releases_hold d)
  call-Steady (fails_transfer d) = perform-Steady host uuid5 (fails_transfer d)
  call-Steady (parks_transfer d) = perform-Steady host uuid5 (parks_transfer d)
  call-Steady (refunds_source d) = perform-Steady host uuid5 (refunds_source d)
