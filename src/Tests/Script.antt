-- ===== src/Tests/Script.antt =====
-- A Temporal that follows a script, and a log with two accounts.
use ledger_py.Base.{
  ℕ, zero, suc, ◌≡◌, refl, Bool, true, false, inl, inr, none, some, List, [], ◌∷◌, ap, sym, arith,
}
use ledger_py.Shared.Errors.{
  application_error, domain, conflict, unknown_event_type, value_error, validation_error, key_error,
  index_error, service_error, formatted, code_name, account_stream, transfer_stream,
}
use ledger_py.Shared.Result.{Result, ok, err}
use ledger_py.Shared.Exec.{Exec}
use ledger_py.EventStore.Events.{DomainEvent}
use ledger_py.EventStore.Memory.{Store}
use ledger_py.Saga.Activities.Blocks.{IsStore}
use ledger_py.Saga.Activities.Steady.{Grows-refl}
use ledger_py.Saga.Flow.{Cause, application, other_cause, Outcome, reported, raised}
use ledger_py.Saga.Workflow.{call, Situation, new_workflow}
use ledger_py.Saga.Workflow.Attempts.{
  Temporal, Others, Runs, reports, refuses, gives_up, tries_again,
}
use ledger_py.Tests.Store.{
  euros, host, store, eur, with_account, account_events, transfer_events, empty_store,
  empty_store-IsLog,
}
use ledger_py.Saga.Clean.{
  IsClean, IsProper, AllProper, account-IsProper, transfer-IsProper, extended-IsClean,
}
use ledger_py.EventStore.Memory.Append.{extended, extended-IsLog}
use ledger_py.EventStore.Registry.Wired.{wired-Knows}
use ledger_py.EventStore.Records.{empty_metadata}
use ledger_py.EventStore.Events.{of_account}
use ledger_py.Accounts.Events.{account_opened, funds_deposited}
use ledger_py.Transfers.Events.{transfer_initiated}
use ledger_py.Tests.Saga.{uuid5, request, store-IsStore}

-- An activity is run once, or never starts, as the script says.
abbrev pub World : Type 0
World = Store DomainEvent × List Bool

abbrev pub told : {A : Type 0} → Result A × Store DomainEvent → Outcome A × Store DomainEvent
told (ok a, s) = (reported a, s)
told (err (application_error detail code), s) =
    (raised (application detail (some (code_name code))), s)
told (err e, s) = (raised (other_cause (formatted "activity error" [])), s)

abbrev Clean : Store DomainEvent → Type 0
Clean = IsClean uuid5 request host

module _ {A : Type 0} (m : Exec (Store DomainEvent) A) where
  abbrev pub scripted : World → Outcome A × World
  scripted (s, []) = let (o, s') = told (m s) in (o, (s', []))
  scripted (s, true ∷ script) = let (o, s') = told (m s) in (o, (s', script))
  scripted (s, false ∷ script) =
      (raised (other_cause (formatted "activity timed out" [])), (s, script))

  abbrev pub still : (s : Store DomainEvent) → IsStore host s → Others host Clean s s
  still s h = record { onward = (h, Grows-refl s); clean = λ c. c }

  exhausted :
      (n : ℕ) (s s' : Store DomainEvent) (outcome : Outcome A)
      → IsStore host s
      → Runs host Clean m 1 s outcome s'
      → Runs host Clean m (suc n) s outcome s'
  exhausted zero s s' outcome h last = last
  exhausted (suc n) s s' outcome h last =
      tries_again (suc n) s s s s' outcome (still s h) (inl refl) (exhausted n s s' outcome h last)

  fails :
      (n : ℕ) (s s' : Store DomainEvent) (c : Cause)
      → IsStore host s
      → s' ≡ (m s).1
      → Runs host Clean m (suc n) s (raised c) s'
  fails n s s' c h ran = exhausted n s s' (raised c) h (gives_up s s s' c (still s h) (inr ran))

  once :
      (n : ℕ) (s : Store DomainEvent) (p : Result A × Store DomainEvent)
      → IsStore host s
      → m s ≡ p
      → Runs host Clean m (suc n) s (told p).0 (told p).1
  once n s (ok a, s') h e = reports n s s s' a (still s h) e
  once n s (err (application_error detail code), s') h e =
      refuses n s s s' detail code (still s h) e
  once n s (err (domain code detail), s') h e = fails n s s' _ h (ap (λ p. p.1) (sym e))
  once n s (err (conflict t i v w), s') h e = fails n s s' _ h (ap (λ p. p.1) (sym e))
  once n s (err (unknown_event_type x), s') h e = fails n s s' _ h (ap (λ p. p.1) (sym e))
  once n s (err (value_error x), s') h e = fails n s s' _ h (ap (λ p. p.1) (sym e))
  once n s (err validation_error, s') h e = fails n s s' _ h (ap (λ p. p.1) (sym e))
  once n s (err key_error, s') h e = fails n s s' _ h (ap (λ p. p.1) (sym e))
  once n s (err index_error, s') h e = fails n s s' _ h (ap (λ p. p.1) (sym e))
  once n s (err service_error, s') h e = fails n s s' _ h (ap (λ p. p.1) (sym e))

  pub scripted-Runs :
      (n : ℕ) (w : World)
      → IsStore host w.0
      → Runs host Clean m (suc n) w.0 (scripted w).0 (scripted w).1.0
  scripted-Runs n (s, []) h = once n s (m s) h refl
  scripted-Runs n (s, true ∷ script) h = once n s (m s) h refl
  scripted-Runs n (s, false ∷ script) h =
      exhausted n s s (raised (other_cause (formatted "activity timed out" []))) h
        (gives_up s s s _ (still s h) (inl refl))

abbrev pub temporal : Temporal host uuid5 World request
temporal = record {
  store_of = λ w. w.0;
  execute = λ n a w. scripted (call host uuid5 a) w;
  runs = λ n a w h. scripted-Runs (call host uuid5 a) n w h;
}

abbrev pub two_accounts : Store DomainEvent
two_accounts =
    extended host account_stream 8 empty_metadata (of_account (account_opened eur) ∷ []) store

pub two_accounts-IsStore : IsStore host two_accounts
two_accounts-IsStore = record {
  is_log =
      extended-IsLog host account_stream 8 empty_metadata (of_account (account_opened eur) ∷ [])
        store store-IsStore.is_log;
  knows = wired-Knows host;
}

with_account-IsStore : IsStore host with_account
with_account-IsStore = record {
  is_log =
      extended-IsLog host account_stream 7 empty_metadata account_events empty_store
        empty_store-IsLog;
  knows = wired-Knows host;
}

-- No event of the accounts carries an operation of the transfer.
opened-IsProper :
    (i : ℕ) → IsProper uuid5 request account_stream i (ok (of_account (account_opened eur)))
opened-IsProper i =
    account-IsProper uuid5 request i (account_opened eur) (λ step h. ground (arith, h))

account_events-AllProper : AllProper uuid5 request account_stream 7 account_events
account_events-AllProper = (
  opened-IsProper 7,
  (
    account-IsProper uuid5 request 7 (funds_deposited (euros 100)) (λ step h. ground (arith, h)),
    tt,
  ),
)

transfer_events-AllProper : AllProper uuid5 request transfer_stream 5 transfer_events
transfer_events-AllProper =
    (transfer-IsProper uuid5 request 5 (transfer_initiated 7 8 (euros 30) none), tt)

store-IsClean : IsClean uuid5 request host store
store-IsClean =
    extended-IsClean uuid5 request host transfer_stream 5 empty_metadata transfer_events
      with_account with_account-IsStore
      (extended-IsClean uuid5 request host account_stream 7 empty_metadata account_events
        empty_store (record { is_log = empty_store-IsLog; knows = wired-Knows host }) tt
        account_events-AllProper)
      transfer_events-AllProper

pub two_accounts-IsClean : IsClean uuid5 request host two_accounts
two_accounts-IsClean =
    extended-IsClean uuid5 request host account_stream 8 empty_metadata
      (of_account (account_opened eur) ∷ []) store store-IsStore store-IsClean
      (opened-IsProper 8, tt)

abbrev pub at_start : List Bool → Situation World
at_start script = record {
  workflow = new_workflow;
  holding = false;
  posted = false;
  world = (two_accounts, script);
}
