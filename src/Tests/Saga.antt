-- ===== src/Tests/Saga.antt =====
-- A step of a transfer on the small log, and its retry.
use Prim.Native.Nat.{◌*◌}
use ledger_py.Base.{ℕ, ◌+◌, ◌<◌, zero, suc, ◌≡◌, refl, none, arith, ap, sym, ◌∙◌}
use ledger_py.Base.Int.{◌+ℤ◌, ◌-ℤ◌}
use ledger_py.Shared.Errors.{Uuid}
use ledger_py.Shared.Result.{ok}
use ledger_py.Transfers.Operations.{
  Uuid5, Step, hold_step, debit_step, credit_step, refund_step, release_step, journal_step,
  reversal_step,
}
use ledger_py.EventStore.Events.{DomainEvent, class_of}
use ledger_py.EventStore.Registry.{deserialize, name_for, schema_version_for}
use ledger_py.EventStore.Repository.{load, save, rehydrate, decode_all}
use ledger_py.Shared.Aggregate.{load_from_history, expected_version}
use ledger_py.Transfers.Transfer
use ledger_py.Transfers.Transfer.{mark_held}
use ledger_py.Accounts.Account
use ledger_py.Accounts.Account.{hold}
use ledger_py.Saga.Activities.{hold_funds, change_account, milestone}
use ledger_py.EventStore.Registry.Wired.{wired-Knows}
use ledger_py.EventStore.Memory.{
  Store, load_stream, append, current_version, append_loop, make_stored,
}
use ledger_py.Saga.Messages.{TransferInput}
use ledger_py.Saga.Activities.Blocks.{IsStore}
use ledger_py.Saga.Activities.Retried.{holds_funds, perform, perform_again}
use ledger_py.Tests.Store.{host, euros, store, store-IsLog}

abbrev code : Step → ℕ
code hold_step = 0
code debit_step = 1
code credit_step = 2
code refund_step = 3
code release_step = 4
code journal_step = 5
code reversal_step = 6

abbrev step_at : ℕ → Step
step_at zero = hold_step
step_at (suc zero) = debit_step
step_at (suc (suc zero)) = credit_step
step_at (suc (suc (suc zero))) = refund_step
step_at (suc (suc (suc (suc zero)))) = release_step
step_at (suc (suc (suc (suc (suc zero))))) = journal_step
step_at n = reversal_step

step_at-code : (s : Step) → step_at (code s) ≡ s
step_at-code hold_step = refl
step_at-code debit_step = refl
step_at-code credit_step = refl
step_at-code refund_step = refl
step_at-code release_step = refl
step_at-code journal_step = refl
step_at-code reversal_step = refl

code_bound : (s : Step) → code s < 7
code_bound s = ground arith

pub derived_apart :
    (t t' : Uuid) (s s' : Step) → 7 * t + code s ≡ 7 * t' + code s' → (t ≡ t') × (s ≡ s')
derived_apart t t' s s' h =
    let bound = code_bound s in
    let bound' = code_bound s' in
    let same : code s ≡ code s' = omega arith in
    (omega arith, sym (step_at-code s) ∙ ap step_at same ∙ step_at-code s')

-- Ids that are numbered apart, in place of SHA-1.
abbrev pub uuid5 : Uuid5
uuid5 = record {
  derive = λ t s. 7 * t + code s;
  derive_injective = λ t t' s s' h. derived_apart t t' s s' h;
}

pub store-IsStore : IsStore host store
store-IsStore = record { is_log = store-IsLog; knows = wired-Knows host }

abbrev pub request : TransferInput
request = record {
  transfer_id = 5;
  source_account_id = 7;
  destination_account_id = 8;
  amount = euros 30;
  reversal_of = none;
  traceparent = none;
}

abbrev held_store : Store DomainEvent
held_store = (perform host uuid5 (holds_funds request) store).1

hold_runs : perform host uuid5 (holds_funds request) store ≡ (ok tt, held_store)
unfolding perform hold_funds change_account milestone load load_stream rehydrate load_from_history
    ◌+ℤ◌ ◌-ℤ◌ decode_all deserialize class_of Account.apply hold save append current_version
    expected_version append_loop make_stored name_for schema_version_for Transfer.apply mark_held
hold_runs = refl

perform_again_example : perform host uuid5 (holds_funds request) held_store ≡ (ok tt, held_store)
perform_again_example =
    perform_again host uuid5 (holds_funds request) store held_store store-IsStore hold_runs
