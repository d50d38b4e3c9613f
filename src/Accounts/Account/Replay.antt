-- ===== src/Accounts/Account/Replay.antt =====
-- A command changes nothing or records one event, so the recorded events rebuild the account.
use ledger_py.Base.{◌≡◌, ◌⊎◌, inl, inr, List, [], ◌∷◌, arith, Bool-cases}
use ledger_py.Base.Lists.{contains}
use ledger_py.Shared.Errors.{Uuid}
use ledger_py.Shared.Result.{ok, >>=-eq-ok}
use ledger_py.Shared.Money.{Money}
use ledger_py.Shared.Aggregate.{expected_version, load_from_history}
use ledger_py.Shared.Aggregate.Replay.{
  Extends, Extends-refl, record_event-Extends, expected_version-Extends, cleared,
}
use ledger_py.Accounts.Events.{
  AccountEvent, funds_deposited, funds_held, hold_released, account_debited, account_credited,
  account_frozen, account_closed,
}
use ledger_py.Accounts.Account.{Root, apply, emit, hold, release_hold, debit, credit}
use ledger_py.Accounts.Account.Commands.{
  Command, deposits, holds, releases, debits, credits, freezes, closes, run, run_all,
}

abbrev Emits : Root → Root → Type 0
Emits r r' = (r' ≡ r) ⊎ ((e : AccountEvent) × (emit e r ≡ ok r'))

module _ (r r' : Root) where
  hold-Emits : (m : Money) (op : Uuid) → hold m op r ≡ ok r' → Emits r r'
  unfolding hold
  hold-Emits m op h = elim (Bool-cases (contains op r.state.applied_ops)) [
    | inl old ↦ inl (ground arith)
    | inr new ↦ inr (funds_held m op, ground arith)
  ]

  release_hold-Emits : (m : Money) (op : Uuid) → release_hold m op r ≡ ok r' → Emits r r'
  unfolding release_hold
  release_hold-Emits m op h = elim (Bool-cases (contains op r.state.applied_ops)) [
    | inl old ↦ inl (ground arith)
    | inr new ↦ inr (hold_released m op, ground arith)
  ]

  debit-Emits : (m : Money) (op : Uuid) → debit m op r ≡ ok r' → Emits r r'
  unfolding debit
  debit-Emits m op h = elim (Bool-cases (contains op r.state.applied_ops)) [
    | inl old ↦ inl (ground arith)
    | inr new ↦ inr (account_debited m op, ground arith)
  ]

  credit-Emits : (m : Money) (op : Uuid) → credit m op r ≡ ok r' → Emits r r'
  unfolding credit
  credit-Emits m op h = elim (Bool-cases (contains op r.state.applied_ops)) [
    | inl old ↦ inl (ground arith)
    | inr new ↦ inr (account_credited m op, ground arith)
  ]

-- A command that succeeds leaves the aggregate as it is or records one event on it.
pub run-Emits : (c : Command) (r r' : Root) → run c r ≡ ok r' → Emits r r'
unfolding run
run-Emits (deposits m) r r' h = inr (funds_deposited m, ground arith)
run-Emits (holds m op) r r' h = hold-Emits r r' m op h
run-Emits (releases m op) r r' h = release_hold-Emits r r' m op h
run-Emits (debits m op) r r' h = debit-Emits r r' m op h
run-Emits (credits m op) r r' h = credit-Emits r r' m op h
run-Emits freezes r r' h = inr (account_frozen, ground arith)
run-Emits closes r r' h = inr (account_closed, ground arith)

Emits-Extends : (b r r' : Root) → Extends apply b r → Emits r r' → Extends apply b r'
Emits-Extends b r r' x (inl same) = rw same x
Emits-Extends b r r' x (inr (e, h)) = record_event-Extends apply e b r r' x (unfold emit in h)

pub run-Extends :
    (c : Command) (b r r' : Root) → Extends apply b r → run c r ≡ ok r' → Extends apply b r'
run-Extends c b r r' x h = Emits-Extends b r r' x (run-Emits c r r' h)

pub run_all-Extends :
    (cs : List Command) (b r r' : Root)
    → Extends apply b r
    → run_all cs r ≡ ok r'
    → Extends apply b r'
unfolding run_all
run_all-Extends [] b r r' x h = ground arith
run_all-Extends (c ∷ cs) b r r' x h =
    let (r₁, first, rest) = >>=-eq-ok (unfold run in run c r) (λ r₁. run_all cs r₁) h in
    run_all-Extends cs b r₁ r' (run-Extends c b r r₁ x first) rest

-- However many commands succeed on an account that was loaded with nothing buffered, replaying
-- what they buffered on the account as it was loaded gives the account as it now is, and a save
-- expects the version that was loaded.
pub run_all_replays :
    (cs : List Command) (b r : Root)
    → b.pending ≡ []
    → run_all cs b ≡ ok r
    → (load_from_history apply r.pending b ≡ ok (cleared r)) × (expected_version r ≡ b.version)
run_all_replays cs b r clean h =
    let x : Extends apply b r = run_all-Extends cs b b r (Extends-refl apply b clean) h in
    (x.replays, expected_version-Extends apply b r x)
