-- ===== src/Accounts/Account/Outcome.antt =====
-- Which commands succeed, what they do to the balances, and what a repeated command does.
use ledger_py.Base.{◌≡◌, Bool, true, false, ◌⊎◌, ◌↔◌, List, ◌∷◌, arith}
use ledger_py.Base.Int.{ℤ, pos, ◌≤ℤ◌, ◌<ℤ◌, ◌+ℤ◌, int_laws, eqb_ℤ→≡}
use ledger_py.Base.Lists.{contains}
use ledger_py.Shared.Errors.{Uuid}
use ledger_py.Shared.Result.{ok, is_ok}
use ledger_py.Shared.Money.{Money}
use ledger_py.Shared.Money.Laws.{minus-eq-plus_neg}
use ledger_py.Shared.Aggregate.Replay.{cleared}
use ledger_py.Accounts.Events.{opened, closed}
use ledger_py.Accounts.Account.{
  Account, Root, deposit, hold, release_hold, debit, credit, freeze, close,
}
use ledger_py.Accounts.Account.Commands.{
  Command, deposits, holds, releases, debits, credits, freezes, closes, run, effect,
}
use ledger_py.Accounts.Account.Sound.{IsSound}

-- An open account, a positive amount, and the account's currency.
abbrev pub IsOperational : Money → Account → Type 0
IsOperational m a = (a.status ≡ opened) × (pos 0 <ℤ m.amount) × (m.currency ≡ a.currency)

-- When a command is allowed: the documented rules.
abbrev pub IsAllowed : Command → Account → Type 0
IsAllowed (deposits m) a = IsOperational m a
IsAllowed (holds m op) a =
    IsOperational m a × ((contains op a.applied_ops ≡ true) ⊎ (m.amount ≤ℤ a.available.amount))
IsAllowed (releases m op) a =
    IsOperational m a × ((contains op a.applied_ops ≡ true) ⊎ (m.amount ≤ℤ a.reserved.amount))
IsAllowed (debits m op) a =
    IsOperational m a × ((contains op a.applied_ops ≡ true) ⊎ (m.amount ≤ℤ a.reserved.amount))
IsAllowed (credits m op) a = IsOperational m a
IsAllowed freezes a = a.status ≡ opened
IsAllowed closes a =
    (a.status ≡ closed → ⊥) × (a.available.amount ≡ pos 0) × (a.reserved.amount ≡ pos 0)

module _ (r : Root) (s : IsSound r.state) where
  deposit_iff : (m : Money) → (is_ok (deposit m r) ≡ true) ↔ IsAllowed (deposits m) r.state
  unfolding deposit
  deposit_iff m = (λ h. ground arith, λ h. ground arith)

  hold_iff : (m : Money) (op : Uuid) → (is_ok (hold m op r) ≡ true) ↔ IsAllowed (holds m op) r.state
  unfolding hold
  hold_iff m op = (λ h. ground arith, λ h. ground arith)

  release_hold_iff :
      (m : Money) (op : Uuid)
      → (is_ok (release_hold m op r) ≡ true) ↔ IsAllowed (releases m op) r.state
  unfolding release_hold
  release_hold_iff m op = (λ h. ground arith, λ h. ground arith)

  debit_iff :
      (m : Money) (op : Uuid) → (is_ok (debit m op r) ≡ true) ↔ IsAllowed (debits m op) r.state
  unfolding debit
  debit_iff m op = (λ h. ground arith, λ h. ground arith)

  credit_iff :
      (m : Money) (op : Uuid) → (is_ok (credit m op r) ≡ true) ↔ IsAllowed (credits m op) r.state
  unfolding credit
  credit_iff m op = (λ h. ground arith, λ h. ground arith)

  freeze_iff : (is_ok (freeze r) ≡ true) ↔ IsAllowed freezes r.state
  unfolding freeze
  freeze_iff = (λ h. ground arith, λ h. ground arith)

  close_iff : (is_ok (close r) ≡ true) ↔ IsAllowed closes r.state
  unfolding close
  close_iff = (
    λ h.
        ground (
          arith,
          eqb_ℤ→≡ r.state.available.amount (pos 0),
          eqb_ℤ→≡ r.state.reserved.amount (pos 0),
        ),
    λ h. ground arith,
  )

-- On an account that meets the invariants a command succeeds exactly when the rules allow it.
pub run_iff :
    (c : Command) (r : Root) → IsSound r.state → (is_ok (run c r) ≡ true) ↔ IsAllowed c r.state
unfolding run
run_iff (deposits m) r s = deposit_iff r s m
run_iff (holds m op) r s = hold_iff r s m op
run_iff (releases m op) r s = release_hold_iff r s m op
run_iff (debits m op) r s = debit_iff r s m op
run_iff (credits m op) r s = credit_iff r s m op
run_iff freezes r s = freeze_iff r s
run_iff closes r s = close_iff r s

pub plus_zero : (a : ℤ) → a +ℤ pos 0 ≡ a
plus_zero a = omega int_laws

abbrev pub Moves : Command → Root → Root → Type 0
Moves c r r' =
    (r'.state.available.amount ≡ r.state.available.amount +ℤ (effect c r.state).0)
    × (r'.state.reserved.amount ≡ r.state.reserved.amount +ℤ (effect c r.state).1)

-- A command that succeeds changes the two buckets by its specified effect, which is nothing when
-- its operation id has been applied before.
pub run-effect : (c : Command) (r r' : Root) → run c r ≡ ok r' → Moves c r r'
unfolding run
run-effect (deposits m) r r' h = ground (arith, plus_zero r.state.reserved.amount)
run-effect (holds m op) r r' h = ground (
  arith,
  plus_zero r.state.reserved.amount,
  plus_zero r.state.available.amount,
  minus-eq-plus_neg r.state.available.amount m.amount,
)
run-effect (releases m op) r r' h = ground (
  arith,
  plus_zero r.state.reserved.amount,
  plus_zero r.state.available.amount,
  minus-eq-plus_neg r.state.reserved.amount m.amount,
)
run-effect (debits m op) r r' h = ground (
  arith,
  plus_zero r.state.reserved.amount,
  plus_zero r.state.available.amount,
  minus-eq-plus_neg r.state.reserved.amount m.amount,
)
run-effect (credits m op) r r' h =
    ground (arith, plus_zero r.state.reserved.amount, plus_zero r.state.available.amount)
run-effect freezes r r' h =
    ground (arith, plus_zero r.state.reserved.amount, plus_zero r.state.available.amount)
run-effect closes r r' h =
    ground (arith, plus_zero r.state.reserved.amount, plus_zero r.state.available.amount)

-- Whether the command carries an operation id.
abbrev pub has_op : Command → Bool
has_op (holds m op) = true
has_op (releases m op) = true
has_op (debits m op) = true
has_op (credits m op) = true
has_op _ = false

contains_self : (op : Uuid) (ops : List Uuid) → contains op (op ∷ ops) ≡ true
contains_self op ops = ground arith

-- A command with an operation id that has succeeded once succeeds again and changes nothing, not
-- even the version: a retried saga step is a no-op.
pub run-run : (c : Command) (r r' : Root) → has_op c ≡ true → run c r ≡ ok r' → run c r' ≡ ok r'
unfolding run
run-run (holds m op) r r' e h = ground (arith, contains_self op r.state.applied_ops)
run-run (releases m op) r r' e h = ground (arith, contains_self op r.state.applied_ops)
run-run (debits m op) r r' e h = ground (arith, contains_self op r.state.applied_ops)
run-run (credits m op) r r' e h = ground (arith, contains_self op r.state.applied_ops)
run-run (deposits m) r r' e h = cc
run-run freezes r r' e h = cc
run-run closes r r' e h = cc

-- The same, once the account has been saved and loaded again.
pub run-cleared :
    (c : Command) (r r' : Root)
    → has_op c ≡ true
    → run c r ≡ ok r'
    → run c (cleared r') ≡ ok (cleared r')
unfolding run
run-cleared (holds m op) r r' e h = ground (arith, contains_self op r.state.applied_ops)
run-cleared (releases m op) r r' e h = ground (arith, contains_self op r.state.applied_ops)
run-cleared (debits m op) r r' e h = ground (arith, contains_self op r.state.applied_ops)
run-cleared (credits m op) r r' e h = ground (arith, contains_self op r.state.applied_ops)
run-cleared (deposits m) r r' e h = absurd (ground arith)
run-cleared freezes r r' e h = absurd (ground arith)
run-cleared closes r r' e h = absurd (ground arith)
