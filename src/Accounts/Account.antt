-- ===== src/Accounts/Account.antt =====
-- domain/accounts/account.py: a balance with a spendable and a reserved bucket. A command checks,
-- then records an event; `apply` is the only place that changes state. An aggregate is dropped
-- when a call on it raises, so a raise gives back no state.
pub mod Commands
pub mod Sound
pub mod Outcome
pub mod Replay
use ledger_py.Base.{not, Option, none, some, List, [], ◌∷◌, ◌==◌, if◌then◌else◌, ◌||◌}
use ledger_py.Base.Int.{pos, eqb_ℤ}
use ledger_py.Base.Lists.{contains}
use ledger_py.Shared.Errors.{
  Uuid, Currency, domain, account_not_active, account_not_empty, currency_mismatch,
  insufficient_funds, invalid_transition, formatted, Value, currency_value, money_value, word_value,
}
use ledger_py.Shared.Result.{Result, ok, ◌>>=◌, ◌>>◌, raise_if}
use ledger_py.Shared.Money.{Money, zero_money, add, subtract, assert_positive, lt}
use ledger_py.Shared.Aggregate.{Aggregate, new, record_event}
use ledger_py.Accounts.Events.{
  AccountStatus, opened, frozen, closed, status_value, is_open, is_closed, AccountEvent,
  account_opened, funds_deposited, funds_held, hold_released, account_debited, account_credited,
  account_frozen, account_closed,
}

-- "XXX"
abbrev pub unset_currency : Currency
unset_currency = 0x585858

pub record Account : Type 0 where
  pub account_id : Option Uuid
  pub currency : Currency
  pub status : AccountStatus
  pub available : Money
  pub reserved : Money
  pub applied_ops : List Uuid

abbrev pub init : Account
init = record {
  account_id = none;
  currency = unset_currency;
  status = closed;
  available = zero_money unset_currency;
  reserved = zero_money unset_currency;
  applied_ops = [];
}

abbrev pub Root : Type 0
Root = Aggregate Account AccountEvent

-- `set.add`
abbrev pub add_op : Uuid → List Uuid → List Uuid
add_op op ops = if contains op ops then ops else op ∷ ops

-- `_apply`
unfoldable pub apply : Account → AccountEvent → Result Account
unfolding add subtract
apply a (account_opened currency) = ok (record a {
  currency = currency;
  status = opened;
  available = zero_money currency;
  reserved = zero_money currency;
})
apply a (funds_deposited amount) = do
  available ← add a.available amount
  ok (record a { available = available })
apply a (funds_held amount op) = do
  available ← subtract a.available amount
  reserved ← add a.reserved amount
  ok (record a {
    applied_ops = add_op op a.applied_ops;
    available = available;
    reserved = reserved;
  })
apply a (hold_released amount op) = do
  reserved ← subtract a.reserved amount
  available ← add a.available amount
  ok (record a {
    applied_ops = add_op op a.applied_ops;
    available = available;
    reserved = reserved;
  })
apply a (account_debited amount op) = do
  reserved ← subtract a.reserved amount
  ok (record a { applied_ops = add_op op a.applied_ops; reserved = reserved })
apply a (account_credited amount op) = do
  available ← add a.available amount
  ok (record a { applied_ops = add_op op a.applied_ops; available = available })
apply a account_frozen = ok (record a { status = frozen })
apply a account_closed = ok (record a { status = closed })

-- `_record`
unfoldable pub emit : AccountEvent → Root → Result Root
unfolding record_event apply
emit = record_event apply

-- `Account.open`
unfoldable pub open_account : Uuid → Currency → Result Root
unfolding emit
open_account account_id currency =
    emit (account_opened currency) (new (record init { account_id = some account_id }))

abbrev pub of_money : Money → Value
of_money m = money_value m.amount m.currency

unfoldable pub assert_operational : Money → Account → Result (Unit {0})
unfolding assert_positive
assert_operational amount a = do
  raise_if (not (is_open a.status)) (
      domain account_not_active
        (formatted "account is {}" (word_value (status_value a.status) ∷ [])))
  assert_positive amount
  raise_if (not (amount.currency == a.currency)) (
      domain currency_mismatch (
        formatted "account currency {} != {}"
          (currency_value a.currency ∷ currency_value amount.currency ∷ [])))

unfoldable pub deposit : Money → Root → Result Root
unfolding assert_operational emit
deposit amount r = do assert_operational amount r.state; emit (funds_deposited amount) r

unfoldable pub hold : Money → Uuid → Root → Result Root
unfolding assert_operational emit lt
hold amount op r = do
  assert_operational amount r.state
  if contains op r.state.applied_ops then ok r else do
    short ← lt r.state.available amount
    raise_if short (
        domain insufficient_funds (
          formatted "hold {} exceeds available {}"
            (of_money amount ∷ of_money r.state.available ∷ [])))
    emit (funds_held amount op) r

unfoldable pub release_hold : Money → Uuid → Root → Result Root
unfolding assert_operational emit lt
release_hold amount op r = do
  assert_operational amount r.state
  if contains op r.state.applied_ops then ok r else do
    short ← lt r.state.reserved amount
    raise_if short (
        domain insufficient_funds (
          formatted "release {} exceeds reserved {}"
            (of_money amount ∷ of_money r.state.reserved ∷ [])))
    emit (hold_released amount op) r

-- draws from the reserved bucket
unfoldable pub debit : Money → Uuid → Root → Result Root
unfolding assert_operational emit lt
debit amount op r = do
  assert_operational amount r.state
  if contains op r.state.applied_ops then ok r else do
    short ← lt r.state.reserved amount
    raise_if short (
        domain insufficient_funds (
          formatted "debit {} exceeds reserved {}"
            (of_money amount ∷ of_money r.state.reserved ∷ [])))
    emit (account_debited amount op) r

unfoldable pub credit : Money → Uuid → Root → Result Root
unfolding assert_operational emit
credit amount op r = do
  assert_operational amount r.state
  if contains op r.state.applied_ops then ok r else emit (account_credited amount op) r

unfoldable pub freeze : Root → Result Root
unfolding emit
freeze r = do
  raise_if (not (is_open r.state.status)) (
      domain invalid_transition
        (formatted "cannot freeze a {} account" (word_value (status_value r.state.status) ∷ [])))
  emit account_frozen r

unfoldable pub close : Root → Result Root
unfolding emit
close r = do
  raise_if (is_closed r.state.status)
      (domain invalid_transition (formatted "account already closed" []))
  raise_if
      (not (eqb_ℤ r.state.available.amount (pos 0)) || not (eqb_ℤ r.state.reserved.amount (pos 0)))
      (domain account_not_empty (
        formatted "cannot close: available={}, reserved={}"
          (of_money r.state.available ∷ of_money r.state.reserved ∷ [])))
  emit account_closed r
