-- ===== src/Shared/Money.antt =====
-- domain/shared/money.py: an integer amount in minor units with a currency. A comparison raises on
-- two currencies, as an addition does.
pub mod Laws
use ledger_py.Base.{Bool, not, [], ◌∷◌, ◌==◌}
use ledger_py.Base.Int.{ℤ, pos, ◌+ℤ◌, ◌-ℤ◌, ltb_ℤ, leb_ℤ}
use ledger_py.Shared.Errors.{
  Currency, domain, currency_mismatch, invalid_amount, formatted, currency_value, int_value,
}
use ledger_py.Shared.Result.{Result, ok, ◌>>=◌, ◌>>◌, raise_if}

pub record Money : Type 0 where
  pub amount : ℤ
  pub currency : Currency

abbrev pub zero_money : Currency → Money
zero_money c = record { amount = pos 0; currency = c }

unfoldable pub assert_same_currency : Money → Money → Result (Unit {0})
assert_same_currency m other = raise_if (not (m.currency == other.currency)) (
    domain currency_mismatch (
      formatted "cannot combine {} with {}"
        (currency_value m.currency ∷ currency_value other.currency ∷ [])))

unfoldable pub add : Money → Money → Result Money
unfolding assert_same_currency
add m other = do
  assert_same_currency m other
  ok (record { amount = m.amount +ℤ other.amount; currency = m.currency })

unfoldable pub subtract : Money → Money → Result Money
unfolding assert_same_currency
subtract m other = do
  assert_same_currency m other
  ok (record { amount = m.amount -ℤ other.amount; currency = m.currency })

unfoldable pub negate : Money → Money
negate m = record { amount = pos 0 -ℤ m.amount; currency = m.currency }

unfoldable pub is_positive : Money → Bool
is_positive m = ltb_ℤ (pos 0) m.amount

unfoldable pub is_negative : Money → Bool
is_negative m = ltb_ℤ m.amount (pos 0)

unfoldable pub assert_positive : Money → Result Money
assert_positive m = do
  raise_if (leb_ℤ m.amount (pos 0)) (
      domain invalid_amount (formatted "amount must be positive, got {}" (int_value m.amount ∷ [])))
  ok m

-- `m < other`
unfoldable pub lt : Money → Money → Result Bool
unfolding assert_same_currency
lt m other = do assert_same_currency m other; ok (ltb_ℤ m.amount other.amount)

-- `m <= other`
unfoldable pub le : Money → Money → Result Bool
unfolding assert_same_currency
le m other = do assert_same_currency m other; ok (leb_ℤ m.amount other.amount)
