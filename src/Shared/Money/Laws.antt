-- ===== src/Shared/Money/Laws.antt =====
-- The arithmetic and the order of Money, with their currency check.
use ledger_py.Base.{◌≡◌, true, false, ◌↔◌, arith}
use ledger_py.Base.Int.{ℤ, ◌+ℤ◌, ◌-ℤ◌, pos, int_laws, eq_of_parts}
use ledger_py.Shared.Result.{ok}
use ledger_py.Shared.Money.{Money, add, subtract, negate, lt, le}

-- Two amounts of money can be added exactly when their currencies agree, and then the sum is the
-- integer sum in that currency.
pub add_iff :
    (m n r : Money)
    → (add m n ≡ ok r)
      ↔ ((m.currency ≡ n.currency) × (r.amount ≡ m.amount +ℤ n.amount) × (r.currency ≡ m.currency))
unfolding add
add_iff m n r = (λ h. ground arith, λ h. ground arith)

plus_minus : (a b : ℤ) → a +ℤ b -ℤ b ≡ a
plus_minus a b = omega int_laws

pub minus-eq-plus_neg : (a b : ℤ) → a +ℤ (pos 0 -ℤ b) ≡ a -ℤ b
minus-eq-plus_neg a b = omega int_laws

-- Where an addition does not raise, subtracting the added amount gives the first one back, and
-- adding the negated amount does the same.
pub subtract-add :
    (m n r : Money) → add m n ≡ ok r → (subtract r n ≡ ok m) × (add r (negate n) ≡ ok m)
unfolding add subtract negate
subtract-add m n r h =
    ground (arith, plus_minus m.amount n.amount, minus-eq-plus_neg (m.amount +ℤ n.amount) n.amount)

-- `m < n` is true exactly when `n <= m` is false, and `m <= n` and `n <= m` are both true exactly
-- when the values are equal: none of these holds on two currencies, where the comparisons raise.
order_laws :
    (m n : Money)
    → ((lt m n ≡ ok true) ↔ (le n m ≡ ok false))
      × (((le m n ≡ ok true) × (le n m ≡ ok true)) ↔ (m ≡ n))
unfolding lt le
order_laws m n = (
  (λ h. ground arith, λ h. ground arith),
  (λ h. ground (arith, eq_of_parts m.amount n.amount), λ h. ground arith),
)
