-- ===== src/Saga/Activities/Reversal.antt =====
-- `reverse_journal`: the legs that it posts, against the legs of the entry that it reverses.
use ledger_py.Base.{◌≡◌, refl, List, [], ◌∷◌, map, arith, sym, ap, ◌∙◌, ◌&&◌, ◌==◌, if◌then◌else◌}
use ledger_py.Base.Int.{ℤ, pos, ◌+ℤ◌, ◌-ℤ◌, int_laws}
use ledger_py.Shared.Errors.{Uuid, Currency}
use ledger_py.Shared.Result.{ok}
use ledger_py.Journal.Leg.{Leg, debit_side, credit_side, is_debit}
use ledger_py.Journal.Entry.{assert_balanced}
use ledger_py.Journal.Entry.Balanced.{side_sum, AllPositive, has_side, IsBalanced}
use ledger_py.Journal.Entry.Accepts.{assert_balanced_iff}
use ledger_py.Saga.Activities.{reversed_leg}

abbrev reversed : List Leg → List Leg
reversed legs = map reversed_leg legs

-- The leg's part in the balance of an account in a currency: a debit counts as minus.
abbrev part : Uuid → Currency → Leg → ℤ
part a k leg =
    if leg.account_id == a && leg.amount.currency == k
    then (if is_debit leg.direction then pos 0 -ℤ leg.amount.amount else leg.amount.amount)
    else pos 0

-- What a list of legs does to an account in a currency.
unfoldable pub net : Uuid → Currency → List Leg → ℤ
net a k [] = pos 0
net a k (leg ∷ legs) = part a k leg +ℤ net a k legs

side_sum-reversed :
    (k : Currency) (legs : List Leg)
    → (side_sum debit_side k (reversed legs) ≡ side_sum credit_side k legs)
      × (side_sum credit_side k (reversed legs) ≡ side_sum debit_side k legs)
unfolding side_sum
side_sum-reversed k [] = (refl, refl)
side_sum-reversed k (leg ∷ legs) = ground (arith, side_sum-reversed k legs)

AllPositive-reversed : (legs : List Leg) → AllPositive legs → AllPositive (reversed legs)
AllPositive-reversed [] h = tt
AllPositive-reversed (leg ∷ legs) h = (h.0, AllPositive-reversed legs h.1)

has_side-reversed :
    (legs : List Leg)
    → (has_side debit_side (reversed legs) ≡ has_side credit_side legs)
      × (has_side credit_side (reversed legs) ≡ has_side debit_side legs)
has_side-reversed [] = (refl, refl)
has_side-reversed (leg ∷ legs) = ground (arith, has_side-reversed legs)

IsBalanced-reversed : (legs : List Leg) → IsBalanced legs → IsBalanced (reversed legs)
IsBalanced-reversed legs b = record {
  positive = AllPositive-reversed legs b.positive;
  debited = (has_side-reversed legs).0 ∙ b.credited;
  credited = (has_side-reversed legs).1 ∙ b.debited;
  balanced = λ k. let (d, c) = side_sum-reversed k legs in d ∙ sym (b.balanced k) ∙ sym c;
}

zero_minus_zero : pos 0 -ℤ pos 0 ≡ pos 0
zero_minus_zero = omega int_laws

minus_sum : (x y : ℤ) → pos 0 -ℤ (x +ℤ y) ≡ (pos 0 -ℤ x) +ℤ (pos 0 -ℤ y)
minus_sum x y = omega int_laws

minus_minus : (x : ℤ) → pos 0 -ℤ (pos 0 -ℤ x) ≡ x
minus_minus x = omega int_laws

part-reversed :
    (a : Uuid) (k : Currency) (leg : Leg) → part a k (reversed_leg leg) ≡ pos 0 -ℤ part a k leg
part-reversed a k leg = ground (arith, minus_minus leg.amount.amount, zero_minus_zero)

net-reversed :
    (a : Uuid) (k : Currency) (legs : List Leg) → net a k (reversed legs) ≡ pos 0 -ℤ net a k legs
unfolding net
net-reversed a k [] = sym zero_minus_zero
net-reversed a k (leg ∷ legs) =
    ground
      (arith, part-reversed a k leg, net-reversed a k legs, minus_sum (part a k leg) (net a k legs))

plus_opposite : (n : ℤ) → n +ℤ (pos 0 -ℤ n) ≡ pos 0
plus_opposite n = omega int_laws

-- The reversal of legs that were accepted for posting is accepted too, and for every account and
-- currency the legs and their reversal together come to nothing.
pub reversal-nets :
    (legs : List Leg)
    → assert_balanced legs ≡ ok tt
    → (assert_balanced (map reversed_leg legs) ≡ ok tt)
      × ((a : Uuid) (k : Currency) → net a k legs +ℤ net a k (map reversed_leg legs) ≡ pos 0)
reversal-nets legs h = (
  (assert_balanced_iff (reversed legs)).1
      (IsBalanced-reversed legs ((assert_balanced_iff legs).0 h)),
  λ a k. ap (λ n. net a k legs +ℤ n) (net-reversed a k legs) ∙ plus_opposite (net a k legs),
)
