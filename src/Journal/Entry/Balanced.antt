-- ===== src/Journal/Entry/Balanced.antt =====
-- What `_assert_balanced` accepts, against sums that are taken straight from the legs.
use ledger_py.Base.{◌≡◌, Bool, true, false, not, ◌||◌, ◌&&◌, List, [], ◌∷◌, ◌==◌, if◌then◌else◌}
use ledger_py.Base.Int.{ℤ, pos, ◌+ℤ◌, ◌<ℤ◌}
use ledger_py.Shared.Errors.{Currency}
use ledger_py.Journal.Leg.{Leg, LegDirection, debit_side, credit_side, is_debit}

-- Whether the leg is on the side and in the currency.
abbrev counts : LegDirection → Currency → Leg → Bool
counts debit_side k leg = is_debit leg.direction && k == leg.amount.currency
counts credit_side k leg = not (is_debit leg.direction) && k == leg.amount.currency

-- The sum of one side of the legs in one currency.
unfoldable pub side_sum : LegDirection → Currency → List Leg → ℤ
side_sum side k [] = pos 0
side_sum side k (leg ∷ legs) =
    if counts side k leg then leg.amount.amount +ℤ side_sum side k legs else side_sum side k legs

abbrev pub AllPositive : List Leg → Type 0
AllPositive [] = Unit
AllPositive (leg ∷ legs) = (pos 0 <ℤ leg.amount.amount) × AllPositive legs

abbrev pub has_side : LegDirection → List Leg → Bool
has_side side [] = false
has_side side (leg ∷ legs) =
    (if is_debit side then is_debit leg.direction else not (is_debit leg.direction))
    || has_side side legs

-- A double entry: positive legs on both sides, and in every currency the debits equal the credits.
pub record IsBalanced (legs : List Leg) : Type 0 where
  pub positive : AllPositive legs
  pub debited : has_side debit_side legs ≡ true
  pub credited : has_side credit_side legs ≡ true
  pub balanced : (k : Currency) → side_sum debit_side k legs ≡ side_sum credit_side k legs
