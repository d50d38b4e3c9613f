-- ===== src/Tests/Journal.antt =====
-- Entries of two legs.
use ledger_py.Base.{◌≡◌, ◌↔◌, refl, List, [], ◌∷◌, map}
use ledger_py.Base.Int.{pos, ◌+ℤ◌, ◌-ℤ◌}
use ledger_py.Shared.Errors.{Uuid, Currency}
use ledger_py.Shared.Result.{ok}
use ledger_py.Journal.Leg
use ledger_py.Journal.Leg.{Leg}
use ledger_py.Journal.Entry.{assert_balanced, tally, check_currencies}
use ledger_py.Journal.Entry.Balanced.{IsBalanced}
use ledger_py.Journal.Entry.Accepts.{assert_balanced_iff}
use ledger_py.Saga.Activities.{reversed_leg}
use ledger_py.Saga.Activities.Reversal.{net, reversal-nets}
use ledger_py.Tests.Store.{euros}

abbrev legs : List Leg
legs = Leg.debit 7 (euros 30) ∷ Leg.credit 8 (euros 30) ∷ []

assert_balanced_iff_example : (assert_balanced legs ≡ ok tt) ↔ IsBalanced legs
assert_balanced_iff_example = assert_balanced_iff legs

legs_accepted : assert_balanced legs ≡ ok tt
unfolding assert_balanced tally check_currencies ◌+ℤ◌ ◌-ℤ◌
legs_accepted = refl

reversal-nets_example :
    (assert_balanced (map reversed_leg legs) ≡ ok tt)
    × ((a : Uuid) (k : Currency) → net a k legs +ℤ net a k (map reversed_leg legs) ≡ pos 0)
reversal-nets_example = reversal-nets legs legs_accepted
