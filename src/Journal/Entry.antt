-- ===== src/Journal/Entry.antt =====
-- domain/ledger/journal_entry.py: a write-once, balanced posting.
pub mod Balanced
pub mod Accepts
use ledger_py.Base.{
  Bool, true, false, not, Option, none, some, List, [], ◌∷◌, ◌++◌, ◌||◌, map, if◌then◌else◌,
}
use ledger_py.Base.Int.{ℤ, eqb_ℤ}
use ledger_py.Base.Lists.{select}
use ledger_py.Shared.Errors.{
  Uuid, Currency, Message, domain, unbalanced_entry, formatted, currency_value, int_value,
}
use ledger_py.Shared.Result.{Result, ok, ◌>>=◌, ◌>>◌, raise_if}
use ledger_py.Shared.Money.{Money, assert_positive}
use ledger_py.Shared.Aggregate.{Aggregate, new, record_event}
use ledger_py.Journal.Leg.{Leg, is_debit, JournalEvent, journal_entry_posted}
use ledger_py.Journal.Totals.{Totals, total, has_key, add_to, is_empty, keys}

-- the loop over the legs, on the two `defaultdict`s
unfoldable pub tally : List Leg → Totals → Totals → Result (Totals × Totals)
unfolding assert_positive
tally [] debits credits = ok (debits, credits)
tally (leg ∷ legs) debits credits = do
  assert_positive leg.amount
  tally legs
      (if is_debit leg.direction
        then add_to leg.amount.currency leg.amount.amount debits
        else debits)
      (if is_debit leg.direction
        then credits
        else add_to leg.amount.currency leg.amount.amount credits)

-- `debit_total.keys() | credit_total.keys()`. A set has no order; only the currency that an
-- `UnbalancedEntry` names depends on it.
abbrev pub all_keys : Totals → Totals → List Currency
all_keys debits credits = keys debits ++ select (λ k. not (has_key k debits)) (keys credits)

-- the loop over the currencies
unfoldable pub check_currencies : List Currency → Totals → Totals → Result (Unit {0})
check_currencies [] debits credits = ok tt
check_currencies (k ∷ ks) debits credits = do
  raise_if (not (eqb_ℤ (total k debits) (total k credits))) (
      domain unbalanced_entry (
        formatted "{} unbalanced: debit {} != credit {}"
          (currency_value k ∷ int_value (total k debits) ∷ int_value (total k credits) ∷ [])))
  check_currencies ks debits credits

abbrev no_legs : List Leg → Bool
no_legs [] = true
no_legs (leg ∷ legs) = false

-- `_assert_balanced`
unfoldable pub assert_balanced : List Leg → Result (Unit {0})
assert_balanced legs = do
  raise_if (no_legs legs) (domain unbalanced_entry (formatted "entry has no legs" []))
  totals ← tally legs [] []
  raise_if (is_empty totals.0 || is_empty totals.1)
      (domain unbalanced_entry (formatted "entry needs at least one debit and one credit" []))
  check_currencies (all_keys totals.0 totals.1) totals.0 totals.1

pub record JournalEntry : Type 0 where
  pub entry_id : Option Uuid
  pub legs : List Leg
  pub posted : Bool

abbrev pub init : JournalEntry
init = record { entry_id = none; legs = []; posted = false }

abbrev pub Root : Type 0
Root = Aggregate JournalEntry JournalEvent

-- `_apply`: it cannot raise
unfoldable pub apply : JournalEntry → JournalEvent → Result JournalEntry
apply j (journal_entry_posted legs reference) = ok (record j { legs = legs; posted = true })

-- `JournalEntry.post`
unfoldable pub post : Uuid → List Leg → Option Message → Result Root
unfolding assert_balanced tally check_currencies record_event apply
post entry_id legs reference = do
  assert_balanced legs
  record_event apply (journal_entry_posted legs reference)
      (new (record init { entry_id = some entry_id }))
