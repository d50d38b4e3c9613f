-- ===== src/Journal/Posting.antt =====
-- domain/ledger/posting_service.py: an entry is posted only between known, open accounts in the
-- currency of the legs. The reader is a port: a parameter, which may raise.
use ledger_py.Base.{not, Option, none, some, List, [], ◌∷◌, ◌==◌, if◌then◌else◌}
use ledger_py.Base.Lists.{contains}
use ledger_py.Shared.Errors.{
  Uuid, Currency, Message, domain, key_error, unknown_account, account_not_active,
  currency_mismatch, formatted, uuid_value, word_value, currency_value,
}
use ledger_py.Shared.Result.{Result, ok, err, ◌>>=◌, ◌>>◌, raise_if}
use ledger_py.Accounts.Events.{AccountStatus, status_value, is_open}
use ledger_py.Journal.Leg.{Leg}
use ledger_py.Journal.Entry.{Root, post}

pub record AccountSnapshot : Type 0 where
  pub account_id : Uuid
  pub currency : Currency
  pub status : AccountStatus

-- `AccountStatusReader.snapshot`
abbrev pub Reader : Type 0
Reader = Uuid → Result (Option AccountSnapshot)

-- `{leg.account_id for leg in legs}`. A set has no order; only which account an error names
-- depends on it.
abbrev pub account_ids : List Leg → List Uuid
account_ids [] = []
account_ids (leg ∷ legs) =
    let rest = account_ids legs in
    if contains leg.account_id rest then rest else leg.account_id ∷ rest

abbrev pub Snapshots : Type 0
Snapshots = List (Uuid × AccountSnapshot)

-- `snapshots[k]`
abbrev pub get_snapshot : Uuid → Snapshots → Result AccountSnapshot
get_snapshot k [] = err key_error
get_snapshot k ((j, s) ∷ m) = if k == j then ok s else get_snapshot k m

unfoldable pub require_open : Uuid → Option AccountSnapshot → Result AccountSnapshot
require_open id none = err (domain unknown_account (formatted "{}" (uuid_value id ∷ [])))
require_open id (some s) = do
  raise_if (not (is_open s.status)) (
      domain account_not_active
        (formatted "account {} is {}" (uuid_value id ∷ word_value (status_value s.status) ∷ [])))
  ok s

-- the loop of `_resolve_accounts`
unfoldable pub resolve_ids : Reader → List Uuid → Result Snapshots
unfolding require_open
resolve_ids reader [] = ok []
resolve_ids reader (id ∷ ids) = do
  found ← reader id
  s ← require_open id found
  rest ← resolve_ids reader ids
  ok ((id, s) ∷ rest)

unfoldable pub resolve_accounts : Reader → List Leg → Result Snapshots
unfolding resolve_ids
resolve_accounts reader legs = resolve_ids reader (account_ids legs)

-- the loop that compares currencies
unfoldable pub check_legs : Snapshots → List Leg → Result (Unit {0})
check_legs snapshots [] = ok tt
check_legs snapshots (leg ∷ legs) = do
  s ← get_snapshot leg.account_id snapshots
  raise_if (not (s.currency == leg.amount.currency)) (
      domain currency_mismatch (
        formatted "account {} is {}, leg is {}" (
          uuid_value leg.account_id
          ∷ currency_value s.currency
          ∷ currency_value leg.amount.currency
          ∷ [])))
  check_legs snapshots legs

unfoldable pub post_entry : Reader → Uuid → List Leg → Option Message → Result Root
unfolding resolve_accounts check_legs post
post_entry reader entry_id legs reference = do
  snapshots ← resolve_accounts reader legs
  check_legs snapshots legs
  post entry_id legs reference
