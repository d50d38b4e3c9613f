-- ===== src/Projections/Balances.antt =====
-- projections/read_models.py, AccountBalancesProjection: current balances from account events.
pub mod Agrees
use ledger_py.Base.{Bool, not, Option, none, some, List, [], ◌∷◌, if◌then◌else◌}
use ledger_py.Base.Dict.{get, put}
use ledger_py.Base.Int.{ℤ, pos, ◌+ℤ◌, ◌-ℤ◌}
use ledger_py.Shared.Errors.{Uuid, Currency, key_error, account_stream, same_type}
use ledger_py.Shared.Result.{Result, ok, err, ◌>>=◌}
use ledger_py.Accounts.Events.{
  AccountStatus, opened, frozen, closed, account_opened, funds_deposited, funds_held, hold_released,
  account_debited, account_credited, account_frozen, account_closed,
}
use ledger_py.Journal.Posting.{AccountSnapshot}
use ledger_py.EventStore.Events.{DomainEvent, of_account, Host}
use ledger_py.EventStore.Records.{StoredEvent}
use ledger_py.EventStore.Registry.{Registry, deserialize}

-- `_Balance`
pub record Balance : Type 0 where
  pub currency : Currency
  pub available : ℤ
  pub reserved : ℤ
  pub status : AccountStatus

pub record AccountBalanceView : Type 0 where
  pub account_id : Uuid
  pub currency : Currency
  pub available : ℤ
  pub reserved : ℤ
  pub status : AccountStatus

-- `_by_id`
abbrev pub Balances : Type 0
Balances = List (Uuid × Balance)

abbrev pub new_balance : Currency → Balance
new_balance currency = record {
  currency = currency;
  available = pos 0;
  reserved = pos 0;
  status = opened;
}

-- `self._by_id[account_id]`, changed in place
abbrev pub change_found : Uuid → (Balance → Balance) → Balances → Option Balance → Result Balances
change_found id change m none = err key_error
change_found id change m (some b) = ok (put id (change b) m)

abbrev change_balance : Uuid → (Balance → Balance) → Balances → Result Balances
change_balance id change m = change_found id change m (get id m)

-- the `match` of `project`
unfoldable pub project_event : Uuid → DomainEvent → Balances → Result Balances
project_event id (of_account (account_opened currency)) m = ok (put id (new_balance currency) m)
project_event id (of_account (funds_deposited amount)) m =
    change_balance id (λ b. record b { available = b.available +ℤ amount.amount }) m
project_event id (of_account (account_credited amount op)) m =
    change_balance id (λ b. record b { available = b.available +ℤ amount.amount }) m
project_event id (of_account (funds_held amount op)) m =
    change_balance id
      (λ b. record b {
        available = b.available -ℤ amount.amount;
        reserved = b.reserved +ℤ amount.amount;
      })
      m
project_event id (of_account (hold_released amount op)) m =
    change_balance id
      (λ b. record b {
        reserved = b.reserved -ℤ amount.amount;
        available = b.available +ℤ amount.amount;
      })
      m
project_event id (of_account (account_debited amount op)) m =
    change_balance id (λ b. record b { reserved = b.reserved -ℤ amount.amount }) m
project_event id (of_account account_frozen) m =
    change_balance id (λ b. record b { status = frozen }) m
project_event id (of_account account_closed) m =
    change_balance id (λ b. record b { status = closed }) m
project_event id e m = ok m

module _ {P : Type 0} (host : Host P) (r : Registry P) where
  unfoldable pub project : StoredEvent P → Balances → Result Balances
  unfolding project_event
  project event m = if not (same_type event.stream_type account_stream) then ok m else do
    domain ← deserialize host r event.event_type event.schema_version event.payload
    project_event event.stream_id domain m

  -- `project` on each event of a list in turn
  unfoldable pub project_all : List (StoredEvent P) → Balances → Result Balances
  unfolding project
  project_all [] m = ok m
  project_all (event ∷ events) m = do m' ← project event m; project_all events m'

abbrev view_of : Uuid → Option Balance → Option AccountBalanceView
view_of id none = none
view_of id (some b) = some (record {
  account_id = id;
  currency = b.currency;
  available = b.available;
  reserved = b.reserved;
  status = b.status;
})

unfoldable pub balance_of : Uuid → Balances → Option AccountBalanceView
balance_of id m = view_of id (get id m)

abbrev snapshot_in : Uuid → Option Balance → Option AccountSnapshot
snapshot_in id none = none
snapshot_in id (some b) =
    some (record { account_id = id; currency = b.currency; status = b.status })

unfoldable pub snapshot : Uuid → Balances → Option AccountSnapshot
snapshot id m = snapshot_in id (get id m)
