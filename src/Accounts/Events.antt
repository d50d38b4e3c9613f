-- ===== src/Accounts/Events.antt =====
-- domain/accounts/events.py, and the status that account.py declares.
use Prim.Native.String.{String}
use ledger_py.Base.{Bool, true, false}
use ledger_py.Shared.Errors.{Uuid, Currency}
use ledger_py.Shared.Money.{Money}

-- OPEN, FROZEN, CLOSED
pub data AccountStatus : Type 0 where
  opened : AccountStatus
  frozen : AccountStatus
  closed : AccountStatus

-- `f"{status}"`
abbrev pub status_value : AccountStatus → String
status_value opened = "open"
status_value frozen = "frozen"
status_value closed = "closed"

abbrev pub is_open : AccountStatus → Bool
is_open opened = true
is_open _ = false

abbrev pub is_closed : AccountStatus → Bool
is_closed closed = true
is_closed _ = false

pub data AccountEvent : Type 0 where
  account_opened : Currency → AccountEvent
  funds_deposited : Money → AccountEvent
  funds_held : Money → Uuid → AccountEvent
  hold_released : Money → Uuid → AccountEvent
  account_debited : Money → Uuid → AccountEvent
  account_credited : Money → Uuid → AccountEvent
  account_frozen : AccountEvent
  account_closed : AccountEvent
