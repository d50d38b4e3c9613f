-- ===== src/Journal/Leg.antt =====
-- domain/ledger/leg.py and events.py.
use ledger_py.Base.{Bool, true, false, Option, List}
use ledger_py.Shared.Errors.{Uuid, Message}
use ledger_py.Shared.Money.{Money}

pub data LegDirection : Type 0 where
  debit_side : LegDirection
  credit_side : LegDirection

abbrev pub is_debit : LegDirection → Bool
is_debit debit_side = true
is_debit credit_side = false

-- `_OPPOSITE` of temporal/activities/transfer_activities.py
abbrev pub opposite : LegDirection → LegDirection
opposite debit_side = credit_side
opposite credit_side = debit_side

pub record Leg : Type 0 where
  pub account_id : Uuid
  pub direction : LegDirection
  pub amount : Money

-- `Leg.debit` and `Leg.credit`
abbrev pub debit : Uuid → Money → Leg
debit account_id amount = record {
  account_id = account_id;
  direction = debit_side;
  amount = amount;
}

abbrev pub credit : Uuid → Money → Leg
credit account_id amount = record {
  account_id = account_id;
  direction = credit_side;
  amount = amount;
}

-- the legs, and the reference: a text
pub data JournalEvent : Type 0 where
  journal_entry_posted : List Leg → Option Message → JournalEvent
