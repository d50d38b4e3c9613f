-- ===== src/Projections/Statements.antt =====
-- projections/read_models.py, AccountStatementProjection: the lines of an account, in order.
pub mod Lines
use Prim.Native.String.{String}
use text.Mathlib.Text.{◌==◌ as str_eq}
use ledger_py.Base.{
  ℕ, Bool, false, not, ◌||◌, Option, none, some, List, [], ◌∷◌, ◌++◌, if◌then◌else◌,
}
use ledger_py.Base.Dict.{get, put}
use ledger_py.Base.Int.{ℤ}
use ledger_py.Shared.Errors.{Uuid, Currency, key_error, account_stream, same_type}
use ledger_py.Shared.Result.{Result, ok, err}
use ledger_py.Shared.Money.{Money}
use ledger_py.EventStore.Events.{Host}
use ledger_py.EventStore.Records.{StoredEvent}

pub record StatementLine : Type 0 where
  pub global_position : ℕ
  pub kind : String
  pub amount : ℤ
  pub currency : Currency
  pub occurred_at : ℕ

-- `_by_id`, with the lines of each `_Statement`
abbrev pub Statements : Type 0
Statements = List (Uuid × List StatementLine)

-- `_AMOUNT_EVENTS`
abbrev pub amount_events : List String
amount_events =
    "FundsDeposited" ∷ "FundsHeld" ∷ "HoldReleased" ∷ "AccountDebited" ∷ "AccountCredited" ∷ []

abbrev pub is_listed : String → List String → Bool
is_listed x [] = false
is_listed x (y ∷ ys) = str_eq x y || is_listed x ys

-- `setdefault(event.stream_id, _Statement()).lines`
abbrev pub lines_or_empty : Option (List StatementLine) → List StatementLine
lines_or_empty none = []
lines_or_empty (some lines) = lines

abbrev pub line_of : {P : Type 0} → StoredEvent P → Money → StatementLine
line_of event amount = record {
  global_position = event.global_position;
  kind = event.event_type;
  amount = amount.amount;
  currency = amount.currency;
  occurred_at = event.occurred_at;
}

unfoldable pub statement_of : Uuid → Statements → List StatementLine
statement_of id m = lines_or_empty (get id m)

module _ {P : Type 0} (host : Host P) where
  -- the line of an event that has an amount
  abbrev pub append_line : StoredEvent P → Option Money → Statements → Result Statements
  append_line event none m = err key_error
  append_line event (some amount) m =
      ok (
        put event.stream_id (lines_or_empty (get event.stream_id m) ++ line_of event amount ∷ []) m)

  -- `AccountStatementProjection.project`
  unfoldable pub project_statement : StoredEvent P → Statements → Result Statements
  project_statement event m =
      if not (same_type event.stream_type account_stream)
      then ok m
      else if str_eq event.event_type "AccountOpened"
      then ok (put event.stream_id (lines_or_empty (get event.stream_id m)) m)
      else if not (is_listed event.event_type amount_events)
      then ok m
      else append_line event (host.payload_amount event.payload) m
