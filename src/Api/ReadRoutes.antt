-- ===== src/Api/ReadRoutes.antt =====
-- api/routers/accounts.py: the two reads that the read models answer. None stands for a catch-up that
-- has not ended.
use ledger_py.Base.{ℕ, Option, none, some, List, map}
use ledger_py.Base.Int.{◌+ℤ◌}
use ledger_py.Shared.Errors.{Uuid}
use ledger_py.Shared.Result.{Result, ok, err, ◌>>=◌}
use ledger_py.EventStore.Events.{Host}
use ledger_py.EventStore.Memory.{Store}
use ledger_py.Projections.Balances.{AccountBalanceView}
use ledger_py.Projections.Statements.{StatementLine}
use ledger_py.Projections.ReadModels.{ReadModels, read_balance, read_statement}
use ledger_py.Api.Schemas.{AccountResponse, StatementLineResponse}
use ledger_py.Api.Context.{page}
use ledger_py.Api.AccountRoutes.{load_or_404, or_404}

-- `AccountBalanceView.total` is in it
abbrev response_of : Uuid → AccountBalanceView → AccountResponse
response_of account_id view = record {
  account_id = account_id;
  currency = view.currency;
  status = view.status;
  available = view.available;
  reserved = view.reserved;
  total = view.available +ℤ view.reserved;
}

abbrev pub line_response : StatementLine → StatementLineResponse
line_response line = record {
  global_position = line.global_position;
  kind = line.kind;
  amount = line.amount;
  currency = line.currency;
  occurred_at = line.occurred_at;
}

abbrev then_answer :
    {A B : Type 0}
    → (A → Result B)
    → Option (Result A × ReadModels)
    → Option (Result B × ReadModels)
then_answer f none = none
then_answer f (some (r, w)) = some ((do x ← r; f x), w)

abbrev present : Uuid → Option AccountBalanceView → Result AccountResponse
present account_id view = do v ← or_404 account_id view; ok (response_of account_id v)

module _ {P : Type 0} (host : Host P) where
  unfoldable pub get_balance :
      Uuid → Store P → ReadModels → Option (Result AccountResponse × ReadModels)
  unfolding read_balance
  get_balance account_id s w =
      then_answer (present account_id) (read_balance host s.registry account_id s w)

  unfoldable pub get_statement :
      Uuid
      → ℕ
      → ℕ
      → Store P
      → ReadModels
      → Option (Result (List StatementLineResponse) × ReadModels)
  unfolding read_statement load_or_404
  get_statement account_id limit offset s w = elim (load_or_404 host account_id s).0 [
    | err e ↦ some (err e, w)
    | ok account ↦
        then_answer (λ lines. ok (map line_response (page limit offset lines)))
          (read_statement host s.registry account_id s w)
  ]
