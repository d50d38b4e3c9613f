-- ===== src/Projections/ReadModels.antt =====
-- projections/read_models_service.py: both projections behind one runner, brought up to date by every
-- read. The lock keeps the catch-ups apart, so a read is one step here.
pub mod Current
use Prim.Native.String.{String}
use ledger_py.Base.{ℕ, suc, Option, none, some, List, [], ◌∷◌}
use ledger_py.Base.Lists.{length}
use ledger_py.Shared.Errors.{Uuid}
use ledger_py.Shared.Result.{Result, ok, err}
use ledger_py.EventStore.Events.{Host}
use ledger_py.EventStore.Registry.{Registry}
use ledger_py.EventStore.Memory.{Store}
use ledger_py.Projections.Balances.{Balances, AccountBalanceView, project, balance_of}
use ledger_py.Projections.Statements.{Statements, StatementLine, project_statement, statement_of}
use ledger_py.Projections.Runner.{Projector, Progress, drain}

-- What the two projections keep.
abbrev pub Views : Type 0
Views = Balances × Statements

-- `ReadModels`, with the checkpoints of its runner
abbrev pub ReadModels : Type 0
ReadModels = Progress Views

abbrev pub new_read_models : ReadModels
new_read_models = record { checkpoints = []; view = ([], []) }

abbrev pub runner_name : String
runner_name = "account-read-models"

abbrev with_balances : Views → Result Balances → Result (Unit {0}) × Views
with_balances (m, n) (ok m') = (ok tt, (m', n))
with_balances (m, n) (err e) = (err e, (m, n))

abbrev with_statements : Views → Result Statements → Result (Unit {0}) × Views
with_statements (m, n) (ok n') = (ok tt, (m, n'))
with_statements (m, n) (err e) = (err e, (m, n))

module _ {P : Type 0} (host : Host P) (registry : Registry P) where
  abbrev pub balances_projector : Projector P Views
  balances_projector event v = with_balances v (project host registry event v.0)

  abbrev pub statements_projector : Projector P Views
  statements_projector event v = with_statements v (project_statement host event v.1)

  abbrev pub both_projectors : List (Projector P Views)
  both_projectors = balances_projector ∷ statements_projector ∷ []

  -- one round more than there are events is enough for the drain
  unfoldable pub catch_up : Store P → ReadModels → Option (Result ℕ × ReadModels)
  unfolding drain
  catch_up s w = drain s runner_name both_projectors 500 (suc (length s.events)) 0 w

  abbrev answered :
      {A : Type 0} → (Views → A) → Option (Result ℕ × ReadModels) → Option (Result A × ReadModels)
  answered read none = none
  answered read (some (ok n, w)) = some (ok (read w.view), w)
  answered read (some (err e, w)) = some (err e, w)

  -- `ReadModels.balance_of`
  unfoldable pub read_balance :
      Uuid → Store P → ReadModels → Option (Result (Option AccountBalanceView) × ReadModels)
  unfolding balance_of
  read_balance account_id s w = answered (λ v. balance_of account_id v.0) (catch_up s w)

  -- `ReadModels.statement_of`
  unfoldable pub read_statement :
      Uuid → Store P → ReadModels → Option (Result (List StatementLine) × ReadModels)
  unfolding statement_of
  read_statement account_id s w = answered (λ v. statement_of account_id v.1) (catch_up s w)
