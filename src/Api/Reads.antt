-- ===== src/Api/Reads.antt =====
-- The read model answers what the event log says.
use ledger_py.Base.{ℕ, ◌≡◌, ◌≢◌, some, List, [], arith, map}
use ledger_py.Shared.Errors.{Uuid}
use ledger_py.Shared.Result.{ok}
use ledger_py.Accounts.Account
use ledger_py.EventStore.Events.{Host}
use ledger_py.EventStore.Records.{StoredEvent}
use ledger_py.EventStore.Memory.{Store}
use ledger_py.EventStore.Memory.Log.{IsLog}
use ledger_py.EventStore.Repository.{load, accounts}
use ledger_py.Projections.Balances.{Balances, project_all}
use ledger_py.Projections.Balances.Agrees.{balance_of-load}
use ledger_py.Projections.Statements.{Statements}
use ledger_py.Projections.Statements.Lines.{project_statements, lines_in, statement_of-lines_in}
use ledger_py.Projections.ReadModels.{ReadModels}
use ledger_py.Projections.ReadModels.Current.{IsAt, catch_up-IsAt}
use ledger_py.Api.Context.{page}
use ledger_py.Api.AccountRoutes.{account_response, get_account}
use ledger_py.Api.ReadRoutes.{line_response, get_balance, get_statement}

module _ {P : Type 0} (host : Host P) (id : Uuid) (s : Store P) (log : IsLog s)
    (before rest : List (StoredEvent P)) (w : ReadModels) (at : IsAt host s before rest w)
    (m : Balances) (n : Statements) (p : project_all host s.registry s.events [] ≡ ok m)
    (q : project_statements host s.events [] ≡ ok n) (a : Account.Root)
    (found : load host accounts id s ≡ ok (some a)) where
  -- Let the read models stand at the projections of a first part of a well-formed log, and let the
  -- projections go through the whole log without raising. Then for an account that was opened, the
  -- balance is answered with what `get_account` answers from the log and the statement with the page
  -- of the account's lines in the log; both leave the read models at the end of the log.
  pub get_balance-get_account :
      (limit offset : ℕ)
      → a.state ≢ Account.init
      → (w' : ReadModels) × IsAt host s s.events [] w'
        × (get_balance host id s w ≡ some ((get_account host id s).0, w'))
        × (get_statement host id limit offset s w
            ≡ some (ok (map line_response (page limit offset (lines_in host id s.events))), w'))
  unfolding get_balance get_statement get_account account_response
  get_balance-get_account limit offset opened =
      let (w', caught_up, shown, at_end) = catch_up-IsAt host s before rest w m n log at p q in
      let (balance, snapshot) = balance_of-load host id s m a p found opened in
      let lines = statement_of-lines_in host id s.events n q in
      (
        w',
        at_end,
        ground (arith, caught_up, shown, balance, found),
        ground (arith, caught_up, shown, lines, found),
      )
