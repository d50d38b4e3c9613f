-- ===== src/Tests/Projections.antt =====
-- The balances of the small log, and a drain of it in batches of two.
use ledger_py.Base.{◌≡◌, ◌≢◌, refl, some, [], ◌∷◌, arith, ap}
use ledger_py.Base.Int.{pos, ◌+ℤ◌}
use ledger_py.Shared.Result.{ok, err}
use ledger_py.Accounts.Events.{opened, is_open}
use ledger_py.Accounts.Account.{init}
use ledger_py.EventStore.Events.{DomainEvent, class_of, amount_of}
use ledger_py.EventStore.Registry.{deserialize}
use ledger_py.Saga.Activities.{status_reader}
use ledger_py.Projections.Balances.{Balances, project, project_all, balance_of, snapshot}
use ledger_py.Projections.Balances.Agrees.{balance_of-load}
use ledger_py.Projections.Runner.{Projector, Progress}
use ledger_py.Projections.Runner.Drains.{Drained, drain-Drained, feed_all}
use ledger_py.Projections.Statements.{Statements, statement_of}
use ledger_py.Projections.Statements.Lines.{project_statements, lines_in, statement_of-lines_in}
use ledger_py.Base.{ℕ, List, ◌++◌, map}
use ledger_py.Base.Lists.{take, drop}
use ledger_py.Shared.Exec.{Exec}
use ledger_py.EventStore.Records.{StoredEvent}
use ledger_py.Projections.Runner.{load_checkpoint}
use ledger_py.Projections.Statements.{project_statement}
use ledger_py.Projections.ReadModels.{ReadModels, runner_name}
use ledger_py.Projections.ReadModels.Current.{IsAt}
use ledger_py.Api.Context.{page}
use ledger_py.Api.AccountRoutes.{get_account}
use ledger_py.Api.ReadRoutes.{line_response, get_balance, get_statement}
use ledger_py.Api.Reads.{get_balance-get_account}
use ledger_py.Outbox.Relay.{Outbox, relay_drain}
use ledger_py.Outbox.Relay.Delivers.{relay_drain-delivers}
use ledger_py.Tests.Store.{host, eur, store, store-IsLog, loaded, account_loads}

abbrev balances : Balances
balances =
    (7, record { currency = eur; available = pos 100; reserved = pos 0; status = opened }) ∷ []

projected : project_all host store.registry store.events [] ≡ ok balances
unfolding project_all deserialize class_of ◌+ℤ◌
projected = refl

loaded_opened : loaded.state ≢ init
loaded_opened same = cc (ap (λ a. is_open a.status) same)

balance_of-load_example :
    (balance_of 7 balances
      ≡ some (record {
        account_id = 7;
        currency = eur;
        available = pos 100;
        reserved = pos 0;
        status = opened;
      }))
    × (status_reader host store 7 ≡ ok (snapshot 7 balances))
balance_of-load_example =
    balance_of-load host 7 store balances loaded projected account_loads loaded_opened

-- the balances projection, as a projector
abbrev balances_projector : Projector DomainEvent Balances
balances_projector event m = elim (project host store.registry event m) [
  | ok m' ↦ (ok tt, m')
  | err e ↦ (err e, m)
]

abbrev at_start : Progress Balances
at_start = record { checkpoints = []; view = [] }

fed : feed_all (balances_projector ∷ []) store.events [] ≡ (ok tt, balances)
unfolding project deserialize class_of ◌+ℤ◌
fed = refl

drain-Drained_example :
    Drained store store-IsLog "balances" (balances_projector ∷ []) 2 4 3 at_start balances
drain-Drained_example =
    drain-Drained store store-IsLog "balances" (balances_projector ∷ []) 2 4 [] store.events
      at_start balances (omega arith) refl refl (omega arith) fed

abbrev statements : Statements
statements =
    (
      7,
      record {
        global_position = 2;
        kind = "FundsDeposited";
        amount = pos 100;
        currency = eur;
        occurred_at = 2;
      }
          ∷ [],
    )
    ∷ []

statements_projected : project_statements host store.events [] ≡ ok statements
unfolding project_statements class_of amount_of
statements_projected = refl

statement_of-lines_in_example : statement_of 7 statements ≡ lines_in host 7 store.events
statement_of-lines_in_example =
    statement_of-lines_in host 7 store.events statements statements_projected

-- The read models have seen the first event of the log.
abbrev one_event : List (StoredEvent DomainEvent)
one_event = take 1 store.events

abbrev others : List (StoredEvent DomainEvent)
others = drop 1 store.events

abbrev models : ReadModels
models = record {
  checkpoints = (runner_name, 1) ∷ [];
  view = (
    (7, record { currency = eur; available = pos 0; reserved = pos 0; status = opened }) ∷ [],
    (7, []) ∷ [],
  );
}

models-IsAt : IsAt host store one_event others models
unfolding project project_statement project_all project_statements deserialize class_of amount_of
    ◌+ℤ◌
models-IsAt = record { whole = refl; checkpoint = refl; balances = refl; statements = refl }

get_balance-get_account_example :
    (w' : ReadModels) × IsAt host store store.events [] w'
    × (get_balance host 7 store models ≡ some ((get_account host 7 store).0, w'))
    × (get_statement host 7 10 0 store models
        ≡ some (ok (map line_response (page 10 0 (lines_in host 7 store.events))), w'))
get_balance-get_account_example =
    get_balance-get_account host 7 store store-IsLog one_event others models models-IsAt balances
      statements projected statements_projected loaded account_loads 10 0 loaded_opened

-- The publisher writes the positions down.
abbrev publish : StoredEvent DomainEvent → Exec (List ℕ) (Unit {0})
publish event positions = (ok tt, positions ++ event.global_position ∷ [])

relay_drain-delivers_example :
    (w' : Outbox (List ℕ)) × (relay_drain store publish "outbox" 2 4 0
        (record { checkpoints = []; published = [] })
      ≡ some (ok 3, w'))
    × (w'.published ≡ 1 ∷ 2 ∷ 3 ∷ [])
    × (load_checkpoint "outbox" w'.checkpoints ≡ 3)
relay_drain-delivers_example =
    relay_drain-delivers store store-IsLog publish "outbox" 2 4 [] store.events
      (record { checkpoints = []; published = [] }) (1 ∷ 2 ∷ 3 ∷ []) (omega arith) refl refl
      (omega arith) refl
