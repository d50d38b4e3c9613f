-- ===== src/Tests/Store.antt =====
-- A small log over payloads that are the events themselves, and the registry, the log and the
-- repository at it.
use ledger_py.Base.{ℕ, ◌+◌, ◌≡◌, refl, true, none, some, List, [], ◌∷◌, arith}
use ledger_py.Base.Int.{pos, ◌+ℤ◌, ◌-ℤ◌}
use ledger_py.Shared.Errors.{Currency, account_stream, transfer_stream, conflict}
use ledger_py.Shared.Result.{ok, err, is_ok}
use ledger_py.Shared.Money.{Money}
use ledger_py.Shared.Aggregate.{load_from_history}
use ledger_py.Shared.Aggregate.Replay.{Extends, cleared}
use ledger_py.Accounts.Events.{account_opened, funds_deposited, funds_held, account_frozen}
use ledger_py.Accounts.Account
use ledger_py.Transfers.Events.{transfer_initiated}
use ledger_py.EventStore.Events.{DomainEvent, of_account, of_transfer, class_of, amount_of, Host}
use ledger_py.EventStore.Records.{empty_metadata}
use ledger_py.EventStore.Registry.{register, deserialize, empty_registry, Registry}
use ledger_py.EventStore.Registry.Wired.{wired, build-wired, build-Knows, wired-Knows, Knows}
use ledger_py.EventStore.Registry.Upcasting.{deserialize-register}
use ledger_py.EventStore.Memory.{Store, load_stream, append}
use ledger_py.EventStore.Memory.Log.{IsLog}
use ledger_py.EventStore.Memory.Append.{extended, extended-IsLog, append_lem, append-IsLog}
use ledger_py.EventStore.Repository.{load, save, decode_all, rehydrate, accounts}
use ledger_py.EventStore.Repository.Rehydrate.{Matches}
use ledger_py.EventStore.Repository.Saves.{load-save, no_lost_update}
use ledger_py.EventStore.Repository.Others.{load-save_other}

abbrev pub host : Host DomainEvent
host = record {
  model_dump = λ e. e;
  model_validate = λ cls e. ok e;
  validate_dump = λ e. refl;
  payload_amount = amount_of;
  dump_amount = λ e. refl;
  new_event_id = λ n. n + 1000;
  now = λ n. n;
}

abbrev pub eur : Currency
eur = 0x455552

abbrev pub euros : ℕ → Money
euros n = record { amount = pos n; currency = eur }

abbrev pub empty_store : Store DomainEvent
empty_store = record { registry = wired; events = [] }

abbrev pub account_events : List DomainEvent
account_events = of_account (account_opened eur) ∷ of_account (funds_deposited (euros 100)) ∷ []

abbrev pub transfer_events : List DomainEvent
transfer_events = of_transfer (transfer_initiated 7 8 (euros 30) none) ∷ []

abbrev pub with_account : Store DomainEvent
with_account = extended host account_stream 7 empty_metadata account_events empty_store

-- An account 7 with 100 euros, and a transfer 5 of 30 euros from it to account 8.
abbrev pub store : Store DomainEvent
store = extended host transfer_stream 5 empty_metadata transfer_events with_account

pub empty_store-IsLog : IsLog empty_store
unfolding load_stream
empty_store-IsLog = record { positions = tt; versions = λ t i. tt }

pub store-IsLog : IsLog store
store-IsLog = extended-IsLog host transfer_stream 5 empty_metadata transfer_events with_account (
    extended-IsLog host account_stream 7 empty_metadata account_events empty_store
      empty_store-IsLog)

build-Knows_example : Knows host wired (of_account account_frozen)
build-Knows_example = build-Knows host wired build-wired (of_account account_frozen)

append-IsLog_example :
    IsLog (append host account_stream 7 2 (of_account account_frozen ∷ []) empty_metadata store).1
append-IsLog_example =
    append-IsLog host account_stream 7 empty_metadata 2 (of_account account_frozen ∷ []) store
      store-IsLog (wired-Knows host)

abbrev pub loaded : Account.Root
loaded = record {
  state = record Account.init {
    currency = eur;
    status = ledger_py.Accounts.Events.opened;
    available = euros 100;
    reserved = euros 0;
  };
  version = 2;
  pending = [];
}

pub account_loads : load host accounts 7 store ≡ ok (some loaded)
unfolding load load_stream rehydrate load_from_history ◌+ℤ◌ decode_all deserialize class_of
    Account.apply
account_loads = refl

abbrev after_hold : Account.Root
after_hold = record {
  state = record loaded.state { available = euros 90; reserved = euros 10; applied_ops = 9 ∷ [] };
  version = 3;
  pending = funds_held (euros 10) 9 ∷ [];
}

abbrev after_deposit : Account.Root
after_deposit = record {
  state = record loaded.state { available = euros 105 };
  version = 3;
  pending = funds_deposited (euros 5) ∷ [];
}

after_hold-Extends : Extends Account.apply loaded after_hold
unfolding load_from_history ◌+ℤ◌ ◌-ℤ◌ Account.apply
after_hold-Extends = record { replays = refl; counted = refl }

after_deposit-Extends : Extends Account.apply loaded after_deposit
unfolding load_from_history ◌+ℤ◌ Account.apply
after_deposit-Extends = record { replays = refl; counted = refl }

accounts-Matches : Matches accounts
accounts-Matches e = refl

load-save_example :
    let (result, s') = save host accounts 7 after_hold none store in
    (is_ok result ≡ true) × (load host accounts 7 s' ≡ ok (some (cleared after_hold))) × IsLog s'
load-save_example =
    load-save host accounts accounts-Matches 7 loaded after_hold none store store-IsLog
      (wired-Knows host) account_loads after_hold-Extends

load-save_other_example :
    load host accounts 5 (save host accounts 7 after_hold none store).1 ≡ load host accounts 5 store
load-save_other_example =
    load-save_other host accounts accounts 7 5 after_hold none store store-IsLog (wired-Knows host)
      refl

no_lost_update_example :
    let s' = (save host accounts 7 after_hold none store).1 in
    save host accounts 7 after_deposit none s' ≡ (err (conflict account_stream 7 2 3), s')
no_lost_update_example =
    no_lost_update host accounts 7 loaded after_hold after_deposit none none store store-IsLog
      (wired-Knows host) account_loads after_hold-Extends after_deposit-Extends (omega arith)
      (omega arith)

-- Version 3 of a class, with an upcaster from 1 to 2 that makes a freeze of it, and one
-- from 2 to 3.
abbrev two_upcasters : List (DomainEvent → DomainEvent)
two_upcasters = (λ e. of_account account_frozen) ∷ (λ e. e) ∷ []

abbrev third_version : Registry DomainEvent
third_version = record {
  by_name =
      ("Renamed", record { event_cls = "FundsHeld"; schema_version = 3; upcasters = two_upcasters })
      ∷ [];
  name_by_cls = ("FundsHeld", "Renamed") ∷ [];
}

registers : register "FundsHeld" (some "Renamed") 3 two_upcasters empty_registry ≡ ok third_version
unfolding register
registers = refl

deserialize-register_example :
    deserialize host third_version "Renamed" 2 (of_account (funds_held (euros 1) 4))
    ≡ ok (of_account (funds_held (euros 1) 4))
deserialize-register_example =
    deserialize-register host "FundsHeld" (some "Renamed") 3 two_upcasters empty_registry
      third_version registers 1 (of_account (funds_held (euros 1) 4)) (omega arith)

append_lem_example :
    append host account_stream 7 1 (of_account account_frozen ∷ []) empty_metadata store
    ≡ (err (conflict account_stream 7 1 2), store)
unfolding load_stream
append_lem_example =
    append_lem host account_stream 7 empty_metadata 1 (of_account account_frozen ∷ []) store
      store-IsLog (wired-Knows host)
