-- ===== src/Api/AccountRoutes.antt =====
-- api/routers/accounts.py. New ids, the fingerprint (JSON and SHA-256) and the dump of a response
-- are parameters.
use Prim.Native.String.{String}
use ledger_py.Base.{ℕ, Option, none, some, List, [], ◌∷◌, map}
use ledger_py.Base.Int.{◌+ℤ◌}
use ledger_py.Shared.Errors.{Uuid, domain, not_found, formatted, uuid_value, account_stream}
use ledger_py.Shared.Result.{Result, ok, err}
use ledger_py.Shared.Exec.{Exec, pure, lift, reads, ◌>>=◌, ◌>>◌}
use ledger_py.Accounts.Account
use ledger_py.Accounts.Account.{Account, freeze, close}
use ledger_py.EventStore.Events.{Host}
use ledger_py.EventStore.Records.{EventMetadata, StoredEvent}
use ledger_py.EventStore.Memory.{Store, load_stream}
use ledger_py.EventStore.Repository.{load, save, accounts}
use ledger_py.Api.Problems.{Rendering}
use ledger_py.Api.Schemas.{OpenAccountRequest, DepositRequest, AccountResponse, EventResponse}
use ledger_py.Api.Context.{AppContext, Route, Answer, guarded, on_store, page}

-- `_account_response`
unfoldable pub account_response : Uuid → Account → AccountResponse
account_response account_id account = record {
  account_id = account_id;
  currency = account.currency;
  status = account.status;
  available = account.available.amount;
  reserved = account.reserved.amount;
  total = account.available.amount +ℤ account.reserved.amount;
}

-- `_event_response`
abbrev pub event_response : {P : Type 0} → StoredEvent P → EventResponse P
event_response event = record {
  global_position = event.global_position;
  version = event.version;
  event_type = event.event_type;
  occurred_at = event.occurred_at;
  payload = event.payload;
}

abbrev pub metadata_of : Uuid → Option String → Option EventMetadata
metadata_of account_id traceparent =
    some
      (record { correlation_id = some account_id; causation_id = none; traceparent = traceparent })

abbrev pub or_404 : {A : Type 0} → Uuid → Option A → Result A
or_404 account_id none =
    err (domain not_found (formatted "account {} not found" (uuid_value account_id ∷ [])))
or_404 account_id (some a) = ok a

-- `_DEPOSIT_ROUTE`, and the answers of the route
abbrev pub deposit_route : {B : Type 0} → (AccountResponse → B) → Route AccountResponse B
deposit_route dump = record {
  name = "POST /api/accounts/{id}/deposit";
  status_code = 200;
  in_progress_detail = formatted "a deposit with this idempotency key is already in progress" [];
  dump = dump;
}

module _ {P : Type 0} (host : Host P) where
  -- `_load_or_404`
  unfoldable pub load_or_404 : Uuid → Exec (Store P) Account.Root
  load_or_404 account_id = do
    found ← reads (load host accounts account_id)
    lift (or_404 account_id found)

  -- a command on a loaded account, saved
  abbrev pub command_on :
      Uuid → Option String → (Account.Root → Result Account.Root) → Exec (Store P) AccountResponse
  command_on account_id traceparent command = do
    account ← load_or_404 account_id
    changed ← lift (command account)
    save host accounts account_id changed (metadata_of account_id traceparent)
    pure (account_response account_id changed.state)

  -- `new_account_id` gives the id
  unfoldable pub post_account :
      Uuid → OpenAccountRequest → Option String → Exec (Store P) AccountResponse
  unfolding account_response
  post_account account_id body traceparent = do
    account ← lift (Account.open_account account_id body.currency)
    save host accounts account_id account (metadata_of account_id traceparent)
    pure (account_response account_id account.state)

  -- what `deposit` does under its claim
  unfoldable pub make_deposit :
      Uuid → DepositRequest → Option String → Exec (Store P) AccountResponse
  unfolding load_or_404 account_response
  make_deposit account_id body traceparent =
      command_on account_id traceparent
        (Account.deposit (record { amount = body.amount; currency = body.currency }))

  unfoldable pub get_account : Uuid → Exec (Store P) AccountResponse
  unfolding load_or_404 account_response
  get_account account_id = do
    account ← load_or_404 account_id
    pure (account_response account_id account.state)

  unfoldable pub freeze_account : Uuid → Option String → Exec (Store P) AccountResponse
  unfolding load_or_404 account_response
  freeze_account account_id traceparent = command_on account_id traceparent freeze

  unfoldable pub close_account : Uuid → Option String → Exec (Store P) AccountResponse
  unfolding load_or_404 account_response
  close_account account_id traceparent = command_on account_id traceparent close

  unfoldable pub get_events : Uuid → ℕ → ℕ → Exec (Store P) (List (EventResponse P))
  unfolding load_or_404
  get_events account_id limit offset = do
    load_or_404 account_id
    reads
        (λ s. ok (map event_response (page limit offset (load_stream account_stream account_id s))))

  module _ {B G : Type 0} (rendering : Rendering B) (dump : AccountResponse → B)
      (fingerprint : Uuid → DepositRequest → String) where
    unfoldable pub deposit_handler :
        Uuid
        → DepositRequest
        → Option String
        → Option String
        → Exec (AppContext P B G) (Answer AccountResponse B)
    unfolding guarded
    deposit_handler account_id body idempotency_key traceparent =
        guarded rendering (deposit_route dump) (fingerprint account_id body)
          (on_store (make_deposit account_id body traceparent)) idempotency_key
