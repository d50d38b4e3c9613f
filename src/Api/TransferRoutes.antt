-- ===== src/Api/TransferRoutes.antt =====
-- api/routers/transfers.py and events.py. New ids, the fingerprint (JSON and SHA-256), the dump of a
-- response and the gateway to Temporal are parameters.
use Prim.Native.String.{String}
use ledger_py.Base.{ℕ, Option, none, some, List, [], ◌∷◌, map, not, ◌==◌}
use ledger_py.Base.Int.{ℤ}
use ledger_py.Shared.Errors.{
  Uuid, Currency, domain, not_found, invalid_transition, same_account_transfer, formatted,
  uuid_value, word_value, transfer_stream,
}
use ledger_py.Shared.Result.{Result, ok, err, raise_if}
use ledger_py.Shared.Exec.{Exec, pure, lift, reads, ◌>>=◌, ◌>>◌}
use ledger_py.Shared.Money.{Money}
use ledger_py.Transfers.Events.{needs_reconciliation, same_status, status_value}
use ledger_py.Transfers.Transfer
use ledger_py.Transfers.Transfer.{Transfer}
use ledger_py.EventStore.Events.{Host}
use ledger_py.EventStore.Records.{StoredEvent}
use ledger_py.EventStore.Memory.{Store, load_stream, read_all}
use ledger_py.EventStore.Repository.{load, transfers}
use ledger_py.Api.Problems.{Rendering}
use ledger_py.Api.Schemas.{
  CreateTransferRequest, TransferAccepted, ResolveTransferRequest, TransferResponse, EventResponse,
  GlobalEventResponse,
}
use ledger_py.Api.Context.{AppContext, Gateway, Route, Answer, guarded, on_store, on_gateway, page}
use ledger_py.Api.AccountRoutes.{event_response}

abbrev amount_in : Option Money → Option ℤ
amount_in none = none
amount_in (some m) = some m.amount

abbrev currency_in : Option Money → Option Currency
currency_in none = none
currency_in (some m) = some m.currency

-- `_transfer_response`
abbrev pub transfer_response : Uuid → Transfer → TransferResponse
transfer_response transfer_id transfer = record {
  transfer_id = transfer_id;
  status = transfer.status;
  source_account_id = transfer.source_account_id;
  destination_account_id = transfer.destination_account_id;
  amount = amount_in transfer.amount;
  currency = currency_in transfer.amount;
  journal_entry_id = transfer.journal_entry_id;
  failure_reason = transfer.failure_reason;
}

-- `_ROUTE`, and the answers of the route
abbrev pub transfer_route : {B : Type 0} → (TransferAccepted → B) → Route TransferAccepted B
transfer_route dump = record {
  name = "POST /api/transfers";
  status_code = 202;
  in_progress_detail = formatted "a request with this idempotency key is already in progress" [];
  dump = dump;
}

abbrev found_transfer : Uuid → Option Transfer.Root → Result Transfer.Root
found_transfer transfer_id none =
    err (domain not_found (formatted "transfer {} not found" (uuid_value transfer_id ∷ [])))
found_transfer transfer_id (some t) = ok t

abbrev some_events : {P : Type 0} → Uuid → List (StoredEvent P) → Result (List (StoredEvent P))
some_events transfer_id [] =
    err (domain not_found (formatted "transfer {} not found" (uuid_value transfer_id ∷ [])))
some_events transfer_id (e ∷ es) = ok (e ∷ es)

abbrev global_event_response : {P : Type 0} → StoredEvent P → GlobalEventResponse
global_event_response event = record {
  global_position = event.global_position;
  stream_type = event.stream_type;
  stream_id = event.stream_id;
  event_type = event.event_type;
  occurred_at = event.occurred_at;
}

-- `routers/events.py`
unfoldable pub read_events : {P : Type 0} → ℕ → ℕ → Store P → List GlobalEventResponse
unfolding read_all
read_events from_position limit s = map global_event_response (read_all from_position limit s)

module _ {P : Type 0} (host : Host P) where
  unfoldable pub get_transfer : Uuid → Exec (Store P) TransferResponse
  get_transfer transfer_id = do
    found ← reads (load host transfers transfer_id)
    transfer ← lift (found_transfer transfer_id found)
    pure (transfer_response transfer_id transfer.state)

  unfoldable pub get_transfer_events : Uuid → ℕ → ℕ → Exec (Store P) (List (EventResponse P))
  get_transfer_events transfer_id limit offset = do
    events ← reads (λ s. some_events transfer_id (load_stream transfer_stream transfer_id s))
    pure (map event_response (page limit offset events))

  module _ {B G : Type 0} (gateway : Gateway G) where
    unfoldable pub resolve_transfer :
        Uuid → ResolveTransferRequest → Exec (AppContext P B G) TransferAccepted
    resolve_transfer transfer_id body = do
      found ← on_store (reads (load host transfers transfer_id))
      transfer ← lift (found_transfer transfer_id found)
      lift (
          raise_if (not (same_status transfer.state.status needs_reconciliation)) (
            domain invalid_transition (
              formatted "transfer {} is {}, not needs_reconciliation"
                (uuid_value transfer_id ∷ word_value (status_value transfer.state.status) ∷ []))))
      on_gateway (gateway.resolve transfer_id body.resolution)
      pure (record { transfer_id = transfer_id; status = "resolving" })

module _ {P B G : Type 0} (gateway : Gateway G) (rendering : Rendering B)
    (dump : TransferAccepted → B) (fingerprint : CreateTransferRequest → String) where
  -- what `create_transfer` does under its claim; `new_transfer_id` gives the id
  abbrev pub start_transfer :
      Uuid → CreateTransferRequest → Option String → Exec (AppContext P B G) TransferAccepted
  start_transfer transfer_id body traceparent = do
    on_gateway (
        gateway.start (record {
          transfer_id = transfer_id;
          source_account_id = body.source_account_id;
          destination_account_id = body.destination_account_id;
          amount = record { amount = body.amount; currency = body.currency };
          reversal_of = none;
          traceparent = traceparent;
        }))
    pure (record { transfer_id = transfer_id; status = "initiated" })

  unfoldable pub create_transfer :
      Uuid
      → CreateTransferRequest
      → Option String
      → Option String
      → Exec (AppContext P B G) (Answer TransferAccepted B)
  unfolding guarded
  create_transfer transfer_id body idempotency_key traceparent = do
    lift (
        raise_if (body.source_account_id == body.destination_account_id) (
          domain same_account_transfer
            (formatted "source and destination must be different accounts" [])))
    guarded rendering (transfer_route dump) (fingerprint body)
        (start_transfer transfer_id body traceparent) idempotency_key
