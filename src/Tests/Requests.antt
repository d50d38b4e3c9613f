-- ===== src/Tests/Requests.antt =====
-- Requests to the handlers, sent twice, refused, and read back.
use Prim.Native.String.{String}
use ledger_py.Base.{
  ℕ, suc, ◌≡◌, refl, none, some, List, [], ◌∷◌, ◌++◌, ◌+◌, ◌==◌, map, if◌then◌else◌,
}
use ledger_py.Base.Int.{pos, ◌+ℤ◌, ◌-ℤ◌}
use ledger_py.Shared.Errors.{
  account_stream, Uuid, Error, invalid_amount, domain, formatted, int_value,
}
use ledger_py.Shared.Result.{ok, err}
use ledger_py.Shared.Aggregate.{load_from_history, expected_version}
use ledger_py.Accounts.Events.{AccountStatus}
use ledger_py.Accounts.Account
use ledger_py.EventStore.Events.{DomainEvent, class_of}
use ledger_py.EventStore.Memory.{load_stream, append, current_version, append_loop, make_stored}
use ledger_py.EventStore.Registry.{deserialize, name_for, schema_version_for}
use ledger_py.EventStore.Repository.{load, save, rehydrate, decode_all}
use ledger_py.Api.Idempotency.{claim, complete_claim, discard, get_entry}
use ledger_py.Api.Idempotency.Replays.{Call, claims, discards, steps}
use ledger_py.Api.Problems.{Rendering}
use ledger_py.Api.Schemas.{
  DepositRequest, AccountResponse, CreateTransferRequest, TransferAccepted, EventResponse,
}
use ledger_py.Api.Context.{AppContext, Gateway, model, json_response}
use ledger_py.Api.AccountRoutes.{
  account_response, load_or_404, make_deposit, get_account, deposit_handler, get_events,
  event_response,
}
use ledger_py.Api.TransferRoutes.{create_transfer}
use ledger_py.Api.Changes.{make_deposit-get_account}
use ledger_py.Api.Pages.{IsPage, get_events-pages}
use ledger_py.Api.Retries.{
  reused, deposit_key, deposit_handler-replays, deposit_handler-free, create_transfer-replays,
}
use ledger_py.Tests.Store.{host, eur, store}
use ledger_py.Tests.Saga.{store-IsStore}

-- A body is the id that it is about, or the status of a problem.
abbrev rendering : Rendering ℕ
rendering = record {
  title_of = λ code. code;
  problem_body = λ p. p.status;
  conflict_text = λ e. formatted "conflict" [];
}

abbrev account_body : AccountResponse → ℕ
account_body r = r.account_id

abbrev transfer_body : TransferAccepted → ℕ
transfer_body r = r.transfer_id

abbrev deposit_fingerprint : Uuid → DepositRequest → String
deposit_fingerprint id body = if id == 7 then "f7" else "f8"

abbrev transfer_fingerprint : CreateTransferRequest → String
transfer_fingerprint body = if body.source_account_id == 7 then "f7" else "f8"

-- The gateway counts the workflows that it has started.
abbrev gateway : Gateway ℕ
gateway = record { start = λ d n. (ok tt, suc n); resolve = λ id x n. (ok tt, n) }

abbrev context : AppContext DomainEvent ℕ ℕ
context = record { store = store; entries = []; gateway = 0 }

abbrev five : DepositRequest
five = record { amount = pos 5; currency = eur }

abbrev nothing : DepositRequest
nothing = record { amount = pos 0; currency = eur }

abbrev response : AccountResponse
response = record {
  account_id = 7;
  currency = eur;
  status = AccountStatus.opened;
  available = pos 105;
  reserved = pos 0;
  total = pos 105;
}

abbrev deposited : AppContext DomainEvent ℕ ℕ
deposited =
    (deposit_handler host rendering account_body deposit_fingerprint 7 five (some "k") none
      context).1

-- another key is claimed, and this one is given up too late
abbrev calls : List (Call ℕ)
calls = claims ("j", "POST /api/transfers") "g" ∷ discards (deposit_key "k") ∷ []

abbrev later : AppContext DomainEvent ℕ ℕ
later = record deposited { entries = steps calls deposited.entries }

deposit_runs :
    deposit_handler host rendering account_body deposit_fingerprint 7 five (some "k") none context
    ≡ (ok (model response), deposited)
unfolding deposit_handler make_deposit create_transfer get_account get_events load_or_404
    account_response claim complete_claim discard steps load load_stream rehydrate load_from_history
    ◌+ℤ◌ ◌-ℤ◌ decode_all deserialize class_of Account.apply Account.deposit save append
    current_version expected_version append_loop make_stored name_for schema_version_for
deposit_runs = refl

deposit_handler-replays_example :
    (deposit_handler host rendering account_body deposit_fingerprint 7 five
        (some "k")
        (some "t")
        later
      ≡ (ok (json_response (record { status_code = 200; body = 7 })), later))
    × (deposit_handler host rendering account_body deposit_fingerprint 8 five
          (some "k")
          (some "t")
          later
        ≡ (ok (json_response (reused rendering)), later))
deposit_handler-replays_example =
    deposit_handler-replays host rendering account_body deposit_fingerprint 7 8 five five "k" none
      (some "t") calls context deposited later response refl deposit_runs refl refl refl

abbrev refused : AppContext DomainEvent ℕ ℕ
refused =
    (deposit_handler host rendering account_body deposit_fingerprint 7 nothing (some "k") none
      context).1

abbrev refusal : Error
refusal =
    domain invalid_amount (formatted "amount must be positive, got {}" (int_value (pos 0) ∷ []))

refused_runs :
    deposit_handler host rendering account_body deposit_fingerprint 7 nothing
      (some "k")
      none
      context
    ≡ (err refusal, refused)
unfolding deposit_handler make_deposit create_transfer get_account get_events load_or_404
    account_response claim complete_claim discard steps load load_stream rehydrate load_from_history
    ◌+ℤ◌ ◌-ℤ◌ decode_all deserialize class_of Account.apply Account.deposit save append
    current_version expected_version append_loop make_stored name_for schema_version_for
refused_runs = refl

deposit_handler-free_example :
    (get_entry (deposit_key "k") refused.entries ≡ none)
    × (refused.store ≡ store)
    × (refused.gateway ≡ context.gateway)
deposit_handler-free_example =
    deposit_handler-free host rendering account_body deposit_fingerprint 7 nothing "k" none context
      refused refusal store-IsStore refl refused_runs

made_deposit_runs : make_deposit host 7 five none store ≡ (ok response, deposited.store)
unfolding deposit_handler make_deposit create_transfer get_account get_events load_or_404
    account_response claim complete_claim discard steps load load_stream rehydrate load_from_history
    ◌+ℤ◌ ◌-ℤ◌ decode_all deserialize class_of Account.apply Account.deposit save append
    current_version expected_version append_loop make_stored name_for schema_version_for
made_deposit_runs = refl

make_deposit-get_account_example :
    (get_account host 7 deposited.store ≡ (ok response, deposited.store))
    × (before : AccountResponse) × (get_account host 7 store ≡ (ok before, store))
    × (response.available ≡ before.available +ℤ pos 5)
    × (response.reserved ≡ before.reserved)
    × (response.total ≡ before.total +ℤ pos 5)
make_deposit-get_account_example =
    make_deposit-get_account host 7 none five response store deposited.store store-IsStore
      made_deposit_runs

abbrev transfer : CreateTransferRequest
transfer = record {
  source_account_id = 7;
  destination_account_id = 8;
  amount = pos 30;
  currency = eur;
}

abbrev other_transfer : CreateTransferRequest
other_transfer = record {
  source_account_id = 8;
  destination_account_id = 7;
  amount = pos 30;
  currency = eur;
}

abbrev accepted : AppContext DomainEvent ℕ ℕ
accepted =
    (create_transfer gateway rendering transfer_body transfer_fingerprint 50 transfer (some "k")
      none context).1

create_runs :
    create_transfer gateway rendering transfer_body transfer_fingerprint 50 transfer
      (some "k")
      none
      context
    ≡ (ok (model (record { transfer_id = 50; status = "initiated" })), accepted)
unfolding deposit_handler make_deposit create_transfer get_account get_events load_or_404
    account_response claim complete_claim discard steps load load_stream rehydrate load_from_history
    ◌+ℤ◌ ◌-ℤ◌ decode_all deserialize class_of Account.apply Account.deposit save append
    current_version expected_version append_loop make_stored name_for schema_version_for
create_runs = refl

create_transfer-replays_example :
    (create_transfer gateway rendering transfer_body transfer_fingerprint 51 transfer
        (some "k")
        none
        accepted
      ≡ (ok (json_response (record { status_code = 202; body = 50 })), accepted))
    × (create_transfer gateway rendering transfer_body transfer_fingerprint 51 other_transfer
          (some "k")
          none
          accepted
        ≡ (ok (json_response (reused rendering)), accepted))
unfolding steps create_transfer
create_transfer-replays_example =
    create_transfer-replays gateway rendering transfer_body transfer_fingerprint 50 51 transfer
      other_transfer "k" none none [] context accepted accepted
      (record { transfer_id = 50; status = "initiated" }) refl refl refl create_runs refl refl refl

abbrev first_page : List (EventResponse DomainEvent)
first_page = (elim (get_events host 7 1 0 store).0 [ ok xs ↦ xs | err e ↦ [] ])

abbrev second_page : List (EventResponse DomainEvent)
second_page = (elim (get_events host 7 3 1 store).0 [ ok xs ↦ xs | err e ↦ [] ])

pages_run :
    (get_events host 7 1 0 store ≡ (ok first_page, store))
    × (get_events host 7 3 (0 + 1) store ≡ (ok second_page, store))
unfolding deposit_handler make_deposit create_transfer get_account get_events load_or_404
    account_response claim complete_claim discard steps load load_stream rehydrate load_from_history
    ◌+ℤ◌ ◌-ℤ◌ decode_all deserialize class_of Account.apply Account.deposit save append
    current_version expected_version append_loop make_stored name_for schema_version_for
pages_run = (refl, refl)

get_events-pages_example :
    IsPage 1 0 (map event_response (load_stream account_stream 7 store)) first_page
    × (get_events host 7 (1 + 3) 0 store ≡ (ok (first_page ++ second_page), store))
get_events-pages_example =
    get_events-pages host 7 1 3 0 store first_page second_page pages_run.0 pages_run.1
