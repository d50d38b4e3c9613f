-- ===== src/Api/Retries.antt =====
-- Deposits and transfers that are sent again.
use Prim.Native.String.{String}
use text.Mathlib.Text.{◌==◌ as str_eq}
use ledger_py.Base.{◌≡◌, refl, true, false, Option, none, some, List, [], inl, inr, ◌∙◌, sym, ◌==◌}
use ledger_py.Shared.Errors.{Uuid, Error, formatted}
use ledger_py.Shared.Result.{ok, err}
use ledger_py.Shared.Exec.{Exec, Exec-cases}
use ledger_py.EventStore.Events.{Host}
use ledger_py.Saga.Messages.{TransferInput}
use ledger_py.Api.Idempotency.{Key, get_entry}
use ledger_py.Api.Idempotency.Replays.{Call, steps, not_completed}
use ledger_py.Api.Problems.{Response, Rendering, problem_response}
use ledger_py.Api.Schemas.{DepositRequest, AccountResponse, CreateTransferRequest, TransferAccepted}
use ledger_py.Api.Context.{AppContext, Gateway, Answer, model, json_response, guarded, on_store}
use ledger_py.Api.Context.Guards.{Apart, guarded-replays, guarded-free}
use ledger_py.Saga.Activities.Blocks.{IsStore}
use ledger_py.Api.Changes.{make_deposit_refused}
use ledger_py.Api.AccountRoutes.{deposit_route, deposit_handler, make_deposit}
use ledger_py.Api.TransferRoutes.{transfer_route, start_transfer, create_transfer}

abbrev pub reused : {B : Type 0} → Rendering B → Response B
reused rendering =
    problem_response rendering "idempotency_key_reused"
      (formatted "idempotency key was reused with a different request" [])

abbrev pub deposit_key : String → Key
deposit_key key = (key, "POST /api/accounts/{id}/deposit")

abbrev pub transfer_key : String → Key
transfer_key key = (key, "POST /api/transfers")

module _ {P B G : Type 0} (host : Host P) (rendering : Rendering B) (dump : AccountResponse → B)
    (fingerprint : Uuid → DepositRequest → String) where
  abbrev deposits :
      Uuid
      → DepositRequest
      → String
      → Option String
      → Exec (AppContext P B G) (Answer AccountResponse B)
  deposits id body key traceparent =
      deposit_handler host rendering dump fingerprint id body (some key) traceparent

  -- A deposit whose idempotency key was free has returned its response. Whatever requests come next,
  -- as long as none completes the key again, and whatever the event store holds by then, the same
  -- deposit with the same key is answered with the same status 200 and body, and a deposit with this
  -- key and another fingerprint is refused; both change nothing.
  pub deposit_handler-replays :
      (id id' : Uuid) (body body' : DepositRequest) (key : String) (trace trace' : Option String)
      (after : List (Call B)) (c c' c'' : AppContext P B G) (r : AccountResponse)
      → get_entry (deposit_key key) c.entries ≡ none
      → deposits id body key trace c ≡ (ok (model r), c')
      → not_completed (deposit_key key) after ≡ true
      → c''.entries ≡ steps after c'.entries
      → str_eq (fingerprint id body) (fingerprint id' body') ≡ false
      → (deposits id body key trace' c''
          ≡ (ok (json_response (record { status_code = 200; body = dump r })), c''))
        × (deposits id' body' key trace' c'' ≡ (ok (json_response (reused rendering)), c''))
  unfolding deposit_handler
  deposit_handler-replays id id' body body' key trace trace' after c c' c'' r fresh run later same
        differs =
      guarded-replays rendering (deposit_route dump) (fingerprint id body) key
        (on_store (make_deposit host id body trace)) (on_store (make_deposit host id body trace'))
        (on_store (make_deposit host id' body' trace')) after c c' c'' r (fingerprint id' body')
        (λ x. refl) (λ x. refl) (λ x. refl) fresh run later same differs

  -- On a well-formed store, a deposit whose idempotency key was free and that raises leaves the key
  -- free and the event store as it was: it can be sent again.
  pub deposit_handler-free :
      (id : Uuid) (body : DepositRequest) (key : String) (trace : Option String)
      (c c' : AppContext P B G) (e : Error)
      → IsStore host c.store
      → get_entry (deposit_key key) c.entries ≡ none
      → deposits id body key trace c ≡ (err e, c')
      → (get_entry (deposit_key key) c'.entries ≡ none)
        × (c'.store ≡ c.store)
        × (c'.gateway ≡ c.gateway)
  unfolding deposit_handler
  deposit_handler-free id body key trace c c' e h fresh run =
      let (free, raised, store, gateway) =
        guarded-free rendering (deposit_route dump) (fingerprint id body) key
          (on_store (make_deposit host id body trace)) c c' e (λ x. refl) fresh run in
      (
        free,
        store
            ∙ make_deposit_refused host id trace body e c.store
                (make_deposit host id body trace c.store).1 h
                (λ i. (raised i, (make_deposit host id body trace c.store).1)),
        gateway,
      )

module _ {P B G : Type 0} (gateway : Gateway G) (rendering : Rendering B)
    (dump : TransferAccepted → B) (fingerprint : CreateTransferRequest → String) where
  start_transfer-Apart :
      (id : Uuid) (body : CreateTransferRequest) (trace : Option String)
      → Apart {P = P} (start_transfer gateway rendering dump fingerprint id body trace)
  start_transfer-Apart id body trace c =
      let input : TransferInput = record {
        transfer_id = id;
        source_account_id = body.source_account_id;
        destination_account_id = body.destination_account_id;
        amount = record { amount = body.amount; currency = body.currency };
        reversal_of = none;
        traceparent = trace;
      } in
      elim (Exec-cases (gateway.start input c.gateway)) [
        | inl (x, g, e) ↦ rw e refl
        | inr (x, g, e) ↦ rw e refl
      ]

  create_transfer-guarded :
      (id : Uuid) (body : CreateTransferRequest) (key : Option String) (trace : Option String)
      (c : AppContext P B G)
      → (body.source_account_id == body.destination_account_id) ≡ false
      → create_transfer gateway rendering dump fingerprint id body key trace c
        ≡ guarded rendering
            (transfer_route dump)
            (fingerprint body)
            (start_transfer gateway rendering dump fingerprint id body trace)
            key
            c
  unfolding create_transfer
  create_transfer-guarded id body key trace c apart = rw apart refl

  -- A transfer between two accounts, whose idempotency key was free, has been accepted. Whatever
  -- requests come next, as long as none completes the key again, the same request with the same key
  -- is answered with the same status 202 and body, whatever new id it was given, and one with another
  -- fingerprint is refused; both start no workflow and change nothing.
  pub create_transfer-replays :
      (id id' : Uuid) (body body' : CreateTransferRequest) (key : String)
      (trace trace' : Option String) (after : List (Call B)) (c c' c'' : AppContext P B G)
      (r : TransferAccepted)
      → (body.source_account_id == body.destination_account_id) ≡ false
      → (body'.source_account_id == body'.destination_account_id) ≡ false
      → get_entry (transfer_key key) c.entries ≡ none
      → create_transfer gateway rendering dump fingerprint id body (some key) trace c
        ≡ (ok (model r), c')
      → not_completed (transfer_key key) after ≡ true
      → c''.entries ≡ steps after c'.entries
      → str_eq (fingerprint body) (fingerprint body') ≡ false
      → (create_transfer gateway rendering dump fingerprint id' body (some key) trace' c''
          ≡ (ok (json_response (record { status_code = 202; body = dump r })), c''))
        × (create_transfer gateway rendering dump fingerprint id' body' (some key) trace' c''
            ≡ (ok (json_response (reused rendering)), c''))
  create_transfer-replays id id' body body' key trace trace' after c c' c'' r two two' fresh run
        later same differs =
      let started = start_transfer gateway rendering dump fingerprint in
      let (replays, refuses) =
        guarded-replays rendering (transfer_route dump) (fingerprint body) key
          (started id body trace) (started id' body trace') (started id' body' trace') after c c'
          c'' r (fingerprint body') (start_transfer-Apart id body trace)
          (start_transfer-Apart id' body trace') (start_transfer-Apart id' body' trace') fresh
          (sym (create_transfer-guarded id body (some key) trace c two) ∙ run) later same differs in
      (
        create_transfer-guarded id' body (some key) trace' c'' two ∙ replays,
        create_transfer-guarded id' body' (some key) trace' c'' two' ∙ refuses,
      )
