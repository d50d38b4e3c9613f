-- ===== src/Api/Context.antt =====
-- api/context.py, and what the handlers share: the state behind them, the protection of a request by
-- its idempotency key, and pages of lists.
pub mod Guards
use Prim.Native.String.{String}
use ledger_py.Base.{ℕ, ◌+◌, Option, none, some, List, [], ◌∷◌, ◌≡◌}
use ledger_py.Base.Lists.{take, drop}
use ledger_py.Base.Int.{ℤ}
use ledger_py.Shared.Errors.{Error, Message, formatted, Uuid, Currency}
use ledger_py.Shared.Result.{Result, ok, err}
use ledger_py.Shared.Exec.{Exec}
use ledger_py.EventStore.Memory.{Store}
use ledger_py.Saga.Messages.{TransferInput, ReconciliationResolution}
use ledger_py.Api.Idempotency.{
  ClaimResult, new_claim, in_progress, mismatch, replay, StoredResponse, Key, Entries, claim,
  complete_claim, discard,
}
use ledger_py.Api.Problems.{Response, Rendering, problem_response}

-- The event store, the idempotency store, and Temporal as the gateway sees it.
pub record AppContext (P B G : Type 0) : Type 0 where
  pub store : Store P
  pub entries : Entries B
  pub gateway : G

-- `TransferGateway`, which Temporal's client implements
pub record Gateway (G : Type 0) : Type 0 where
  pub start : TransferInput → Exec G (Unit {0})
  pub resolve : Uuid → ReconciliationResolution → Exec G (Unit {0})

module _ {P B G : Type 0} where
  abbrev with_store :
      {A : Type 0} → AppContext P B G → Result A × Store P → Result A × AppContext P B G
  with_store c (r, s) = (r, record c { store = s })

  -- a call of the event store, and a call of the gateway
  abbrev pub on_store : {A : Type 0} → Exec (Store P) A → Exec (AppContext P B G) A
  on_store m c = with_store c (m c.store)

  abbrev with_gateway : {A : Type 0} → AppContext P B G → Result A × G → Result A × AppContext P B G
  with_gateway c (r, g) = (r, record c { gateway = g })

  abbrev pub on_gateway : {A : Type 0} → Exec G A → Exec (AppContext P B G) A
  on_gateway m c = with_gateway c (m c.gateway)

-- What a handler returns: a response model, or a finished JSON response.
pub data Answer (R B : Type 0) : Type 0 where
  model : R → Answer R B
  json_response : Response B → Answer R B

-- What FastAPI sends for it: a model goes out under the route's status code.
abbrev pub sent : {R B : Type 0} → ℕ → (R → B) → Answer R B → Response B
sent status_code dump (model r) = record { status_code = status_code; body = dump r }
sent status_code dump (json_response response) = response

-- An idempotent route: its name, its status code, what it calls a request, and the dump of its model.
pub record Route (R B : Type 0) : Type 0 where
  pub name : String
  pub status_code : ℕ
  pub in_progress_detail : Message
  pub dump : R → B

module _ {P B G R : Type 0} (rendering : Rendering B) (route : Route R B) (fingerprint : String)
    (work : Exec (AppContext P B G) R) where
  abbrev set_entries : Entries B → AppContext P B G → AppContext P B G
  set_entries es c = record c { entries = es }

  -- the response is recorded, or after a raise the claim is given up
  abbrev pub finish : Key → Result R × AppContext P B G → Result (Answer R B) × AppContext P B G
  finish key (ok r, c) =
      (ok (model r), set_entries (complete_claim key route.status_code (route.dump r) c.entries) c)
  finish key (err e, c) = (err e, set_entries (discard key c.entries) c)

  abbrev pub answer_claim :
      Key
      → (ClaimResult × Option (StoredResponse B)) × Entries B
      → Exec (AppContext P B G) (Answer R B)
  answer_claim key ((replay, some stored), es) c = (
    ok (json_response (record { status_code = stored.status_code; body = stored.body })),
    set_entries es c,
  )
  answer_claim key ((in_progress, stored), es) c = (
    ok (
        json_response
          (problem_response rendering "duplicate_request_in_progress" route.in_progress_detail)),
    set_entries es c,
  )
  answer_claim key ((mismatch, stored), es) c = (
    ok (
        json_response (
          problem_response rendering "idempotency_key_reused"
            (formatted "idempotency key was reused with a different request" []))),
    set_entries es c,
  )
  answer_claim key (p, es) c = finish key (work (set_entries es c))

  abbrev unguarded : Result R × AppContext P B G → Result (Answer R B) × AppContext P B G
  unguarded (ok r, c) = (ok (model r), c)
  unguarded (err e, c) = (err e, c)

  -- The frame of `deposit` and of `create_transfer` around their work.
  unfoldable pub guarded : Option String → Exec (AppContext P B G) (Answer R B)
  guarded none c = unguarded (work c)
  guarded (some idempotency_key) c =
      let key : Key = (idempotency_key, route.name) in
      answer_claim key (claim key fingerprint c.entries) c

-- `xs[offset : offset + limit]`
abbrev pub page : {A : Type 0} → ℕ → ℕ → List A → List A
page limit offset xs = take limit (drop offset xs)
