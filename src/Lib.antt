-- ===== src/Lib.antt =====
-- Verification of ledger-py, an event-sourced, double-entry payment ledger (src/ledger).
--
-- The program. An HTTP API opens accounts and starts transfers. A transfer is a saga: a workflow
-- calls activities, which load aggregates (Account, JournalEntry, Transfer) from an append-only
-- event log, run a command and save the events that it recorded under the version that was loaded.
-- Projections and the outbox relay tail the same log.
--
-- The files.
--   Base          numbers, integers, lists, Boolean tests
--   Shared        src/ledger/domain/shared: errors, Money, the aggregate base class; Result and Exec
--                 for code that raises
--   Accounts      src/ledger/domain/accounts: the Account aggregate
--   Journal       src/ledger/domain/ledger: legs, JournalEntry, the posting service
--   Transfers     src/ledger/domain/transfers: the Transfer state machine, the ids of the steps
--   EventStore    src/ledger/eventstore: registry with upcasting, in-memory log, repository
--   Saga          src/ledger/temporal: the messages, the activities and the workflow of the saga
--   Projections   src/ledger/projections: the read models, the runner with its checkpoints, and the
--                 service that puts them together
--   Outbox        src/ledger/outbox: the relay
--   Api           src/ledger/api: the two idempotency stores, problem details, schemas, and the
--                 handlers of the account, transfer and event routes
--   Tests         the theorems at concrete inputs, and runs
--
-- The correspondence. A class with fields is a record, a StrEnum and a union of events are data
-- types, and a method is a function that returns the new object in Result: `ok` or the error that
-- it raises. A call that changes the event store is an Exec of the store, which comes back after a
-- raise too. Names are the source's; `_apply` is `apply`, `Account.open` is `open_account`,
-- `_record` is `record_event`. Python's int is ℤ (counts and versions are ℕ); UUIDs and currency
-- codes are only compared, so they are numbers; the text of a message is its template with the
-- values that fill it.
--
-- Parameters. Pydantic (model_dump, model_validate), uuid5, fresh UUIDs and the clock are not the
-- program's own: they are the fields of Host and Uuid5, with the documented behaviour that is
-- relied on (what was dumped validates to itself; different names have different uuid5). Temporal
-- is the record Saga.Workflow.Attempts.Temporal: an activity is attempted up to its limit, each
-- attempt may report, be refused for good, get lost or never start, and before it others may add
-- to the log; an activity that has not reported after its last attempt raises. What others add does
-- not use the operation ids and journal streams of the transfer, which are derived from its own id
-- by uuid5, for anything but the transfer's own events (Saga.Clean.IsClean). JSON bodies,
-- fingerprints, titles, new ids, the gateway and the outbox's publisher are arguments, and so is the
-- table of the Postgres idempotency store, with what each of its four statements does to a row.
--
-- The workflow. A situation is the workflow object, the two local variables that the handler reads,
-- and the world. The decisions of an operator are the list of what the park loop takes out of
-- `_resolution`, so the loop is a structural recursion, and a run without a further decision is
-- `waiting`. What the saga has done is read off the log: `applied` for an operation id of an
-- account, `recorded` for a journal entry; in a clean log these are exactly the events of
-- Saga.Workflow.Promises, with the amount of the transfer and the legs from source to destination.
--
-- The requests. A handler runs as one step, since the in-memory stores never yield; the theorems on
-- repeated requests let any calls of the idempotency store come in between.
--
-- Loops are structural recursions. The loops on fuel are `drain` of the projection runner and of the
-- relay: one round more than there are events after the checkpoint is enough, and this is proved.
--
-- Not modelled: the Postgres event store and checkpoints (SQL through asyncpg), the cancellation of a
-- workflow, routing, validation and authentication (FastAPI and pydantic), logging, tracing, settings
-- and process start-up.
pub mod Base
pub mod Api
pub mod Outbox
pub mod Shared
pub mod Accounts
pub mod Journal
pub mod Transfers
pub mod EventStore
pub mod Projections
pub mod Saga
mod Tests
