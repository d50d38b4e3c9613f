-- ===== src/EventStore/Memory.antt =====
-- eventstore/memory.py: the append-only log with per-stream versions.
pub mod Log
pub mod Append
use ledger_py.Base.{
  ℕ, suc, ◌+◌, not, Bool, ◌&&◌, List, [], ◌∷◌, ◌++◌, ◌==◌, if◌then◌else◌, ltb, leb,
}
use ledger_py.Base.Lists.{length, take, select}
use ledger_py.Shared.Errors.{Uuid, StreamType, same_type, conflict}
use ledger_py.Shared.Result.{Result, ok, err, ◌>>=◌}
use ledger_py.Shared.Exec.{Exec, raise, continue}
use ledger_py.EventStore.Events.{DomainEvent, Host}
use ledger_py.EventStore.Records.{EventMetadata, StoredEvent}
use ledger_py.EventStore.Registry.{Registry, name_for, schema_version_for, serialize}

pub record Store (P : Type 0) : Type 0 where
  pub registry : Registry P
  pub events : List (StoredEvent P)

module _ {P : Type 0} where
  abbrev pub in_stream : StreamType → Uuid → StoredEvent P → Bool
  in_stream stream_type stream_id e =
      same_type e.stream_type stream_type && e.stream_id == stream_id

  -- `max(..., default=0)`
  abbrev pub max_version : List (StoredEvent P) → ℕ
  max_version [] = 0
  max_version (e ∷ es) = let m = max_version es in if ltb m e.version then e.version else m

  unfoldable pub load_stream : StreamType → Uuid → Store P → List (StoredEvent P)
  load_stream stream_type stream_id s = select (in_stream stream_type stream_id) s.events

  unfoldable pub current_version : StreamType → Uuid → Store P → ℕ
  unfolding load_stream
  current_version stream_type stream_id s = max_version (load_stream stream_type stream_id s)

  unfoldable pub read_all : ℕ → ℕ → Store P → List (StoredEvent P)
  read_all from_position limit s =
      take limit (select (λ e. ltb from_position e.global_position) s.events)

module _ {P : Type 0} (host : Host P) (stream_type : StreamType) (stream_id : Uuid) where
  -- the envelope, around a payload
  unfoldable pub make_stored :
      ℕ → ℕ → EventMetadata → Registry P → DomainEvent → Result (StoredEvent P)
  make_stored position version metadata registry event = do
    name ← name_for registry event
    schema_version ← schema_version_for registry event
    ok (record {
      global_position = position;
      event_id = host.new_event_id position;
      stream_type = stream_type;
      stream_id = stream_id;
      version = version;
      event_type = name;
      schema_version = schema_version;
      payload = serialize host event;
      metadata = metadata;
      occurred_at = host.now position;
    })

  -- the loop over the events, with the version of the next one; what it has appended stays
  -- when it raises
  unfoldable pub append_loop :
      ℕ
      → EventMetadata
      → List DomainEvent
      → List (StoredEvent P)
      → Exec (Store P) (List (StoredEvent P))
  append_loop version metadata [] appended s = (ok appended, s)
  append_loop version metadata (event ∷ events) appended s =
      elim (make_stored (length s.events + 1) version metadata s.registry event) [
        | err e ↦ (err e, s)
        | ok stored ↦
            append_loop (version + 1) metadata events (appended ++ stored ∷ [])
              (record s { events = s.events ++ stored ∷ [] })
      ]

  unfoldable pub append :
      ℕ → List DomainEvent → EventMetadata → Exec (Store P) (List (StoredEvent P))
  append expected_version events metadata s =
      let actual = current_version stream_type stream_id s in
      if not (actual == expected_version)
      then (err (conflict stream_type stream_id expected_version actual), s)
      else append_loop (expected_version + 1) metadata events [] s
