-- ===== src/EventStore/Records.antt =====
-- eventstore/records.py: the envelopes of stored events.
use Prim.Native.String.{String}
use ledger_py.Base.{ℕ, Option, none}
use ledger_py.Shared.Errors.{Uuid, StreamType}

pub record EventMetadata : Type 0 where
  pub correlation_id : Option Uuid
  pub causation_id : Option Uuid
  pub traceparent : Option String

abbrev pub empty_metadata : EventMetadata
empty_metadata = record { correlation_id = none; causation_id = none; traceparent = none }

pub record StoredEvent (P : Type 0) : Type 0 where
  pub global_position : ℕ
  pub event_id : Uuid
  pub stream_type : StreamType
  pub stream_id : Uuid
  pub version : ℕ
  pub event_type : String
  pub schema_version : ℕ
  pub payload : P
  pub metadata : EventMetadata
  pub occurred_at : ℕ
