-- ===== src/Saga/Clean.antt =====
-- What the activities of one transfer write to the log, and a log in which the transfer's ids stand
-- for nothing else.
use mathlib.Core.Path.{subst}
use ledger_py.Base.{
  ◌≡◌, true, ◌&&◌, ◌==◌, Option, none, some, List, [], ◌∷◌, ◌++◌, ◌+◌, ℕ, sym, arith, map,
}
use ledger_py.Base.Lists.{length}
use ledger_py.Shared.Errors.{
  Uuid, StreamType, same_type, account_stream, journal_stream, transfer_stream, formatted,
  uuid_value,
}
use ledger_py.Shared.Result.{Result, ok}
use ledger_py.Accounts.Events.{
  AccountEvent, funds_held, hold_released, account_debited, account_credited,
}
use ledger_py.Journal.Leg
use ledger_py.Journal.Leg.{Leg, JournalEvent, journal_entry_posted}
use ledger_py.Transfers.Events.{TransferEvent}
use ledger_py.Transfers.Operations.{
  Uuid5, Step, hold_step, debit_step, credit_step, refund_step, release_step, journal_step,
  reversal_step, operation_id, journal_entry_id_for, journal_reversal_id_for,
}
use ledger_py.EventStore.Events.{DomainEvent, of_account, of_journal, of_transfer, Host}
use ledger_py.EventStore.Records.{StoredEvent, EventMetadata}
use ledger_py.EventStore.Registry.{Registry, deserialize}
use ledger_py.EventStore.Memory.{Store, load_stream}
use ledger_py.EventStore.Memory.Append.{KnowsAll, envelopes, extended}
use ledger_py.Saga.Messages.{TransferInput}
use ledger_py.Saga.Activities.Blocks.{IsStore}
use ledger_py.Saga.Applied.{applies}

module _ (uuid5 : Uuid5) (d : TransferInput) where
  abbrev pub op : Step → Uuid
  op step = operation_id uuid5 d.transfer_id step

  -- The event that each operation of the transfer should leave on its account.
  abbrev pub wanted : Step → Option DomainEvent
  wanted hold_step = some (of_account (funds_held d.amount (op hold_step)))
  wanted debit_step = some (of_account (account_debited d.amount (op debit_step)))
  wanted credit_step = some (of_account (account_credited d.amount (op credit_step)))
  wanted refund_step = some (of_account (account_credited d.amount (op refund_step)))
  wanted release_step = some (of_account (hold_released d.amount (op release_step)))
  wanted journal_step = none
  wanted reversal_step = none

  -- The source is debited in the journal, and the destination credited.
  abbrev pub entry_legs : List Leg
  entry_legs =
      Leg.debit d.source_account_id d.amount ∷ Leg.credit d.destination_account_id d.amount ∷ []

  abbrev pub entry_event : JournalEvent
  entry_event =
      journal_entry_posted entry_legs (some (formatted "{}" (uuid_value d.transfer_id ∷ [])))

  -- The reversal, the other way round.
  abbrev pub reversal_event : JournalEvent
  reversal_event =
      journal_entry_posted
        (Leg.credit d.source_account_id d.amount ∷ Leg.debit d.destination_account_id d.amount ∷ [])
        (some (formatted "reversal of {}" (uuid_value d.transfer_id ∷ [])))

  -- An event of a stream, as it is read back, that uses the ids of the transfer for nothing else.
  pub record IsProper (t : StreamType) (i : Uuid) (read : Result DomainEvent) : Type 0 where
    pub operations :
        (e : DomainEvent) (step : Step)
        → read ≡ ok e
        → applies (op step) e ≡ true
        → wanted step ≡ some e
    pub entry :
        (same_type t journal_stream && i == journal_entry_id_for uuid5 d.transfer_id) ≡ true
        → read ≡ ok (of_journal entry_event)
    pub reversal :
        (same_type t journal_stream && i == journal_reversal_id_for uuid5 d.transfer_id) ≡ true
        → read ≡ ok (of_journal reversal_event)

  -- Events that are to be written to a stream.
  abbrev pub AllProper : StreamType → Uuid → List DomainEvent → Type 0
  AllProper t i [] = Unit {0}
  AllProper t i (e ∷ es) = IsProper t i (ok e) × AllProper t i es

  module _ {P : Type 0} (host : Host P) where
    abbrev pub AllClean : Registry P → List (StoredEvent P) → Type 0
    AllClean r [] = Unit {0}
    AllClean r (x ∷ xs) =
        IsProper x.stream_type x.stream_id
          (deserialize host r x.event_type x.schema_version x.payload)
        × AllClean r xs

    -- The whole log uses the ids of the transfer for nothing else.
    abbrev pub IsClean : Store P → Type 0
    IsClean s = AllClean s.registry s.events

    append-AllClean :
        (r : Registry P) (xs ys : List (StoredEvent P))
        → AllClean r xs
        → AllClean r ys
        → AllClean r (xs ++ ys)
    append-AllClean r [] ys h k = k
    append-AllClean r (x ∷ xs) ys h k = (h.0, append-AllClean r xs ys h.1 k)

    envelopes-AllClean :
        (r : Registry P) (t : StreamType) (i : Uuid) (m : EventMetadata) (p v : ℕ)
        (es : List DomainEvent)
        → KnowsAll host r
        → AllProper t i es
        → AllClean r (envelopes host t i m p v es)
    envelopes-AllClean r t i m p v [] k h = tt
    envelopes-AllClean r t i m p v (e ∷ es) k h = (
      subst (IsProper t i) (sym (k e).reads_back) h.0,
      envelopes-AllClean r t i m (p + 1) (v + 1) es k h.1,
    )

    pub extended-IsClean :
        (t : StreamType) (i : Uuid) (m : EventMetadata) (es : List DomainEvent) (s : Store P)
        → IsStore host s
        → IsClean s
        → AllProper t i es
        → IsClean (extended host t i m es s)
    extended-IsClean t i m es s store h new = append-AllClean s.registry s.events _ h (
        envelopes-AllClean s.registry t i m (length s.events + 1) (length (load_stream t i s) + 1)
          es store.knows new)

  pub transfer-IsProper :
      (i : Uuid) (e : TransferEvent) → IsProper transfer_stream i (ok (of_transfer e))
  transfer-IsProper i e = record {
    operations = λ x step same h. ground (arith, same, h);
    entry = λ h. ground (arith, h);
    reversal = λ h. ground (arith, h);
  }

  -- The events of transfers do not use them.
  pub transfers-AllProper :
      (i : Uuid) (es : List TransferEvent) → AllProper transfer_stream i (map of_transfer es)
  transfers-AllProper i [] = tt
  transfers-AllProper i (e ∷ es) = (transfer-IsProper i e, transfers-AllProper i es)

  -- An event of an account, if it is the one that each operation in it should leave.
  pub account-IsProper :
      (i : Uuid) (e : AccountEvent)
      → ((step : Step)
          → applies (op step) (of_account e) ≡ true
          → wanted step ≡ some (of_account e))
      → IsProper account_stream i (ok (of_account e))
  account-IsProper i e h = record {
    operations = λ x step same k. by_operation x step (ground (arith, same)) k;
    entry = λ k. ground (arith, k);
    reversal = λ k. ground (arith, k);
  }
    where
      by_operation :
          (x : DomainEvent) (step : Step)
          → of_account e ≡ x
          → applies (op step) x ≡ true
          → wanted step ≡ some x
      by_operation x step same k =
          subst (λ y. applies (op step) y ≡ true → wanted step ≡ some y) same (h step) k
