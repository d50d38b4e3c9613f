-- ===== src/EventStore/Repository.antt =====
-- eventstore/repository.py, over the kinds of aggregate that temporal/dependencies.py wires.
pub mod Rehydrate
pub mod Saves
pub mod Others
use ledger_py.Base.{ℕ, Bool, true, false, Option, none, some, List, [], ◌∷◌, map}
use ledger_py.Shared.Errors.{Uuid, StreamType, account_stream, journal_stream, transfer_stream}
use ledger_py.Shared.Result.{Result, ok, ◌>>=◌}
use ledger_py.Shared.Exec.{Exec}
use ledger_py.Shared.Aggregate.{
  Aggregate, new, expected_version, pull_pending_events, load_from_history,
}
use ledger_py.Accounts.Events.{AccountEvent}
use ledger_py.Accounts.Account
use ledger_py.Accounts.Account.{Account}
use ledger_py.Journal.Leg.{JournalEvent}
use ledger_py.Journal.Entry
use ledger_py.Journal.Entry.{JournalEntry}
use ledger_py.Transfers.Events.{TransferEvent}
use ledger_py.Transfers.Transfer
use ledger_py.Transfers.Transfer.{Transfer}
use ledger_py.EventStore.Events.{DomainEvent, of_account, of_journal, of_transfer, Host}
use ledger_py.EventStore.Records.{EventMetadata, StoredEvent, empty_metadata}
use ledger_py.EventStore.Registry.{Registry, deserialize}
use ledger_py.EventStore.Memory.{Store, load_stream, append}

-- What the repository needs to know of a class of aggregates: `stream_type`, `factory`, `_apply`,
-- and which domain events `_apply` matches. An event of another type matches no case of `_apply`.
pub record Kind (S E : Type 0) : Type 0 where
  pub stream_type : StreamType
  pub factory : S
  pub apply : S → E → Result S
  pub embed : E → DomainEvent
  pub matched : DomainEvent → Option E

abbrev matched_account : DomainEvent → Option AccountEvent
matched_account (of_account e) = some e
matched_account e = none

abbrev matched_journal : DomainEvent → Option JournalEvent
matched_journal (of_journal e) = some e
matched_journal e = none

abbrev matched_transfer : DomainEvent → Option TransferEvent
matched_transfer (of_transfer e) = some e
matched_transfer e = none

abbrev pub accounts : Kind Account AccountEvent
accounts = record {
  stream_type = account_stream;
  factory = Account.init;
  apply = Account.apply;
  embed = of_account;
  matched = matched_account;
}

abbrev pub journals : Kind JournalEntry JournalEvent
journals = record {
  stream_type = journal_stream;
  factory = Entry.init;
  apply = Entry.apply;
  embed = of_journal;
  matched = matched_journal;
}

abbrev pub transfers : Kind Transfer TransferEvent
transfers = record {
  stream_type = transfer_stream;
  factory = Transfer.init;
  apply = Transfer.apply;
  embed = of_transfer;
  matched = matched_transfer;
}

-- `_apply` on any domain event
abbrev pub apply_any : {S E : Type 0} → Kind S E → S → DomainEvent → Result S
apply_any kind s e = elim (kind.matched e) [ none ↦ ok s | some x ↦ kind.apply s x ]

abbrev pub or_empty : Option EventMetadata → EventMetadata
or_empty none = empty_metadata
or_empty (some m) = m

module _ {P : Type 0} (host : Host P) where
  -- the list comprehension of `load`
  unfoldable pub decode_all : Registry P → List (StoredEvent P) → Result (List DomainEvent)
  decode_all r [] = ok []
  decode_all r (x ∷ xs) = do
    e ← deserialize host r x.event_type x.schema_version x.payload
    es ← decode_all r xs
    ok (e ∷ es)

  module _ {S E : Type 0} (kind : Kind S E) where
    -- the aggregate that a stream of stored events stands for
    unfoldable pub rehydrate : Registry P → List (StoredEvent P) → Result (Aggregate S E)
    rehydrate r stored = do
      events ← decode_all r stored
      load_from_history (apply_any kind) events (new kind.factory)

    unfoldable pub load : Uuid → Store P → Result (Option (Aggregate S E))
    load id s = elim (load_stream kind.stream_type id s) [
      | [] ↦ ok none
      | x ∷ xs ↦ (do aggregate ← rehydrate s.registry (x ∷ xs); ok (some aggregate))
    ]

    -- `pull_pending_events` clears the buffer of the aggregate, which its caller does not save again
    unfoldable pub save :
        Uuid → Aggregate S E → Option EventMetadata → Exec (Store P) (List (StoredEvent P))
    unfolding pull_pending_events
    save id aggregate metadata s =
        let expected = expected_version aggregate in
        let pending = (pull_pending_events aggregate).0 in
        elim pending [
          | [] ↦ (ok [], s)
          | e ∷ es ↦
              append host kind.stream_type id expected (map kind.embed (e ∷ es)) (or_empty metadata)
                s
        ]
