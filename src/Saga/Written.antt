-- ===== src/Saga/Written.antt =====
-- Exactly which event an applied operation, or a recorded entry, of a transfer is in a clean log.
use ledger_py.Base.{◌≡◌, true, ◌&&◌, ◌⊎◌, inl, inr, some, List, [], ◌∷◌, arith, Bool-cases}
use ledger_py.Shared.Errors.{Uuid, StreamType, account_stream, journal_stream}
use ledger_py.Shared.Result.{ok, Result-cases}
use ledger_py.Transfers.Operations.{Uuid5, Step, journal_entry_id_for, journal_reversal_id_for}
use ledger_py.EventStore.Events.{DomainEvent, of_journal, Host}
use ledger_py.EventStore.Records.{StoredEvent}
use ledger_py.EventStore.Registry.{Registry, deserialize}
use ledger_py.EventStore.Memory.{Store, in_stream}
use ledger_py.Saga.Messages.{TransferInput}
use ledger_py.Saga.Applied.{applied, recorded, any_stored, decodes_to}
use ledger_py.Saga.Clean.{IsClean, AllClean, wanted, op, entry_event, reversal_event}

module _ {P : Type 0} (host : Host P) where
  abbrev Reads : Registry P → StoredEvent P → DomainEvent → Type 0
  Reads r x e = deserialize host r x.event_type x.schema_version x.payload ≡ ok e

  abbrev Among : Registry P → StreamType → Uuid → DomainEvent → List (StoredEvent P) → Type 0
  Among r t i e [] = ⊥
  Among r t i e (x ∷ xs) = ((in_stream t i x ≡ true) × Reads r x e) ⊎ Among r t i e xs

  -- The log has, in the stream, an event that reads back as this one.
  abbrev pub HasEvent : StreamType → Uuid → DomainEvent → Store P → Type 0
  HasEvent t i e s = Among s.registry t i e s.events

  module _ (uuid5 : Uuid5) (d : TransferInput) where
    decoded-wanted :
        (r : Registry P) (x : StoredEvent P) (step : Step) (e : DomainEvent)
        → wanted uuid5 d step ≡ some e
        → AllClean uuid5 d host r (x ∷ [])
        → decodes_to host (op uuid5 d step) r x ≡ true
        → Reads r x e
    decoded-wanted r x step e is_wanted clean h =
        elim (Result-cases (deserialize host r x.event_type x.schema_version x.payload)) [
          | inr (error, failed) ↦ absurd (ground (arith, failed, h))
          | inl (f, found) ↦
              let proper = clean.0.operations f step found (ground (arith, found, h)) in
              ground (arith, found, proper, is_wanted)
        ]

    applied_in :
        (r : Registry P) (i : Uuid) (step : Step) (e : DomainEvent) (xs : List (StoredEvent P))
        → wanted uuid5 d step ≡ some e
        → AllClean uuid5 d host r xs
        → any_stored (λ x. in_stream account_stream i x && decodes_to host (op uuid5 d step) r x) xs
          ≡ true
        → Among r account_stream i e xs
    applied_in r i step e [] is_wanted clean h = absurd (ground (arith, h))
    applied_in r i step e (x ∷ xs) is_wanted clean h =
        elim (Bool-cases (in_stream account_stream i x && decodes_to host (op uuid5 d step) r x)) [
          | inl here ↦ inl (
            ground (arith, here),
            decoded-wanted r x step e is_wanted (clean.0, tt) (ground (arith, here)),
          )
          | inr later ↦ inr (applied_in r i step e xs is_wanted clean.1 (ground (arith, later, h)))
        ]

    -- An operation that was applied to an account has left the event that it stands for.
    pub applied-HasEvent :
        (i : Uuid) (step : Step) (e : DomainEvent) (s : Store P)
        → wanted uuid5 d step ≡ some e
        → IsClean uuid5 d host s
        → applied host i (op uuid5 d step) s ≡ true
        → HasEvent account_stream i e s
    unfolding applied
    applied-HasEvent i step e s is_wanted clean h =
        applied_in s.registry i step e s.events is_wanted clean h

    recorded_in :
        (r : Registry P) (i : Uuid) (e : DomainEvent) (xs : List (StoredEvent P))
        → ((x : StoredEvent P)
            → AllClean uuid5 d host r (x ∷ [])
            → in_stream journal_stream i x ≡ true
            → Reads r x e)
        → AllClean uuid5 d host r xs
        → any_stored (in_stream journal_stream i) xs ≡ true
        → Among r journal_stream i e xs
    recorded_in r i e [] reads clean h = absurd (ground (arith, h))
    recorded_in r i e (x ∷ xs) reads clean h = elim (Bool-cases (in_stream journal_stream i x)) [
      | inl here ↦ inl (here, reads x (clean.0, tt) here)
      | inr later ↦ inr (recorded_in r i e xs reads clean.1 (ground (arith, later, h)))
    ]

    -- The journal stream of the transfer, when there is one, has the posting.
    pub entry-HasEvent :
        (s : Store P)
        → IsClean uuid5 d host s
        → recorded (journal_entry_id_for uuid5 d.transfer_id) s ≡ true
        → HasEvent journal_stream
            (journal_entry_id_for uuid5 d.transfer_id)
            (of_journal (entry_event uuid5 d))
            s
    unfolding recorded
    entry-HasEvent s clean h =
        recorded_in s.registry (journal_entry_id_for uuid5 d.transfer_id) _ s.events
          (λ x c own. c.0.entry own) clean h

    -- And that of its reversal, the reversal.
    pub reversal-HasEvent :
        (s : Store P)
        → IsClean uuid5 d host s
        → recorded (journal_reversal_id_for uuid5 d.transfer_id) s ≡ true
        → HasEvent journal_stream
            (journal_reversal_id_for uuid5 d.transfer_id)
            (of_journal (reversal_event uuid5 d))
            s
    unfolding recorded
    reversal-HasEvent s clean h =
        recorded_in s.registry (journal_reversal_id_for uuid5 d.transfer_id) _ s.events
          (λ x c own. c.0.reversal own) clean h
