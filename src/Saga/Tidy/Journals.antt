-- ===== src/Saga/Tidy/Journals.antt =====
-- The journal entry of a transfer in a clean log has the legs that the transfer asks for.
use ledger_py.Base.{◌≡◌, ◌<◌, ◌+◌, true, inl, inr, some, List, [], ◌∷◌, arith, Bool-cases}
use ledger_py.Base.Lists.{select, length}
use ledger_py.Shared.Errors.{journal_stream}
use ledger_py.Shared.Result.{ok, >>=-eq-ok}
use ledger_py.Shared.Aggregate.{new, load_from_history}
use ledger_py.Journal.Entry
use ledger_py.Transfers.Operations.{Uuid5, journal_entry_id_for}
use ledger_py.EventStore.Events.{DomainEvent, of_journal, Host}
use ledger_py.EventStore.Records.{StoredEvent}
use ledger_py.EventStore.Registry.{Registry, deserialize}
use ledger_py.EventStore.Memory.{Store, in_stream, load_stream}
use ledger_py.EventStore.Repository.{load, journals, apply_any, decode_all, rehydrate}
use ledger_py.EventStore.Repository.Saves.{load-Stands, load-length}
use ledger_py.Saga.Messages.{TransferInput}
use ledger_py.Saga.Clean.{IsClean, AllClean, entry_event, entry_legs}

module _ {P : Type 0} (host : Host P) (uuid5 : Uuid5) (d : TransferInput) where
  -- Every event reads back as the transfer's posting.
  abbrev AllEntries : Registry P → List (StoredEvent P) → Type 0
  AllEntries r [] = Unit {0}
  AllEntries r (x ∷ xs) =
      (deserialize host r x.event_type x.schema_version x.payload
        ≡ ok (of_journal (entry_event uuid5 d)))
      × AllEntries r xs

  select-AllEntries :
      (r : Registry P) (xs : List (StoredEvent P))
      → AllClean uuid5 d host r xs
      → AllEntries r
          (select (in_stream journal_stream (journal_entry_id_for uuid5 d.transfer_id)) xs)
  select-AllEntries r [] h = tt
  select-AllEntries r (x ∷ xs) h =
      let id = journal_entry_id_for uuid5 d.transfer_id in
      elim (Bool-cases (in_stream journal_stream id x)) [
        | inl own ↦ rw (own, AllEntries) (h.0.entry own, select-AllEntries r xs h.1)
        | inr other ↦ rw (other, AllEntries) (select-AllEntries r xs h.1)
      ]

  -- Whatever came before, the last event decides.
  replay-legs :
      (r : Registry P) (x : StoredEvent P) (xs : List (StoredEvent P)) (es : List DomainEvent)
      (a b : Entry.Root)
      → AllEntries r (x ∷ xs)
      → decode_all host r (x ∷ xs) ≡ ok es
      → load_from_history (apply_any journals) es a ≡ ok b
      → b.state.legs ≡ entry_legs uuid5 d
  unfolding decode_all load_from_history Entry.apply
  replay-legs r x [] es a b h decoded replayed = ground (arith, h.0, decoded, replayed)
  replay-legs r x (y ∷ ys) es a b h decoded replayed =
      let (e, first, rest) =
        >>=-eq-ok (deserialize host r x.event_type x.schema_version x.payload) _ decoded in
      let (fs, others, joined) = >>=-eq-ok (decode_all host r (y ∷ ys)) _ rest in
      let posted : Entry.Root = record {
        state = record a.state { legs = entry_legs uuid5 d; posted = true };
        version = a.version + 1;
        pending = a.pending;
      } in
      replay-legs r y ys fs posted b h.1 others (ground (arith, h.0, first, joined, replayed))

  pub loaded-legs :
      (s : Store P) (entry : Entry.Root)
      → IsClean uuid5 d host s
      → load host journals (journal_entry_id_for uuid5 d.transfer_id) s ≡ ok (some entry)
      → entry.state.legs ≡ entry_legs uuid5 d
  unfolding rehydrate load_stream
  loaded-legs s entry clean found =
      let id = journal_entry_id_for uuid5 d.transfer_id in
      let (es, decoded, replayed) =
        >>=-eq-ok (decode_all host s.registry (load_stream journal_stream id s)) _
          (load-Stands host journals id s entry found) in
      of_stream s entry (load_stream journal_stream id s) es
        (select-AllEntries s.registry s.events clean) decoded replayed
        (load-length host journals id s entry found)
    where
      of_stream :
          (s : Store P) (entry : Entry.Root) (xs : List (StoredEvent P)) (es : List DomainEvent)
          → AllEntries s.registry xs
          → decode_all host s.registry xs ≡ ok es
          → load_from_history (apply_any journals) es (new Entry.init) ≡ ok entry
          → 0 < length xs
          → entry.state.legs ≡ entry_legs uuid5 d
      of_stream s entry [] es h decoded replayed some_event = absurd (omega (arith, some_event))
      of_stream s entry (x ∷ xs) es h decoded replayed some_event =
          replay-legs s.registry x xs es (new Entry.init) entry h decoded replayed
