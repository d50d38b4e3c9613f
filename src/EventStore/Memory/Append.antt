-- ===== src/EventStore/Memory/Append.antt =====
-- What `append` does to the log.
use ledger_py.Base.{
  ℕ, ◌+◌, ◌≡◌, refl, true, false, ◌&&◌, List, [], ◌∷◌, ◌++◌, ◌==◌, arith, inl, inr, Bool-cases, ◌∙◌,
  sym, ap, ==_refl, if◌then◌else◌,
}
use mathlib.Core.Path.{subst}
use mathlib.Core.List.{append-nil, append_assoc}
use ledger_py.Base.Lists.{length, select, length-append, select-append}
use ledger_py.Shared.Errors.{Uuid, StreamType, same_type, same_type_refl, conflict}
use ledger_py.Shared.Result.{ok, err}
use ledger_py.EventStore.Events.{DomainEvent, class_of, Host}
use ledger_py.EventStore.Records.{StoredEvent, EventMetadata}
use ledger_py.EventStore.Registry.{Registry}
use ledger_py.EventStore.Registry.Wired.{Knows}
use ledger_py.EventStore.Memory.{Store, in_stream, load_stream, make_stored, append_loop, append}
use ledger_py.EventStore.Memory.Log.{
  IsLog, push, push-IsLog, current_version-length, load_stream-push_in,
}

module _ {P : Type 0} (host : Host P) where
  abbrev pub KnowsAll : Registry P → Type 0
  KnowsAll r = (e : DomainEvent) → Knows host r e

  module _ (t : StreamType) (i : Uuid) (m : EventMetadata) where
    -- The stored form of an event in a stream.
    abbrev pub envelope : ℕ → ℕ → DomainEvent → StoredEvent P
    envelope position version e = record {
      global_position = position;
      event_id = host.new_event_id position;
      stream_type = t;
      stream_id = i;
      version = version;
      event_type = class_of e;
      schema_version = 1;
      payload = host.model_dump e;
      metadata = m;
      occurred_at = host.now position;
    }

    -- Consecutive positions and versions.
    abbrev pub envelopes : ℕ → ℕ → List DomainEvent → List (StoredEvent P)
    envelopes position version [] = []
    envelopes position version (e ∷ es) =
        envelope position version e ∷ envelopes (position + 1) (version + 1) es

    pub length-envelopes :
        (position version : ℕ) (es : List DomainEvent)
        → length (envelopes position version es) ≡ length es
    length-envelopes position version [] = refl
    length-envelopes position version (e ∷ es) =
        omega (arith, length-envelopes (position + 1) (version + 1) es)

    make_stored-envelope :
        (r : Registry P) (position version : ℕ) (e : DomainEvent)
        → Knows host r e
        → make_stored host t i position version m r e ≡ ok (envelope position version e)
    unfolding make_stored
    make_stored-envelope r position version e k = rw (k.named, k.at_version)

    append_loop_lem :
        (version : ℕ) (es : List DomainEvent) (done : List (StoredEvent P)) (s : Store P)
        → KnowsAll s.registry
        → append_loop host t i version m es done s ≡ (
          ok (done ++ envelopes (length s.events + 1) version es),
          record s { events = s.events ++ envelopes (length s.events + 1) version es },
        )
    unfolding append_loop
    append_loop_lem version [] done s k = ground (arith, append-nil done, append-nil s.events)
    append_loop_lem version (e ∷ es) done s k =
        let x = envelope (length s.events + 1) version e in
        ground (
          arith,
          make_stored-envelope s.registry (length s.events + 1) version e (k e),
          length-append s.events (x ∷ []),
          append_assoc done (x ∷ []) (envelopes (length s.events + 1 + 1) (version + 1) es),
          append_assoc s.events (x ∷ []) (envelopes (length s.events + 1 + 1) (version + 1) es),
          append_loop_lem (version + 1) es (done ++ x ∷ []) (push x s) k,
        )

    -- The log with the events appended to the stream, numbered on from where it ends.
    abbrev pub extended : List DomainEvent → Store P → Store P
    extended es s = record s {
      events = s.events ++ envelopes (length s.events + 1) (length (load_stream t i s) + 1) es;
    }

    select_own :
        (position version : ℕ) (es : List DomainEvent)
        → select (in_stream t i) (envelopes position version es) ≡ envelopes position version es
    select_own position version [] = refl
    select_own position version (e ∷ es) =
        ground (arith, same_type_refl t, ==_refl i, select_own (position + 1) (version + 1) es)

    select_other :
        (t' : StreamType) (i' : Uuid) (position version : ℕ) (es : List DomainEvent)
        → (same_type t t' && i == i') ≡ false
        → select (in_stream t' i') (envelopes position version es) ≡ []
    select_other t' i' position version [] h = refl
    select_other t' i' position version (e ∷ es) h =
        ground (arith, h, select_other t' i' (position + 1) (version + 1) es h)

    -- The stream grows by the new events, and no other stream changes.
    pub load_stream-extended :
        (es : List DomainEvent) (s : Store P)
        → load_stream t i (extended es s)
          ≡ load_stream t i s ++ envelopes (length s.events + 1) (length (load_stream t i s) + 1) es
    unfolding load_stream
    load_stream-extended es s =
        select-append (in_stream t i) s.events _
        ∙ ap (λ xs. select (in_stream t i) s.events ++ xs) (select_own _ _ es)

    pub load_stream-extended_other :
        (t' : StreamType) (i' : Uuid) (es : List DomainEvent) (s : Store P)
        → (same_type t t' && i == i') ≡ false
        → load_stream t' i' (extended es s) ≡ load_stream t' i' s
    unfolding load_stream
    load_stream-extended_other t' i' es s h =
        select-append (in_stream t' i') s.events _ ∙ rw (select_other t' i' _ _ es h) (append-nil _)

    extended-cons :
        (e : DomainEvent) (es : List DomainEvent) (s : Store P)
        → let x = envelope (length s.events + 1) (length (load_stream t i s) + 1) e in
          extended (e ∷ es) s ≡ extended es (push x s)
    extended-cons e es s =
        let x = envelope (length s.events + 1) (length (load_stream t i s) + 1) e in
        let own : in_stream t i x ≡ true = ground (arith, same_type_refl t, ==_refl i) in
        ground (
          arith,
          load_stream-push_in t i x s own,
          length-append (load_stream t i s) (x ∷ []),
          length-append s.events (x ∷ []),
          append_assoc s.events (x ∷ [])
              (envelopes (length s.events + 1 + 1) (length (load_stream t i s) + 1 + 1) es),
        )

    pub extended-IsLog : (es : List DomainEvent) (s : Store P) → IsLog s → IsLog (extended es s)
    extended-IsLog [] s h = subst IsLog (λ j. record s { events = sym (append-nil s.events) j }) h
    extended-IsLog (e ∷ es) s h =
        let x = envelope (length s.events + 1) (length (load_stream t i s) + 1) e in
        subst IsLog (sym (extended-cons e es s))
          (extended-IsLog es (push x s) (push-IsLog x s h (omega arith) (omega arith)))

    -- On a well-formed log whose registry knows every event: at the expected version the whole batch
    -- is appended; at any other nothing is, and the conflict names both versions.
    pub append_lem :
        (expected : ℕ) (es : List DomainEvent) (s : Store P)
        → IsLog s
        → KnowsAll s.registry
        → append host t i expected es m s ≡ (
            if length (load_stream t i s) == expected
            then (
              ok (envelopes (length s.events + 1) (length (load_stream t i s) + 1) es),
              extended es s,
            )
            else (err (conflict t i expected (length (load_stream t i s))), s))
    unfolding append
    append_lem expected es s h k =
        ground (arith, current_version-length t i s h, append_loop_lem (expected + 1) es [] s k)

    -- A well-formed log whose registry knows every event keeps its shape under an append, whichever
    -- branch it takes: positions count up from 1, and so do the versions of every stream.
    pub append-IsLog :
        (expected : ℕ) (es : List DomainEvent) (s : Store P)
        → IsLog s
        → KnowsAll s.registry
        → IsLog (append host t i expected es m s).1
    append-IsLog expected es s h k = elim (Bool-cases (length (load_stream t i s) == expected)) [
      | inl same ↦ rw (append_lem expected es s h k, same) (extended-IsLog es s h)
      | inr other ↦ rw (append_lem expected es s h k, other) h
    ]
