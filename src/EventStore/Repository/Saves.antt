-- ===== src/EventStore/Repository/Saves.antt =====
-- A save followed by a load gives the aggregate back, and a save on a stale version is refused.
use mathlib.Core.List.{append-nil}
use ledger_py.Base.{
  ◌+◌, ◌<◌, ◌≡◌, refl, ◌≢◌, true, Option, none, some, [], arith, ◌∙◌, sym, ap, map,
}
use ledger_py.Base.Lists.{length, length-append, length-map}
use ledger_py.Shared.Errors.{Uuid, conflict}
use ledger_py.Shared.Result.{ok, err, is_ok}
use ledger_py.Shared.Aggregate.{Aggregate, new, expected_version, load_from_history}
use ledger_py.Shared.Aggregate.Replay.{Extends, cleared, expected_version-Extends}
use ledger_py.EventStore.Events.{Host}
use ledger_py.EventStore.Records.{EventMetadata}
use ledger_py.EventStore.Memory.{Store, load_stream}
use ledger_py.EventStore.Memory.Log.{IsLog}
use ledger_py.EventStore.Memory.Append.{
  KnowsAll, envelopes, length-envelopes, extended, append_lem, extended-IsLog, load_stream-extended,
}
use ledger_py.EventStore.Repository.{Kind, decode_all, rehydrate, load, save, or_empty}
use ledger_py.EventStore.Repository.Rehydrate.{Matches, rehydrate_version, rehydrate-append}

module _ {P : Type 0} (host : Host P) {S E : Type 0} (kind : Kind S E) where
  -- The stream of an id rehydrates to `b`: a loaded aggregate, or a new one if there is no stream.
  abbrev pub Stands : Uuid → Store P → Aggregate S E → Type 0
  Stands id s b = rehydrate host kind s.registry (load_stream kind.stream_type id s) ≡ ok b

  pub load-Stands :
      (id : Uuid) (s : Store P) (b : Aggregate S E)
      → load host kind id s ≡ ok (some b)
      → Stands id s b
  unfolding load
  load-Stands id s b h = ground arith

  -- The store after a save at the right version.
  abbrev pub saved : Uuid → Aggregate S E → Option EventMetadata → Store P → Store P
  saved id r m s = extended host kind.stream_type id (or_empty m) (map kind.embed r.pending) s

  pub save_lem :
      (id : Uuid) (r : Aggregate S E) (m : Option EventMetadata) (s : Store P)
      → IsLog s
      → KnowsAll host s.registry
      → expected_version r ≡ length (load_stream kind.stream_type id s)
      → save host kind id r m s ≡ (
        ok (
            envelopes host kind.stream_type id
              (or_empty m)
              (length s.events + 1)
              (length (load_stream kind.stream_type id s) + 1)
              (map kind.embed r.pending)),
        saved id r m s,
      )
  unfolding save
  save_lem id r m s h k e = ground (
    arith,
    append_lem host kind.stream_type id (or_empty m) (expected_version r) (map kind.embed r.pending)
        s h k,
    append-nil s.events,
  )

  pub saved-Stands :
      Matches kind
      → (id : Uuid) (b c r : Aggregate S E) (m : Option EventMetadata) (s : Store P)
      → KnowsAll host s.registry
      → Stands id s b
      → load_from_history kind.apply r.pending b ≡ ok c
      → Stands id (saved id r m s) c
  saved-Stands ms id b c r m s k st x =
      let t = kind.stream_type in
      rw (load_stream-extended host t id (or_empty m) (map kind.embed r.pending) s) (
        rehydrate-append kind host ms s.registry t id (or_empty m) (length s.events + 1)
          (length (load_stream t id s) + 1) (load_stream t id s) r.pending b k st
        ∙ x)

  pub length-saved :
      (id : Uuid) (r : Aggregate S E) (m : Option EventMetadata) (s : Store P)
      → length (load_stream kind.stream_type id (saved id r m s))
        ≡ length (load_stream kind.stream_type id s) + length r.pending
  length-saved id r m s =
      let t = kind.stream_type in
      let new_events = map kind.embed r.pending in
      omega (
        arith,
        ap length (load_stream-extended host t id (or_empty m) new_events s),
        length-append (load_stream t id s) (
            envelopes host t id (or_empty m) (length s.events + 1) (length (load_stream t id s) + 1)
              new_events),
        length-envelopes host t id (or_empty m) (length s.events + 1)
            (length (load_stream t id s) + 1) new_events,
        length-map r.pending kind.embed,
      )

  Stands-load :
      (id : Uuid) (s : Store P) (b : Aggregate S E)
      → Stands id s b
      → 0 < length (load_stream kind.stream_type id s)
      → load host kind id s ≡ ok (some b)
  unfolding load
  Stands-load id s b st h = grind arith

  pub load-length :
      (id : Uuid) (s : Store P) (b : Aggregate S E)
      → load host kind id s ≡ ok (some b)
      → 0 < length (load_stream kind.stream_type id s)
  unfolding load
  load-length id s b h = grind arith

  load-none :
      (id : Uuid) (s : Store P)
      → load host kind id s ≡ ok none
      → (load_stream kind.stream_type id s ≡ []) × Stands id s (new kind.factory)
  unfolding load rehydrate decode_all load_from_history
  load-none id s h = (grind arith, grind arith)

  save_conflict :
      (id : Uuid) (r : Aggregate S E) (m : Option EventMetadata) (s : Store P)
      → IsLog s
      → KnowsAll host s.registry
      → 0 < length r.pending
      → expected_version r ≢ length (load_stream kind.stream_type id s)
      → save host kind id r m s ≡ (
        err (
            conflict kind.stream_type id
              (expected_version r)
              (length (load_stream kind.stream_type id s))),
        s,
      )
  unfolding save
  save_conflict id r m s h k some_pending stale = grind (
    arith,
    append_lem host kind.stream_type id (or_empty m) (expected_version r) (map kind.embed r.pending)
        s h k,
  )

  pub loaded-expected_version :
      (id : Uuid) (b r : Aggregate S E) (s : Store P)
      → load host kind id s ≡ ok (some b)
      → Extends kind.apply b r
      → expected_version r ≡ length (load_stream kind.stream_type id s)
  loaded-expected_version id b r s found x =
      let stored = load_stream kind.stream_type id s in
      expected_version-Extends kind.apply b r x
      ∙ (rehydrate_version kind host s.registry stored b (load-Stands id s b found)).0

  -- On a well-formed log whose registry knows every event, an aggregate that was loaded and taken
  -- further by its events can be saved, the next load gives it back as it was saved, and the log
  -- keeps its shape.
  pub load-save :
      Matches kind
      → (id : Uuid) (b r : Aggregate S E) (m : Option EventMetadata) (s : Store P) → IsLog s
      → KnowsAll host s.registry
      → load host kind id s ≡ ok (some b)
      → Extends kind.apply b r
      → let (result, s') = save host kind id r m s in
        (is_ok result ≡ true) × (load host kind id s' ≡ ok (some (cleared r))) × IsLog s'
  load-save ms id b r m s h k found x =
      let done = save_lem id r m s h k (loaded-expected_version id b r s found x) in
      let stands = saved-Stands ms id b (cleared r) r m s k (load-Stands id s b found) x.replays in
      rw done (
        refl,
        Stands-load id (saved id r m s) (cleared r) stands
            (omega (arith, length-saved id r m s, load-length id s b found)),
        extended-IsLog host kind.stream_type id (or_empty m) (map kind.embed r.pending) s h,
      )

  -- The first save of an id that had no stream: the next load gives what its events make of a new
  -- aggregate.
  pub load-save-new :
      Matches kind
      → (id : Uuid) (r c : Aggregate S E) (m : Option EventMetadata) (s : Store P) → IsLog s
      → KnowsAll host s.registry
      → load host kind id s ≡ ok none
      → expected_version r ≡ 0
      → 0 < length r.pending
      → load_from_history kind.apply r.pending (new kind.factory) ≡ ok c
      → let (result, s') = save host kind id r m s in
        (is_ok result ≡ true)
        × (s' ≡ saved id r m s)
        × (load host kind id (saved id r m s) ≡ ok (some c))
  load-save-new ms id r c m s h k absent e p x =
      let (nothing, stands) = load-none id s absent in
      let done = save_lem id r m s h k (e ∙ sym (ap length nothing)) in
      rw done (
        refl,
        refl,
        Stands-load id (saved id r m s) c (saved-Stands ms id (new kind.factory) c r m s k stands x)
            (omega (arith, length-saved id r m s, p)),
      )

  -- On a well-formed log whose registry knows every event, two writers load the same aggregate, and
  -- both record something. After the first has saved, the
  -- save of the second raises a conflict and changes nothing: no update is lost.
  pub no_lost_update :
      (id : Uuid) (b first second : Aggregate S E) (m m' : Option EventMetadata) (s : Store P)
      → IsLog s
      → KnowsAll host s.registry
      → load host kind id s ≡ ok (some b)
      → Extends kind.apply b first
      → Extends kind.apply b second
      → 0 < length first.pending
      → 0 < length second.pending
      → let s' = (save host kind id first m s).1 in
        save host kind id second m' s'
        ≡ (err (conflict kind.stream_type id b.version (b.version + length first.pending)), s')
  no_lost_update id b first second m m' s h k found x y p q =
      let t = kind.stream_type in
      let s' = saved id first m s in
      let log' = extended-IsLog host t id (or_empty m) (map kind.embed first.pending) s h in
      let at_first = loaded-expected_version id b first s found x in
      let at_second = loaded-expected_version id b second s found y in
      let first_version = expected_version-Extends kind.apply b first x in
      let second_version = expected_version-Extends kind.apply b second y in
      let longer = length-saved id first m s in
      let actual : length (load_stream t id s') ≡ b.version + length first.pending = omega arith in
      let refused = save_conflict id second m' s' log' k q (omega arith) in
      rw (save_lem id first m s h k at_first)
        (refused ∙ λ i. (err (conflict t id (second_version i) (actual i)), s'))
