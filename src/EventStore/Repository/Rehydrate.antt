-- ===== src/EventStore/Repository/Rehydrate.antt =====
-- Rehydration, as replay over what the stream decodes to.
use ledger_py.Base.{ℕ, ◌+◌, ◌≡◌, refl, some, List, [], ◌∷◌, ◌++◌, arith, inl, inr, map}
use ledger_py.Base.Lists.{length}
use ledger_py.Shared.Errors.{Uuid, StreamType}
use ledger_py.Shared.Result.{Result, ok, ◌>>=◌, >>=-eq-ok, Result-cases}
use ledger_py.Shared.Aggregate.{Aggregate, new, load_from_history}
use ledger_py.Shared.Aggregate.Replay.{load_from_history-append}
use ledger_py.EventStore.Events.{DomainEvent, Host}
use ledger_py.EventStore.Records.{StoredEvent, EventMetadata}
use ledger_py.EventStore.Registry.{Registry, deserialize}
use ledger_py.EventStore.Memory.Append.{KnowsAll, envelopes}
use ledger_py.EventStore.Repository.{Kind, decode_all, apply_any, rehydrate}

module _ {P : Type 0} (host : Host P) where
  decode_all-append :
      (r : Registry P) (xs ys : List (StoredEvent P))
      → decode_all host r (xs ++ ys)
        ≡ (do es ← decode_all host r xs; fs ← decode_all host r ys; ok (es ++ fs))
  unfolding decode_all
  decode_all-append r [] ys = elim (Result-cases (decode_all host r ys)) [
    | inl (fs, e) ↦ rw e
    | inr (e, raised) ↦ rw raised
  ]
  decode_all-append r (x ∷ xs) ys = ground (arith, decode_all-append r xs ys)

  decode_all-envelopes :
      (r : Registry P) (t : StreamType) (i : Uuid) (m : EventMetadata) (p v : ℕ)
      (es : List DomainEvent)
      → KnowsAll host r
      → decode_all host r (envelopes host t i m p v es) ≡ ok es
  unfolding decode_all
  decode_all-envelopes r t i m p v [] k = refl
  decode_all-envelopes r t i m p v (e ∷ es) k =
      ground (arith, (k e).reads_back, decode_all-envelopes r t i m (p + 1) (v + 1) es k)

-- `_apply` matches the events of its own type.
abbrev pub Matches : {S E : Type 0} → Kind S E → Type 0
Matches {E = E} kind = (e : E) → kind.matched (kind.embed e) ≡ some e

module _ {S E : Type 0} (kind : Kind S E) (ms : Matches kind) where
  replay_embedded :
      (es : List E) (a : Aggregate S E)
      → load_from_history (apply_any kind) (map kind.embed es) a ≡ load_from_history kind.apply es a
  unfolding load_from_history
  replay_embedded [] a = refl
  replay_embedded (e ∷ es) a = elim (Result-cases (kind.apply a.state e)) [
    | inl (s, h) ↦
        ground
          (arith, ms e, h, replay_embedded es (record a { state = s; version = a.version + 1 }))
    | inr (x, h) ↦ ground (arith, ms e, h)
  ]

module _ {S E : Type 0} (kind : Kind S E) {P : Type 0} (host : Host P) where
  -- What a stream of length n rehydrates to has version n and nothing buffered.
  load_from_history-version :
      {F : Type 0} (apply : S → F → Result S) (es : List F) (a b : Aggregate S E)
      → load_from_history apply es a ≡ ok b
      → (b.version ≡ a.version + length es) × (b.pending ≡ a.pending)
  unfolding load_from_history
  load_from_history-version apply [] a b h = ground arith
  load_from_history-version apply (e ∷ es) a b h =
      let (s, first, rest) = >>=-eq-ok (apply a.state e) _ h in
      ground (
        arith,
        load_from_history-version apply es (record a { state = s; version = a.version + 1 }) b rest,
      )

  length-decode_all :
      (r : Registry P) (xs : List (StoredEvent P)) (es : List DomainEvent)
      → decode_all host r xs ≡ ok es
      → length es ≡ length xs
  unfolding decode_all
  length-decode_all r [] es h = ground arith
  length-decode_all r (x ∷ xs) es h =
      let (e, first, rest) =
        >>=-eq-ok (deserialize host r x.event_type x.schema_version x.payload) _ h in
      let (fs, decoded, joined) = >>=-eq-ok (decode_all host r xs) _ rest in
      ground (arith, length-decode_all r xs fs decoded)

  pub rehydrate_version :
      (r : Registry P) (xs : List (StoredEvent P)) (b : Aggregate S E)
      → rehydrate host kind r xs ≡ ok b
      → (b.version ≡ length xs) × (b.pending ≡ [])
  unfolding rehydrate
  rehydrate_version r xs b h =
      let (es, decoded, replayed) = >>=-eq-ok (decode_all host r xs) _ h in
      ground (
        arith,
        length-decode_all r xs es decoded,
        load_from_history-version (apply_any kind) es (new kind.factory) b replayed,
      )

  -- With more events of its own behind the stream, the aggregate is the old one taken further.
  pub rehydrate-append :
      Matches kind
      → (r : Registry P) (t : StreamType) (i : Uuid) (m : EventMetadata) (p v : ℕ)
        (xs : List (StoredEvent P)) (es : List E) (b : Aggregate S E)
      → KnowsAll host r
      → rehydrate host kind r xs ≡ ok b
      → rehydrate host kind r (xs ++ envelopes host t i m p v (map kind.embed es))
        ≡ load_from_history kind.apply es b
  unfolding rehydrate
  rehydrate-append ms r t i m p v xs es b k h =
      let new_events = map kind.embed es in
      let start : Aggregate S E = new kind.factory in
      let (old, decoded, replayed) = >>=-eq-ok (decode_all host r xs) _ h in
      ground (
        arith,
        decode_all-append host r xs (envelopes host t i m p v new_events),
        decode_all-envelopes host r t i m p v new_events k,
        load_from_history-append (apply_any kind) old new_events start,
        replay_embedded kind ms es b,
      )
