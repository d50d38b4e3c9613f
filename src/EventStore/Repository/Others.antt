-- ===== src/EventStore/Repository/Others.antt =====
-- A save touches one stream: every other aggregate stays as it is.
use mathlib.Core.List.{append-nil}
use ledger_py.Base.{
  ◌≡◌, false, ◌&&◌, Option, ◌==◌, arith, ◌∙◌, sym, ap, map, Bool-cases, ◌⊎◌, inl, inr, ==→≡,
}
use ledger_py.Base.Lists.{length}
use ledger_py.Shared.Errors.{Uuid, same_type}
use ledger_py.Shared.Aggregate.{Aggregate, expected_version}
use ledger_py.EventStore.Events.{Host}
use ledger_py.EventStore.Records.{EventMetadata}
use ledger_py.EventStore.Memory.{Store, load_stream}
use ledger_py.EventStore.Memory.Log.{IsLog}
use ledger_py.EventStore.Memory.Append.{KnowsAll, append_lem, load_stream-extended_other}
use ledger_py.EventStore.Repository.{Kind, load, save, or_empty}
use ledger_py.EventStore.Repository.Saves.{saved, save_lem}

module _ {P : Type 0} (host : Host P) {S E : Type 0} (kind : Kind S E) where
  pub load-saved_other :
      {S' E' : Type 0} (kind' : Kind S' E') (id id' : Uuid) (r : Aggregate S E)
      (m : Option EventMetadata) (s : Store P)
      → (same_type kind.stream_type kind'.stream_type && id == id') ≡ false
      → load host kind' id' (saved host kind id r m s) ≡ load host kind' id' s
  unfolding load
  load-saved_other kind' id id' r m s h =
      let t = kind'.stream_type in
      ground (
        arith,
        load_stream-extended_other host kind.stream_type id (or_empty m) t id'
            (map kind.embed r.pending) s h,
      )

  pub save-store :
      (id : Uuid) (r : Aggregate S E) (m : Option EventMetadata) (s : Store P)
      → IsLog s
      → KnowsAll host s.registry
      → ((save host kind id r m s).1 ≡ s) ⊎ ((save host kind id r m s).1 ≡ saved host kind id r m s)
  unfolding save
  save-store id r m s h k =
      elim (Bool-cases (length (load_stream kind.stream_type id s) == expected_version r)) [
        | inl current ↦
            inr (ap (λ p. p.1) (save_lem host kind id r m s h k (sym (==→≡ _ _ current))))
        | inr stale ↦ inl (
            ground (
              arith,
              stale,
              append_lem host kind.stream_type id (or_empty m) (expected_version r)
                  (map kind.embed r.pending) s h k,
              append-nil s.events,
            ))
      ]

  -- On a well-formed log whose registry knows every event, a save of any aggregate at any version
  -- touches one stream only, whether it returns or raises: every other aggregate, of the same kind
  -- or of another, loads as before.
  pub load-save_other :
      {S' E' : Type 0} (kind' : Kind S' E') (id id' : Uuid) (r : Aggregate S E)
      (m : Option EventMetadata) (s : Store P)
      → IsLog s
      → KnowsAll host s.registry
      → (same_type kind.stream_type kind'.stream_type && id == id') ≡ false
      → load host kind' id' (save host kind id r m s).1 ≡ load host kind' id' s
  load-save_other kind' id id' r m s h k other = elim (save-store id r m s h k) [
    | inl same ↦ ap (load host kind' id') same
    | inr later ↦ ap (load host kind' id') later ∙ load-saved_other kind' id id' r m s other
  ]
