-- ===== src/Outbox/Relay/Delivers.antt =====
-- The relay is a projection runner with one projector, and delivers every event at least once.
use Prim.Native.String.{String}
use ledger_py.Base.{
  ℕ, zero, suc, ◌+◌, ◌<◌, ◌≡◌, refl, Option, none, some, List, [], ◌∷◌, ◌++◌, arith, inl, inr, ◌∙◌,
  ap,
}
use ledger_py.Base.Lists.{length}
use ledger_py.Shared.Result.{Result, ok, err}
use ledger_py.Shared.Exec.{Exec, Exec-cases}
use ledger_py.EventStore.Records.{StoredEvent}
use ledger_py.EventStore.Memory.{Store, read_all}
use ledger_py.EventStore.Memory.Log.{IsLog}
use ledger_py.Projections.Runner
use ledger_py.Projections.Runner.{Progress, load_checkpoint, process, run_once, drain, finish}
use ledger_py.Projections.Runner.Drains.{feed_all, drain-Drained}
use ledger_py.Outbox.Relay.{Outbox, publish_all, settle_batch, relay_once, relay_drain}

module _ {P V : Type 0} (store : Store P) (publish : StoredEvent P → Exec V (Unit {0}))
    (name : String) (batch_size : ℕ) where
  publish_all-process :
      (es : List (StoredEvent P)) (n : ℕ) (v : V)
      → publish_all store publish name batch_size es n v ≡ process (publish ∷ []) es n v
  unfolding publish_all process
  publish_all-process [] n v = refl
  publish_all-process (e ∷ es) n v = elim (Exec-cases (publish e v)) [
    | inl (x, u, done) ↦ rw done (publish_all-process es e.global_position u)
    | inr (x, u, failed) ↦ rw failed refl
  ]

  -- The outbox as the progress of a runner.
  abbrev pub as_progress : Outbox V → Progress V
  as_progress w = record { checkpoints = w.checkpoints; view = w.published }

  abbrev pub as_outbox : Result ℕ × Progress V → Result ℕ × Outbox V
  as_outbox (r, w) = (r, record { checkpoints = w.checkpoints; published = w.view })

  settle_batch-finish :
      (batch : List (StoredEvent P)) (c : Runner.Checkpoints) (p : Result ℕ × V)
      → settle_batch store publish name batch_size batch c p
        ≡ as_outbox (finish store name (publish ∷ []) batch_size batch c p)
  settle_batch-finish batch c (err e, v) = refl
  settle_batch-finish [] c (ok n, v) = refl
  settle_batch-finish (e ∷ es) c (ok n, v) = refl

  relay_once-run_once :
      (w : Outbox V)
      → relay_once store publish name batch_size w
        ≡ as_outbox (run_once store name (publish ∷ []) batch_size (as_progress w))
  unfolding relay_once run_once
  relay_once-run_once w =
      let position = load_checkpoint name w.checkpoints in
      let batch = read_all position batch_size store in
      ap (settle_batch store publish name batch_size batch w.checkpoints)
        (publish_all-process batch position w.published)
      ∙ settle_batch-finish batch w.checkpoints (process (publish ∷ []) batch position w.published)

  abbrev pub as_outboxes : Option (Result ℕ × Progress V) → Option (Result ℕ × Outbox V)
  as_outboxes none = none
  as_outboxes (some p) = some (as_outbox p)

  relay_drain-drain :
      (fuel total : ℕ) (w : Outbox V)
      → relay_drain store publish name batch_size fuel total w
        ≡ as_outboxes (drain store name (publish ∷ []) batch_size fuel total (as_progress w))
  unfolding relay_drain drain
  relay_drain-drain zero total w = refl
  relay_drain-drain (suc fuel) total w =
      let same = relay_once-run_once w in
      elim (Exec-cases (run_once store name (publish ∷ []) batch_size (as_progress w))) [
        | inr (e, u, failed) ↦ ground (arith, same, failed)
        | inl (zero, u, done) ↦ ground (arith, same, done)
        | inl (suc n, u, done) ↦
            let later : Outbox V = record { checkpoints = u.checkpoints; published = u.view } in
            ground (arith, same, done, relay_drain-drain fuel (total + suc n) later)
      ]

module _ {P V : Type 0} (store : Store P) (log : IsLog store)
    (publish : StoredEvent P → Exec V (Unit {0})) (name : String) where
  -- Let the checkpoint stand behind a first part of a well-formed log, and let the publisher take the
  -- rest without raising. Then a drain of the relay ends, in at most as many rounds as there are
  -- events left and one more, it has published each of these once and in order, it returns their
  -- number, and the checkpoint stands at the end of the log.
  pub relay_drain-delivers :
      (size fuel : ℕ) (before rest : List (StoredEvent P)) (w : Outbox V) (v : V)
      → 0 < size
      → store.events ≡ before ++ rest
      → load_checkpoint name w.checkpoints ≡ length before
      → length rest < fuel
      → feed_all (publish ∷ []) rest w.published ≡ (ok tt, v)
      → (w' : Outbox V) × (relay_drain store publish name size fuel 0 w
          ≡ some (ok (length rest), w'))
        × (w'.published ≡ v)
        × (load_checkpoint name w'.checkpoints ≡ length store.events)
  relay_drain-delivers size fuel before rest w v some_size whole at enough fed =
      let (u, done, shown, caught_up) =
        drain-Drained store log name (publish ∷ []) size fuel before rest
          (as_progress store publish name size w) v some_size whole at enough fed in
      (
        record { checkpoints = u.checkpoints; published = u.view },
        relay_drain-drain store publish name size fuel 0 w
            ∙ ap (as_outboxes store publish name size) done,
        shown,
        caught_up,
      )
