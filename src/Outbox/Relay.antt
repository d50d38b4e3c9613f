-- ===== src/Outbox/Relay.antt =====
-- outbox/relay.py, OutboxRelay. The publisher is a parameter: what it does outside is of type V.
pub mod Delivers
use Prim.Native.String.{String}
use ledger_py.Base.{ℕ, zero, suc, ◌+◌, Option, none, some, List, [], ◌∷◌}
use ledger_py.Base.Lists.{length}
use ledger_py.Shared.Result.{Result, ok, err}
use ledger_py.Shared.Exec.{Exec, ◌>>=◌, ◌>>◌, pure}
use ledger_py.EventStore.Records.{StoredEvent}
use ledger_py.EventStore.Memory.{Store, read_all}
use ledger_py.Projections.Runner.{Checkpoints, load_checkpoint, save_checkpoint}

-- The checkpoints, and what has been published.
pub record Outbox (V : Type 0) : Type 0 where
  pub checkpoints : Checkpoints
  pub published : V

module _ {P V : Type 0} (store : Store P) (publish : StoredEvent P → Exec V (Unit {0}))
    (name : String) (batch_size : ℕ) where
  -- the loop over the batch, which ends with the last position
  unfoldable pub publish_all : List (StoredEvent P) → ℕ → Exec V ℕ
  publish_all [] position = pure position
  publish_all (event ∷ events) position = do publish event; publish_all events event.global_position

  abbrev pub settle_batch : List (StoredEvent P) → Checkpoints → Result ℕ × V → Result ℕ × Outbox V
  settle_batch batch c (err e, v) = (err e, record { checkpoints = c; published = v })
  settle_batch [] c (ok position, v) = (ok 0, record { checkpoints = c; published = v })
  settle_batch (event ∷ events) c (ok position, v) = (
    ok (length (event ∷ events)),
    record { checkpoints = save_checkpoint name position c; published = v },
  )

  -- `run_once`
  unfoldable pub relay_once : Exec (Outbox V) ℕ
  unfolding publish_all read_all
  relay_once w =
      let position = load_checkpoint name w.checkpoints in
      let batch = read_all position batch_size store in
      settle_batch batch w.checkpoints (publish_all batch position w.published)

  -- `drain`, with fuel for its rounds and the total so far: none when the fuel runs out
  unfoldable pub relay_drain : ℕ → ℕ → Outbox V → Option (Result ℕ × Outbox V)
  unfolding relay_once
  relay_drain zero total w = none
  relay_drain (suc fuel) total w =
      let (result, w') = relay_once w in
      elim result [
        | err e ↦ some (err e, w')
        | ok handled ↦ elim handled [
          | zero ↦ some (ok total, w')
          | suc n ↦ relay_drain fuel (total + suc n) w'
        ]
      ]
