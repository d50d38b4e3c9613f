-- ===== src/Projections/Runner.antt =====
-- projections/runner.py: batches from the log, through every projector, with a checkpoint.
pub mod Drains
use Prim.Native.String.{String}
use ledger_py.Base.{ℕ, zero, suc, ◌+◌, ◌==◌, Option, none, some, List, [], ◌∷◌, if◌then◌else◌}
use ledger_py.Base.Lists.{length}
use ledger_py.Shared.Result.{Result, ok, err}
use ledger_py.Shared.Exec.{Exec, ◌>>=◌, ◌>>◌, pure}
use ledger_py.EventStore.Records.{StoredEvent}
use ledger_py.EventStore.Registry.{get, put}
use ledger_py.EventStore.Memory.{Store, read_all}

-- `InMemoryCheckpointStore._positions`
abbrev pub Checkpoints : Type 0
Checkpoints = List (String × ℕ)

abbrev pub or_zero : Option ℕ → ℕ
or_zero none = 0
or_zero (some n) = n

abbrev pub load_checkpoint : String → Checkpoints → ℕ
load_checkpoint name positions = or_zero (get name positions)

abbrev pub save_checkpoint : String → ℕ → Checkpoints → Checkpoints
save_checkpoint name position positions = put name position positions

-- `Projector.project`, on the read models that the projectors keep, of type V
abbrev pub Projector : Type 0 → Type 0 → Type 0
Projector P V = StoredEvent P → Exec V (Unit {0})

-- The checkpoints and the read models.
pub record Progress (V : Type 0) : Type 0 where
  pub checkpoints : Checkpoints
  pub view : V

module _ {P V : Type 0} where
  -- the loop over the projectors
  abbrev pub feed : List (Projector P V) → StoredEvent P → Exec V (Unit {0})
  feed [] event = pure tt
  feed (p ∷ ps) event = do p event; feed ps event

  -- the loop over the batch, which ends with the last position
  unfoldable pub process : List (Projector P V) → List (StoredEvent P) → ℕ → Exec V ℕ
  process ps [] position = pure position
  process ps (event ∷ events) position = do feed ps event; process ps events event.global_position

module _ {P V : Type 0} (store : Store P) (name : String) (projectors : List (Projector P V))
    (batch_size : ℕ) where
  abbrev pub finish : List (StoredEvent P) → Checkpoints → Result ℕ × V → Result ℕ × Progress V
  finish batch c (err e, v) = (err e, record { checkpoints = c; view = v })
  finish [] c (ok position, v) = (ok 0, record { checkpoints = c; view = v })
  finish batch c (ok position, v) =
      (ok (length batch), record { checkpoints = save_checkpoint name position c; view = v })

  unfoldable pub run_once : Exec (Progress V) ℕ
  unfolding process read_all
  run_once w =
      let position = load_checkpoint name w.checkpoints in
      let batch = read_all position batch_size store in
      finish batch w.checkpoints (process projectors batch position w.view)

  -- `drain`, with fuel for its rounds and the total so far: none when the fuel runs out
  unfoldable pub drain : ℕ → ℕ → Progress V → Option (Result ℕ × Progress V)
  unfolding run_once
  drain zero total w = none
  drain (suc fuel) total w =
      let (result, w') = run_once w in
      elim result [
        | err e ↦ some (err e, w')
        | ok handled ↦ elim handled [
          | zero ↦ some (ok total, w')
          | suc n ↦ drain fuel (total + suc n) w'
        ]
      ]
