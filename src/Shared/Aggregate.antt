-- ===== src/Shared/Aggregate.antt =====
-- domain/shared/aggregate.py: state that changes only by events. `apply` is a subclass's `_apply`,
-- which may raise. The base class keeps the number of events applied and those not yet persisted.
pub mod Replay
use ledger_py.Base.{ℕ, ◌+◌, ◌-◌, Bool, true, false, List, [], ◌∷◌, ◌++◌}
use ledger_py.Base.Lists.{length}
use ledger_py.Shared.Result.{Result, ok, ◌>>=◌}

pub record Aggregate (S E : Type 0) : Type 0 where
  pub state : S
  pub version : ℕ
  pub pending : List E

module _ {S E : Type 0} where
  -- `__init__`, around the subclass's own fields
  abbrev pub new : S → Aggregate S E
  new s = record { state = s; version = 0; pending = [] }

  unfoldable pub expected_version : Aggregate S E → ℕ
  expected_version a = a.version - length a.pending

  unfoldable pub has_pending_events : Aggregate S E → Bool
  has_pending_events a = elim a.pending [ [] ↦ false | e ∷ es ↦ true ]

  -- returns the buffered events and clears the buffer
  unfoldable pub pull_pending_events : Aggregate S E → List E × Aggregate S E
  pull_pending_events a = (a.pending, record a { pending = [] })

module _ {S E : Type 0} (apply : S → E → Result S) where
  -- `_record`
  unfoldable pub record_event : E → Aggregate S E → Result (Aggregate S E)
  record_event e a = do
    s ← apply a.state e
    ok (record { state = s; version = a.version + 1; pending = a.pending ++ e ∷ [] })

-- The history may hold events that the subclass ignores, so it has a type of its own.
module _ {S E F : Type 0} (apply : S → F → Result S) where
  unfoldable pub load_from_history : List F → Aggregate S E → Result (Aggregate S E)
  load_from_history [] a = ok a
  load_from_history (e ∷ es) a = do
    s ← apply a.state e
    load_from_history es (record a { state = s; version = a.version + 1 })
