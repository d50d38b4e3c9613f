-- ===== src/Transfers/Operations.antt =====
-- domain/transfers/operations.py: the ids of a saga's steps. uuid5 is the standard library's: a
-- parameter, of which the saga relies on distinct names giving distinct ids. A name here is the
-- f-string "{transfer_id}:{step}", as the pair of the two.
use ledger_py.Base.{◌≡◌}
use ledger_py.Shared.Errors.{Uuid}

-- The strings that the code writes after the colon.
pub data Step : Type 0 where
  hold_step : Step
  debit_step : Step
  credit_step : Step
  refund_step : Step
  release_step : Step
  journal_step : Step
  reversal_step : Step

-- `uuid.uuid5(_NAMESPACE, f"{transfer_id}:{step}")`
pub record Uuid5 : Type 0 where
  pub derive : Uuid → Step → Uuid
  -- no two names give one id: SHA-1 collisions are assumed away
  pub derive_injective :
      (t t' : Uuid) (s s' : Step) → derive t s ≡ derive t' s' → (t ≡ t') × (s ≡ s')

module _ (uuid5 : Uuid5) where
  abbrev pub operation_id : Uuid → Step → Uuid
  operation_id transfer_id step = uuid5.derive transfer_id step

  abbrev pub journal_entry_id_for : Uuid → Uuid
  journal_entry_id_for transfer_id = uuid5.derive transfer_id journal_step

  abbrev pub journal_reversal_id_for : Uuid → Uuid
  journal_reversal_id_for transfer_id = uuid5.derive transfer_id reversal_step
