-- ===== src/Saga/Workflow/Parking.antt =====
-- The park loop: a parked transfer waits until a decision can be carried out.
use ledger_py.Base.{ℕ, ◌≡◌, Bool, true, false, none, List, [], ◌∷◌}
use ledger_py.Shared.Errors.{Uuid}
use ledger_py.Transfers.Events.{TransferStatus, completed, reconciled}
use ledger_py.Saga.Messages.{
  ReconciliationResolution, retry_credit, refund_source, TransferInput, TransferResult,
}
use ledger_py.Saga.Activities.Retried.{Activity, settles_credit, refunds_source}
use ledger_py.Saga.Flow.{Outcome, reported, raised}
use ledger_py.Saga.Workflow.{Answer, Situation, RunStatus, returned}

-- The activity that carries a decision out, its attempts, and the status that it leads to.
abbrev pub asked : TransferInput → ReconciliationResolution → Activity
asked d retry_credit = settles_credit d
asked d refund_source = refunds_source (record {
  transfer_id = d.transfer_id;
  source_account_id = d.source_account_id;
  amount = d.amount;
})

abbrev pub attempts : ReconciliationResolution → ℕ
attempts retry_credit = 3
attempts refund_source = 5

abbrev pub resolved : ReconciliationResolution → TransferStatus
resolved retry_credit = completed
resolved refund_source = reconciled

abbrev pub is_reported : {A : Type 0} → Outcome A → Bool
is_reported (reported a) = true
is_reported (raised c) = false

module _ {W : Type 0} (execute : ℕ → (a : Activity) → W → Outcome (Answer a) × W)
    (d : TransferInput) (id : Uuid) where
  -- The world after the activities of some decisions, and whether any of them reported success.
  abbrev pub world_after : List ReconciliationResolution → W → W
  world_after [] w = w
  world_after (x ∷ xs) w = world_after xs (execute (attempts x) (asked d x) w).1

  abbrev pub NoneReports : List ReconciliationResolution → W → Type 0
  NoneReports [] w = Unit {0}
  NoneReports (x ∷ xs) w =
      let (outcome, w') = execute (attempts x) (asked d x) w in
      (is_reported outcome ≡ false) × NoneReports xs w'

  abbrev after : Situation W → W → Situation W
  after s w = record s { world = w; workflow = record s.workflow { resolution = none } }

  -- what a run of the loop that ends with the decision gives
  abbrev pub Resolved : ReconciliationResolution → W → Outcome RunStatus × Situation W → Type 0
  Resolved x w p =
      (r : TransferResult) × (s' : Situation W) × (p ≡ (reported (returned r), s'))
      × (r.status ≡ resolved x)
      × (s'.workflow.status ≡ resolved x)
      × (s'.world ≡ w)
