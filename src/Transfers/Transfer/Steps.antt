-- ===== src/Transfers/Transfer/Steps.antt =====
-- The documented state diagram as a relation, and the aggregate's commands against it.
use Prim.Native.String.{String}
use ledger_py.Base.{◌≡◌, refl, ◌↔◌, Option, none, some, List, [], ◌∷◌, arith}
use ledger_py.Shared.Errors.{Uuid, Message}
use ledger_py.Shared.Result.{Result, ok, err, ◌>>=◌}
use ledger_py.Transfers.Events.{
  FailureReason, TransferStatus, initiated, held, posted, completed, failed, needs_reconciliation,
  reconciled,
}
use ledger_py.Transfers.Transfer.{
  Root, mark_held, mark_posted, complete, fail, park_for_reconciliation, reconcile,
}

pub data Command : Type 0 where
  marks_held : Command
  marks_posted : Uuid → Command
  completes : Command
  fails : FailureReason → Option Message → Command
  parks : Message → Command
  reconciles : String → Option Message → Command

unfoldable pub run : Command → Root → Result Root
unfolding mark_held mark_posted complete fail park_for_reconciliation reconcile
run marks_held = mark_held
run (marks_posted entry_id) = mark_posted entry_id
run completes = complete
run (fails reason detail) = fail reason detail
run (parks detail) = park_for_reconciliation detail
run (reconciles resolution detail) = reconcile resolution detail

-- The diagram: what each command may do to the status.
pub data Arrow : TransferStatus → Command → TransferStatus → Type 0 where
  hold_arrow : Arrow initiated marks_held held
  post_arrow : (entry_id : Uuid) → Arrow held (marks_posted entry_id) posted
  complete_arrow : Arrow posted completes completed
  land_arrow : Arrow needs_reconciliation completes completed
  fail_initiated :
      (reason : FailureReason) (d : Option Message) → Arrow initiated (fails reason d) failed
  fail_held : (reason : FailureReason) (d : Option Message) → Arrow held (fails reason d) failed
  fail_posted : (reason : FailureReason) (d : Option Message) → Arrow posted (fails reason d) failed
  park_arrow : (d : Message) → Arrow posted (parks d) needs_reconciliation
  reconcile_arrow :
      (resolution : String) (d : Option Message)
      → Arrow needs_reconciliation (reconciles resolution d) reconciled

-- The status after a command, if it does not raise.
unfoldable pub status_after : Command → Root → Option TransferStatus
unfolding run
status_after c r = elim (run c r) [ ok r' ↦ some r'.state.status | err e ↦ none ]

follows :
    (s s' : TransferStatus) (c : Command) (r : Root)
    → r.state.status ≡ s
    → status_after c r ≡ some s'
    → Arrow s c s'
unfolding status_after
follows initiated held marks_held r e h = hold_arrow
follows held posted (marks_posted i) r e h = post_arrow i
follows posted completed completes r e h = complete_arrow
follows needs_reconciliation completed completes r e h = land_arrow
follows initiated failed (fails x d) r e h = fail_initiated x d
follows held failed (fails x d) r e h = fail_held x d
follows posted failed (fails x d) r e h = fail_posted x d
follows posted needs_reconciliation (parks d) r e h = park_arrow d
follows needs_reconciliation reconciled (reconciles x d) r e h = reconcile_arrow x d
follows s s' c r e h = absurd (ground arith)

runs :
    {s s' : TransferStatus} {c : Command} (r : Root)
    → r.state.status ≡ s
    → Arrow s c s'
    → status_after c r ≡ some s'
unfolding status_after
runs r e hold_arrow = ground arith
runs r e (post_arrow i) = ground arith
runs r e complete_arrow = ground arith
runs r e land_arrow = ground arith
runs r e (fail_initiated x d) = ground arith
runs r e (fail_held x d) = ground arith
runs r e (fail_posted x d) = ground arith
runs r e (park_arrow d) = ground arith
runs r e (reconcile_arrow x d) = ground arith

-- A command on a transfer succeeds and leaves a status exactly when the diagram has that arrow
-- from the transfer's status.
pub step_iff :
    (c : Command) (r : Root) (s' : TransferStatus)
    → (status_after c r ≡ some s') ↔ Arrow r.state.status c s'
step_iff c r s' = (follows r.state.status s' c r refl, runs r refl)

-- Any number of commands in a row.
unfoldable pub run_all : List Command → Root → Result Root
unfolding run
run_all [] r = ok r
run_all (c ∷ cs) r = do r' ← run c r; run_all cs r'
