-- ===== src/Transfers/Transfer/Replay.antt =====
-- The recorded milestones rebuild the transfer.
use ledger_py.Base.{◌≡◌, List, [], ◌∷◌, arith}
use ledger_py.Shared.Result.{ok, >>=-eq-ok}
use ledger_py.Shared.Aggregate.{expected_version, load_from_history}
use ledger_py.Shared.Aggregate.Replay.{
  Extends, Extends-refl, record_event-Extends, expected_version-Extends, cleared,
}
use ledger_py.Transfers.Events.{
  TransferEvent, transfer_held, transfer_posted, transfer_completed, transfer_failed,
  transfer_parked_for_reconciliation, transfer_reconciled,
}
use ledger_py.Transfers.Transfer.{Root, apply, emit}
use ledger_py.Transfers.Transfer.Steps.{
  Command, marks_held, marks_posted, completes, fails, parks, reconciles, run, run_all,
}

abbrev pub event_of : Command → TransferEvent
event_of marks_held = transfer_held
event_of (marks_posted entry_id) = transfer_posted entry_id
event_of completes = transfer_completed
event_of (fails reason detail) = transfer_failed reason detail
event_of (parks detail) = transfer_parked_for_reconciliation detail
event_of (reconciles resolution detail) = transfer_reconciled resolution detail

pub run-emit : (c : Command) (r r' : Root) → run c r ≡ ok r' → emit (event_of c) r ≡ ok r'
unfolding run
run-emit marks_held r r' h = ground arith
run-emit (marks_posted entry_id) r r' h = ground arith
run-emit completes r r' h = ground arith
run-emit (fails reason detail) r r' h = ground arith
run-emit (parks detail) r r' h = ground arith
run-emit (reconciles resolution detail) r r' h = ground arith

pub run-Extends :
    (c : Command) (b r r' : Root) → Extends apply b r → run c r ≡ ok r' → Extends apply b r'
run-Extends c b r r' x h =
    let e : emit (event_of c) r ≡ ok r' = run-emit c r r' h in
    record_event-Extends apply (event_of c) b r r' x (unfold emit in e)

run_all-Extends :
    (cs : List Command) (b r r' : Root)
    → Extends apply b r
    → run_all cs r ≡ ok r'
    → Extends apply b r'
unfolding run_all
run_all-Extends [] b r r' x h = ground arith
run_all-Extends (c ∷ cs) b r r' x h =
    let (r₁, first, rest) = >>=-eq-ok (unfold run in run c r) (λ r₁. run_all cs r₁) h in
    run_all-Extends cs b r₁ r' (run-Extends c b r r₁ x first) rest

-- However many commands succeed on a transfer that was loaded with nothing buffered, replaying
-- what they buffered on the transfer as it was loaded gives it as it now is, and a save expects
-- the version that was loaded.
pub transfer_replays :
    (cs : List Command) (b r : Root)
    → b.pending ≡ []
    → run_all cs b ≡ ok r
    → (load_from_history apply r.pending b ≡ ok (cleared r)) × (expected_version r ≡ b.version)
transfer_replays cs b r clean h =
    let x : Extends apply b r = run_all-Extends cs b b r (Extends-refl apply b clean) h in
    (x.replays, expected_version-Extends apply b r x)
