-- ===== src/Tests/Transfers.antt =====
-- A transfer that is held and posted.
use ledger_py.Base.{ℕ, ◌≡◌, ◌≢◌, ◌↔◌, refl, none, some, [], ◌∷◌}
use ledger_py.Base.Int.{pos, ◌<ℤ◌}
use ledger_py.Shared.Result.{ok, ◌>>=◌}
use ledger_py.Shared.Aggregate.{new, load_from_history, expected_version}
use ledger_py.Shared.Aggregate.Replay.{cleared}
use ledger_py.Transfers.Events.{held, posted, transfer_initiated, transfer_held, transfer_posted}
use ledger_py.Transfers.Transfer.{Root, Transfer, apply, initiate}
use ledger_py.Transfers.Transfer.Steps.{
  marks_held, marks_posted, Arrow, status_after, run_all, step_iff,
}
use ledger_py.Transfers.Transfer.Coherent.{IsCoherent, lifetime-IsCoherent}
use ledger_py.Transfers.Transfer.Replay.{transfer_replays}
use ledger_py.Tests.Store.{euros}

abbrev held_transfer : Transfer
held_transfer = record {
  transfer_id = some 5;
  source_account_id = some 7;
  destination_account_id = some 8;
  amount = some (euros 30);
  status = held;
  journal_entry_id = none;
  failure_reason = none;
  reversal_of = none;
}

abbrev held_root : Root
held_root = new held_transfer

abbrev posted_root : Root
posted_root = record {
  state = record held_transfer { status = posted; journal_entry_id = some 6 };
  version = 1;
  pending = transfer_posted 6 ∷ [];
}

step_iff_example :
    (status_after (marks_posted 6) held_root ≡ some posted) ↔ Arrow held (marks_posted 6) posted
step_iff_example = step_iff (marks_posted 6) held_root posted

posting_runs : run_all (marks_posted 6 ∷ []) held_root ≡ ok posted_root
unfolding run_all
posting_runs = refl

transfer_replays_example :
    (load_from_history apply posted_root.pending held_root ≡ ok (cleared posted_root))
    × (expected_version posted_root ≡ 0)
transfer_replays_example =
    transfer_replays (marks_posted 6 ∷ []) held_root posted_root refl posting_runs

abbrev whole_root : Root
whole_root = record {
  state = record held_transfer { status = posted; journal_entry_id = some 6 };
  version = 3;
  pending = transfer_initiated 7 8 (euros 30) none ∷ transfer_held ∷ transfer_posted 6 ∷ [];
}

life_runs :
    (do
      initiated_transfer ← initiate 5 7 8 (euros 30) none
      run_all (marks_held ∷ marks_posted 6 ∷ []) initiated_transfer)
    ≡ ok whole_root
unfolding initiate run_all
life_runs = refl

lifetime-IsCoherent_example :
    ◌≢◌ {A = ℕ} 7 8 × (pos 0 <ℤ pos 30) × IsCoherent 7 8 (euros 30) whole_root.state
lifetime-IsCoherent_example =
    lifetime-IsCoherent 5 7 8 (euros 30) none (marks_held ∷ marks_posted 6 ∷ []) whole_root
      life_runs
