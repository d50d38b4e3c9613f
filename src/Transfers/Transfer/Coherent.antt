-- ===== src/Transfers/Transfer/Coherent.antt =====
-- What a transfer's fields say at every point of its life.
use ledger_py.Base.{◌≡◌, ◌≢◌, Bool, true, false, Option, none, some, List, [], ◌∷◌, arith}
use ledger_py.Base.Int.{pos, ◌<ℤ◌}
use ledger_py.Shared.Errors.{Uuid}
use ledger_py.Shared.Result.{ok, ◌>>=◌, >>=-eq-ok}
use ledger_py.Shared.Money.{Money}
use ledger_py.Transfers.Events.{
  TransferStatus, posted, completed, failed, needs_reconciliation, reconciled,
}
use ledger_py.Transfers.Transfer.{Transfer, Root, initiate}
use ledger_py.Transfers.Transfer.Steps.{
  Command, marks_held, marks_posted, completes, fails, parks, reconciles, run, run_all,
}

abbrev is_some {ℓ} : {A : Type ℓ} → Option A → Bool
is_some none = false
is_some (some a) = true

-- The journal entry has been posted at these statuses.
abbrev is_past_posting : TransferStatus → Bool
is_past_posting posted = true
is_past_posting completed = true
is_past_posting needs_reconciliation = true
is_past_posting reconciled = true
is_past_posting _ = false

abbrev is_failed : TransferStatus → Bool
is_failed failed = true
is_failed _ = false

-- The parties and the amount are those of the request; past posting the journal entry is known; a
-- failure reason is there exactly when the transfer has failed.
pub record IsCoherent (source destination : Uuid) (amount : Money) (t : Transfer) : Type 0 where
  pub source_set : t.source_account_id ≡ some source
  pub destination_set : t.destination_account_id ≡ some destination
  pub amount_set : t.amount ≡ some amount
  pub entry_known : is_past_posting t.status ≡ true → is_some t.journal_entry_id ≡ true
  pub failure_known : is_some t.failure_reason ≡ is_failed t.status

module _ (s d : Uuid) (m : Money) where
  run-IsCoherent :
      (c : Command) (r r' : Root)
      → IsCoherent s d m r.state
      → run c r ≡ ok r'
      → IsCoherent s d m r'.state
  unfolding run
  run-IsCoherent marks_held r r' x h = ground (arith, x.entry_known, x.failure_known)
  run-IsCoherent (marks_posted i) r r' x h = ground (arith, x.entry_known, x.failure_known)
  run-IsCoherent completes r r' x h = ground (arith, x.entry_known, x.failure_known)
  run-IsCoherent (fails reason detail) r r' x h = ground (arith, x.entry_known, x.failure_known)
  run-IsCoherent (parks detail) r r' x h = ground (arith, x.entry_known, x.failure_known)
  run-IsCoherent (reconciles w detail) r r' x h = ground (arith, x.entry_known, x.failure_known)

  run_all-IsCoherent :
      (cs : List Command) (r r' : Root)
      → IsCoherent s d m r.state
      → run_all cs r ≡ ok r'
      → IsCoherent s d m r'.state
  unfolding run_all
  run_all-IsCoherent [] r r' x h = ground arith
  run_all-IsCoherent (c ∷ cs) r r' x h =
      let (r₁, first, rest) = >>=-eq-ok (unfold run in run c r) (λ r₁. run_all cs r₁) h in
      run_all-IsCoherent cs r₁ r' (run-IsCoherent c r r₁ x first) rest

-- A transfer that was initiated and taken through any commands that succeed was between two
-- different accounts and of a positive amount, keeps these, knows its journal entry from posting
-- on, and has a failure reason exactly when it has failed.
pub lifetime-IsCoherent :
    (id source destination : Uuid) (amount : Money) (reversal_of : Option Uuid) (cs : List Command)
    (r : Root)
    → (do
      initiated_transfer ← initiate id source destination amount reversal_of
      run_all cs initiated_transfer)
      ≡ ok r
    → (source ≢ destination)
      × (pos 0 <ℤ amount.amount)
      × IsCoherent source destination amount r.state
unfolding initiate
lifetime-IsCoherent id source destination amount reversal_of cs r h =
    let (r₀, first, rest) =
      >>=-eq-ok (initiate id source destination amount reversal_of) (run_all cs) h in
    (
      ground arith,
      ground arith,
      run_all-IsCoherent source destination amount cs r₀ r (ground arith) rest,
    )
