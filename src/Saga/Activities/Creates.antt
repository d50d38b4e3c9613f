-- ===== src/Saga/Activities/Creates.antt =====
-- The activities that create a stream under a derived id, and do nothing when it is there.
use ledger_py.Base.{◌≡◌, refl, inl, inr, Option, some, none, List, [], ◌∷◌, ◌∙◌, sym, ap, arith}
use ledger_py.Shared.Errors.{same_account_transfer, invalid_amount, Uuid, Message, Code}
use ledger_py.Shared.Result.{Result, ok, err}
use ledger_py.Shared.Exec.{Exec, pure, lift, ◌>>=◌, ◌>>◌}
use ledger_py.Shared.Aggregate.Replay.{cleared}
use ledger_py.Accounts.Account.Commands.{run}
use ledger_py.Transfers.Transfer
use ledger_py.Transfers.Transfer.{
  initiate, mark_held, mark_posted, complete, fail, park_for_reconciliation, reconcile,
}
use ledger_py.EventStore.Events.{Host}
use ledger_py.EventStore.Records.{EventMetadata}
use ledger_py.EventStore.Memory.{Store}
use ledger_py.EventStore.Repository.{load}
use ledger_py.Shared.Money.{Money}
use ledger_py.Saga.Messages.{TransferInput}
use ledger_py.Saga.Activities.{terminating, meta}
use ledger_py.Saga.Activities.Blocks.{saved-IsStore, transfers-Matches, IsStore}
use ledger_py.Shared.Aggregate.{Aggregate, new, expected_version, load_from_history}
use ledger_py.Base.{◌<◌, Option-cases}
use ledger_py.Base.Lists.{length}
use ledger_py.EventStore.Repository.{Kind, journals, transfers, save}
use ledger_py.EventStore.Repository.Rehydrate.{Matches}
use ledger_py.EventStore.Repository.Saves.{saved, load-save-new}
use ledger_py.Journal.Entry
use ledger_py.Journal.Entry.{post}
use ledger_py.Journal.Leg.{Leg}
use ledger_py.Saga.Activities.{record_initiated}
use mathlib.Core.Path.{subst}
use ledger_py.Shared.Result.{Result-cases}

module _ {S E : Type 0} (kind : Kind S E) where
  -- An aggregate that is new and has events to save, which a new aggregate can be rebuilt from.
  pub record IsCreated (r : Aggregate S E) : Type 0 where
    at_start : expected_version r ≡ 0
    has_events : 0 < length r.pending
    rebuilt : Aggregate S E
    replays : load_from_history kind.apply r.pending (new kind.factory) ≡ ok rebuilt

  module _ {P : Type 0} (host : Host P) (ms : Matches kind) (id : Uuid) (m : Option EventMetadata)
      (codes : List Code) where
    -- A new aggregate is made, unless that raises, and saved.
    abbrev pub create : Result (Aggregate S E) → Exec (Store P) (Unit {0})
    create made = do r ← terminating codes (lift made); save host kind id r m; pure tt

    -- What holds of the store afterwards.
    pub record IsPresent (s s' : Store P) : Type 0 where
      pub store : IsStore host s'
      pub found : Aggregate S E
      pub is_found : load host kind id s' ≡ ok (some found)

    save_created :
        (r : Aggregate S E) (s s' : Store P)
        → IsStore host s
        → load host kind id s ≡ ok none
        → IsCreated r
        → create (ok r) s ≡ (ok tt, s')
        → IsPresent s s'
    save_created r s s' h absent c run =
        let (fine, result, found) =
          load-save-new host kind ms id r c.rebuilt m s h.is_log h.knows absent c.at_start
            c.has_events c.replays in
        let same : saved host kind id r m s ≡ s' = grind (arith, fine, result, run) in
        subst (λ x. IsPresent s x) same
          (record {
            store = saved-IsStore host kind ms id r m s h;
            found = c.rebuilt;
            is_found = found;
          })

    pub create-IsPresent :
        (made : Result (Aggregate S E)) (s s' : Store P)
        → IsStore host s
        → load host kind id s ≡ ok none
        → ((r : Aggregate S E) → made ≡ ok r → IsCreated r)
        → create made s ≡ (ok tt, s')
        → IsPresent s s'
    create-IsPresent (ok r) s s' h absent c run = save_created r s s' h absent (c r refl) run
    create-IsPresent (err e) s s' h absent c run = absurd (ground (arith, run))

initiate-IsCreated :
    (id source destination : Uuid) (amount : Money) (reversal_of : Option Uuid) (r : Transfer.Root)
    → initiate id source destination amount reversal_of ≡ ok r
    → IsCreated transfers r
unfolding initiate load_from_history expected_version
initiate-IsCreated id source destination amount reversal_of r h = record {
  at_start = ground (arith, h);
  has_events = ground (arith, h);
  rebuilt = record (cleared r) { state = record r.state { transfer_id = none } };
  replays = ground (arith, h);
}

pub post-IsCreated :
    (id : Uuid) (legs : List Leg) (reference : Option Message) (r : Entry.Root)
    → post id legs reference ≡ ok r
    → IsCreated journals r
unfolding post load_from_history expected_version
post-IsCreated id legs reference r h = record {
  at_start = ground (arith, h);
  has_events = ground (arith, h);
  rebuilt = record (cleared r) { state = record r.state { entry_id = none } };
  replays = ground (arith, h);
}

module _ {P : Type 0} (host : Host P) where
  record_initiated_found :
      (d : TransferInput) (t : Transfer.Root) (s : Store P)
      → load host transfers d.transfer_id s ≡ ok (some t)
      → record_initiated host d s ≡ (ok tt, s)
  unfolding record_initiated
  record_initiated_found d t s found = ground (arith, found)

  pub record_initiated_again :
      (d : TransferInput) (s s' : Store P)
      → IsStore host s
      → record_initiated host d s ≡ (ok tt, s')
      → record_initiated host d s' ≡ (ok tt, s')
  unfolding record_initiated
  record_initiated_again d s s' h done = elim (Result-cases (load host transfers d.transfer_id s)) [
    | inr (e, failed) ↦ absurd (ground (arith, failed, done))
    | inl (found, is_found) ↦ elim (Option-cases found) [
      | inr (t, something) ↦
          let here = record_initiated_found d t s (is_found ∙ ap ok something) in
          let same : s ≡ s' = ap (λ p. p.1) (sym here ∙ done) in
          subst (λ x. record_initiated host d x ≡ (ok tt, x)) same here
      | inl nothing ↦
          let absent = is_found ∙ ap ok nothing in
          let x =
            create-IsPresent transfers host (transfers-Matches host) d.transfer_id
              (meta d.transfer_id d.traceparent) (same_account_transfer ∷ invalid_amount ∷ [])
              (initiate d.transfer_id d.source_account_id d.destination_account_id d.amount
                d.reversal_of)
              s s' h absent
              (initiate-IsCreated d.transfer_id d.source_account_id d.destination_account_id
                d.amount d.reversal_of)
              (ground (arith, absent, done)) in
          record_initiated_found d x.found s' x.is_found
    ]
  ]
