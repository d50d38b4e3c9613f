-- ===== src/Saga/Activities/Milestones.antt =====
-- The milestone on the transfer that ends an activity: what it leaves alone, and what doing it
-- again does.
use ledger_py.Base.{
  ◌≡◌, refl, Bool, true, false, inl, inr, Option, none, some, [], ◌∙◌, sym, ap, arith, Option-cases,
  Bool-cases,
}
use mathlib.Core.Path.{subst}
use ledger_py.Shared.Errors.{Uuid}
use ledger_py.Shared.Result.{Result, ok, Result-cases}
use ledger_py.Shared.Aggregate.Replay.{Extends, cleared}
use ledger_py.Transfers.Events.{TransferStatus}
use ledger_py.Transfers.Transfer
use ledger_py.EventStore.Events.{Host}
use ledger_py.EventStore.Records.{EventMetadata}
use ledger_py.EventStore.Memory.{Store}
use ledger_py.EventStore.Repository.{load, accounts, journals, transfers}
use ledger_py.EventStore.Repository.Saves.{saved}
use ledger_py.EventStore.Repository.Others.{load-saved_other}
use ledger_py.Saga.Activities.{milestone}
use ledger_py.Saga.Activities.Blocks.{
  IsStore, loaded-pending, saved-IsStore, save_further, transfers-Matches,
}

module _ {P : Type 0} (host : Host P) where
  -- What `milestone` needs of a command: it records events, and the status that it leaves does not
  -- pass the test again.
  pub record IsMilestone (test : TransferStatus → Bool)
      (command : Transfer.Root → Result Transfer.Root) : Type 0 where
    pub extends :
        (b r : Transfer.Root) → b.pending ≡ [] → command b ≡ ok r → Extends Transfer.apply b r
    pub leaves : (b r : Transfer.Root) → command b ≡ ok r → test r.state.status ≡ false

  -- What a milestone leaves alone, and that done again it changes nothing.
  pub record IsSettled (id : Uuid) (m : Option EventMetadata) (test : TransferStatus → Bool)
      (command : Transfer.Root → Result Transfer.Root) (s s' : Store P) : Type 0 where
    pub store : IsStore host s'
    pub accounts_kept : (x : Uuid) → load host accounts x s' ≡ load host accounts x s
    pub journals_kept : (x : Uuid) → load host journals x s' ≡ load host journals x s
    pub again : milestone host id m test command s' ≡ (ok tt, s')

  module _ (id : Uuid) (m : Option EventMetadata) (test : TransferStatus → Bool)
      (command : Transfer.Root → Result Transfer.Root) (c : IsMilestone test command) where
    milestone_passed :
        (b : Transfer.Root) (s : Store P)
        → load host transfers id s ≡ ok (some b)
        → test b.state.status ≡ false
        → milestone host id m test command s ≡ (ok tt, s)
    unfolding milestone
    milestone_passed b s found passed = ground (arith, found, passed)

    milestone_missing :
        (s : Store P)
        → load host transfers id s ≡ ok none
        → milestone host id m test command s ≡ (ok tt, s)
    unfolding milestone
    milestone_missing s found = ground (arith, found)

    unchanged :
        (s s' : Store P)
        → IsStore host s
        → milestone host id m test command s ≡ (ok tt, s')
        → milestone host id m test command s ≡ (ok tt, s)
        → IsSettled id m test command s s'
    unchanged s s' h run nop =
        subst (λ y. IsSettled id m test command s y) (ap (λ p. p.1) (sym nop ∙ run))
          (record { store = h; accounts_kept = λ x. refl; journals_kept = λ x. refl; again = nop })

    milestone_marks :
        (b r : Transfer.Root) (s s' : Store P)
        → IsStore host s
        → load host transfers id s ≡ ok (some b)
        → test b.state.status ≡ true
        → command b ≡ ok r
        → milestone host id m test command s ≡ (ok tt, s')
        → IsSettled id m test command s s'
    unfolding milestone
    milestone_marks b r s s' h found due done run =
        let x =
          c.extends b r (loaded-pending host transfers (transfers-Matches host) id s b found)
            done in
        let (new, kept, reload) =
          save_further host transfers (transfers-Matches host) id b r m s h found x in
        let result : s' ≡ saved host transfers id r m s =
          ground (arith, found, due, done, kept, run) in
        subst (λ y. IsSettled id m test command s y) (sym result)
          (record {
            store = saved-IsStore host transfers (transfers-Matches host) id r m s h;
            accounts_kept = λ y. load-saved_other host transfers accounts id y r m s refl;
            journals_kept = λ y. load-saved_other host transfers journals id y r m s refl;
            again =
                milestone_passed (cleared r) (saved host transfers id r m s) reload
                  (c.leaves b r done);
          })

    pub milestone-IsSettled :
        (s s' : Store P)
        → IsStore host s
        → milestone host id m test command s ≡ (ok tt, s')
        → IsSettled id m test command s s'
    unfolding milestone
    milestone-IsSettled s s' h run = elim (Result-cases (load host transfers id s)) [
      | inr (e, failed) ↦ absurd (ground (arith, failed, run))
      | inl (found, is_found) ↦ elim (Option-cases found) [
        | inl nothing ↦ unchanged s s' h run (milestone_missing s (is_found ∙ ap ok nothing))
        | inr (b, something) ↦
            let here = is_found ∙ ap ok something in
            elim (Bool-cases (test b.state.status)) [
              | inr passed ↦ unchanged s s' h run (milestone_passed b s here passed)
              | inl due ↦ elim (Result-cases (command b)) [
                | inr (e, failed) ↦ absurd (ground (arith, here, due, failed, run))
                | inl (r, done) ↦ milestone_marks b r s s' h here due done run
              ]
            ]
      ]
    ]
