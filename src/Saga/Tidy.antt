-- ===== src/Saga/Tidy.antt =====
-- Each activity of a transfer keeps the log clean: it uses the transfer's ids only for what they
-- stand for.
pub mod Journals
pub mod Proper
pub mod Steps
use mathlib.Core.Path.{subst}
use ledger_py.Base.{
  ◌≡◌, refl, Bool, true, ◌⊎◌, inl, inr, Option, none, some, List, [], ◌∷◌, ◌∙◌, sym, ap, arith,
  Bool-cases, map,
}
use ledger_py.Shared.Errors.{Uuid, Code}
use ledger_py.Shared.Result.{Result, ok, Result-cases}
use ledger_py.Shared.Exec.{Exec, Exec-cases, pure, lift, reads, ◌>>=◌, ◌>>◌}
use ledger_py.Shared.Aggregate.{Aggregate}
use ledger_py.Accounts.Account
use ledger_py.Transfers.Events.{TransferStatus}
use ledger_py.Transfers.Operations.{Uuid5}
use ledger_py.Transfers.Transfer
use ledger_py.EventStore.Events.{Host}
use ledger_py.EventStore.Records.{EventMetadata}
use ledger_py.EventStore.Memory.{Store}
use ledger_py.EventStore.Repository.{Kind, load, save, accounts, transfers, or_empty}
use ledger_py.EventStore.Memory.Append.{extended-IsLog}
use ledger_py.EventStore.Repository.Others.{save-store}
use ledger_py.Saga.Messages.{TransferInput}
use ledger_py.Saga.Activities.{change_account, milestone, milestone_of, found_account, terminating}
use ledger_py.Saga.Activities.Blocks.{IsStore, loaded-pending, accounts-Matches}
use ledger_py.Saga.Clean.{IsClean, AllProper, extended-IsClean, transfers-AllProper}

module _ {P : Type 0} (host : Host P) (uuid5 : Uuid5) (d : TransferInput) where
  -- Well formed, and clean.
  abbrev pub IsTidy : Store P → Type 0
  IsTidy s = IsStore host s × IsClean uuid5 d host s

  abbrev pub Tidy : {A : Type 0} → Exec (Store P) A → Type 0
  Tidy m = (s : Store P) → IsTidy s → IsTidy (m s).1

  pub >>=-Tidy :
      {A B : Type 0} (m : Exec (Store P) A) (f : A → Exec (Store P) B)
      → Tidy m
      → ((a : A) → Tidy (f a))
      → Tidy (m >>= f)
  >>=-Tidy m f hm hf s h = elim (Exec-cases (m s)) [
    | inl (a, s₁, done) ↦
        let first : IsTidy s₁ = subst (λ p. IsTidy p.1) done (hm s h) in rw done (hf a s₁ first)
    | inr (e, s₁, failed) ↦ rw failed (subst (λ p. IsTidy p.1) failed (hm s h))
  ]

  pub terminating-Tidy :
      {A : Type 0} (codes : List Code) (m : Exec (Store P) A) → Tidy m → Tidy (terminating codes m)
  terminating-Tidy codes m hm s h = elim (Exec-cases (m s)) [
    | inl (a, s₁, done) ↦ rw done (subst (λ p. IsTidy p.1) done (hm s h))
    | inr (e, s₁, failed) ↦ rw failed (subst (λ p. IsTidy p.1) failed (hm s h))
  ]

  -- What a read has found, and what is done with it.
  pub reading-Tidy :
      {A B : Type 0} (read : Store P → Result A) (f : A → Exec (Store P) B)
      → ((a : A) (s : Store P) → read s ≡ ok a → IsTidy s → IsTidy (f a s).1)
      → Tidy (reads read >>= f)
  reading-Tidy read f hf s h = elim (Result-cases (read s)) [
    | inr (e, failed) ↦ rw failed h
    | inl (a, found) ↦ rw found (hf a s found h)
  ]

  -- A save of an aggregate whose buffered events are proper.
  pub saving-Tidy :
      {S E : Type 0} (kind : Kind S E) (id : Uuid) (r : Aggregate S E) (m : Option EventMetadata)
      → AllProper uuid5 d kind.stream_type id (map kind.embed r.pending)
      → Tidy (do save host kind id r m; pure tt)
  saving-Tidy kind id r m new = >>=-Tidy (save host kind id r m) _ saves (λ _ s h. h)
    where
      saves : Tidy (save host kind id r m)
      saves s h = elim (save-store host kind id r m s h.0.is_log h.0.knows) [
        | inl same ↦ subst IsTidy (sym same) h
        | inr later ↦ subst IsTidy (sym later) (
          record {
            is_log =
                extended-IsLog host kind.stream_type id (or_empty m) (map kind.embed r.pending) s
                  h.0.is_log;
            knows = h.0.knows;
          },
          extended-IsClean uuid5 d host kind.stream_type id (or_empty m) (map kind.embed r.pending)
              s h.0 h.1 new,
        )
      ]

  pub change_account-Tidy :
      (id : Uuid) (m : Option EventMetadata) (command : Account.Root → Result Account.Root)
      → ((b r : Account.Root)
          → b.pending ≡ []
          → command b ≡ ok r
          → AllProper uuid5 d accounts.stream_type id (map accounts.embed r.pending))
      → Tidy (change_account host id m command)
  unfolding change_account
  change_account-Tidy id m command proper = reading-Tidy (load host accounts id) _ changed
    where
      changed :
          (found : Option Account.Root) (s : Store P)
          → load host accounts id s ≡ ok found
          → IsTidy s
          → IsTidy
              ((do
                account ← lift (found_account id found)
                r ← lift (command account)
                save host accounts id r m
                pure tt)
                s).1
      changed none s found h = h
      changed (some b) s found h =
          reading-Tidy (λ _. command b) _
            (λ r u done k.
              saving-Tidy accounts id r m
                (proper b r (loaded-pending host accounts (accounts-Matches host) id s b found)
                  done)
                u k)
            s h

  pub milestone-Tidy :
      (id : Uuid) (m : Option EventMetadata) (test : TransferStatus → Bool)
      (command : Transfer.Root → Result Transfer.Root)
      → Tidy (milestone host id m test command)
  unfolding milestone
  milestone-Tidy id m test command =
      reading-Tidy (load host transfers id) _ (λ found s e h. of_found found s h)
    where
      of_found : (found : Option Transfer.Root) → Tidy (milestone_of host id m test command found)
      of_found none s h = h
      of_found (some t) s h = elim (Bool-cases (test t.state.status)) [
        | inr passed ↦ rw passed h
        | inl due ↦ rw due (
            reading-Tidy (λ _. command t) _
              (λ r u done k.
                saving-Tidy transfers id r m (transfers-AllProper uuid5 d id r.pending) u k)
              s h)
      ]
