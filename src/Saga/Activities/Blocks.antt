-- ===== src/Saga/Activities/Blocks.antt =====
-- The two building blocks of the activities: a command on an account, and a milestone on the
-- transfer. What each does to the store, and what doing it again does.
use ledger_py.Base.{
  ◌≡◌, refl, inl, inr, Option, some, List, [], ◌∙◌, sym, ap, map, arith, Option-cases,
}
use mathlib.Core.Path.{subst}
use mathlib.Core.List.{append-nil}
use ledger_py.Shared.Errors.{Uuid}
use ledger_py.Shared.Result.{Result, ok, Result-cases}
use ledger_py.Shared.Aggregate.{Aggregate}
use ledger_py.Shared.Aggregate.Replay.{Extends, cleared}
use ledger_py.Accounts.Account
use ledger_py.EventStore.Events.{Host}
use ledger_py.EventStore.Records.{EventMetadata, StoredEvent}
use ledger_py.EventStore.Memory.{Store, load_stream}
use ledger_py.EventStore.Memory.Log.{IsLog}
use ledger_py.EventStore.Memory.Append.{KnowsAll, extended-IsLog}
use ledger_py.EventStore.Repository.{Kind, load, save, accounts, transfers, or_empty}
use ledger_py.EventStore.Repository.Rehydrate.{Matches, rehydrate_version}
use ledger_py.EventStore.Repository.Saves.{
  load-Stands, saved, save_lem, loaded-expected_version, load-save,
}
use ledger_py.Saga.Activities.{change_account}

module _ {P : Type 0} (host : Host P) where
  -- A well-formed log, with a registry that knows every event.
  pub record IsStore (s : Store P) : Type 0 where
    pub is_log : IsLog s
    pub knows : KnowsAll host s.registry

  module _ {S E : Type 0} (kind : Kind S E) (ms : Matches kind) where
    pub loaded-pending :
        (id : Uuid) (s : Store P) (b : Aggregate S E)
        → load host kind id s ≡ ok (some b)
        → b.pending ≡ []
    loaded-pending id s b h =
        (rehydrate_version kind host s.registry (load_stream kind.stream_type id s) b
          (load-Stands host kind id s b h)).1

    pub saved-IsStore :
        (id : Uuid) (r : Aggregate S E) (m : Option EventMetadata) (s : Store P)
        → IsStore s
        → IsStore (saved host kind id r m s)
    saved-IsStore id r m s h = record {
      is_log =
          extended-IsLog host kind.stream_type id (or_empty m) (map kind.embed r.pending) s
            h.is_log;
      knows = h.knows;
    }

    -- Saving an aggregate with nothing buffered leaves the store as it is.
    pub saved_nothing :
        (id : Uuid) (r : Aggregate S E) (m : Option EventMetadata) (s : Store P)
        → r.pending ≡ []
        → saved host kind id r m s ≡ s
    saved_nothing id r m s h = ground (arith, append-nil s.events)

    -- A loaded aggregate, taken further and saved: the store, and the next load.
    pub save_further :
        (id : Uuid) (b r : Aggregate S E) (m : Option EventMetadata) (s : Store P)
        → IsStore s
        → load host kind id s ≡ ok (some b)
        → Extends kind.apply b r
        → (new : List (StoredEvent P)) × (save host kind id r m s
            ≡ (ok new, saved host kind id r m s))
          × (load host kind id (saved host kind id r m s) ≡ ok (some (cleared r)))
    save_further id b r m s h found x =
        let done =
          save_lem host kind id r m s h.is_log h.knows
            (loaded-expected_version host kind id b r s found x) in
        let (fine, again, log') = load-save host kind ms id b r m s h.is_log h.knows found x in
        (_, done, rw done at again)

  pub accounts-Matches : Matches accounts
  accounts-Matches e = refl

  pub transfers-Matches : Matches transfers
  transfers-Matches e = refl

  -- What `change_account` needs of a command: it records events, and done again on its own result
  -- it changes nothing.
  pub record IsRepeatable (command : Account.Root → Result Account.Root) : Type 0 where
    pub extends :
        (b r : Account.Root) → b.pending ≡ [] → command b ≡ ok r → Extends Account.apply b r
    pub stable : (b r : Account.Root) → command b ≡ ok r → command (cleared r) ≡ ok (cleared r)

  -- The account before and after, and the store that holds it.
  pub record Changed (id : Uuid) (m : Option EventMetadata)
      (command : Account.Root → Result Account.Root) (s s' : Store P) : Type 0 where
    pub before : Account.Root
    pub after : Account.Root
    pub loaded : load host accounts id s ≡ ok (some before)
    pub commanded : command before ≡ ok after
    pub stored : s' ≡ saved host accounts id after m s
    pub reloaded : load host accounts id s' ≡ ok (some (cleared after))

  module _ (id : Uuid) (m : Option EventMetadata) (command : Account.Root → Result Account.Root)
      (c : IsRepeatable command) where
    pub change_found :
        (b r : Account.Root) (s : Store P)
        → IsStore s
        → load host accounts id s ≡ ok (some b)
        → command b ≡ ok r
        → change_account host id m command s ≡ (ok tt, saved host accounts id r m s)
    unfolding change_account
    change_found b r s h found done =
        let x = c.extends b r (loaded-pending accounts accounts-Matches id s b found) done in
        let (new, kept, again) = save_further accounts accounts-Matches id b r m s h found x in
        ground (arith, found, done, kept)

    pub change_account-Changed :
        (s s' : Store P)
        → IsStore s
        → change_account host id m command s ≡ (ok tt, s')
        → Changed id m command s s'
    unfolding change_account
    change_account-Changed s s' h run = elim (Result-cases (load host accounts id s)) [
      | inr (e, failed) ↦ absurd (ground (arith, failed, run))
      | inl (found, is_found) ↦ elim (Option-cases found) [
        | inl nothing ↦ absurd (ground (arith, is_found, nothing, run))
        | inr (b, something) ↦
            let here = is_found ∙ ap ok something in
            elim (Result-cases (command b)) [
              | inr (e, failed) ↦ absurd (ground (arith, here, failed, run))
              | inl (r, done) ↦
                  let result = ap (λ p. p.1) (sym run ∙ change_found b r s h here done) in
                  record {
                    before = b;
                    after = r;
                    loaded = here;
                    commanded = done;
                    stored = result;
                    reloaded =
                        subst (λ x. load host accounts id x ≡ ok (some (cleared r))) (sym result)
                          (save_further accounts accounts-Matches id b r m s h here (
                            c.extends b r (loaded-pending accounts accounts-Matches id s b here)
                              done)).2;
                  }
            ]
      ]
    ]

    pub changed-IsStore : (s s' : Store P) → IsStore s → Changed id m command s s' → IsStore s'
    changed-IsStore s s' h x =
        subst IsStore (sym x.stored) (saved-IsStore accounts accounts-Matches id x.after m s h)

    -- Done again, on any store that holds the account as it was left, it changes nothing.
    pub change_account_again :
        (s s' s'' : Store P)
        → Changed id m command s s'
        → IsStore s''
        → load host accounts id s'' ≡ load host accounts id s'
        → change_account host id m command s'' ≡ (ok tt, s'')
    change_account_again s s' s'' x h same =
        let a = cleared x.after in
        change_found a a s'' h (same ∙ x.reloaded) (c.stable x.before x.after x.commanded)
        ∙ ap (λ y. (ok tt, y)) (saved_nothing accounts accounts-Matches id a m s'' refl)
