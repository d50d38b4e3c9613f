-- ===== src/Saga/Activities/Steady.antt =====
-- What every activity does to the store, whether it returns or raises: it only adds to the log, and
-- the log stays well formed.
use mathlib.Core.List.{append-nil, append_assoc}
use mathlib.Core.Path.{subst}
use ledger_py.Base.{
  ◌≡◌, refl, Bool, inl, inr, Option, none, some, List, [], ◌∷◌, ◌++◌, ◌∙◌, sym, ap, Bool-cases, map,
  ◌==◌, ℕ, ◌⊎◌,
}
use ledger_py.Base.Lists.{length}
use ledger_py.Shared.Errors.{Uuid, Code, StreamType}
use ledger_py.Shared.Result.{Result, ok}
use ledger_py.Shared.Exec.{Exec, Exec-cases, pure, lift, reads, ◌>>=◌, ◌>>◌}
use ledger_py.Shared.Aggregate.{Aggregate, expected_version}
use ledger_py.Accounts.Account
use ledger_py.Transfers.Events.{TransferStatus}
use ledger_py.Transfers.Transfer
use ledger_py.EventStore.Events.{Host, DomainEvent}
use ledger_py.EventStore.Records.{EventMetadata, StoredEvent}
use ledger_py.EventStore.Memory.{Store, append, load_stream}
use ledger_py.EventStore.Memory.Append.{append_lem, extended, extended-IsLog}
use ledger_py.EventStore.Repository.{Kind, load, save, accounts, transfers, or_empty}
use ledger_py.Saga.Activities.{change_account, milestone, milestone_of, found_account, terminating}
use ledger_py.Saga.Activities.Blocks.{IsStore}

List-cases : {A : Type 0} (xs : List A) → (xs ≡ []) ⊎ ((y : A) × (ys : List A) × (xs ≡ y ∷ ys))
List-cases [] = inl refl
List-cases (x ∷ xs) = inr (x, xs, refl)

-- The log has grown at its end.
pub record Grows {P : Type 0} (s s' : Store P) : Type 0 where
  pub added : List (StoredEvent P)
  pub log : s'.events ≡ s.events ++ added
  pub registry_kept : s'.registry ≡ s.registry

module _ {P : Type 0} where
  pub Grows-refl : (s : Store P) → Grows s s
  Grows-refl s = record { added = []; log = sym (append-nil s.events); registry_kept = refl }

  pub Grows-trans : (s t u : Store P) → Grows s t → Grows t u → Grows s u
  Grows-trans s t u g h = record {
    added = g.added ++ h.added;
    log = h.log ∙ ap (λ es. es ++ h.added) g.log ∙ append_assoc s.events g.added h.added;
    registry_kept = h.registry_kept ∙ g.registry_kept;
  }

module _ {P : Type 0} (host : Host P) where
  -- Well formed, and no event lost.
  abbrev pub Onward : Store P → Store P → Type 0
  Onward s s' = IsStore host s' × Grows s s'

  abbrev pub Steady : {A : Type 0} → Exec (Store P) A → Type 0
  Steady m = (s : Store P) → IsStore host s → Onward s (m s).1

  pub still-Steady : {A : Type 0} (f : Store P → Result A) → Steady (reads f)
  still-Steady f s h = (h, Grows-refl s)

  pub >>=-Steady :
      {A B : Type 0} (m : Exec (Store P) A) (f : A → Exec (Store P) B)
      → Steady m
      → ((a : A) → Steady (f a))
      → Steady (m >>= f)
  >>=-Steady m f hm hf s h = elim (Exec-cases (m s)) [
    | inl (a, s₁, done) ↦
        let first : Onward s s₁ = subst (λ p. Onward s p.1) done (hm s h) in
        let (store, more) = hf a s₁ first.0 in
        rw done (store, Grows-trans s s₁ (f a s₁).1 first.1 more)
    | inr (e, s₁, failed) ↦ rw failed (subst (λ p. Onward s p.1) failed (hm s h))
  ]

  pub terminating-Steady :
      {A : Type 0} (codes : List Code) (m : Exec (Store P) A)
      → Steady m
      → Steady (terminating codes m)
  terminating-Steady codes m hm s h = elim (Exec-cases (m s)) [
    | inl (a, s₁, done) ↦ rw done (subst (λ p. Onward s p.1) done (hm s h))
    | inr (e, s₁, failed) ↦ rw failed (subst (λ p. Onward s p.1) failed (hm s h))
  ]

  extended-Steady :
      (t : StreamType) (i : Uuid) (es : List DomainEvent) (m : EventMetadata) (s : Store P)
      → IsStore host s
      → Onward s (extended host t i m es s)
  extended-Steady t i es m s h = (
    record { is_log = extended-IsLog host t i m es s h.is_log; knows = h.knows },
    record { added = _; log = refl; registry_kept = refl },
  )

  append-Steady :
      (t : StreamType) (i : Uuid) (expected : ℕ) (es : List DomainEvent) (m : EventMetadata)
      → Steady (append host t i expected es m)
  append-Steady t i expected es m s h =
      let done = append_lem host t i m expected es s h.is_log h.knows in
      elim (Bool-cases (length (load_stream t i s) == expected)) [
        | inl same ↦ rw (done, same) (extended-Steady t i es m s h)
        | inr other ↦ rw (done, other) (h, Grows-refl s)
      ]

  pub save-Steady :
      {S E : Type 0} (kind : Kind S E) (id : Uuid) (r : Aggregate S E) (m : Option EventMetadata)
      → Steady (save host kind id r m)
  unfolding save
  save-Steady kind id r m s h = elim (List-cases r.pending) [
    | inl nothing ↦ rw nothing (h, Grows-refl s)
    | inr (e, es, some_events) ↦ rw some_events (
        append-Steady kind.stream_type id (expected_version r) (map kind.embed (e ∷ es))
          (or_empty m) s h)
  ]

  -- a load, and what is done with what it found
  pub loading-Steady :
      {S E B : Type 0} (kind : Kind S E) (id : Uuid) (f : Option (Aggregate S E) → Exec (Store P) B)
      → ((found : Option (Aggregate S E)) → Steady (f found))
      → Steady (do found ← reads (load host kind id); f found)
  loading-Steady kind id f hf =
      >>=-Steady (reads (load host kind id)) f (still-Steady (load host kind id)) hf

  -- a computation that may raise, and a save
  pub saving-Steady :
      {S E : Type 0} (kind : Kind S E) (id : Uuid) (m : Option EventMetadata)
      (made : Store P → Result (Aggregate S E))
      → Steady (do r ← reads made; save host kind id r m; pure tt)
  saving-Steady kind id m made = >>=-Steady (reads made) _ (still-Steady made) (λ r.
      >>=-Steady (save host kind id r m) _ (save-Steady kind id r m)
        (λ _. still-Steady (λ _. ok tt)))

  pub change_account-Steady :
      (id : Uuid) (m : Option EventMetadata) (command : Account.Root → Result Account.Root)
      → Steady (change_account host id m command)
  unfolding change_account
  change_account-Steady id m command = loading-Steady accounts id _ (λ found.
      >>=-Steady (lift (found_account id found)) _ (still-Steady (λ _. found_account id found))
        (λ account. saving-Steady accounts id m (λ _. command account)))

  pub milestone-Steady :
      (id : Uuid) (m : Option EventMetadata) (test : TransferStatus → Bool)
      (command : Transfer.Root → Result Transfer.Root)
      → Steady (milestone host id m test command)
  unfolding milestone
  milestone-Steady id m test command = loading-Steady transfers id _ of_found
    where
      of_found : (found : Option Transfer.Root) → Steady (milestone_of host id m test command found)
      of_found none s h = (h, Grows-refl s)
      of_found (some t) s h = elim (Bool-cases (test t.state.status)) [
        | inr passed ↦ rw passed (h, Grows-refl s)
        | inl due ↦ rw due (saving-Steady transfers id m (λ _. command t) s h)
      ]
