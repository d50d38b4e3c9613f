-- ===== src/Projections/Balances/Agrees.antt =====
-- The projection and the aggregates read the same log: they agree on every account.
use ledger_py.Base.{
  ◌≢◌, ◌+◌, ◌≡◌, refl, true, false, ◌⊎◌, inl, inr, Option, none, some, List, [], ◌∷◌, arith,
  Bool-cases, sym, ==→≡, ◌==◌,
}
use mathlib.Core.Path.{subst}
use ledger_py.Base.Dict.{get, get-put, get-put_other}
use ledger_py.Base.Lists.{select}
use ledger_py.Shared.Errors.{Uuid, account_stream, same_type}
use ledger_py.Shared.Result.{ok, >>=-eq-ok, Result-cases}
use ledger_py.Shared.Aggregate.{new, load_from_history}
use ledger_py.Accounts.Events.{AccountEvent, account_opened}
use ledger_py.Accounts.Account
use ledger_py.Accounts.Account.{Account, init}
use ledger_py.EventStore.Events.{DomainEvent, of_account, Host}
use ledger_py.EventStore.Records.{StoredEvent}
use ledger_py.EventStore.Registry.{Registry, deserialize}
use ledger_py.EventStore.Memory.{Store, in_stream, load_stream}
use ledger_py.EventStore.Repository.{accounts, apply_any, decode_all, rehydrate, load}
use ledger_py.EventStore.Repository.Saves.{load-Stands}
use ledger_py.Saga.Activities.{status_reader}
use ledger_py.Projections.Balances.{
  change_found, new_balance, Balance, Balances, project_event, project, project_all, balance_of,
  snapshot,
}

-- What the projection should hold of an account.
abbrev pub balance_from : Account → Balance
balance_from a = record {
  currency = a.currency;
  available = a.available.amount;
  reserved = a.reserved.amount;
  status = a.status;
}

module _ (id : Uuid) where
  -- The account of an id before its first event, or as the projection has it.
  abbrev Shows : Balances → Account → Type 0
  Shows m a = ((get id m ≡ none) × (a ≡ init)) ⊎ (get id m ≡ some (balance_from a))

  account-Shows :
      (e : AccountEvent) (m m' : Balances) (a a' : Account)
      → Shows m a
      → Account.apply a e ≡ ok a'
      → project_event id (of_account e) m ≡ ok m'
      → Shows m' a'
  unfolding project_event Account.apply
  account-Shows (account_opened c) m m' a a' h x y =
      inr (ground (arith, get-put id (balance_from a') m))
  account-Shows e m m' a a' (inl (absent, new)) x y = absurd (ground (arith, absent))
  account-Shows e m m' a a' (inr found) x y =
      inr (ground (arith, found, get-put id (balance_from a') m))

  event-Shows :
      (e : DomainEvent) (m m' : Balances) (a a' : Account)
      → Shows m a
      → apply_any accounts a e ≡ ok a'
      → project_event id e m ≡ ok m'
      → Shows m' a'
  unfolding project_event
  event-Shows (of_account e) m m' a a' h x y = account-Shows e m m' a a' h x y
  event-Shows e m m' a a' h x y = ground (arith, h)

  change_kept :
      (j : Uuid) (change : Balance → Balance) (found : Option Balance) (m m' : Balances)
      → (id == j) ≡ false
      → change_found j change m found ≡ ok m'
      → get id m' ≡ get id m
  change_kept j change none m m' h y = cc
  change_kept j change (some b) m m' h y = ground (arith, get-put_other id j (change b) m h)

  -- An event of another account leaves the balance of this one.
  other_kept :
      (j : Uuid) (e : DomainEvent) (m m' : Balances)
      → (id == j) ≡ false
      → project_event j e m ≡ ok m'
      → get id m' ≡ get id m
  unfolding project_event
  other_kept j (of_account (account_opened c)) m m' h y =
      ground (arith, get-put_other id j (new_balance c) m h)
  other_kept j (of_account e) m m' h y = change_kept j _ (get j m) m m' h y
  other_kept j e m m' h y = ground arith

module _ {P : Type 0} (host : Host P) (r : Registry P) (id : Uuid) where
  -- What `project` does with an event of the account.
  project_own :
      (x : StoredEvent P) (e : DomainEvent) (m m₁ : Balances)
      → in_stream account_stream id x ≡ true
      → deserialize host r x.event_type x.schema_version x.payload ≡ ok e
      → project host r x m ≡ ok m₁
      → project_event id e m ≡ ok m₁
  unfolding project
  project_own x e m m₁ own decoded done =
      let same : x.stream_id ≡ id = ground (arith, ==→≡ x.stream_id id) in
      let at : project_event x.stream_id e m ≡ ok m₁ = ground (arith, own, decoded, done) in
      subst (λ j. project_event j e m ≡ ok m₁) same at

  -- An event of another stream leaves the account alone.
  project_other :
      (x : StoredEvent P) (m m₁ : Balances)
      → in_stream account_stream id x ≡ false
      → project host r x m ≡ ok m₁
      → get id m₁ ≡ get id m
  unfolding project
  project_other x m m₁ other done = elim (Bool-cases (same_type x.stream_type account_stream)) [
    | inr elsewhere ↦ ground (arith, elsewhere, done)
    | inl here ↦
        let apart : (id == x.stream_id) ≡ false = ground (arith, here, other) in
        elim (Result-cases (deserialize host r x.event_type x.schema_version x.payload)) [
          | inr (e, failed) ↦ absurd (ground (arith, here, failed, done))
          | inl (e, decoded) ↦
              other_kept id x.stream_id e m m₁ apart (ground (arith, here, decoded, done))
        ]
  ]

  abbrev Replays : List (StoredEvent P) → Account.Root → Account.Root → Type 0
  Replays events a b =
      (es : List DomainEvent) × (decode_all host r (select (in_stream account_stream id) events)
        ≡ ok es)
      × (load_from_history (apply_any accounts) es a ≡ ok b)

  -- One event of the account, and what is left to replay.
  replay_own :
      (x : StoredEvent P) (xs : List (StoredEvent P)) (a b : Account.Root)
      → in_stream account_stream id x ≡ true
      → Replays (x ∷ xs) a b
      → (e : DomainEvent) × (s : Account) × (deserialize host r x.event_type x.schema_version
            x.payload
          ≡ ok e)
        × (apply_any accounts a.state e ≡ ok s)
        × Replays xs (record a { state = s; version = a.version + 1 }) b
  unfolding decode_all load_from_history
  replay_own x xs a b own (es, d, l) =
      let later = select (in_stream account_stream id) xs in
      let d' : decode_all host r (x ∷ later) ≡ ok es = ground (arith, own, d) in
      let (e, decoded, d'') =
        >>=-eq-ok (deserialize host r x.event_type x.schema_version x.payload) _ d' in
      let (es', left, whole) = >>=-eq-ok (decode_all host r later) _ d'' in
      let l' : load_from_history (apply_any accounts) (e ∷ es') a ≡ ok b =
        ground (arith, whole, l) in
      let (s, applied, l'') = >>=-eq-ok (apply_any accounts a.state e) _ l' in
      (e, s, decoded, applied, (es', left, l''))

  -- Over any stretch of the log: what is replayed for the account, and what is projected.
  project_all-Shows :
      (events : List (StoredEvent P)) (m m' : Balances) (a b : Account.Root)
      → Shows id m a.state
      → Replays events a b
      → project_all host r events m ≡ ok m'
      → Shows id m' b.state
  unfolding project_all load_from_history decode_all
  project_all-Shows [] m m' a b h (es, d, l) p = ground (arith, h)
  project_all-Shows (x ∷ xs) m m' a b h w p =
      let (m₁, first, rest) = >>=-eq-ok (project host r x m) _ p in
      elim (Bool-cases (in_stream account_stream id x)) [
        | inl own ↦
            let (e, s, decoded, applied, left) = replay_own x xs a b own w in
            let at = project_own x e m m₁ own decoded first in
            project_all-Shows xs m₁ m' (record a { state = s; version = a.version + 1 }) b
              (event-Shows id e m m₁ a.state s h applied at) left rest
        | inr other ↦
            let kept = project_other x m m₁ other first in
            let (es, d, l) = w in
            project_all-Shows xs m₁ m' a b
              (subst (λ y. ((y ≡ none) × (a.state ≡ init)) ⊎ (y ≡ some (balance_from a.state)))
                (sym kept) h)
              (es, ground (arith, other, d), l) rest
      ]

  Replays-rehydrate :
      (s : Store P) (b : Account.Root)
      → s.registry ≡ r
      → rehydrate host accounts r (load_stream account_stream id s) ≡ ok b
      → Replays s.events (new init) b
  unfolding rehydrate load_stream
  Replays-rehydrate s b e h =
      let (es, d, l) =
        >>=-eq-ok (decode_all host r (select (in_stream account_stream id) s.events)) _ h in
      (es, d, l)

-- When the projection has gone through the whole log without raising, it shows every account that
-- a load gives and that was opened with exactly its currency, its two buckets and its status, and
-- it reads the same snapshot as the reader over the repository.
pub balance_of-load :
    {P : Type 0} (host : Host P) (id : Uuid) (s : Store P) (m : Balances) (a : Account.Root)
    → project_all host s.registry s.events [] ≡ ok m
    → load host accounts id s ≡ ok (some a)
    → a.state ≢ init
    → (balance_of id m
        ≡ some (record {
          account_id = id;
          currency = a.state.currency;
          available = a.state.available.amount;
          reserved = a.state.reserved.amount;
          status = a.state.status;
        }))
      × (status_reader host s id ≡ ok (snapshot id m))
unfolding balance_of snapshot
balance_of-load host id s m a p found was_opened =
    let w =
      Replays-rehydrate host s.registry id s a refl (load-Stands host accounts id s a found) in
    elim (project_all-Shows host s.registry id s.events [] m (new init) a (inl (refl, refl)) w p) [
      | inl (absent, same) ↦ absurd (was_opened same)
      | inr shown ↦ (ground (arith, shown), ground (arith, shown, found))
    ]
