-- ===== src/Saga/Applied.antt =====
-- An operation id that an account has applied stands in its stream for good.
use mathlib.Core.Path.{subst}
use ledger_py.Base.{
  ◌≡◌, refl, Bool, true, false, ◌||◌, inl, inr, none, some, List, [], ◌∷◌, ◌++◌, ◌==◌, sym, arith,
  Bool-cases, ==→≡, ◌+◌, ◌&&◌, ◌≢◌,
}
use ledger_py.Base.Lists.{contains, select}
use ledger_py.Shared.Errors.{Uuid, account_stream, journal_stream}
use ledger_py.Shared.Result.{ok, err, >>=-eq-ok}
use ledger_py.Shared.Aggregate.{new, load_from_history}
use ledger_py.Accounts.Events.{
  AccountEvent, account_opened, funds_held, hold_released, account_debited, account_credited,
}
use ledger_py.Accounts.Account
use ledger_py.Accounts.Account.{Account, add_op}
use ledger_py.Journal.Entry
use ledger_py.EventStore.Events.{DomainEvent, of_account, Host}
use ledger_py.EventStore.Records.{StoredEvent}
use ledger_py.EventStore.Registry.{Registry, deserialize}
use ledger_py.EventStore.Memory.{Store, in_stream, load_stream}
use ledger_py.EventStore.Repository.{accounts, journals, apply_any, decode_all, rehydrate, load}
use ledger_py.EventStore.Repository.Saves.{load-Stands}
use ledger_py.Saga.Activities.Steady.{Grows}

-- Whether an event applies the operation.
abbrev pub applies : Uuid → DomainEvent → Bool
applies op (of_account (funds_held m o)) = op == o
applies op (of_account (hold_released m o)) = op == o
applies op (of_account (account_debited m o)) = op == o
applies op (of_account (account_credited m o)) = op == o
applies op e = false

pub contains-add_op :
    (op o : Uuid) (ops : List Uuid) → contains op (add_op o ops) ≡ (op == o || contains op ops)
contains-add_op op o ops = elim (Bool-cases (contains o ops)) [
  | inr fresh ↦ ground (arith, fresh)
  | inl there ↦ elim (Bool-cases (op == o)) [
    | inr other ↦ ground (arith, there, other)
    | inl same ↦
        let here : contains op ops ≡ true =
          subst (λ x. contains x ops ≡ true) (sym (==→≡ op o same)) there in
        ground (arith, there, same, here)
  ]
]

apply-contains :
    (op : Uuid) (e : AccountEvent) (a b : Account)
    → Account.apply a e ≡ ok b
    → contains op b.applied_ops ≡ (applies op (of_account e) || contains op a.applied_ops)
unfolding Account.apply
apply-contains op (account_opened c) a b h = ground arith
apply-contains op (funds_held m o) a b h = ground (arith, contains-add_op op o a.applied_ops)
apply-contains op (hold_released m o) a b h = ground (arith, contains-add_op op o a.applied_ops)
apply-contains op (account_debited m o) a b h = ground (arith, contains-add_op op o a.applied_ops)
apply-contains op (account_credited m o) a b h = ground (arith, contains-add_op op o a.applied_ops)
apply-contains op e a b h = ground arith

apply_any-contains :
    (op : Uuid) (e : DomainEvent) (a b : Account)
    → apply_any accounts a e ≡ ok b
    → contains op b.applied_ops ≡ (applies op e || contains op a.applied_ops)
apply_any-contains op (of_account e) a b h = apply-contains op e a b h
apply_any-contains op e a b h = ground arith

abbrev any_applies : Uuid → List DomainEvent → Bool
any_applies op [] = false
any_applies op (e ∷ es) = applies op e || any_applies op es

replay-contains :
    (op : Uuid) (es : List DomainEvent) (a b : Account.Root)
    → load_from_history (apply_any accounts) es a ≡ ok b
    → contains op b.state.applied_ops ≡ (any_applies op es || contains op a.state.applied_ops)
unfolding load_from_history
replay-contains op [] a b h = ground arith
replay-contains op (e ∷ es) a b h =
    let (s, first, rest) = >>=-eq-ok (apply_any accounts a.state e) _ h in
    ground (
      arith,
      apply_any-contains op e a.state s first,
      replay-contains op es (record { state = s; version = a.version + 1; pending = a.pending }) b
          rest,
    )

module _ {P : Type 0} where
  abbrev pub any_stored : (StoredEvent P → Bool) → List (StoredEvent P) → Bool
  any_stored p [] = false
  any_stored p (x ∷ xs) = p x || any_stored p xs

  any_stored-append :
      (p : StoredEvent P → Bool) (xs ys : List (StoredEvent P))
      → any_stored p (xs ++ ys) ≡ (any_stored p xs || any_stored p ys)
  any_stored-append p [] ys = refl
  any_stored-append p (x ∷ xs) ys = ground (arith, any_stored-append p xs ys)

  any_stored-select :
      (p q : StoredEvent P → Bool) (xs : List (StoredEvent P))
      → any_stored q (select p xs) ≡ any_stored (λ x. p x && q x) xs
  any_stored-select p q [] = refl
  any_stored-select p q (x ∷ xs) = ground (arith, any_stored-select p q xs)

  kept :
      (p : StoredEvent P → Bool) (s s' : Store P)
      → Grows s s'
      → any_stored p s.events ≡ true
      → any_stored p s'.events ≡ true
  kept p s s' g h = rw (g.log, any_stored-append p s.events g.added, h) refl

  -- The journal stream of the id has an event in the log.
  unfoldable pub recorded : Uuid → Store P → Bool
  recorded id s = any_stored (in_stream journal_stream id) s.events

  pub recorded-Grows :
      (id : Uuid) (s s' : Store P) → Grows s s' → recorded id s ≡ true → recorded id s' ≡ true
  unfolding recorded
  recorded-Grows id s s' g h = kept (in_stream journal_stream id) s s' g h

module _ {P : Type 0} (host : Host P) where
  abbrev pub decodes_to : Uuid → Registry P → StoredEvent P → Bool
  decodes_to op r x = elim (deserialize host r x.event_type x.schema_version x.payload) [
    | ok e ↦ applies op e
    | err e ↦ false
  ]

  any_applies-decoded :
      (op : Uuid) (r : Registry P) (xs : List (StoredEvent P)) (es : List DomainEvent)
      → decode_all host r xs ≡ ok es
      → any_applies op es ≡ any_stored (decodes_to op r) xs
  unfolding decode_all
  any_applies-decoded op r [] es h = ground arith
  any_applies-decoded op r (x ∷ xs) es h =
      let (e, first, rest) =
        >>=-eq-ok (deserialize host r x.event_type x.schema_version x.payload) _ h in
      let (fs, decoded, joined) = >>=-eq-ok (decode_all host r xs) _ rest in
      ground (arith, first, any_applies-decoded op r xs fs decoded)

  -- The log has an event of the account's stream that applies the operation.
  unfoldable pub applied : Uuid → Uuid → Store P → Bool
  applied id op s =
      any_stored (λ x. in_stream account_stream id x && decodes_to op s.registry x) s.events

  pub applied-Grows :
      (id op : Uuid) (s s' : Store P)
      → Grows s s'
      → applied id op s ≡ true
      → applied id op s' ≡ true
  unfolding applied
  applied-Grows id op s s' g h =
      rw g.registry_kept
        (kept (λ x. in_stream account_stream id x && decodes_to op s.registry x) s s' g h)

  -- The operations of a loaded account are those that its stream applies.
  pub contains-load :
      (id op : Uuid) (a : Account.Root) (s : Store P)
      → load host accounts id s ≡ ok (some a)
      → contains op a.state.applied_ops ≡ applied id op s
  unfolding rehydrate load_stream applied
  contains-load id op a s h =
      let (es, decoded, replayed) =
        >>=-eq-ok (decode_all host s.registry (load_stream account_stream id s)) _
          (load-Stands host accounts id s a h) in
      ground (
        arith,
        replay-contains op es (new Account.init) a replayed,
        any_applies-decoded op s.registry (load_stream account_stream id s) es decoded,
        any_stored-select (in_stream account_stream id) (decodes_to op s.registry) s.events,
      )

  -- An id whose operations were applied is an account.
  pub applied-load :
      (id op : Uuid) (s : Store P) → applied id op s ≡ true → load host accounts id s ≢ ok none
  unfolding applied load load_stream
  applied-load id op s h absent =
      ground
        (arith, any_stored-select (in_stream account_stream id) (decodes_to op s.registry) s.events)

  pub recorded-load :
      (id : Uuid) (e : Entry.Root) (s : Store P)
      → load host journals id s ≡ ok (some e)
      → recorded id s ≡ true
  unfolding recorded load load_stream
  recorded-load id e s h =
      ground (arith, any_stored-select (in_stream journal_stream id) (λ x. true) s.events)

  pub recorded-absent :
      (id : Uuid) (s : Store P) → recorded id s ≡ true → load host journals id s ≢ ok none
  unfolding recorded load load_stream
  recorded-absent id s h absent =
      ground (arith, any_stored-select (in_stream journal_stream id) (λ x. true) s.events)
