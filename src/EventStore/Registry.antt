-- ===== src/EventStore/Registry.antt =====
-- eventstore/serialization.py and registry.py: event classes by their wire names, with upcasting.
-- A class is known by its `__name__`.
pub mod Wired
pub mod Upcasting
use Prim.Native.String.{String}
use text.Mathlib.Text.{◌==◌ as str_eq}
use ledger_py.Base.{
  ℕ, zero, suc, ◌+◌, ◌-◌, not, Option, none, some, List, [], ◌∷◌, ◌==◌, if◌then◌else◌,
}
use ledger_py.Base.Lists.{length}
use ledger_py.Shared.Errors.{
  key_error, index_error, value_error, unknown_event_type, formatted, word_value, version_value,
}
use ledger_py.Shared.Result.{Result, ok, err, ◌>>=◌, ◌>>◌, raise_if}
use ledger_py.EventStore.Events.{DomainEvent, class_of, Host}

-- a Python dict with text keys
module _ {V : Type 0} where
  abbrev pub get : String → List (String × V) → Option V
  get k [] = none
  get k ((j, v) ∷ m) = if str_eq k j then some v else get k m

  -- `m[k]`
  abbrev pub index : String → List (String × V) → Result V
  index k [] = err key_error
  index k ((j, v) ∷ m) = if str_eq k j then ok v else index k m

  -- `m[k] = v`
  abbrev pub put : String → V → List (String × V) → List (String × V)
  put k v [] = (k, v) ∷ []
  put k v ((j, w) ∷ m) = if str_eq k j then (k, v) ∷ m else (j, w) ∷ put k v m

-- `_Registration`
pub record Registration (P : Type 0) : Type 0 where
  pub event_cls : String
  pub schema_version : ℕ
  -- the one at index i upgrades from version i + 1 to i + 2
  pub upcasters : List (P → P)

pub record Registry (P : Type 0) : Type 0 where
  pub by_name : List (String × Registration P)
  pub name_by_cls : List (String × String)

abbrev pub empty_registry : {P : Type 0} → Registry P
empty_registry = record { by_name = []; name_by_cls = [] }

abbrev pub or_name : Option String → String → String
or_name none cls = cls
or_name (some name) cls = if str_eq name "" then cls else name

-- `upcasters[from_version - 1]`: index -1 is the last element
abbrev pub upcaster_at : {P : Type 0} → List (P → P) → ℕ → Result (P → P)
upcaster_at [] i = err index_error
upcaster_at (u ∷ []) zero = ok u
upcaster_at (u ∷ v ∷ us) zero = upcaster_at (v ∷ us) zero
upcaster_at (u ∷ us) (suc zero) = ok u
upcaster_at (u ∷ us) (suc (suc i)) = upcaster_at us (suc i)

module _ {P : Type 0} where
  unfoldable pub register :
      String → Option String → ℕ → List (P → P) → Registry P → Result (Registry P)
  register event_cls name schema_version upcasters r = do
    raise_if (not (length upcasters + 1 == schema_version)) (
        value_error (
          formatted "{}: schema_version={} needs {} upcaster(s), got {}" (
            word_value event_cls
            ∷ version_value schema_version
            ∷ version_value (schema_version - 1)
            ∷ version_value (length upcasters)
            ∷ [])))
    let resolved = or_name name event_cls
    ok (record {
      by_name =
          put resolved
            (record {
              event_cls = event_cls;
              schema_version = schema_version;
              upcasters = upcasters;
            })
            r.by_name;
      name_by_cls = put event_cls resolved r.name_by_cls;
    })

  unfoldable pub name_for : Registry P → DomainEvent → Result String
  unfolding class_of
  name_for r event = index (class_of event) r.name_by_cls

  unfoldable pub schema_version_for : Registry P → DomainEvent → Result ℕ
  unfolding name_for
  schema_version_for r event = do
    name ← name_for r event
    registration ← index name r.by_name
    ok registration.schema_version

  -- `rounds` rounds of the loop over the versions, from `from_version` on
  unfoldable pub upcast : ℕ → ℕ → List (P → P) → P → Result P
  upcast zero from_version upcasters payload = ok payload
  upcast (suc rounds) from_version upcasters payload = do
    u ← upcaster_at upcasters from_version
    upcast rounds (from_version + 1) upcasters (u payload)

module _ {P : Type 0} (host : Host P) where
  abbrev pub serialize : DomainEvent → P
  serialize event = host.model_dump event

  unfoldable pub deserialize : Registry P → String → ℕ → P → Result DomainEvent
  unfolding upcast
  deserialize r event_type schema_version payload = elim (get event_type r.by_name) [
    | none ↦ err (unknown_event_type event_type)
    | some registration ↦ (do
      upgraded ←
          upcast (registration.schema_version - schema_version) schema_version
            registration.upcasters payload
      host.model_validate registration.event_cls upgraded)
  ]

-- the tuples of event classes in the three `events.py`
abbrev pub event_classes : List String
event_classes =
    "AccountOpened" ∷ "FundsDeposited" ∷ "FundsHeld" ∷ "HoldReleased" ∷ "AccountDebited"
    ∷ "AccountCredited" ∷ "AccountFrozen" ∷ "AccountClosed" ∷ "JournalEntryPosted"
    ∷ "TransferInitiated" ∷ "TransferHeld" ∷ "TransferPosted" ∷ "TransferCompleted"
    ∷ "TransferFailed" ∷ "TransferParkedForReconciliation" ∷ "TransferReconciled" ∷ []

unfoldable pub register_all : {P : Type 0} → List String → Registry P → Result (Registry P)
unfolding register
register_all [] r = ok r
register_all (cls ∷ classes) r = do r' ← register cls none 1 [] r; register_all classes r'

-- `build_event_registry`
unfoldable pub build_event_registry : {P : Type 0} → Result (Registry P)
unfolding register_all
build_event_registry = register_all event_classes empty_registry
