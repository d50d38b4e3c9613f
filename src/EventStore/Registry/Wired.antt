-- ===== src/EventStore/Registry/Wired.antt =====
-- The registry that the program builds: every event is stored under its class name, at version 1,
-- and read back as it was.
use ledger_py.Base.{◌≡◌, refl, [], map, arith}
use mathlib.Core.Path.{subst}
use ledger_py.Shared.Result.{ok}
use ledger_py.Accounts.Events.{AccountEvent, account_opened}
use ledger_py.Journal.Leg.{JournalEvent, journal_entry_posted}
use ledger_py.Transfers.Events.{TransferEvent, transfer_held}
use ledger_py.EventStore.Events.{DomainEvent, of_account, of_journal, of_transfer, class_of, Host}
use ledger_py.EventStore.Registry.{
  Registry, name_for, schema_version_for, deserialize, event_classes, build_event_registry,
}

-- The registry as a value: each class under its own name, with no upcasters.
abbrev pub wired : {P : Type 0} → Registry P
wired = record {
  by_name =
      map (λ cls. (cls, record { event_cls = cls; schema_version = 1; upcasters = [] }))
        event_classes;
  name_by_cls = map (λ cls. (cls, cls)) event_classes;
}

pub build-wired : {P : Type 0} → build_event_registry {P = P} ≡ ok wired
unfolding build_event_registry
build-wired = refl

-- The registry names the event by its class, at version 1, and reads back what it wrote.
pub record Knows {P : Type 0} (host : Host P) (r : Registry P) (e : DomainEvent) : Type 0 where
  pub named : name_for r e ≡ ok (class_of e)
  pub at_version : schema_version_for r e ≡ ok 1
  pub reads_back : deserialize host r (class_of e) 1 (host.model_dump e) ≡ ok e

module _ {P : Type 0} (host : Host P) where
  abbrev Known : DomainEvent → Type 0
  Known e = Knows host wired e

  account-Knows : (e : AccountEvent) → Known (of_account e)
  unfolding name_for schema_version_for deserialize
  account-Knows (account_opened c) = record {
    named = refl;
    at_version = refl;
    reads_back = host.validate_dump (of_account (account_opened c));
  }
  account-Knows e = record {
    named = refl;
    at_version = refl;
    reads_back = host.validate_dump (of_account e);
  }

  journal-Knows : (e : JournalEvent) → Known (of_journal e)
  unfolding name_for schema_version_for deserialize
  journal-Knows (journal_entry_posted legs reference) = record {
    named = refl;
    at_version = refl;
    reads_back = host.validate_dump (of_journal (journal_entry_posted legs reference));
  }

  transfer-Knows : (e : TransferEvent) → Known (of_transfer e)
  unfolding name_for schema_version_for deserialize
  transfer-Knows transfer_held = record {
    named = refl;
    at_version = refl;
    reads_back = host.validate_dump (of_transfer transfer_held);
  }
  transfer-Knows e = record {
    named = refl;
    at_version = refl;
    reads_back = host.validate_dump (of_transfer e);
  }

  pub wired-Knows : (e : DomainEvent) → Knows host wired e
  wired-Knows (of_account e) = account-Knows e
  wired-Knows (of_journal e) = journal-Knows e
  wired-Knows (of_transfer e) = transfer-Knows e

  -- The program's registry can be built, and it names each domain event by its class at version 1
  -- and deserializes what it serialized to the same event.
  pub build-Knows :
      (r : Registry P) → build_event_registry ≡ ok r → (e : DomainEvent) → Knows host r e
  build-Knows r h e =
      let same : wired ≡ r = ground (arith, build-wired {P = P}, h) in
      subst (λ r. Knows host r e) same (wired-Knows e)
