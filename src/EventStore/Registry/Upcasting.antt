-- ===== src/EventStore/Registry/Upcasting.antt =====
-- An old payload is read through the upcasters that are left, in order.
use Prim.Native.String.{String}
use text.Mathlib.TextEquality.{eq_iff}
use text.Mathlib.TextPositions.{eq_refl}
use ledger_py.Base.{ℕ, zero, suc, ◌+◌, ◌-◌, ◌<◌, ◌≡◌, refl, Option, some, List, [], ◌∷◌, arith}
use ledger_py.Base.Lists.{length, drop}
use ledger_py.Shared.Result.{ok}
use ledger_py.EventStore.Events.{Host}
use ledger_py.EventStore.Registry.{
  Registry, get, put, or_name, upcaster_at, register, upcast, deserialize,
}

module _ {P : Type 0} where
  -- each upcaster in turn
  abbrev pub run_upcasters : List (P → P) → P → P
  run_upcasters [] payload = payload
  run_upcasters (u ∷ us) payload = run_upcasters us (u payload)

  next_upcaster :
      (us : List (P → P)) (v : ℕ)
      → v < length us
      → (u : P → P) × (upcaster_at us (suc v) ≡ ok u) × (drop v us ≡ u ∷ drop (suc v) us)
  next_upcaster [] v h = absurd (omega arith)
  next_upcaster (u ∷ []) zero h = (u, refl, refl)
  next_upcaster (u ∷ w ∷ us) zero h = (u, refl, refl)
  next_upcaster (u ∷ us) (suc v) h = next_upcaster us v (omega arith)

  drop_all : (v : ℕ) (us : List (P → P)) → v ≡ length us → drop v us ≡ []
  drop_all zero [] h = refl
  drop_all zero (u ∷ us) h = absurd (omega arith)
  drop_all (suc v) [] h = refl
  drop_all (suc v) (u ∷ us) h = drop_all v us (omega arith)

  upcast-drop :
      (rounds v : ℕ) (us : List (P → P)) (payload : P)
      → rounds + v ≡ length us
      → upcast rounds (suc v) us payload ≡ ok (run_upcasters (drop v us) payload)
  unfolding upcast
  upcast-drop zero v us payload h = rw (drop_all v us (omega arith))
  upcast-drop (suc rounds) v us payload h =
      let (u, here, left) = next_upcaster us v (omega arith) in
      ground (arith, here, left, upcast-drop rounds (suc v) us (u payload))

pub get-put_self :
    {V : Type 0} (k : String) (v : V) (m : List (String × V)) → get k (put k v m) ≡ some v
get-put_self k v [] = rw (eq_refl k)
get-put_self k v ((j, w) ∷ m) = ground (arith, eq_iff k j, eq_refl k, get-put_self k v m)

module _ {P : Type 0} (host : Host P) where
  -- After a class was registered at a version, a payload stored at an older or the same version is
  -- run through exactly the upcasters from its version on, in order, and then validated as that
  -- class; no upcaster is missing.
  pub deserialize-register :
      (cls : String) (name : Option String) (version : ℕ) (ups : List (P → P)) (r r' : Registry P)
      → register cls name version ups r ≡ ok r'
      → (v : ℕ) (payload : P) → v < version
      → deserialize host r' (or_name name cls) (suc v) payload
        ≡ host.model_validate cls (run_upcasters (drop v ups) payload)
  unfolding register deserialize
  deserialize-register cls name version ups r r' h v payload older = ground (
    arith,
    get-put_self (or_name name cls)
        (record { event_cls = cls; schema_version = version; upcasters = ups }) r.by_name,
    upcast-drop (version - suc v) v ups payload,
  )
