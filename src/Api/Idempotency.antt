-- ===== src/Api/Idempotency.antt =====
-- api/idempotency.py, InMemoryIdempotencyStore: an entry by key and route, with the fingerprint of
-- the first request and, once it is done, its response. B is the type of JSON bodies.
pub mod Replays
use Prim.Native.String.{String}
use text.Mathlib.Text.{◌==◌ as str_eq}
use ledger_py.Base.{ℕ, Bool, not, ◌&&◌, Option, none, some, List, [], ◌∷◌, if◌then◌else◌}

pub data ClaimResult : Type 0 where
  new_claim : ClaimResult
  in_progress : ClaimResult
  mismatch : ClaimResult
  replay : ClaimResult

pub record StoredResponse (B : Type 0) : Type 0 where
  pub status_code : ℕ
  pub body : B

-- `_Entry`
pub record Entry (B : Type 0) : Type 0 where
  pub fingerprint : String
  pub response : Option (StoredResponse B)

-- `(key, route)`
abbrev pub Key : Type 0
Key = String × String

abbrev pub same_key : Key → Key → Bool
same_key (k, r) (j, q) = str_eq k j && str_eq r q

-- `_entries`
abbrev pub Entries : Type 0 → Type 0
Entries B = List (Key × Entry B)

module _ {B : Type 0} where
  abbrev pub get_entry : Key → Entries B → Option (Entry B)
  get_entry k [] = none
  get_entry k ((j, e) ∷ es) = if same_key k j then some e else get_entry k es

  abbrev pub put_entry : Key → Entry B → Entries B → Entries B
  put_entry k e [] = (k, e) ∷ []
  put_entry k e ((j, d) ∷ es) = if same_key k j then (j, e) ∷ es else (j, d) ∷ put_entry k e es

  -- `del`: a dict has one item of a key, so every one of the key goes
  abbrev pub delete_entry : Key → Entries B → Entries B
  delete_entry k [] = []
  delete_entry k ((j, d) ∷ es) =
      let rest = delete_entry k es in if same_key k j then rest else (j, d) ∷ rest

  abbrev pub claim_found :
      Key
      → String
      → Entries B
      → Option (Entry B)
      → (ClaimResult × Option (StoredResponse B)) × Entries B
  claim_found k fingerprint es none =
      ((new_claim, none), put_entry k (record { fingerprint = fingerprint; response = none }) es)
  claim_found k fingerprint es (some e) =
      if not (str_eq e.fingerprint fingerprint) then ((mismatch, none), es) else elim e.response [
        | none ↦ ((in_progress, none), es)
        | some response ↦ ((replay, some response), es)
      ]

  unfoldable pub claim :
      Key → String → Entries B → (ClaimResult × Option (StoredResponse B)) × Entries B
  claim k fingerprint es = claim_found k fingerprint es (get_entry k es)

  unfoldable pub complete_claim : Key → ℕ → B → Entries B → Entries B
  complete_claim k status_code body es = elim (get_entry k es) [
    | none ↦ es
    | some e ↦
        put_entry k
          (record e { response = some (record { status_code = status_code; body = body }) }) es
  ]

  unfoldable pub discard : Key → Entries B → Entries B
  discard k es = elim (get_entry k es) [
    | none ↦ es
    | some e ↦ elim e.response [ none ↦ delete_entry k es | some response ↦ es ]
  ]
