-- ===== src/Api/PostgresIdempotency.antt =====
-- api/idempotency.py, PostgresIdempotencyStore. The table `idempotency_keys` and its four statements
-- belong to PostgreSQL: they are a parameter, with what each statement does to the row of a key. A
-- row's status and body are written together, and a JSONB column reads back what was written.
pub mod Same
use Prim.Native.String.{String}
use text.Mathlib.Text.{◌==◌ as str_eq}
use ledger_py.Base.{ℕ, ◌≡◌, Bool, true, false, not, Option, none, some, if◌then◌else◌}
use ledger_py.Api.Idempotency.{
  ClaimResult, new_claim, in_progress, mismatch, replay, StoredResponse, Key, same_key,
}

pub record Row (B : Type 0) : Type 0 where
  pub fingerprint : String
  pub response : Option (StoredResponse B)

abbrev pub completed_row : {B : Type 0} → StoredResponse B → Option (Row B) → Option (Row B)
completed_row response none = none
completed_row response (some row) = some (record row { response = some response })

-- `status_code IS NULL`
abbrev pub without_pending : {B : Type 0} → Option (Row B) → Option (Row B)
without_pending none = none
without_pending (some row) = elim row.response [ none ↦ none | some response ↦ some row ]

pub record Table (T B : Type 0) : Type 0 where
  -- INSERT … ON CONFLICT (key, route) DO NOTHING RETURNING key: whether it returned a row
  pub insert_row : Key → String → T → Bool × T
  -- SELECT … WHERE key = $1 AND route = $2
  pub fetch_row : Key → T → Option (Row B)
  -- UPDATE … SET status_code = $3, body = $4 WHERE key = $1 AND route = $2
  pub update_row : Key → StoredResponse B → T → T
  -- DELETE … WHERE key = $1 AND route = $2 AND status_code IS NULL
  pub delete_pending : Key → T → T
  pub insert_absent :
      (k : Key) (fingerprint : String) (t : T)
      → fetch_row k t ≡ none
      → ((insert_row k fingerprint t).0 ≡ true)
        × ((j : Key)
            → fetch_row j (insert_row k fingerprint t).1 ≡ (
                if same_key j k
                then some (record { fingerprint = fingerprint; response = none })
                else fetch_row j t))
  pub insert_present :
      (k : Key) (fingerprint : String) (t : T) (row : Row B)
      → fetch_row k t ≡ some row
      → ((insert_row k fingerprint t).0 ≡ false)
        × ((j : Key) → fetch_row j (insert_row k fingerprint t).1 ≡ fetch_row j t)
  pub fetch-update :
      (j k : Key) (response : StoredResponse B) (t : T)
      → fetch_row j (update_row k response t)
        ≡ (if same_key j k then completed_row response (fetch_row j t) else fetch_row j t)
  pub fetch-delete :
      (j k : Key) (t : T)
      → fetch_row j (delete_pending k t)
        ≡ (if same_key j k then without_pending (fetch_row j t) else fetch_row j t)

module _ {T B : Type 0} (table : Table T B) where
  -- what `claim` answers when the insertion returned nothing
  abbrev pub answer_row : String → Option (Row B) → ClaimResult × Option (StoredResponse B)
  answer_row fingerprint none = (mismatch, none)
  answer_row fingerprint (some row) =
      if not (str_eq row.fingerprint fingerprint) then (mismatch, none) else elim row.response [
        | none ↦ (in_progress, none)
        | some response ↦ (replay, some response)
      ]

  unfoldable pub pg_claim : Key → String → T → (ClaimResult × Option (StoredResponse B)) × T
  pg_claim k fingerprint t =
      let (inserted, t') = table.insert_row k fingerprint t in
      if inserted
      then ((new_claim, none), t')
      else (answer_row fingerprint (table.fetch_row k t'), t')

  unfoldable pub pg_complete : Key → ℕ → B → T → T
  pg_complete k status_code body t =
      table.update_row k (record { status_code = status_code; body = body }) t

  unfoldable pub pg_discard : Key → T → T
  pg_discard k t = table.delete_pending k t
