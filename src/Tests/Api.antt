-- ===== src/Tests/Api.antt =====
-- A request that is repeated while it runs and after it.
use Prim.Native.String.{String}
use ledger_py.Base.{
  ℕ, ◌≡◌, refl, Bool, true, false, Option, none, some, List, [], ◌∷◌, if◌then◌else◌,
}
use ledger_py.Api.Idempotency.{Key, same_key, in_progress, replay, mismatch, claim, complete_claim}
use ledger_py.Api.Idempotency.Replays.{Call, claims, completes, discards, steps, claimed-replays}
use ledger_py.Api.PostgresIdempotency.{Row, Table, completed_row, without_pending, pg_claim}
use ledger_py.Api.PostgresIdempotency.Same.{Agrees, pg_steps, pg_claim-Agrees}

abbrev key : Key
key = ("k1", "POST /transfers")

-- another key is claimed and given up
abbrev during : List (Call ℕ)
during = claims ("k2", "POST /transfers") "f2" ∷ discards ("k2", "POST /transfers") ∷ []

-- the request gives its key up after it has completed it
abbrev after : List (Call ℕ)
after = discards key ∷ claims key "f1" ∷ []

claimed-replays_example :
    let held = steps during (claim key "f1" []).1 in
    let done = steps after (complete_claim key 202 77 held) in
    (claim key "f1" held ≡ ((in_progress, none), held))
    × (claim key "f1" done ≡ ((replay, some (record { status_code = 202; body = 77 })), done))
    × (claim key "f3" done ≡ ((mismatch, none), done))
unfolding claim
claimed-replays_example = claimed-replays key "f1" 202 77 during after [] refl refl refl "f3" refl

-- A table as the function from keys to rows.
abbrev Rows : Type 0
Rows = Key → Option (Row ℕ)

abbrev changed : Key → (Option (Row ℕ) → Option (Row ℕ)) → Rows → Rows
changed k f t j = if same_key j k then f (t j) else t j

abbrev insert_at : Key → String → Rows → Option (Row ℕ) → Bool × Rows
insert_at k fingerprint t none =
    (true, changed k (λ row. some (record { fingerprint = fingerprint; response = none })) t)
insert_at k fingerprint t (some row) = (false, t)

insert_absent :
    (k : Key) (fingerprint : String) (t : Rows)
    → t k ≡ none
    → ((insert_at k fingerprint t (t k)).0 ≡ true)
      × ((j : Key)
          → (insert_at k fingerprint t (t k)).1 j ≡ (
              if same_key j k
              then some (record { fingerprint = fingerprint; response = none })
              else t j))
insert_absent k fingerprint t h = rw h (refl, λ j. refl)

insert_present :
    (k : Key) (fingerprint : String) (t : Rows) (row : Row ℕ)
    → t k ≡ some row
    → ((insert_at k fingerprint t (t k)).0 ≡ false)
      × ((j : Key) → (insert_at k fingerprint t (t k)).1 j ≡ t j)
insert_present k fingerprint t row h = rw h (refl, λ j. refl)

abbrev table : Table Rows ℕ
table = record {
  insert_row = λ k fingerprint t. insert_at k fingerprint t (t k);
  fetch_row = λ k t. t k;
  update_row = λ k response t. changed k (completed_row response) t;
  delete_pending = λ k t. changed k without_pending t;
  insert_absent = insert_absent;
  insert_present = insert_present;
  fetch-update = λ j k response t. refl;
  fetch-delete = λ j k t. refl;
}

abbrev empty_table : Rows
empty_table j = none

-- claimed, completed with a response, given up too late, and claimed again
abbrev history : List (Call ℕ)
history = claims key "f1" ∷ completes key 202 77 ∷ discards key ∷ []

pg_claim-Agrees_example :
    ((pg_claim table key "f1" (pg_steps table history empty_table)).0
      ≡ (claim key "f1" (steps history [])).0)
    × Agrees table
        (pg_claim table key "f1" (pg_steps table history empty_table)).1
        (claim key "f1" (steps history [])).1
pg_claim-Agrees_example = pg_claim-Agrees table history key "f1" empty_table [] (λ j. refl)
