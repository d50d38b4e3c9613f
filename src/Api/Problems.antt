-- ===== src/Api/Problems.antt =====
-- api/problem_details.py: an error as an HTTP response. The text work of a title (`replace`,
-- `title`) and the JSON of a model are a parameter.
use Prim.Native.String.{String}
use text.Mathlib.Text.{◌==◌ as str_eq}
use ledger_py.Base.{
  Bool-cases, leb, ◌&&◌, ℕ, ◌≡◌, refl, Bool, true, Option, none, some, List, [], ◌∷◌, ◌≤◌, arith,
  inl, inr, Option-cases,
}
use ledger_py.Shared.Errors.{Error, code_name, Message, formatted, word_value, domain, conflict}
use ledger_py.EventStore.Registry.{get}

-- `_STATUS_BY_CODE`
abbrev pub status_by_code : List (String × ℕ)
status_by_code =
    ("insufficient_funds", 422)
    ∷ ("invalid_amount", 422)
    ∷ ("currency_mismatch", 422)
    ∷ ("unbalanced_entry", 422)
    ∷ ("account_not_active", 409)
    ∷ ("invalid_transition", 409)
    ∷ ("account_not_empty", 409)
    ∷ ("same_account_transfer", 422)
    ∷ ("unknown_account", 404)
    ∷ ("not_found", 404)
    ∷ ("concurrency_conflict", 409)
    ∷ ("duplicate_request_in_progress", 409)
    ∷ ("idempotency_key_reused", 422)
    ∷ ("domain_error", 400)
    ∷ []

pub record ProblemDetail : Type 0 where
  pub type : Message
  pub title : String
  pub status : ℕ
  pub detail : Message
  pub code : String

-- A status with a JSON body: what is sent.
pub record Response (B : Type 0) : Type 0 where
  pub status_code : ℕ
  pub body : B

-- What comes from Python's text methods and from pydantic.
pub record Rendering (B : Type 0) : Type 0 where
  -- `code.replace("_", " ").title()`
  pub title_of : String → String
  -- `problem.model_dump()`
  pub problem_body : ProblemDetail → B
  -- `str(exc)` of a ConcurrencyConflict
  pub conflict_text : Error → Message

abbrev or_400 : Option ℕ → ℕ
or_400 none = 400
or_400 (some n) = n

unfoldable pub status_of : String → ℕ
status_of code = or_400 (get code status_by_code)

module _ {B : Type 0} (rendering : Rendering B) where
  -- `_problem`
  unfoldable pub problem : String → Message → ℕ × ProblemDetail
  unfolding status_of
  problem code detail = (
    status_of code,
    record {
      type = formatted "https://errors.ledger.local/{}" (word_value code ∷ []);
      title = rendering.title_of code;
      status = status_of code;
      detail = detail;
      code = code;
    },
  )

  unfoldable pub problem_response : String → Message → Response B
  unfolding problem
  problem_response code detail =
      let p = problem code detail in record { status_code = p.0; body = rendering.problem_body p.1 }

  -- The installed handlers: none for an error that has none.
  unfoldable pub handle_error : Error → Option (Response B)
  unfolding problem_response
  handle_error (domain code detail) = some (problem_response (code_name code) detail)
  handle_error (conflict t i expected actual) = some (
      problem_response "concurrency_conflict"
        (rendering.conflict_text (conflict t i expected actual)))
  handle_error e = none

abbrev all_within : List (String × ℕ) → Bool
all_within [] = true
all_within ((code, n) ∷ rest) = leb 400 n && leb n 499 && all_within rest

get_within :
    (table : List (String × ℕ)) (code : String) (n : ℕ)
    → all_within table ≡ true
    → get code table ≡ some n
    → (400 ≤ n) × (n ≤ 499)
get_within [] code n h found = ground (arith, found)
get_within ((c, m) ∷ rest) code n h found = elim (Bool-cases (str_eq code c)) [
  | inl same ↦ ground (arith, same, h, found)
  | inr other ↦ get_within rest code n (ground (arith, h)) (ground (arith, other, found))
]

status_of_bounds : (code : String) → (400 ≤ status_of code) × (status_of code ≤ 499)
unfolding status_of
status_of_bounds code = elim (Option-cases (get code status_by_code)) [
  | inl nothing ↦ ground (arith, nothing)
  | inr (n, found) ↦
      let (low, high) = get_within status_by_code code n refl found in ground (arith, found)
]

module _ {B : Type 0} (rendering : Rendering B) where
  -- Every problem response has a status from 400 to 499, and its body names the same status.
  pub problem-bounds :
      (code : String) (detail : Message)
      → let response = problem_response rendering code detail in
        (400 ≤ response.status_code)
        × (response.status_code ≤ 499)
        × (p : ProblemDetail) × (response.body ≡ rendering.problem_body p)
        × (p.status ≡ response.status_code)
  unfolding problem_response problem
  problem-bounds code detail = ((status_of_bounds code).0, (status_of_bounds code).1, _, refl, refl)
