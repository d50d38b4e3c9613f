-- ===== src/Shared/Errors.antt =====
-- domain/shared/identifiers.py and errors.py, with the other exceptions that the program raises.
use Prim.Native.String.{String}
use ledger_py.Base.{ℕ, ◌≡◌, refl, Bool, true, false, List}
use ledger_py.Base.Int.{ℤ}

-- A UUID is only stored and compared, so it is the number of its 128 bits.
abbrev pub Uuid : Type 0
Uuid = ℕ

-- A currency code is only stored and compared: it is the number of its three ASCII bytes.
abbrev pub Currency : Type 0
Currency = ℕ

-- A value that an f-string interpolates.
pub data Value : Type 0 where
  int_value : ℤ → Value
  version_value : ℕ → Value
  uuid_value : Uuid → Value
  currency_value : Currency → Value
  money_value : ℤ → Currency → Value
  word_value : String → Value

-- A message: the template and what fills its places, or a template filled by another message.
pub data Message : Type 0 where
  formatted : String → List Value → Message
  wrapped : String → Message → Message

-- The class of a `DomainError`, by its `code`.
pub data Code : Type 0 where
  domain_error : Code
  currency_mismatch : Code
  invalid_amount : Code
  insufficient_funds : Code
  account_not_active : Code
  invalid_transition : Code
  unbalanced_entry : Code
  unknown_account : Code
  same_account_transfer : Code
  account_not_empty : Code
  not_found : Code

abbrev pub code_name : Code → String
code_name domain_error = "domain_error"
code_name currency_mismatch = "currency_mismatch"
code_name invalid_amount = "invalid_amount"
code_name insufficient_funds = "insufficient_funds"
code_name account_not_active = "account_not_active"
code_name invalid_transition = "invalid_transition"
code_name unbalanced_entry = "unbalanced_entry"
code_name unknown_account = "unknown_account"
code_name same_account_transfer = "same_account_transfer"
code_name account_not_empty = "account_not_empty"
code_name not_found = "not_found"

-- The three kinds of stream: ACCOUNT_STREAM, JOURNAL_STREAM and TRANSFER_STREAM.
pub data StreamType : Type 0 where
  account_stream : StreamType
  journal_stream : StreamType
  transfer_stream : StreamType

abbrev pub same_type : StreamType → StreamType → Bool
same_type account_stream account_stream = true
same_type journal_stream journal_stream = true
same_type transfer_stream transfer_stream = true
same_type _ _ = false

pub same_type→≡ : (s t : StreamType) → same_type s t ≡ true → s ≡ t
same_type→≡ account_stream account_stream h = refl
same_type→≡ journal_stream journal_stream h = refl
same_type→≡ transfer_stream transfer_stream h = refl
same_type→≡ account_stream journal_stream h = cc
same_type→≡ account_stream transfer_stream h = cc
same_type→≡ journal_stream account_stream h = cc
same_type→≡ journal_stream transfer_stream h = cc
same_type→≡ transfer_stream account_stream h = cc
same_type→≡ transfer_stream journal_stream h = cc

pub same_type_refl : (t : StreamType) → same_type t t ≡ true
same_type_refl account_stream = refl
same_type_refl journal_stream = refl
same_type_refl transfer_stream = refl

-- What a call may raise: a business rule, a lost optimistic lock (expected and actual version), the
-- registry's and pydantic's refusals, a missing key, Temporal's ApplicationError with its message
-- and type (non-retryable), or a failure of an outside service.
pub data Error : Type 0 where
  domain : Code → Message → Error
  conflict : StreamType → Uuid → ℕ → ℕ → Error
  unknown_event_type : String → Error
  value_error : Message → Error
  validation_error : Error
  key_error : Error
  index_error : Error
  application_error : Message → Code → Error
  service_error : Error
