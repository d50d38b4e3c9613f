-- ===== src/Saga/Reasons.antt =====
-- temporal/workflows/transfer_workflow.py: what an activity error says of the reason.
use Prim.Native.String.{String}
use text.Mathlib.Text.{◌==◌ as str_eq}
use ledger_py.Base.{◌||◌, none, some, List, [], ◌∷◌, if◌then◌else◌}
use ledger_py.Shared.Errors.{Message}
use ledger_py.Transfers.Events.{FailureReason}
use ledger_py.Saga.Flow.{Cause, application, other_cause, no_cause}

-- `FailureReason`, by its value
abbrev failure_reasons : List (String × FailureReason)
failure_reasons =
    ("insufficient_funds", FailureReason.insufficient_funds)
    ∷ ("conflict", FailureReason.conflict)
    ∷ ("unknown_account", FailureReason.unknown_account)
    ∷ ("account_not_active", FailureReason.account_not_active)
    ∷ ("currency_mismatch", FailureReason.currency_mismatch)
    ∷ ("unbalanced_entry", FailureReason.unbalanced)
    ∷ ("other", FailureReason.other)
    ∷ []

-- the value is looked up, and OTHER where there is none
abbrev reason_named : String → List (String × FailureReason) → FailureReason
reason_named name [] = FailureReason.other
reason_named name ((value, reason) ∷ rest) =
    if str_eq name value then reason else reason_named name rest

-- `_reason_from`
unfoldable pub reason_from : Cause → FailureReason × Message
reason_from (application detail none) = (FailureReason.conflict, detail)
reason_from (application detail (some app_type)) =
    if str_eq app_type "conflict" || str_eq app_type "ConcurrencyConflict"
    then (FailureReason.conflict, detail)
    else (reason_named app_type failure_reasons, detail)
reason_from (other_cause text) = (FailureReason.other, text)
reason_from (no_cause text) = (FailureReason.other, text)

abbrev pub reason_value : FailureReason → String
reason_value FailureReason.insufficient_funds = "insufficient_funds"
reason_value FailureReason.conflict = "conflict"
reason_value FailureReason.unknown_account = "unknown_account"
reason_value FailureReason.account_not_active = "account_not_active"
reason_value FailureReason.currency_mismatch = "currency_mismatch"
reason_value FailureReason.unbalanced = "unbalanced_entry"
reason_value FailureReason.other = "other"
