-- ===== src/Accounts/Account/Commands.antt =====
-- The commands of account.py as values, and what each is specified to do to the balances.
use ledger_py.Base.{Bool, false, List, [], ◌∷◌, if◌then◌else◌}
use ledger_py.Base.Int.{ℤ, pos, ◌-ℤ◌}
use ledger_py.Base.Lists.{contains}
use ledger_py.Shared.Errors.{Uuid}
use ledger_py.Shared.Result.{Result, ok, ◌>>=◌}
use ledger_py.Shared.Money.{Money}
use ledger_py.Accounts.Account.{
  Account, Root, deposit, hold, release_hold, debit, credit, freeze, close,
}

pub data Command : Type 0 where
  deposits : Money → Command
  holds : Money → Uuid → Command
  releases : Money → Uuid → Command
  debits : Money → Uuid → Command
  credits : Money → Uuid → Command
  freezes : Command
  closes : Command

unfoldable pub run : Command → Root → Result Root
unfolding deposit hold release_hold debit credit freeze close
run (deposits m) = deposit m
run (holds m op) = hold m op
run (releases m op) = release_hold m op
run (debits m op) = debit m op
run (credits m op) = credit m op
run freezes = freeze
run closes = close

unfoldable pub run_all : List Command → Root → Result Root
unfolding run
run_all [] r = ok r
run_all (c ∷ cs) r = do r' ← run c r; run_all cs r'

-- What a command adds to the spendable and to the reserved bucket when it is applied for the first
-- time.
abbrev pub first_effect : Command → ℤ × ℤ
first_effect (deposits m) = (m.amount, pos 0)
first_effect (holds m op) = (pos 0 -ℤ m.amount, m.amount)
first_effect (releases m op) = (m.amount, pos 0 -ℤ m.amount)
first_effect (debits m op) = (pos 0, pos 0 -ℤ m.amount)
first_effect (credits m op) = (m.amount, pos 0)
first_effect freezes = (pos 0, pos 0)
first_effect closes = (pos 0, pos 0)

-- Whether the command carries an operation id that the account has applied before.
abbrev pub is_replay : Command → Account → Bool
is_replay (holds m op) a = contains op a.applied_ops
is_replay (releases m op) a = contains op a.applied_ops
is_replay (debits m op) a = contains op a.applied_ops
is_replay (credits m op) a = contains op a.applied_ops
is_replay _ a = false

abbrev pub effect : Command → Account → ℤ × ℤ
effect c a = if is_replay c a then (pos 0, pos 0) else first_effect c
