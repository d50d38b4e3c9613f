-- ===== src/Accounts/Account/Sound.antt =====
-- The invariants that account.py names, kept by every command.
use ledger_py.Base.{◌≡◌, List, [], ◌∷◌, arith}
use ledger_py.Base.Int.{pos, ◌≤ℤ◌, eqb_ℤ→≡, +ℤ_parts, -ℤ_parts}
use ledger_py.Shared.Errors.{Uuid, Currency}
use ledger_py.Shared.Result.{ok, ◌>>=◌, >>=-eq-ok}
use ledger_py.Shared.Money.{Money}
use ledger_py.Accounts.Events.{closed}
use ledger_py.Accounts.Account.{
  Account, Root, open_account, deposit, hold, release_hold, debit, credit, freeze, close,
}
use ledger_py.Accounts.Account.Commands.{
  Command, deposits, holds, releases, debits, credits, freezes, closes, run, run_all,
}

-- Both buckets are in the account's currency and not negative, and a closed account is empty.
pub record IsSound (a : Account) : Type 0 where
  pub available_currency : a.available.currency ≡ a.currency
  pub reserved_currency : a.reserved.currency ≡ a.currency
  pub available_nonneg : pos 0 ≤ℤ a.available.amount
  pub reserved_nonneg : pos 0 ≤ℤ a.reserved.amount
  pub closed_empty : a.status ≡ closed → (a.available.amount ≡ pos 0) × (a.reserved.amount ≡ pos 0)

module _ (r r' : Root) (s : IsSound r.state) where
  deposit-IsSound : (m : Money) → deposit m r ≡ ok r' → IsSound r'.state
  unfolding deposit
  deposit-IsSound m h = ground (arith, +ℤ_parts r.state.available.amount m.amount)

  hold-IsSound : (m : Money) (op : Uuid) → hold m op r ≡ ok r' → IsSound r'.state
  unfolding hold
  hold-IsSound m op h =
      ground (
        arith,
        -ℤ_parts r.state.available.amount m.amount,
        +ℤ_parts r.state.reserved.amount m.amount,
      )

  release_hold-IsSound : (m : Money) (op : Uuid) → release_hold m op r ≡ ok r' → IsSound r'.state
  unfolding release_hold
  release_hold-IsSound m op h =
      ground (
        arith,
        -ℤ_parts r.state.reserved.amount m.amount,
        +ℤ_parts r.state.available.amount m.amount,
      )

  debit-IsSound : (m : Money) (op : Uuid) → debit m op r ≡ ok r' → IsSound r'.state
  unfolding debit
  debit-IsSound m op h = ground (arith, -ℤ_parts r.state.reserved.amount m.amount)

  credit-IsSound : (m : Money) (op : Uuid) → credit m op r ≡ ok r' → IsSound r'.state
  unfolding credit
  credit-IsSound m op h = ground (arith, +ℤ_parts r.state.available.amount m.amount)

  freeze-IsSound : freeze r ≡ ok r' → IsSound r'.state
  unfolding freeze
  freeze-IsSound h = ground arith

  close-IsSound : close r ≡ ok r' → IsSound r'.state
  unfolding close
  close-IsSound h =
      ground
        (arith, eqb_ℤ→≡ r.state.available.amount (pos 0), eqb_ℤ→≡ r.state.reserved.amount (pos 0))

  run-IsSound : (c : Command) → run c r ≡ ok r' → IsSound r'.state
  unfolding run
  run-IsSound (deposits m) h = deposit-IsSound m h
  run-IsSound (holds m op) h = hold-IsSound m op h
  run-IsSound (releases m op) h = release_hold-IsSound m op h
  run-IsSound (debits m op) h = debit-IsSound m op h
  run-IsSound (credits m op) h = credit-IsSound m op h
  run-IsSound freezes h = freeze-IsSound h
  run-IsSound closes h = close-IsSound h

run_all-IsSound :
    (cs : List Command) (r r' : Root) → IsSound r.state → run_all cs r ≡ ok r' → IsSound r'.state
unfolding run_all
run_all-IsSound [] r r' s h = ground arith
run_all-IsSound (c ∷ cs) r r' s h =
    let (r₁, first, rest) = >>=-eq-ok (unfold run in run c r) (λ r₁. run_all cs r₁) h in
    run_all-IsSound cs r₁ r' (run-IsSound r r₁ s c first) rest

-- An account that is opened and then taken through any commands that succeed has both buckets in
-- its currency and not negative, and is empty if it is closed.
pub lifetime-IsSound :
    (account_id : Uuid) (currency : Currency) (cs : List Command) (r : Root)
    → (do opened_account ← open_account account_id currency; run_all cs opened_account) ≡ ok r
    → IsSound r.state
unfolding open_account
lifetime-IsSound account_id currency cs r h =
    let (r₀, first, rest) = >>=-eq-ok (open_account account_id currency) (run_all cs) h in
    run_all-IsSound cs r₀ r (ground arith) rest
