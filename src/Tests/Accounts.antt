-- ===== src/Tests/Accounts.antt =====
-- An account's life with amounts that can be followed by hand, and Money.
use ledger_py.Base.{ℕ, ◌≡◌, refl, true, ◌↔◌, some, List, [], ◌∷◌, arith}
use ledger_py.Base.Int.{pos, ◌+ℤ◌, ◌-ℤ◌}
use ledger_py.Shared.Errors.{Currency}
use ledger_py.Shared.Result.{ok, is_ok, ◌>>=◌}
use ledger_py.Shared.Money.{Money, add, subtract, negate}
use ledger_py.Shared.Money.Laws.{subtract-add}
use ledger_py.Shared.Aggregate.{new, load_from_history, expected_version}
use ledger_py.Shared.Aggregate.Replay.{cleared}
use ledger_py.Accounts.Events.{opened, account_opened, funds_deposited, funds_held, account_debited}
use ledger_py.Accounts.Account.{Account, Root, apply, open_account}
use ledger_py.Accounts.Account.Commands.{Command, deposits, holds, debits, run, run_all}
use ledger_py.Accounts.Account.Sound.{IsSound, lifetime-IsSound}
use ledger_py.Accounts.Account.Outcome.{IsAllowed, Moves, run_iff, run-effect, run-run}
use ledger_py.Accounts.Account.Replay.{run_all_replays}

abbrev eur : Currency
eur = 0x455552

abbrev euros : ℕ → Money
euros n = record { amount = pos n; currency = eur }

abbrev funded : Account
funded = record {
  account_id = some 7;
  currency = eur;
  status = opened;
  available = euros 70;
  reserved = euros 30;
  applied_ops = 1 ∷ [];
}

abbrev funded_root : Root
funded_root = new funded

funded-IsSound : IsSound funded
funded-IsSound = ground arith

-- opened, 100 in, 30 held and then debited
abbrev script : List Command
script = deposits (euros 100) ∷ holds (euros 30) 1 ∷ debits (euros 30) 2 ∷ []

abbrev after_script : Root
after_script = record {
  state = record {
    account_id = some 7;
    currency = eur;
    status = opened;
    available = euros 70;
    reserved = euros 0;
    applied_ops = 2 ∷ 1 ∷ [];
  };
  version = 4;
  pending =
      account_opened eur
      ∷ funds_deposited (euros 100)
      ∷ funds_held (euros 30) 1
      ∷ account_debited (euros 30) 2
      ∷ [];
}

script_runs : (do r ← open_account 7 eur; run_all script r) ≡ ok after_script
unfolding open_account run_all ◌+ℤ◌ ◌-ℤ◌
script_runs = refl

lifetime-IsSound_example : IsSound after_script.state
lifetime-IsSound_example = lifetime-IsSound 7 eur script after_script script_runs

run_iff_example :
    (is_ok (run (holds (euros 71) 9) funded_root) ≡ true) ↔ IsAllowed (holds (euros 71) 9) funded
run_iff_example = run_iff (holds (euros 71) 9) funded_root funded-IsSound

abbrev held_root : Root
held_root = record {
  state = record funded { available = euros 60; reserved = euros 40; applied_ops = 9 ∷ 1 ∷ [] };
  version = 1;
  pending = funds_held (euros 10) 9 ∷ [];
}

hold_runs : run (holds (euros 10) 9) funded_root ≡ ok held_root
unfolding run ◌+ℤ◌ ◌-ℤ◌
hold_runs = refl

run-effect_example : Moves (holds (euros 10) 9) funded_root held_root
run-effect_example = run-effect (holds (euros 10) 9) funded_root held_root hold_runs

run-run_example : run (holds (euros 10) 9) held_root ≡ ok held_root
run-run_example = run-run (holds (euros 10) 9) funded_root held_root refl hold_runs

one_hold_runs : run_all (holds (euros 10) 9 ∷ []) funded_root ≡ ok held_root
unfolding run_all ◌+ℤ◌ ◌-ℤ◌
one_hold_runs = refl

run_all_replays_example :
    (load_from_history apply held_root.pending funded_root ≡ ok (cleared held_root))
    × (expected_version held_root ≡ 0)
run_all_replays_example =
    run_all_replays (holds (euros 10) 9 ∷ []) funded_root held_root refl one_hold_runs

five_and_two : add (euros 5) (euros 2) ≡ ok (euros 7)
unfolding add ◌+ℤ◌
five_and_two = refl

subtract-add_example :
    (subtract (euros 7) (euros 2) ≡ ok (euros 5))
    × (add (euros 7) (negate (euros 2)) ≡ ok (euros 5))
subtract-add_example = subtract-add (euros 5) (euros 2) (euros 7) five_and_two
