-- ===== src/Api/Changes.antt =====
-- What the account handlers do to the event store, and that a read sees it.
use Prim.Native.String.{String}
use mathlib.Core.Path.{subst}
use ledger_py.Base.{
  ◌≡◌, refl, Option, some, [], ◌∷◌, arith, inl, inr, ◌∙◌, sym, ap, Option-cases, ◌⊎◌,
}
use ledger_py.Base.Int.{ℤ, ◌+ℤ◌, int_laws}
use ledger_py.Shared.Errors.{Uuid, Error, domain, not_found, formatted, uuid_value}
use ledger_py.Shared.Result.{Result, ok, err, Result-cases}
use ledger_py.Shared.Aggregate.Replay.{cleared, Extends-refl}
use ledger_py.Accounts.Account
use ledger_py.Accounts.Account.Commands.{Command, deposits, run}
use ledger_py.Accounts.Account.Outcome.{run-effect, plus_zero}
use ledger_py.Accounts.Account.Replay.{run-Extends}
use ledger_py.EventStore.Events.{Host}
use ledger_py.EventStore.Memory.{Store}
use ledger_py.EventStore.Repository.{load, accounts}
use ledger_py.EventStore.Repository.Saves.{saved}
use ledger_py.Saga.Activities.Blocks.{IsStore, accounts-Matches, save_further, loaded-pending}
use ledger_py.Api.Schemas.{DepositRequest, AccountResponse}
use ledger_py.Api.AccountRoutes.{
  account_response, load_or_404, command_on, make_deposit, get_account, metadata_of,
}

module _ {P : Type 0} (host : Host P) (id : Uuid) (trace : Option String) where
  get_account_lem :
      (a : Account.Root) (s : Store P)
      → load host accounts id s ≡ ok (some a)
      → get_account host id s ≡ (ok (account_response id a.state), s)
  unfolding get_account
  get_account_lem a s found = ground (arith, found)

  -- What a command that was answered has done.
  pub record Answered (c : Command) (response : AccountResponse) (s s' : Store P) : Type 0 where
    pub before : Account.Root
    pub after : Account.Root
    pub seen_before : get_account host id s ≡ (ok (account_response id before.state), s)
    pub ran : run c before ≡ ok after
    pub answer : response ≡ account_response id after.state
    pub seen_after : get_account host id s' ≡ (ok response, s')

  module _ (c : Command) (s : Store P) (h : IsStore host s) where
    command_found :
        (b r : Account.Root)
        → load host accounts id s ≡ ok (some b)
        → run c b ≡ ok r
        → let s' = saved host accounts id r (metadata_of id trace) s in
          (command_on host id trace (run c) s ≡ (ok (account_response id r.state), s'))
          × (load host accounts id s' ≡ ok (some (cleared r)))
    unfolding load_or_404
    command_found b r found done =
        let x =
          run-Extends c b b r
            (Extends-refl Account.apply b
              (loaded-pending host accounts (accounts-Matches host) id s b found))
            done in
        let (new, kept, again) =
          save_further host accounts (accounts-Matches host) id b r (metadata_of id trace) s h found
            x in
        (ground (arith, found, done, kept), again)

    -- Either the command is answered and a read sees what was answered, or it raises and nothing has
    -- happened.
    command_ends :
        ((response : AccountResponse) × (s' : Store P) × (command_on host id trace (run c) s
            ≡ (ok response, s'))
          × Answered c response s s')
        ⊎ ((e : Error) × (command_on host id trace (run c) s ≡ (err e, s)))
    unfolding load_or_404
    command_ends = elim (Result-cases (load host accounts id s)) [
      | inr (e, failed) ↦ inr (e, ground (arith, failed))
      | inl (found, is_found) ↦ elim (Option-cases found) [
        | inl nothing ↦ inr (
          domain not_found (formatted "account {} not found" (uuid_value id ∷ [])),
          ground (arith, is_found, nothing),
        )
        | inr (b, something) ↦
            let here = is_found ∙ ap ok something in
            elim (Result-cases (run c b)) [
              | inr (e, refused) ↦ inr (e, ground (arith, here, refused))
              | inl (r, done) ↦
                  let (answers, reloaded) = command_found b r here done in
                  inl (
                    _,
                    _,
                    answers,
                    record {
                      before = b;
                      after = r;
                      seen_before = get_account_lem b s here;
                      ran = done;
                      answer = refl;
                      seen_after = get_account_lem (cleared r) _ reloaded;
                    },
                  )
            ]
      ]
    ]

  -- What a deposit promises by its result.
  abbrev Deposited : DepositRequest → Result AccountResponse → Store P → Store P → Type 0
  Deposited body (err e) s s' = Unit {0}
  Deposited body (ok response) s s' =
      (get_account host id s' ≡ (ok response, s'))
      × (before : AccountResponse) × (get_account host id s ≡ (ok before, s))
      × (response.available ≡ before.available +ℤ body.amount)
      × (response.reserved ≡ before.reserved)
      × (response.total ≡ before.total +ℤ body.amount)

  grown_total : (a r m : ℤ) → (a +ℤ m) +ℤ r ≡ (a +ℤ r) +ℤ m
  grown_total a r m = omega int_laws

  deposited :
      (body : DepositRequest) (s s' : Store P) (response : AccountResponse)
      → Answered
          (deposits (record { amount = body.amount; currency = body.currency }))
          response
          s
          s'
      → Deposited body (ok response) s s'
  unfolding account_response
  deposited body s s' response a =
      let m = body.amount in
      let b = a.before.state in
      let (grown, held) =
        run-effect (deposits (record { amount = m; currency = body.currency })) a.before a.after
          a.ran in
      let same : a.after.state.reserved.amount ≡ b.reserved.amount =
        held ∙ plus_zero b.reserved.amount in
      (
        a.seen_after,
        account_response id b,
        a.seen_before,
        ap (λ x. x.available) a.answer ∙ grown,
        ap (λ x. x.reserved) a.answer ∙ same,
        ap (λ x. x.total) a.answer
            ∙ (λ i. grown i +ℤ same i)
            ∙ grown_total b.available.amount b.reserved.amount m,
      )

  -- On a well-formed store, after a deposit was answered, a read of the account answers the same, and
  -- against the read before it the spendable amount and the total have grown by the deposit, while
  -- the reserved amount is the same.
  pub make_deposit-get_account :
      (body : DepositRequest) (response : AccountResponse) (s s' : Store P)
      → IsStore host s
      → make_deposit host id body trace s ≡ (ok response, s')
      → (get_account host id s' ≡ (ok response, s'))
        × (before : AccountResponse) × (get_account host id s ≡ (ok before, s))
        × (response.available ≡ before.available +ℤ body.amount)
        × (response.reserved ≡ before.reserved)
        × (response.total ≡ before.total +ℤ body.amount)
  unfolding make_deposit account_response run
  make_deposit-get_account body response s s' h done =
      let c = deposits (record { amount = body.amount; currency = body.currency }) in
      elim (command_ends c s h) [
        | inr (e, refused) ↦ absurd (ground (arith, refused, done))
        | inl (x, t, answered, a) ↦
            let together : (ok x, t) ≡ (ok response, s') = sym answered ∙ done in
            subst (λ p. Deposited body p.0 s p.1) together (deposited body s t x a)
      ]

  -- On a well-formed store, a deposit that raises changes nothing.
  pub make_deposit_refused :
      (body : DepositRequest) (e : Error) (s s' : Store P)
      → IsStore host s
      → make_deposit host id body trace s ≡ (err e, s')
      → s' ≡ s
  unfolding make_deposit account_response run
  make_deposit_refused body e s s' h raised =
      elim (command_ends (deposits (record { amount = body.amount; currency = body.currency })) s
        h) [
          | inr (x, refused) ↦ ground (arith, refused, raised)
          | inl (x, t, answered, a) ↦ absurd (ground (arith, answered, raised))
        ]
