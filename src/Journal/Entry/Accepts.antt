-- ===== src/Journal/Entry/Accepts.antt =====
-- `_assert_balanced` accepts exactly the balanced lists of legs.
use ledger_py.Base.{
  ◌≡◌, refl, ◌↔◌, inl, inr, true, false, not, ◌||◌, List, [], ◌∷◌, ◌++◌, ◌==◌, if◌then◌else◌, arith,
  sym, ◌∙◌, Bool-cases, ==→≡,
}
use ledger_py.Base.Int.{ℤ, pos, ◌+ℤ◌, int_laws, eqb_ℤ→≡}
use ledger_py.Base.Lists.{select}
use ledger_py.Shared.Errors.{Currency}
use ledger_py.Shared.Result.{ok, >>=-eq-ok}
use ledger_py.Journal.Leg.{Leg, debit_side, credit_side, is_debit}
use ledger_py.Journal.Totals.{
  Totals, total, has_key, keys, is_empty, add_to, total-add_to, total_missing, add_to-not_empty,
}
use ledger_py.Journal.Entry.{tally, check_currencies, all_keys, assert_balanced}
use ledger_py.Journal.Entry.Balanced.{side_sum, AllPositive, has_side, IsBalanced}

zero_plus : (a : ℤ) → pos 0 +ℤ a ≡ a
zero_plus a = omega int_laws

plus_zero : (a : ℤ) → a +ℤ pos 0 ≡ a
plus_zero a = omega int_laws

plus_assoc : (a b c : ℤ) → a +ℤ b +ℤ c ≡ a +ℤ (b +ℤ c)
plus_assoc a b c = omega int_laws

module _ (k : Currency) where
  tally-total :
      (legs : List Leg) (d c : Totals) (t : Totals × Totals)
      → tally legs d c ≡ ok t
      → (total k t.0 ≡ total k d +ℤ side_sum debit_side k legs)
        × (total k t.1 ≡ total k c +ℤ side_sum credit_side k legs)
  unfolding tally side_sum
  tally-total [] d c t h = ground (arith, plus_zero (total k d), plus_zero (total k c))
  tally-total (leg ∷ legs) d c t h = ground (
    arith,
    tally-total legs
        (if is_debit leg.direction then add_to leg.amount.currency leg.amount.amount d else d)
        (if is_debit leg.direction then c else add_to leg.amount.currency leg.amount.amount c) t,
    total-add_to k leg.amount.currency leg.amount.amount d,
    total-add_to k leg.amount.currency leg.amount.amount c,
    plus_assoc (total k d) leg.amount.amount (side_sum debit_side k legs),
    plus_assoc (total k c) leg.amount.amount (side_sum credit_side k legs),
  )

tally-AllPositive :
    (legs : List Leg) (d c : Totals) (t : Totals × Totals)
    → tally legs d c ≡ ok t
    → AllPositive legs
unfolding tally
tally-AllPositive [] d c t h = tt
tally-AllPositive (leg ∷ legs) d c t h = ground (
  arith,
  tally-AllPositive legs
      (if is_debit leg.direction then add_to leg.amount.currency leg.amount.amount d else d)
      (if is_debit leg.direction then c else add_to leg.amount.currency leg.amount.amount c) t,
)

AllPositive-tally :
    (legs : List Leg) (d c : Totals)
    → AllPositive legs
    → (t : Totals × Totals) × (tally legs d c ≡ ok t)
unfolding tally
AllPositive-tally [] d c h = ((d, c), refl)
AllPositive-tally (leg ∷ legs) d c h =
    let (t, e) =
      AllPositive-tally legs
        (if is_debit leg.direction then add_to leg.amount.currency leg.amount.amount d else d)
        (if is_debit leg.direction then c else add_to leg.amount.currency leg.amount.amount c)
        h.1 in
    (t, ground (arith, e))

tally_sides :
    (legs : List Leg) (d c : Totals) (t : Totals × Totals)
    → tally legs d c ≡ ok t
    → (not (is_empty t.0) ≡ not (is_empty d) || has_side debit_side legs)
      × (not (is_empty t.1) ≡ not (is_empty c) || has_side credit_side legs)
unfolding tally
tally_sides [] d c t h = ground arith
tally_sides (leg ∷ legs) d c t h = ground (
  arith,
  tally_sides legs
      (if is_debit leg.direction then add_to leg.amount.currency leg.amount.amount d else d)
      (if is_debit leg.direction then c else add_to leg.amount.currency leg.amount.amount c) t,
  add_to-not_empty leg.amount.currency leg.amount.amount d,
  add_to-not_empty leg.amount.currency leg.amount.amount c,
)

module _ (d c : Totals) where
  abbrev Agrees : Currency → Type 0
  Agrees k = total k d ≡ total k c

  abbrev AllAgree : List Currency → Type 0
  AllAgree [] = Unit
  AllAgree (k ∷ ks) = Agrees k × AllAgree ks

  check-AllAgree : (ks : List Currency) → check_currencies ks d c ≡ ok tt → AllAgree ks
  unfolding check_currencies
  check-AllAgree [] h = tt
  check-AllAgree (k ∷ ks) h = ground (arith, check-AllAgree ks, eqb_ℤ→≡ (total k d) (total k c))

  AllAgree-check :
      (ks : List Currency) → ((k : Currency) → Agrees k) → check_currencies ks d c ≡ ok tt
  unfolding check_currencies
  AllAgree-check [] h = refl
  AllAgree-check (k ∷ ks) h = ground (arith, AllAgree-check ks h, h k)

  AllAgree-left : (xs ys : List Currency) → AllAgree (xs ++ ys) → AllAgree xs
  AllAgree-left [] ys h = tt
  AllAgree-left (x ∷ xs) ys h = (h.0, AllAgree-left xs ys h.1)

  AllAgree-right : (xs ys : List Currency) → AllAgree (xs ++ ys) → AllAgree ys
  AllAgree-right [] ys h = h
  AllAgree-right (x ∷ xs) ys h = AllAgree-right xs ys h.1

  key-Agrees : (k : Currency) (e : Totals) → AllAgree (keys e) → has_key k e ≡ true → Agrees k
  key-Agrees k [] a h = cc
  key-Agrees k ((j, v) ∷ e) a h = ground (arith, key-Agrees k e a.1, ==→≡ k j)

  new_key-Agrees :
      (k : Currency) (e : Totals)
      → AllAgree (select (λ j. not (has_key j d)) (keys e))
      → has_key k e ≡ true
      → has_key k d ≡ false
      → Agrees k
  new_key-Agrees k [] a h n = cc
  new_key-Agrees k ((j, v) ∷ e) a h n = elim (Bool-cases (has_key j d)) [
    | inl old ↦
        let rest : AllAgree (select (λ j. not (has_key j d)) (keys e)) = ground (arith, a, old) in
        new_key-Agrees k e rest (ground (arith, ==→≡ k j)) n
    | inr new ↦
        let kept : Agrees j × AllAgree (select (λ j. not (has_key j d)) (keys e)) =
          ground (arith, a, new) in
        elim (Bool-cases (k == j)) [
          | inl same ↦ rw (==→≡ k j same) kept.0
          | inr other ↦ new_key-Agrees k e kept.1 (ground arith) n
        ]
  ]

  Agrees-all_keys : AllAgree (all_keys d c) → (k : Currency) → Agrees k
  Agrees-all_keys a k = elim (Bool-cases (has_key k d)) [
    | inl yes_d ↦ key-Agrees k d (AllAgree-left (keys d) _ a) yes_d
    | inr no_d ↦ elim (Bool-cases (has_key k c)) [
      | inl yes_c ↦ new_key-Agrees k c (AllAgree-right (keys d) _ a) yes_c no_d
      | inr no_c ↦ total_missing k d no_d ∙ sym (total_missing k c no_c)
    ]
  ]

module _ (legs : List Leg) (t : Totals × Totals) (e : tally legs [] [] ≡ ok t) where
  side_totals :
      (k : Currency)
      → (total k t.0 ≡ side_sum debit_side k legs) × (total k t.1 ≡ side_sum credit_side k legs)
  side_totals k = ground (
    arith,
    tally-total k legs [] [] t e,
    zero_plus (side_sum debit_side k legs),
    zero_plus (side_sum credit_side k legs),
  )

  checked-IsBalanced :
      (is_empty t.0 || is_empty t.1) ≡ false
      → check_currencies (all_keys t.0 t.1) t.0 t.1 ≡ ok tt
      → IsBalanced legs
  checked-IsBalanced both agree = record {
    positive = tally-AllPositive legs [] [] t e;
    debited = ground (arith, tally_sides legs [] [] t e, both);
    credited = ground (arith, tally_sides legs [] [] t e, both);
    balanced = λ k.
        let (d, c) = side_totals k in
        sym d ∙ Agrees-all_keys t.0 t.1 (check-AllAgree t.0 t.1 (all_keys t.0 t.1) agree) k ∙ c;
  }

  IsBalanced-checked :
      IsBalanced legs
      → ((is_empty t.0 || is_empty t.1) ≡ false)
        × (check_currencies (all_keys t.0 t.1) t.0 t.1 ≡ ok tt)
  IsBalanced-checked b = (
    ground (arith, tally_sides legs [] [] t e, b.debited, b.credited),
    AllAgree-check t.0 t.1 (all_keys t.0 t.1)
        λ k. let (d, c) = side_totals k in d ∙ b.balanced k ∙ sym c,
  )

accepted : (legs : List Leg) → assert_balanced legs ≡ ok tt → IsBalanced legs
unfolding assert_balanced
accepted [] h = cc
accepted (leg ∷ legs) h =
    let (t, e, rest) = >>=-eq-ok (tally (leg ∷ legs) [] []) _ h in
    checked-IsBalanced (leg ∷ legs) t e (ground arith) (ground arith)

balanced_accepted : (legs : List Leg) → IsBalanced legs → assert_balanced legs ≡ ok tt
unfolding assert_balanced
balanced_accepted [] b = cc b.debited
balanced_accepted (leg ∷ legs) b =
    let (t, e) = AllPositive-tally (leg ∷ legs) [] [] b.positive in
    let (both, agree) = IsBalanced-checked (leg ∷ legs) t e b in ground (arith, e, both, agree)

-- The check accepts exactly the balanced entries: positive legs, both sides, and debits equal to
-- credits in every currency.
pub assert_balanced_iff : (legs : List Leg) → (assert_balanced legs ≡ ok tt) ↔ IsBalanced legs
assert_balanced_iff legs = (accepted legs, balanced_accepted legs)
