-- ===== src/Shared/Result.antt =====
-- Code that may raise: a pure call returns a `Result`; a call that also changes a shared object of
-- type S is an `Exec S`, which gives back the object after a raise too, since what was written
-- before the raise stays written.
use ledger_py.Base.{◌≡◌, refl, Bool, true, false, ◌⊎◌, inl, inr}
use ledger_py.Shared.Errors.{Error}

-- what a call returns, or the exception that it raises
pub data Result {κ} (X : Type κ) : Type κ where
  ok : X → Result X
  err : Error → Result X

module _ {κ μ} {X : Type κ} {Y : Type μ} where
  infixl 5 ◌>>=◌ ◌>>◌
  abbrev pub ◌>>=◌ : Result X → (X → Result Y) → Result Y
  ◌>>=◌ (ok x) next = next x
  ◌>>=◌ (err raised) next = err raised

  abbrev pub ◌>>◌ : Result X → Result Y → Result Y
  first >> second = first >>= λ _. second

  -- A chain that does not raise: its first call did not, nor did the rest.
  pub >>=-eq-ok :
      {y : Y} (first : Result X) (next : X → Result Y)
      → (first >>= next) ≡ ok y
      → (x : X) × (first ≡ ok x) × (next x ≡ ok y)
  >>=-eq-ok (ok x) next run = (x, refl, run)
  >>=-eq-ok (err raised) next run = cc

-- `if c: raise e`
abbrev pub raise_if : Bool → Error → Result (Unit {0})
raise_if true e = err e
raise_if false e = ok tt

abbrev pub is_ok {ℓ} : {A : Type ℓ} → Result A → Bool
is_ok (ok a) = true
is_ok (err e) = false

pub Result-cases {ℓ} :
    {A : Type ℓ} (r : Result A) → ((a : A) × (r ≡ ok a)) ⊎ ((e : Error) × (r ≡ err e))
Result-cases (ok a) = inl (a, refl)
Result-cases (err e) = inr (e, refl)
