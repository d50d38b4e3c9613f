-- ===== src/Shared/Exec.antt =====
-- A call that may raise and that changes a shared object of type S. The object comes back after a
-- raise too: what was written before it stays written.
use ledger_py.Base.{◌≡◌, refl, ◌⊎◌, inl, inr}
use ledger_py.Shared.Errors.{Error}
use ledger_py.Shared.Result.{Result, ok, err}

abbrev pub Exec {ℓ} : Type ℓ → Type ℓ → Type ℓ
Exec S A = S → Result A × S

module _ {ℓ} {S A : Type ℓ} where
  abbrev pub pure : A → Exec S A
  pure a s = (ok a, s)

  abbrev pub raise : Error → Exec S A
  raise e s = (err e, s)

  abbrev pub lift : Result A → Exec S A
  lift r s = (r, s)

  -- a read that may raise
  abbrev pub reads : (S → Result A) → Exec S A
  reads f s = (f s, s)

module _ {ℓ} {S A B : Type ℓ} where
  abbrev pub continue : Result A × S → (A → Exec S B) → Result B × S
  continue (ok a, s) f = f a s
  continue (err e, s) f = (err e, s)

  infixl 5 ◌>>=◌ ◌>>◌
  abbrev pub ◌>>=◌ : Exec S A → (A → Exec S B) → Exec S B
  ◌>>=◌ m f s = continue (m s) f

  abbrev pub ◌>>◌ : Exec S A → Exec S B → Exec S B
  m >> n = m >>= λ _. n

-- `try: … except …`: the handler sees the error and the object as it then is.
module _ {ℓ} {S A : Type ℓ} where
  abbrev pub handle : (Error → Exec S A) → Result A × S → Result A × S
  handle handler (ok a, s) = (ok a, s)
  handle handler (err e, s) = handler e s

  abbrev pub catch : Exec S A → (Error → Exec S A) → Exec S A
  catch m handler s = handle handler (m s)

pub Exec-cases :
    {S A : Type 0} (p : Result A × S)
    → ((a : A) × (s : S) × (p ≡ (ok a, s))) ⊎ ((e : Error) × (s : S) × (p ≡ (err e, s)))
Exec-cases (ok a, s) = inl (a, s, refl)
Exec-cases (err e, s) = inr (e, s, refl)
