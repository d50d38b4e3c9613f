-- ===== src/Saga/Flow.antt =====
-- Workflow code: it changes its situation, and an activity error that it meets is raised.
use Prim.Native.String.{String}
use ledger_py.Base.{◌≡◌, refl, ◌⊎◌, inl, inr, Option}
use ledger_py.Shared.Errors.{Message}

-- The `cause` of an ActivityError: an ApplicationError with its message and type, another exception
-- as text, or none, with the text of the error itself.
pub data Cause : Type 0 where
  application : Message → Option String → Cause
  other_cause : Message → Cause
  no_cause : Message → Cause

pub data Outcome (A : Type 0) : Type 0 where
  reported : A → Outcome A
  raised : Cause → Outcome A

abbrev pub Flow : Type 0 → Type 0 → Type 0
Flow S A = S → Outcome A × S

-- a change of the situation
abbrev pub update : {S : Type 0} → (S → S) → Flow S (Unit {0})
update f s = (reported tt, f s)

module _ {S A : Type 0} where
  abbrev pub pure : A → Flow S A
  pure a s = (reported a, s)

  abbrev handle : (Cause → Flow S A) → Outcome A × S → Outcome A × S
  handle handler (reported a, s) = (reported a, s)
  handle handler (raised c, s) = handler c s

  -- `try: … except ActivityError as err: …`
  abbrev pub catch : Flow S A → (Cause → Flow S A) → Flow S A
  catch m handler s = handle handler (m s)

module _ {S A B : Type 0} where
  abbrev continue : Outcome A × S → (A → Flow S B) → Outcome B × S
  continue (reported a, s) f = f a s
  continue (raised c, s) f = (raised c, s)

  infixl 5 ◌>>=◌ ◌>>◌
  abbrev pub ◌>>=◌ : Flow S A → (A → Flow S B) → Flow S B
  ◌>>=◌ m f s = continue (m s) f

  abbrev pub ◌>>◌ : Flow S A → Flow S B → Flow S B
  m >> n = m >>= λ _. n

pub Flow-cases :
    {S A : Type 0} (p : Outcome A × S)
    → ((a : A) × (s : S) × (p ≡ (reported a, s))) ⊎ ((c : Cause) × (s : S) × (p ≡ (raised c, s)))
Flow-cases (reported a, s) = inl (a, s, refl)
Flow-cases (raised c, s) = inr (c, s, refl)

-- To prove something of a sequence, prove it of each way that its first part ends.
pub >>=-ends :
    {S A B : Type 0} (Post : Outcome B × S → Type 0) (m : Flow S A) (f : A → Flow S B) (s : S)
    → ((a : A) (u : S) → m s ≡ (reported a, u) → Post (f a u))
    → ((c : Cause) (u : S) → m s ≡ (raised c, u) → Post (raised c, u))
    → Post ((m >>= f) s)
>>=-ends Post m f s done failed = elim (Flow-cases (m s)) [
  | inl (a, u, e) ↦ rw e (done a u e)
  | inr (c, u, e) ↦ rw e (failed c u e)
]

pub catch-ends :
    {S A : Type 0} (Post : Outcome A × S → Type 0) (m : Flow S A) (handler : Cause → Flow S A)
    (s : S)
    → ((a : A) (u : S) → m s ≡ (reported a, u) → Post (reported a, u))
    → ((c : Cause) (u : S) → m s ≡ (raised c, u) → Post (handler c u))
    → Post (catch m handler s)
catch-ends Post m handler s done failed = elim (Flow-cases (m s)) [
  | inl (a, u, e) ↦ rw e (done a u e)
  | inr (c, u, e) ↦ rw e (failed c u e)
]
