-- ===== src/Base/Dict.antt =====
-- A Python dict whose keys are numbers, as its items in insertion order.
use Prim.Native.Nat.{ℕ}
use mathlib.Core.Path.{◌≡◌}
use mathlib.Core.Bool.{false}
use mathlib.Core.Option.{Option, none, some}
use mathlib.Core.List.{List, [], ◌∷◌}
use native.Mathlib.Omega.{arith}
use ledger_py.Base.{◌==◌, if◌then◌else◌, ==_refl}

module _ {V : Type 0} where
  -- `m.get(k)`
  abbrev pub get : ℕ → List (ℕ × V) → Option V
  get k [] = none
  get k ((j, v) ∷ m) = if k == j then some v else get k m

  -- `m[k] = v`
  abbrev pub put : ℕ → V → List (ℕ × V) → List (ℕ × V)
  put k v [] = (k, v) ∷ []
  put k v ((j, w) ∷ m) = if k == j then (j, v) ∷ m else (j, w) ∷ put k v m

  pub get-put : (k : ℕ) (v : V) (m : List (ℕ × V)) → get k (put k v m) ≡ some v
  get-put k v [] = rw (==_refl k)
  get-put k v ((j, w) ∷ m) = ground (arith, get-put k v m)

  pub get-put_other :
      (k j : ℕ) (v : V) (m : List (ℕ × V)) → (k == j) ≡ false → get k (put j v m) ≡ get k m
  get-put_other k j v [] h = ground arith
  get-put_other k j v ((i, w) ∷ m) h = ground (arith, get-put_other k j v m h)
