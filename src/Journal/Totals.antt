-- ===== src/Journal/Totals.antt =====
-- `defaultdict[str, int]`: sums by currency, in insertion order.
use ledger_py.Base.{◌≡◌, Bool, true, false, List, [], ◌∷◌, ◌==◌, if◌then◌else◌, arith, ◌||◌}
use ledger_py.Base.Int.{ℤ, pos, ◌+ℤ◌}
use ledger_py.Shared.Errors.{Currency}

abbrev pub Totals : Type 0
Totals = List (Currency × ℤ)

abbrev pub total : Currency → Totals → ℤ
total k [] = pos 0
total k ((j, v) ∷ d) = if k == j then v else total k d

abbrev pub has_key : Currency → Totals → Bool
has_key k [] = false
has_key k ((j, v) ∷ d) = k == j || has_key k d

abbrev pub keys : Totals → List Currency
keys [] = []
keys ((j, v) ∷ d) = j ∷ keys d

abbrev pub is_empty : Totals → Bool
is_empty [] = true
is_empty (e ∷ d) = false

-- `d[k] += x`
abbrev pub add_to : Currency → ℤ → Totals → Totals
add_to k x [] = (k, pos 0 +ℤ x) ∷ []
add_to k x ((j, v) ∷ d) = if k == j then (j, v +ℤ x) ∷ d else (j, v) ∷ add_to k x d

pub total-add_to :
    (j k : Currency) (x : ℤ) (d : Totals)
    → total j (add_to k x d) ≡ (if k == j then total j d +ℤ x else total j d)
total-add_to j k x [] = ground arith
total-add_to j k x ((i, v) ∷ d) = ground (arith, total-add_to j k x d)

pub total_missing : (k : Currency) (d : Totals) → has_key k d ≡ false → total k d ≡ pos 0
total_missing k [] h = ground arith
total_missing k ((j, v) ∷ d) h = ground (arith, total_missing k d)

pub add_to-not_empty : (k : Currency) (x : ℤ) (d : Totals) → is_empty (add_to k x d) ≡ false
add_to-not_empty k x [] = ground arith
add_to-not_empty k x ((j, v) ∷ d) = ground arith
