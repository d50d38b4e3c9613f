-- ===== src/Shared/Aggregate/Replay.antt =====
-- The buffered events of an aggregate are what made its state: replaying them gives it back.
use ledger_py.Base.{◌≡◌, refl, ◌+◌, inl, inr, List, [], ◌∷◌, ◌++◌, arith}
use ledger_py.Base.Lists.{length, length-append}
use ledger_py.Shared.Result.{Result, ok, ◌>>=◌, Result-cases}
use ledger_py.Shared.Aggregate.{Aggregate, expected_version, record_event, load_from_history}

abbrev pub cleared : {S E : Type 0} → Aggregate S E → Aggregate S E
cleared r = record r { pending = [] }

module _ {S E F : Type 0} (apply : S → F → Result S) where
  -- Replaying two stretches of history is replaying one after the other.
  pub load_from_history-append :
      (xs ys : List F) (a : Aggregate S E)
      → load_from_history apply (xs ++ ys) a
        ≡ (do b ← load_from_history apply xs a; load_from_history apply ys b)
  unfolding load_from_history
  load_from_history-append [] ys a = refl
  load_from_history-append (x ∷ xs) ys a = elim (Result-cases (apply a.state x)) [
    | inl (s, e) ↦
        rw e (load_from_history-append xs ys (record a { state = s; version = a.version + 1 }))
    | inr (e, raised) ↦ rw raised
  ]

module _ {S E : Type 0} (apply : S → E → Result S) where
  -- `r` was made from `b`, which has nothing buffered, by recording the events in its buffer.
  pub record Extends (b r : Aggregate S E) : Type 0 where
    pub replays : load_from_history apply r.pending b ≡ ok (cleared r)
    pub counted : r.version ≡ b.version + length r.pending

  pub Extends-refl : (b : Aggregate S E) → b.pending ≡ [] → Extends b b
  unfolding load_from_history
  Extends-refl b h = record { replays = ground arith; counted = ground arith }

  pub record_event-Extends :
      (e : E) (b r r' : Aggregate S E) → Extends b r → record_event apply e r ≡ ok r' → Extends b r'
  unfolding record_event load_from_history
  record_event-Extends e b r r' x h = record {
    replays = ground (arith, load_from_history-append apply r.pending (e ∷ []) b, x.replays);
    counted = ground (arith, x.counted, length-append r.pending (e ∷ []));
  }

  -- The version that a save expects is the one that the aggregate was loaded at.
  pub expected_version-Extends :
      (b r : Aggregate S E) → Extends b r → expected_version r ≡ b.version
  unfolding expected_version
  expected_version-Extends b r x = omega (arith, x.counted)
