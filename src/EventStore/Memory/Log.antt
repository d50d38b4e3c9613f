-- ===== src/EventStore/Memory/Log.antt =====
-- The shape of the log: global positions and each stream's versions count up from 1.
use ledger_py.Base.{
  ℕ, suc, ◌+◌, ◌≡◌, refl, true, false, List, [], ◌∷◌, ◌++◌, arith, Bool-cases, inl, inr, ◌∙◌, ==→≡,
}
use mathlib.Core.List.{append-nil}
use ledger_py.Base.Lists.{length, select, select-append}
use ledger_py.Shared.Errors.{Uuid, StreamType, same_type→≡}
use ledger_py.EventStore.Records.{StoredEvent}
use ledger_py.EventStore.Memory.{Store, in_stream, max_version, load_stream, current_version}

module _ {P : Type 0} where
  abbrev pub Numbered : ℕ → List (StoredEvent P) → Type 0
  Numbered n [] = Unit
  Numbered n (e ∷ es) = (e.global_position ≡ n) × Numbered (suc n) es

  abbrev pub Versioned : ℕ → List (StoredEvent P) → Type 0
  Versioned n [] = Unit
  Versioned n (e ∷ es) = (e.version ≡ n) × Versioned (suc n) es

  -- Positions are 1, 2, 3, …, and so are the versions of each stream.
  pub record IsLog (s : Store P) : Type 0 where
    pub positions : Numbered 1 s.events
    pub versions : (t : StreamType) (i : Uuid) → Versioned 1 (load_stream t i s)

  -- The log with one more event.
  abbrev pub push : StoredEvent P → Store P → Store P
  push e s = record s { events = s.events ++ e ∷ [] }

  Numbered-append :
      (n : ℕ) (es : List (StoredEvent P)) (e : StoredEvent P)
      → Numbered n es
      → e.global_position ≡ n + length es
      → Numbered n (es ++ e ∷ [])
  Numbered-append n [] e h p = (omega arith, tt)
  Numbered-append n (x ∷ es) e h p = (h.0, Numbered-append (suc n) es e h.1 (omega arith))

  Versioned-append :
      (n : ℕ) (es : List (StoredEvent P)) (e : StoredEvent P)
      → Versioned n es
      → e.version ≡ n + length es
      → Versioned n (es ++ e ∷ [])
  Versioned-append n [] e h p = (omega arith, tt)
  Versioned-append n (x ∷ es) e h p = (h.0, Versioned-append (suc n) es e h.1 (omega arith))

  max-Versioned :
      (n : ℕ) (e : StoredEvent P) (es : List (StoredEvent P))
      → Versioned (suc n) (e ∷ es)
      → max_version (e ∷ es) ≡ n + length (e ∷ es)
  max-Versioned n e [] h = ground arith
  max-Versioned n e (x ∷ es) h = ground (arith, max-Versioned (suc n) x es h.1)

  pub current_version-length :
      (t : StreamType) (i : Uuid) (s : Store P)
      → IsLog s
      → current_version t i s ≡ length (load_stream t i s)
  unfolding current_version
  current_version-length t i s h = max-length (load_stream t i s) (h.versions t i)
    where
      max-length : (es : List (StoredEvent P)) → Versioned 1 es → max_version es ≡ length es
      max-length [] v = refl
      max-length (e ∷ es) v = omega (arith, max-Versioned 0 e es v)

  pub load_stream-push_in :
      (t : StreamType) (i : Uuid) (e : StoredEvent P) (s : Store P)
      → in_stream t i e ≡ true
      → load_stream t i (push e s) ≡ load_stream t i s ++ e ∷ []
  unfolding load_stream
  load_stream-push_in t i e s h = ground (arith, select-append (in_stream t i) s.events (e ∷ []))

  pub load_stream-push_out :
      (t : StreamType) (i : Uuid) (e : StoredEvent P) (s : Store P)
      → in_stream t i e ≡ false
      → load_stream t i (push e s) ≡ load_stream t i s
  unfolding load_stream
  load_stream-push_out t i e s h =
      select-append (in_stream t i) s.events (e ∷ []) ∙ rw (h, select) (append-nil _)

  in_stream→≡ :
      (t : StreamType) (i : Uuid) (e : StoredEvent P)
      → in_stream t i e ≡ true
      → (e.stream_type ≡ t) × (e.stream_id ≡ i)
  in_stream→≡ t i e h = ground (arith, same_type→≡ e.stream_type t, ==→≡ e.stream_id i)

  pub push-IsLog :
      (e : StoredEvent P) (s : Store P)
      → IsLog s
      → e.global_position ≡ suc (length s.events)
      → e.version ≡ suc (length (load_stream e.stream_type e.stream_id s))
      → IsLog (push e s)
  push-IsLog e s h p v = record {
    positions = Numbered-append 1 s.events e h.positions (omega arith);
    versions = λ t i. elim (Bool-cases (in_stream t i e)) [
      | inl own ↦
          let (same_t, same_i) = in_stream→≡ t i e own in
          rw (load_stream-push_in t i e s own)
            (Versioned-append 1 (load_stream t i s) e (h.versions t i) (grind arith))
      | inr other ↦ rw (load_stream-push_out t i e s other) (h.versions t i)
    ];
  }
