-- ===== src/Api/Idempotency/Replays.antt =====
-- Whatever other requests do, a claimed key is not claimed again, and a completed one is replayed.
use Prim.Native.String.{String}
use text.Mathlib.Text.{◌==◌ as str_eq}
use text.Mathlib.TextEquality.{eq_iff}
use text.Mathlib.TextPositions.{eq_refl}
use ledger_py.Base.{
  ℕ, ◌≡◌, refl, Bool, true, false, not, ◌&&◌, none, some, List, [], ◌∷◌, arith, inl, inr,
  Bool-cases, Option-cases,
}
use ledger_py.Api.Idempotency.{
  in_progress, new_claim, replay, mismatch, StoredResponse, Entry, Key, same_key, Entries,
  get_entry, put_entry, delete_entry, claim, complete_claim, discard,
}

-- The calls of the requests, in the order in which the event loop runs them.
pub data Call (B : Type 0) : Type 0 where
  claims : Key → String → Call B
  completes : Key → ℕ → B → Call B
  discards : Key → Call B

pub same_key→≡ : (k j : Key) → same_key k j ≡ true → k ≡ j
same_key→≡ (k, r) (j, q) h = ground (arith, eq_iff k j, eq_iff r q)

module _ {B : Type 0} where
  unfoldable pub step : Call B → Entries B → Entries B
  unfolding claim complete_claim discard
  step (claims k fingerprint) es = (claim k fingerprint es).1
  step (completes k status_code body) es = complete_claim k status_code body es
  step (discards k) es = discard k es

  unfoldable pub steps : List (Call B) → Entries B → Entries B
  unfolding step
  steps [] es = es
  steps (c ∷ cs) es = steps cs (step c es)

  -- No call completes the key or gives it up.
  abbrev pub untouched : Key → List (Call B) → Bool
  untouched k [] = true
  untouched k (claims j fingerprint ∷ cs) = untouched k cs
  untouched k (completes j status_code body ∷ cs) = not (same_key k j) && untouched k cs
  untouched k (discards j ∷ cs) = not (same_key k j) && untouched k cs

  -- No call completes the key.
  abbrev pub not_completed : Key → List (Call B) → Bool
  not_completed k [] = true
  not_completed k (claims j fingerprint ∷ cs) = not_completed k cs
  not_completed k (completes j status_code body ∷ cs) = not (same_key k j) && not_completed k cs
  not_completed k (discards j ∷ cs) = not_completed k cs

  pub get-put_self :
      (k : Key) (e : Entry B) (es : Entries B) → get_entry k (put_entry k e es) ≡ some e
  get-put_self (k, r) e [] = ground (arith, eq_refl k, eq_refl r)
  get-put_self k e ((j, d) ∷ es) = ground (arith, get-put_self k e es)

  pub get-put_other :
      (k j : Key) (e : Entry B) (es : Entries B)
      → same_key k j ≡ false
      → get_entry k (put_entry j e es) ≡ get_entry k es
  get-put_other k j e [] h = ground arith
  get-put_other k j e ((i, d) ∷ es) h = ground (arith, same_key→≡ j i, get-put_other k j e es h)

  pub get-delete_other :
      (k j : Key) (es : Entries B)
      → same_key k j ≡ false
      → get_entry k (delete_entry j es) ≡ get_entry k es
  get-delete_other k j [] h = refl
  get-delete_other k j ((i, d) ∷ es) h = ground (arith, same_key→≡ j i, get-delete_other k j es h)

  module _ (k : Key) where
    claim-kept :
        (j : Key) (fingerprint : String) (e : Entry B) (es : Entries B)
        → get_entry k es ≡ some e
        → get_entry k (claim j fingerprint es).1 ≡ some e
    unfolding claim
    claim-kept j fingerprint e es h = elim (Option-cases (get_entry j es)) [
      | inr (d, found) ↦ ground (arith, found, h)
      | inl absent ↦ elim (Bool-cases (same_key k j)) [
        | inl same ↦ absurd (ground (arith, same_key→≡ k j, h, absent))
        | inr other ↦
            let fresh : Entry B = record { fingerprint = fingerprint; response = none } in
            ground (arith, absent, h, get-put_other k j fresh es other)
      ]
    ]

    complete-kept :
        (j : Key) (status_code : ℕ) (body : B) (e : Entry B) (es : Entries B)
        → same_key k j ≡ false
        → get_entry k es ≡ some e
        → get_entry k (complete_claim j status_code body es) ≡ some e
    unfolding complete_claim
    complete-kept j status_code body e es other h = elim (Option-cases (get_entry j es)) [
      | inl absent ↦ ground (arith, absent, h)
      | inr (d, found) ↦ ground (
        arith,
        found,
        h,
        get-put_other k j
            (record d { response = some (record { status_code = status_code; body = body }) }) es
            other,
      )
    ]

    discard-kept :
        (j : Key) (e : Entry B) (es : Entries B)
        → same_key k j ≡ false
        → get_entry k es ≡ some e
        → get_entry k (discard j es) ≡ some e
    unfolding discard
    discard-kept j e es other h = ground (arith, h, get-delete_other k j es other)

    discard_done :
        (j : Key) (e : Entry B) (r : StoredResponse B) (es : Entries B)
        → e.response ≡ some r
        → get_entry k es ≡ some e
        → get_entry k (discard j es) ≡ some e
    unfolding discard
    discard_done j e r es done h = elim (Bool-cases (same_key k j)) [
      | inl same ↦ ground (arith, same_key→≡ k j, h, done)
      | inr other ↦ discard-kept j e es other h
    ]

    -- The entry of a key that no call touches stays.
    steps-untouched :
        (cs : List (Call B)) (e : Entry B) (es : Entries B)
        → untouched k cs ≡ true
        → get_entry k es ≡ some e
        → get_entry k (steps cs es) ≡ some e
    unfolding steps
    steps-untouched [] e es u h = h
    steps-untouched (claims j fingerprint ∷ cs) e es u h =
        steps-untouched cs e (claim j fingerprint es).1 u (claim-kept j fingerprint e es h)
    steps-untouched (completes j status_code body ∷ cs) e es u h =
        steps-untouched cs e (complete_claim j status_code body es) (ground arith)
          (complete-kept j status_code body e es (ground arith) h)
    steps-untouched (discards j ∷ cs) e es u h =
        steps-untouched cs e (discard j es) (ground arith) (discard-kept j e es (ground arith) h)

    -- A completed entry stays, also when it is given up.
    steps-completed :
        (cs : List (Call B)) (e : Entry B) (r : StoredResponse B) (es : Entries B)
        → not_completed k cs ≡ true
        → e.response ≡ some r
        → get_entry k es ≡ some e
        → get_entry k (steps cs es) ≡ some e
    unfolding steps
    steps-completed [] e r es u done h = h
    steps-completed (claims j fingerprint ∷ cs) e r es u done h =
        steps-completed cs e r (claim j fingerprint es).1 u done (claim-kept j fingerprint e es h)
    steps-completed (completes j status_code body ∷ cs) e r es u done h =
        steps-completed cs e r (complete_claim j status_code body es) (ground arith) done
          (complete-kept j status_code body e es (ground arith) h)
    steps-completed (discards j ∷ cs) e r es u done h =
        steps-completed cs e r (discard j es) u done (discard_done j e r es done h)

    pub claim_new :
        (fingerprint : String) (es : Entries B)
        → (claim k fingerprint es).0.0 ≡ new_claim
        → get_entry k (claim k fingerprint es).1
          ≡ some (record { fingerprint = fingerprint; response = none })
    unfolding claim
    claim_new fingerprint es h = elim (Option-cases (get_entry k es)) [
      | inr (e, found) ↦ absurd (ground (arith, found, h))
      | inl absent ↦
          let fresh : Entry B = record { fingerprint = fingerprint; response = none } in
          ground (arith, absent, get-put_self k fresh es)
    ]

    claim_held :
        (fingerprint : String) (es : Entries B)
        → get_entry k es ≡ some (record { fingerprint = fingerprint; response = none })
        → claim k fingerprint es ≡ ((in_progress, none), es)
    unfolding claim
    claim_held fingerprint es h = ground (arith, h, eq_refl fingerprint)

    claim_done :
        (fingerprint : String) (r : StoredResponse B) (es : Entries B)
        → get_entry k es ≡ some (record { fingerprint = fingerprint; response = some r })
        → (claim k fingerprint es ≡ ((replay, some r), es))
          × ((other : String)
              → str_eq fingerprint other ≡ false
              → claim k other es ≡ ((mismatch, none), es))
    unfolding claim
    claim_done fingerprint r es h =
        (ground (arith, h, eq_refl fingerprint), λ other apart. ground (arith, h, apart))

    complete_held :
        (fingerprint : String) (status_code : ℕ) (body : B) (es : Entries B)
        → get_entry k es ≡ some (record { fingerprint = fingerprint; response = none })
        → get_entry k (complete_claim k status_code body es)
          ≡ some (record {
            fingerprint = fingerprint;
            response = some (record { status_code = status_code; body = body });
          })
    unfolding complete_claim
    complete_held fingerprint status_code body es h =
        let e : Entry B = record {
          fingerprint = fingerprint;
          response = some (record { status_code = status_code; body = body });
        } in
        ground (arith, h, get-put_self k e es)

-- A request claims a key as new. While it works, and others make any calls but to complete the
-- key or give it up, the key with the same fingerprint is in progress. After it has completed the
-- key, and others have made any calls but to complete it again, the same fingerprint gets the
-- recorded response and any other is a mismatch; neither changes the store.
pub claimed-replays :
    {B : Type 0} (k : Key) (fingerprint : String) (status_code : ℕ) (body : B)
    (during after : List (Call B)) (es : Entries B)
    → (claim k fingerprint es).0.0 ≡ new_claim
    → untouched k during ≡ true
    → not_completed k after ≡ true
    → (other : String) → str_eq fingerprint other ≡ false
    → let held = steps during (claim k fingerprint es).1 in
      let done = steps after (complete_claim k status_code body held) in
      (claim k fingerprint held ≡ ((in_progress, none), held))
      × (claim k fingerprint done
          ≡ ((replay, some (record { status_code = status_code; body = body })), done))
      × (claim k other done ≡ ((mismatch, none), done))
claimed-replays {B = B} k fingerprint status_code body during after es fresh u v other apart =
    let r : StoredResponse B = record { status_code = status_code; body = body } in
    let start : Entry B = record { fingerprint = fingerprint; response = none } in
    let entry : Entry B = record { fingerprint = fingerprint; response = some r } in
    let held = steps during (claim k fingerprint es).1 in
    let claimed = claim_new k fingerprint es fresh in
    let kept = steps-untouched k during start (claim k fingerprint es).1 u claimed in
    let completed = complete_held k fingerprint status_code body held kept in
    let stays =
      steps-completed k after entry r (complete_claim k status_code body held) v refl completed in
    let (again, refused) = claim_done k fingerprint r _ stays in
    (claim_held k fingerprint held kept, again, refused other apart)
