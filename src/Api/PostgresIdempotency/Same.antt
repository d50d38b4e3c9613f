-- ===== src/Api/PostgresIdempotency/Same.antt =====
-- The two idempotency stores give the same answers.
use Prim.Native.String.{String}
use mathlib.Core.Path.{subst}
use ledger_py.Base.{
  ℕ, ◌≡◌, Option, none, some, List, [], ◌∷◌, arith, inl, inr, ◌∙◌, sym, ap, Bool-cases,
  Option-cases, if◌then◌else◌,
}
use ledger_py.Api.Idempotency.{
  StoredResponse, Entry, Entries, Key, same_key, get_entry, put_entry, delete_entry, claim,
  complete_claim, discard,
}
use ledger_py.Api.Idempotency.Replays.{
  Call, claims, completes, discards, steps, same_key→≡, get-put_self, get-put_other,
  get-delete_other,
}
use ledger_py.Api.Context.Guards.{get-delete_self}
use ledger_py.Api.PostgresIdempotency.{Row, Table, pg_claim, pg_complete, pg_discard}

abbrev pub row_of : {B : Type 0} → Option (Entry B) → Option (Row B)
row_of none = none
row_of (some e) = some (record { fingerprint = e.fingerprint; response = e.response })

module _ {B : Type 0} where
  pub get-put :
      (j k : Key) (e : Entry B) (es : Entries B)
      → row_of (get_entry j (put_entry k e es))
        ≡ (if same_key j k then row_of (some e) else row_of (get_entry j es))
  get-put j k e es = elim (Bool-cases (same_key j k)) [
    | inl same ↦
        let at : get_entry j (put_entry k e es) ≡ some e =
          subst (λ i. get_entry i (put_entry k e es) ≡ some e) (sym (same_key→≡ j k same))
            (get-put_self k e es) in
        ground (arith, same, at)
    | inr other ↦ ground (arith, other, get-put_other j k e es other)
  ]

  pub get-delete :
      (j k : Key) (es : Entries B)
      → row_of (get_entry j (delete_entry k es))
        ≡ (if same_key j k then none else row_of (get_entry j es))
  get-delete j k es = elim (Bool-cases (same_key j k)) [
    | inl same ↦
        let at : get_entry j (delete_entry k es) ≡ none =
          subst (λ i. get_entry i (delete_entry k es) ≡ none) (sym (same_key→≡ j k same))
            (get-delete_self k es) in
        ground (arith, same, at)
    | inr other ↦ ground (arith, other, get-delete_other j k es other)
  ]

module _ {T B : Type 0} (table : Table T B) where
  -- The table has exactly the entries as its rows.
  abbrev pub Agrees : T → Entries B → Type 0
  Agrees t es = (j : Key) → table.fetch_row j t ≡ row_of (get_entry j es)

  unfoldable pub pg_step : Call B → T → T
  pg_step (claims k fingerprint) t = (pg_claim table k fingerprint t).1
  pg_step (completes k status_code body) t = pg_complete table k status_code body t
  pg_step (discards k) t = pg_discard table k t

  unfoldable pub pg_steps : List (Call B) → T → T
  unfolding pg_step
  pg_steps [] t = t
  pg_steps (c ∷ cs) t = pg_steps cs (pg_step c t)

  pg_claim-claim :
      (k : Key) (fingerprint : String) (t : T) (es : Entries B)
      → Agrees t es
      → ((pg_claim table k fingerprint t).0 ≡ (claim k fingerprint es).0)
        × Agrees (pg_claim table k fingerprint t).1 (claim k fingerprint es).1
  unfolding pg_claim claim
  pg_claim-claim k fingerprint t es same = elim (Option-cases (get_entry k es)) [
    | inl absent ↦
        let (inserted, rows) = table.insert_absent k fingerprint t (same k ∙ ap row_of absent) in
        (
          ground (arith, absent, inserted),
          λ j.
              let e : Entry B = record { fingerprint = fingerprint; response = none } in
              let here = rows j in
              let there = get-put j k e es in
              let before = same j in ground (arith, absent, inserted, here, there, before),
        )
    | inr (e, found) ↦
        let row = same k ∙ ap row_of found in
        let (refused, rows) = table.insert_present k fingerprint t _ row in
        let here = rows k ∙ row in
        (
          elim (Option-cases e.response) [
            | inl pending ↦ ground (arith, found, refused, here, pending)
            | inr (r, done) ↦ ground (arith, found, refused, here, done)
          ],
          λ j.
              let kept = rows j ∙ same j in
              elim (Option-cases e.response) [
                | inl pending ↦ ground (arith, found, refused, kept, pending)
                | inr (r, done) ↦ ground (arith, found, refused, kept, done)
              ],
        )
  ]

  pg_complete-complete_claim :
      (k : Key) (status_code : ℕ) (body : B) (t : T) (es : Entries B)
      → Agrees t es
      → Agrees (pg_complete table k status_code body t) (complete_claim k status_code body es)
  unfolding pg_complete complete_claim
  pg_complete-complete_claim k status_code body t es same j =
      let response : StoredResponse B = record { status_code = status_code; body = body } in
      let updated = table.fetch-update j k response t in
      let before = same j in
      elim (Option-cases (get_entry k es)) [
        | inl absent ↦ elim (Bool-cases (same_key j k)) [
          | inr other ↦ ground (arith, absent, updated, before, other)
          | inl own ↦
              let gone =
                before
                ∙ ap (λ i. row_of (get_entry i es)) (same_key→≡ j k own)
                ∙ ap row_of absent in
              ground (arith, absent, updated, gone, own, before)
        ]
        | inr (e, found) ↦
            let put = get-put j k (record e { response = some response }) es in
            elim (Bool-cases (same_key j k)) [
              | inr other ↦ ground (arith, found, updated, before, other, put)
              | inl own ↦
                  let there =
                    before
                    ∙ ap (λ i. row_of (get_entry i es)) (same_key→≡ j k own)
                    ∙ ap row_of found in
                  ground (arith, found, updated, there, own, put)
            ]
      ]

  pg_discard-discard :
      (k : Key) (t : T) (es : Entries B)
      → Agrees t es
      → Agrees (pg_discard table k t) (discard k es)
  unfolding pg_discard discard
  pg_discard-discard k t es same j =
      let deleted = table.fetch-delete j k t in
      let before = same j in
      let gone = get-delete j k es in
      elim (Option-cases (get_entry k es)) [
        | inl absent ↦ elim (Bool-cases (same_key j k)) [
          | inr other ↦ ground (arith, absent, deleted, before, other)
          | inl own ↦
              let missing =
                before
                ∙ ap (λ i. row_of (get_entry i es)) (same_key→≡ j k own)
                ∙ ap row_of absent in
              ground (arith, absent, deleted, missing, own, before)
        ]
        | inr (e, found) ↦ elim (Bool-cases (same_key j k)) [
          | inr other ↦ elim (Option-cases e.response) [
            | inl pending ↦ ground (arith, found, deleted, before, other, gone, pending)
            | inr (r, done) ↦ ground (arith, found, deleted, before, other, gone, done)
          ]
          | inl own ↦
              let there =
                before ∙ ap (λ i. row_of (get_entry i es)) (same_key→≡ j k own) ∙ ap row_of found in
              elim (Option-cases e.response) [
                | inl pending ↦ ground (arith, found, deleted, there, own, gone, pending)
                | inr (r, done) ↦ ground (arith, found, deleted, there, own, before, done)
              ]
        ]
      ]

  pg_steps-steps :
      (cs : List (Call B)) (t : T) (es : Entries B)
      → Agrees t es
      → Agrees (pg_steps cs t) (steps cs es)
  unfolding pg_steps steps
  pg_steps-steps [] t es same = same
  pg_steps-steps (claims k fingerprint ∷ cs) t es same =
      pg_steps-steps cs (pg_claim table k fingerprint t).1 (claim k fingerprint es).1
        (pg_claim-claim k fingerprint t es same).1
  pg_steps-steps (completes k status_code body ∷ cs) t es same =
      pg_steps-steps cs (pg_complete table k status_code body t)
        (complete_claim k status_code body es)
        (pg_complete-complete_claim k status_code body t es same)
  pg_steps-steps (discards k ∷ cs) t es same =
      pg_steps-steps cs (pg_discard table k t) (discard k es) (pg_discard-discard k t es same)

  -- Started on a table and entries that agree, and after any calls in the same order on both, a claim
  -- gets the same answer from the table and from the in-memory store, and they still agree.
  pub pg_claim-Agrees :
      (cs : List (Call B)) (k : Key) (fingerprint : String) (t : T) (es : Entries B)
      → Agrees t es
      → ((pg_claim table k fingerprint (pg_steps cs t)).0 ≡ (claim k fingerprint (steps cs es)).0)
        × Agrees
            (pg_claim table k fingerprint (pg_steps cs t)).1
            (claim k fingerprint (steps cs es)).1
  pg_claim-Agrees cs k fingerprint t es same =
      pg_claim-claim k fingerprint (pg_steps cs t) (steps cs es) (pg_steps-steps cs t es same)
