-- ===== src/Api/Context/Guards.antt =====
-- What the idempotency key gives a request: its work is done at most once, and a request that failed
-- can be sent again.
use Prim.Native.String.{String}
use text.Mathlib.Text.{◌==◌ as str_eq}
use mathlib.Core.Path.{subst}
use ledger_py.Base.{
  ◌≡◌, refl, true, false, none, some, List, [], ◌∷◌, arith, inl, inr, ◌∙◌, sym, ap,
}
use ledger_py.Shared.Errors.{Error, formatted}
use ledger_py.Shared.Result.{ok, err}
use ledger_py.Shared.Exec.{Exec, Exec-cases}
use ledger_py.Api.Idempotency.{
  new_claim, replay, mismatch, StoredResponse, Key, Entries, get_entry, delete_entry, claim,
  complete_claim, discard,
}
use ledger_py.Api.Idempotency.Replays.{Call, steps, not_completed, claim_new, claimed-replays}
use ledger_py.Api.Problems.{Rendering, problem_response}
use ledger_py.Api.Context.{
  AppContext, Answer, model, json_response, sent, Route, guarded, finish, answer_claim,
}

pub get-delete_self :
    {B : Type 0} (k : Key) (es : Entries B) → get_entry k (delete_entry k es) ≡ none
get-delete_self k [] = refl
get-delete_self k ((j, d) ∷ es) = ground (arith, get-delete_self k es)

-- Work that leaves the idempotency store alone.
abbrev pub Apart : {P B G R : Type 0} → Exec (AppContext P B G) R → Type 0
Apart {P = P} {B = B} {G = G} work = (c : AppContext P B G) → (work c).1.entries ≡ c.entries

module _ {P B G R : Type 0} (rendering : Rendering B) (route : Route R B) (fingerprint : String)
    (slot : Key) (work : Exec (AppContext P B G) R) (apart : Apart work) where
  abbrev run_as : Exec (AppContext P B G) (Answer R B)
  run_as c = answer_claim rendering route fingerprint work slot (claim slot fingerprint c.entries) c

  abbrev claimed : AppContext P B G → AppContext P B G
  claimed c = record c { entries = (claim slot fingerprint c.entries).1 }

  -- A request with a new key does its work with the key claimed.
  run_fresh :
      (c : AppContext P B G)
      → get_entry slot c.entries ≡ none
      → ((claim slot fingerprint c.entries).0.0 ≡ new_claim)
        × (run_as c ≡ finish rendering route fingerprint work slot (work (claimed c)))
  unfolding claim
  run_fresh c fresh = ground (arith, fresh)

  run_done :
      (c c' : AppContext P B G) (r : R)
      → get_entry slot c.entries ≡ none
      → run_as c ≡ (ok (model r), c')
      → ((claim slot fingerprint c.entries).0.0 ≡ new_claim)
        × (c'.entries
            ≡ complete_claim slot route.status_code
                (route.dump r)
                (claim slot fingerprint c.entries).1)
  run_done c c' r fresh run =
      let (is_new, started) = run_fresh c fresh in
      elim (Exec-cases (work (claimed c))) [
        | inr (e, d, failed) ↦ absurd (ground (arith, started, failed, run))
        | inl (x, d, worked) ↦ (is_new, ground (arith, started, worked, run, apart (claimed c)))
      ]

  discard_claimed :
      (es ds : Entries B)
      → (claim slot fingerprint es).0.0 ≡ new_claim
      → ds ≡ (claim slot fingerprint es).1
      → get_entry slot (discard slot ds) ≡ none
  unfolding discard
  discard_claimed es ds fresh same = ground (
    arith,
    ap (get_entry slot) same,
    claim_new slot fingerprint es fresh,
    get-delete_self slot ds,
  )

  run_failed :
      (c c' : AppContext P B G) (e : Error)
      → get_entry slot c.entries ≡ none
      → run_as c ≡ (err e, c')
      → (get_entry slot c'.entries ≡ none)
        × ((work (claimed c)).0 ≡ err e)
        × (c'.store ≡ (work (claimed c)).1.store)
        × (c'.gateway ≡ (work (claimed c)).1.gateway)
  run_failed c c' e fresh run =
      let (is_new, started) = run_fresh c fresh in
      elim (Exec-cases (work (claimed c))) [
        | inl (x, d, worked) ↦ absurd (ground (arith, started, worked, run))
        | inr (x, d, failed) ↦
            let free =
              discard_claimed c.entries d.entries is_new
                (sym (ap (λ p. p.1.entries) failed) ∙ apart (claimed c)) in
            (
              ground (arith, started, failed, run, free),
              ground (arith, started, failed, run),
              ground (arith, started, failed, run),
              ground (arith, started, failed, run),
            )
      ]

  run_replayed :
      (r : StoredResponse B) (c : AppContext P B G)
      → claim slot fingerprint c.entries ≡ ((replay, some r), c.entries)
      → run_as c ≡ (ok (json_response (record { status_code = r.status_code; body = r.body })), c)
  run_replayed r c h = ground (arith, h)

  run_mismatched :
      (c : AppContext P B G)
      → claim slot fingerprint c.entries ≡ ((mismatch, none), c.entries)
      → run_as c ≡ (
        ok (
            json_response (
              problem_response rendering "idempotency_key_reused"
                (formatted "idempotency key was reused with a different request" []))),
        c,
      )
  run_mismatched c h = ground (arith, h)

module _ {P B G R : Type 0} (rendering : Rendering B) (route : Route R B)
    (fingerprint key : String) where
  -- A request whose key was free has returned its model. Whatever requests come next, as long as none
  -- completes the key again, and whatever the other stores hold by then, a request with the same key
  -- and fingerprint is answered with the status and the body that the first was answered with, and one
  -- with another fingerprint is refused; both do nothing else.
  pub guarded-replays :
      (work again other_work : Exec (AppContext P B G) R) (after : List (Call B))
      (c c' c'' : AppContext P B G) (r : R) (other : String)
      → Apart work
      → Apart again
      → Apart other_work
      → get_entry (key, route.name) c.entries ≡ none
      → guarded rendering route fingerprint work (some key) c ≡ (ok (model r), c')
      → not_completed (key, route.name) after ≡ true
      → c''.entries ≡ steps after c'.entries
      → str_eq fingerprint other ≡ false
      → (guarded rendering route fingerprint again (some key) c''
          ≡ (ok (json_response (sent route.status_code route.dump (model r))), c''))
        × (guarded rendering route other other_work (some key) c'' ≡ (
          ok (
              json_response (
                problem_response rendering "idempotency_key_reused"
                  (formatted "idempotency key was reused with a different request" []))),
          c'',
        ))
  unfolding guarded steps
  guarded-replays work again other_work after c c' c'' r other apart apart' apart'' fresh run later
        same differs =
      let slot : Key = (key, route.name) in
      let (is_new, completed) =
        run_done rendering route fingerprint slot work apart c c' r fresh run in
      let (_, replays, refuses) =
        claimed-replays slot fingerprint route.status_code (route.dump r) [] after c.entries is_new
          refl later other differs in
      let stored : StoredResponse B = record {
        status_code = route.status_code;
        body = route.dump r;
      } in
      let there : c''.entries
          ≡ steps after (
              complete_claim slot route.status_code (route.dump r)
                (claim slot fingerprint c.entries).1) =
        same ∙ ap (steps after) completed in
      (
        run_replayed rendering route fingerprint slot again apart' stored c'' (
            subst (λ es. claim slot fingerprint es ≡ ((replay, some stored), es)) (sym there)
              replays),
        run_mismatched rendering route other slot other_work apart'' c''
            (subst (λ es. claim slot other es ≡ ((mismatch, none), es)) (sym there) refuses),
      )

  -- A request whose key was free and that raised leaves the key free again. Its work was done on the
  -- stores as they were, and what it left of them stands.
  pub guarded-free :
      (work : Exec (AppContext P B G) R) (c c' : AppContext P B G) (e : Error)
      → Apart work
      → get_entry (key, route.name) c.entries ≡ none
      → guarded rendering route fingerprint work (some key) c ≡ (err e, c')
      → let started = record c { entries = (claim (key, route.name) fingerprint c.entries).1 } in
        (get_entry (key, route.name) c'.entries ≡ none)
        × ((work started).0 ≡ err e)
        × (c'.store ≡ (work started).1.store)
        × (c'.gateway ≡ (work started).1.gateway)
  unfolding guarded
  guarded-free work c c' e apart fresh run =
      run_failed rendering route fingerprint (key, route.name) work apart c c' e fresh run
