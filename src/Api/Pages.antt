-- ===== src/Api/Pages.antt =====
-- The pages of an account's events: bounded, and together the whole list.
use mathlib.Core.Path.{subst}
use ledger_py.Base.{
  ℕ, zero, suc, ◌+◌, ◌≤◌, ◌≡◌, refl, ◌⊎◌, List, [], ◌∷◌, ◌++◌, arith, inl, inr, ◌∙◌, sym, ap, map,
}
use ledger_py.Base.Lists.{length, take, drop}
use ledger_py.Shared.Errors.{Uuid, account_stream}
use ledger_py.Shared.Result.{ok, Result-cases}
use ledger_py.Accounts.Account
use ledger_py.EventStore.Events.{Host}
use ledger_py.EventStore.Repository.{load, accounts}
use ledger_py.EventStore.Memory.{Store, load_stream}
use ledger_py.Api.Schemas.{EventResponse}
use ledger_py.Api.Context.{page}
use ledger_py.Api.AccountRoutes.{load_or_404, get_events, event_response}

Result-ok : {A : Type 0} {a b : A} → ok a ≡ ok b → a ≡ b
Result-ok h = ground arith

module _ {A : Type 0} where
  nil_page : (n k : ℕ) → page {A = A} n k [] ≡ []
  nil_page zero zero = refl
  nil_page zero (suc k) = refl
  nil_page (suc n) zero = refl
  nil_page (suc n) (suc k) = refl

  page-append : (n m k : ℕ) (xs : List A) → page n k xs ++ page m (k + n) xs ≡ page (n + m) k xs
  page-append zero m zero xs = subst (λ j. take m xs ≡ take j xs) (omega arith) refl
  page-append (suc n) m zero [] = nil_page m (0 + suc n) ∙ sym (nil_page (suc n + m) 0)
  page-append (suc n) m zero (x ∷ xs) =
      let shifted : 0 + suc n ≡ suc (0 + n) = omega arith in
      let longer : suc (n + m) ≡ suc n + m = omega arith in
      ap (λ j. (x ∷ take n xs) ++ page m j (x ∷ xs)) shifted
      ∙ ap (λ ys. x ∷ ys) (page-append n m zero xs)
      ∙ ap (λ j. take j (x ∷ xs)) longer
  page-append n m (suc k) [] =
      ap (λ ys. ys ++ page m (suc k + n) []) (nil_page n (suc k))
      ∙ nil_page m (suc k + n)
      ∙ sym (nil_page (n + m) (suc k))
  page-append n m (suc k) (x ∷ xs) =
      let shifted : suc k + n ≡ suc (k + n) = omega arith in
      ap (λ j. page n k xs ++ page m j (x ∷ xs)) shifted ∙ page-append n m k xs

-- A part of a list as a page shows it: it starts behind `offset` entries, unless the list is shorter,
-- and it holds `limit` of them, unless the list ends before.
pub record IsPage {A : Type 0} (limit offset : ℕ) (whole shown : List A) : Type 0 where
  pub before : List A
  pub after : List A
  pub whole_split : whole ≡ before ++ (shown ++ after)
  pub starts : (length before ≡ offset) ⊎ ((length before ≤ offset) × (shown ≡ []) × (after ≡ []))
  pub fills : (length shown ≡ limit) ⊎ ((length shown ≤ limit) × (after ≡ []))

module _ {A : Type 0} where
  split_at_page : (n : ℕ) (xs : List A) → xs ≡ take n xs ++ drop n xs
  split_at_page zero xs = refl
  split_at_page (suc n) [] = refl
  split_at_page (suc n) (x ∷ xs) = ap (λ ys. x ∷ ys) (split_at_page n xs)

  take_fills :
      (n : ℕ) (xs : List A)
      → (length (take n xs) ≡ n) ⊎ ((length (take n xs) ≤ n) × (drop n xs ≡ []))
  take_fills zero xs = inl refl
  take_fills (suc n) [] = inr (omega arith, refl)
  take_fills (suc n) (x ∷ xs) = elim (take_fills n xs) [
    | inl e ↦ inl (ap suc e)
    | inr (short, rest) ↦ inr (omega (arith, short), rest)
  ]

  take-IsPage : (n : ℕ) (xs : List A) → IsPage n 0 xs (take n xs)
  take-IsPage n xs = record {
    before = [];
    after = drop n xs;
    whole_split = split_at_page n xs;
    starts = inl refl;
    fills = take_fills n xs;
  }

  page-IsPage : (n k : ℕ) (xs : List A) → IsPage n k xs (page n k xs)
  page-IsPage n zero xs = take-IsPage n xs
  page-IsPage n (suc k) [] = rw (nil_page n (suc k)) (record {
    before = [];
    after = [];
    whole_split = refl;
    starts = inr (omega arith, refl, refl);
    fills = inr (omega arith, refl);
  })
  page-IsPage n (suc k) (x ∷ xs) =
      let p = page-IsPage n k xs in
      record {
        before = x ∷ p.before;
        after = p.after;
        whole_split = ap (λ ys. x ∷ ys) p.whole_split;
        starts = elim p.starts [
          | inl e ↦ inl (ap suc e)
          | inr (short, none_shown, none_after) ↦ inr (omega (arith, short), none_shown, none_after)
        ];
        fills = p.fills;
      }

module _ {A B : Type 0} (f : A → B) where
  map-take : (n : ℕ) (xs : List A) → map f (take n xs) ≡ take n (map f xs)
  map-take zero xs = refl
  map-take (suc n) [] = refl
  map-take (suc n) (x ∷ xs) = ap (λ ys. f x ∷ ys) (map-take n xs)

  map-page : (n k : ℕ) (xs : List A) → map f (page n k xs) ≡ page n k (map f xs)
  map-page n zero xs = map-take n xs
  map-page n (suc k) [] = ap (map f) (nil_page n (suc k)) ∙ sym (nil_page n (suc k))
  map-page n (suc k) (x ∷ xs) = map-page n k xs

module _ {P : Type 0} (host : Host P) (id : Uuid) where
  abbrev all_events : Store P → List (EventResponse P)
  all_events s = map event_response (load_stream account_stream id s)

  get_events_lem :
      (limit offset : ℕ) (a : Account.Root) (s : Store P)
      → load_or_404 host id s ≡ (ok a, s)
      → get_events host id limit offset s ≡ (ok (page limit offset (all_events s)), s)
  unfolding get_events
  get_events_lem limit offset a s found =
      ground (arith, found, map-page event_response limit offset (load_stream account_stream id s))

  load_or_404_reads : (s : Store P) → load_or_404 host id s ≡ ((load_or_404 host id s).0, s)
  unfolding load_or_404
  load_or_404_reads s = elim (Result-cases (load host accounts id s)) [
    | inr (e, failed) ↦ rw failed refl
    | inl (found, is_found) ↦ rw is_found refl
  ]

  -- An answer of get_events is a page of the account's events in the order of its stream: it starts
  -- behind `offset` of them and shows `limit`, unless they end before. Of two such answers that
  -- follow each other, the two together are the answer for both sizes.
  pub get_events-pages :
      (limit more offset : ℕ) (s : Store P) (xs ys : List (EventResponse P))
      → get_events host id limit offset s ≡ (ok xs, s)
      → get_events host id more (offset + limit) s ≡ (ok ys, s)
      → IsPage limit offset (map event_response (load_stream account_stream id s)) xs
        × (get_events host id (limit + more) offset s ≡ (ok (xs ++ ys), s))
  unfolding get_events load_or_404
  get_events-pages limit more offset s xs ys first second =
      elim (Result-cases (load_or_404 host id s).0) [
        | inr (e, failed) ↦ absurd (ground (arith, failed, first))
        | inl (a, loaded) ↦
            let found = load_or_404_reads s ∙ λ i. (loaded i, s) in
            let here = ap (λ p. p.0) (sym (get_events_lem limit offset a s found) ∙ first) in
            let there =
              ap (λ p. p.0) (sym (get_events_lem more (offset + limit) a s found) ∙ second) in
            let whole = get_events_lem (limit + more) offset a s found in
            let shown = page-IsPage limit offset (all_events s) in
            let joined = page-append limit more offset (all_events s) in
            (
              subst (IsPage limit offset (all_events s)) (Result-ok here) shown,
              whole
                  ∙ ap (λ zs. (ok zs, s)) (sym joined ∙ λ i. Result-ok here i ++ Result-ok there i),
            )
      ]
