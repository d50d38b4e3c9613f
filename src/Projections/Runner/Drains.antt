-- ===== src/Projections/Runner/Drains.antt =====
-- Draining the log: everything after the checkpoint is projected once, in order.
use Prim.Native.String.{String}
use mathlib.Core.List.{append_assoc}
use mathlib.Core.Path.{subst}
use ledger_py.Base.{
  ℕ, zero, suc, ◌+◌, ◌<◌, ◌≡◌, refl, some, List, [], ◌∷◌, ◌++◌, arith, inl, inr, sym, ap, ◌∙◌, ltb,
}
use ledger_py.Base.Lists.{length, take, drop, select, length-append}
use ledger_py.Shared.Result.{ok}
use ledger_py.Shared.Exec.{Exec, Exec-cases, ◌>>◌, pure}
use ledger_py.EventStore.Records.{StoredEvent}
use ledger_py.EventStore.Registry.Upcasting.{get-put_self}
use ledger_py.EventStore.Memory.{Store, read_all}
use ledger_py.EventStore.Memory.Log.{IsLog, Numbered}
use ledger_py.Projections.Runner.{
  load_checkpoint, save_checkpoint, or_zero, Projector, Progress, feed, process, finish, run_once,
  drain,
}

module _ {P : Type 0} where
  -- What `read_all` finds behind a prefix of the log.
  select_all :
      (n p : ℕ) (es : List (StoredEvent P))
      → Numbered (suc n) es
      → p < suc n
      → select (λ e. ltb p e.global_position) es ≡ es
  select_all n p [] h l = refl
  select_all n p (e ∷ es) h l = ground (arith, select_all (suc n) p es h.1 (omega arith))

  select_rest :
      (n p : ℕ) (before rest : List (StoredEvent P))
      → Numbered (suc n) (before ++ rest)
      → p ≡ n + length before
      → select (λ e. ltb p e.global_position) (before ++ rest) ≡ rest
  select_rest n p [] rest h at = select_all n p rest h (omega arith)
  select_rest n p (e ∷ before) rest h at =
      ground (arith, select_rest (suc n) p before rest h.1 (omega arith))

  Numbered-after :
      (n p : ℕ) (before rest : List (StoredEvent P))
      → Numbered (suc n) (before ++ rest)
      → p ≡ n + length before
      → Numbered (suc p) rest
  Numbered-after n p [] rest h at = subst (λ k. Numbered (suc k) rest) (omega arith) h
  Numbered-after n p (e ∷ before) rest h at = Numbered-after (suc n) p before rest h.1 (omega arith)

  Numbered-before :
      (n : ℕ) (before rest : List (StoredEvent P)) → Numbered n (before ++ rest) → Numbered n before
  Numbered-before n [] rest h = tt
  Numbered-before n (e ∷ before) rest h = (h.0, Numbered-before (suc n) before rest h.1)

  take-drop : (n : ℕ) (xs : List (StoredEvent P)) → take n xs ++ drop n xs ≡ xs
  take-drop zero xs = refl
  take-drop (suc n) [] = refl
  take-drop (suc n) (x ∷ xs) = ap (λ ys. x ∷ ys) (take-drop n xs)

module _ {P V : Type 0} (ps : List (Projector P V)) where
  -- The projectors on each event in turn.
  abbrev pub feed_all : List (StoredEvent P) → Exec V (Unit {0})
  feed_all [] = pure tt
  feed_all (e ∷ es) = do feed ps e; feed_all es

  process-feed_all :
      (n m : ℕ) (es : List (StoredEvent P)) (v v' : V)
      → Numbered (suc n) es
      → m ≡ n + length es
      → feed_all es v ≡ (ok tt, v')
      → process ps es n v ≡ (ok m, v')
  unfolding process
  process-feed_all n m [] v v' h at done = ground (arith, done)
  process-feed_all n m (e ∷ es) v v' h at done = elim (Exec-cases (feed ps e v)) [
    | inr (x, v₁, failed) ↦ absurd (ground (arith, failed, done))
    | inl (tt, v₁, fed) ↦
        let rest : feed_all es v₁ ≡ (ok tt, v') = ground (arith, fed, done) in
        let next = process-feed_all (suc n) m es v₁ v' h.1 (omega arith) rest in
        ground (arith, fed, h.0, next)
  ]

  feed_all-append :
      (xs ys : List (StoredEvent P)) (v v' : V)
      → feed_all (xs ++ ys) v ≡ (ok tt, v')
      → (v₁ : V) × (feed_all xs v ≡ (ok tt, v₁)) × (feed_all ys v₁ ≡ (ok tt, v'))
  feed_all-append [] ys v v' done = (v, refl, done)
  feed_all-append (x ∷ xs) ys v v' done = elim (Exec-cases (feed ps x v)) [
    | inr (e, v₁, failed) ↦ absurd (ground (arith, failed, done))
    | inl (tt, v₁, fed) ↦
        let (v₂, first, second) = feed_all-append xs ys v₁ v' (ground (arith, fed, done)) in
        (v₂, ground (arith, fed, first), second)
  ]

module _ {P V : Type 0} (store : Store P) (log : IsLog store) (name : String)
    (ps : List (Projector P V)) (size : ℕ) where
  -- The checkpoint stands between the two parts of the log.
  abbrev Splits : List (StoredEvent P) → List (StoredEvent P) → Progress V → Type 0
  Splits before rest w =
      (store.events ≡ before ++ rest) × (load_checkpoint name w.checkpoints ≡ length before)

  batch_read :
      (before rest : List (StoredEvent P)) (w : Progress V)
      → Splits before rest w
      → read_all (load_checkpoint name w.checkpoints) size store ≡ take size rest
  unfolding read_all
  batch_read before rest w (whole, at) =
      let numbered : Numbered 1 (before ++ rest) = subst (Numbered 1) whole log.positions in
      rw (whole, at)
        (ap (take size) (select_rest 0 (length before) before rest numbered (omega arith)))

  run_once_at :
      (before rest : List (StoredEvent P)) (w : Progress V) (v₁ : V)
      → Splits before rest w
      → feed_all ps (take size rest) w.view ≡ (ok tt, v₁)
      → run_once store name ps size w
        ≡ finish store name ps size
            (take size rest)
            w.checkpoints
            (ok (length before + length (take size rest)), v₁)
  unfolding run_once
  run_once_at before rest w v₁ (whole, at) fed =
      let numbered : Numbered 1 (before ++ rest) = subst (Numbered 1) whole log.positions in
      let later = Numbered-after 0 (length before) before rest numbered (omega arith) in
      let split = subst (Numbered (suc (length before))) (sym (take-drop size rest)) later in
      let here = Numbered-before (suc (length before)) (take size rest) (drop size rest) split in
      let done =
        process-feed_all ps (length before) (length before + length (take size rest))
          (take size rest) w.view v₁ here refl fed in
      rw (batch_read before rest w (whole, at), at, done)

module _ {P V : Type 0} (store : Store P) (log : IsLog store) (name : String)
    (ps : List (Projector P V)) where
  -- What a drain returns: the total, the read models and the new checkpoint.
  abbrev pub Drained : ℕ → ℕ → ℕ → Progress V → V → Type 0
  Drained size fuel total w v =
      (w' : Progress V) × (drain store name ps size fuel 0 w ≡ some (ok total, w'))
      × (w'.view ≡ v)
      × (load_checkpoint name w'.checkpoints ≡ length store.events)

  drain_step :
      (k fuel total n : ℕ) (w w₁ : Progress V)
      → run_once store name ps (suc k) w ≡ (ok (suc n), w₁)
      → drain store name ps (suc k) (suc fuel) total w
        ≡ drain store name ps (suc k) fuel (total + suc n) w₁
  unfolding drain
  drain_step k fuel total n w w₁ h = ground (arith, h)

  drain_from :
      (k fuel total : ℕ) (before rest : List (StoredEvent P)) (w : Progress V) (v : V)
      → Splits store log name ps (suc k) before rest w
      → length rest < fuel
      → feed_all ps rest w.view ≡ (ok tt, v)
      → (w' : Progress V) × (drain store name ps (suc k) fuel total w
          ≡ some (ok (total + length rest), w'))
        × (w'.view ≡ v)
        × (load_checkpoint name w'.checkpoints ≡ length store.events)
  unfolding drain
  drain_from k zero total before rest w v at enough fed = absurd (omega arith)
  drain_from k (suc fuel) total before [] w v at enough fed =
      let once = run_once_at store log name ps (suc k) before [] w w.view at refl in
      let shown = ap (λ p. p.1) fed in
      let all = ap length at.0 in
      (w, ground (arith, once), shown, omega (arith, at.1, all, length-append before []))
  drain_from k (suc fuel) total before (x ∷ rest) w v at enough fed =
      let batch = x ∷ take k rest in
      let later = drop k rest in
      let whole : batch ++ later ≡ x ∷ rest = take-drop (suc k) (x ∷ rest) in
      let sizes : length batch + length later ≡ suc (length rest) =
        sym (length-append batch later) ∙ ap length whole in
      let (v₁, first, second) =
        feed_all-append ps batch later w.view v
          (subst (λ es. feed_all ps es w.view ≡ (ok tt, v)) (sym whole) fed) in
      let once = run_once_at store log name ps (suc k) before (x ∷ rest) w v₁ at first in
      let position = length before + length batch in
      let w₁ : Progress V = record {
        checkpoints = save_checkpoint name position w.checkpoints;
        view = v₁;
      } in
      let split : store.events ≡ (before ++ batch) ++ later =
        at.0 ∙ ap (λ es. before ++ es) (sym whole) ∙ sym (append_assoc before batch later) in
      let saved : load_checkpoint name w₁.checkpoints ≡ length (before ++ batch) =
        ap or_zero (get-put_self name position w.checkpoints) ∙ sym (length-append before batch) in
      let (w', done, shown, caught_up) =
        drain_from k fuel (total + length batch) (before ++ batch) later w₁ v (split, saved)
          (omega arith) second in
      let count : total + length batch + length later ≡ total + suc (length rest) = omega arith in
      (
        w',
        drain_step k fuel total (length (take k rest)) w w₁ once
            ∙ done
            ∙ ap (λ n. some (ok n, w')) count,
        shown,
        caught_up,
      )

  -- Let the checkpoint stand behind a first part of the log, and let the projectors go through the
  -- rest without raising. Then a drain ends, in at most as many rounds as there are events left and
  -- one more, it has fed every one of these to the projectors once and in order, it returns their
  -- number, and the checkpoint stands at the end of the log.
  pub drain-Drained :
      (size fuel : ℕ) (before rest : List (StoredEvent P)) (w : Progress V) (v : V)
      → 0 < size
      → store.events ≡ before ++ rest
      → load_checkpoint name w.checkpoints ≡ length before
      → length rest < fuel
      → feed_all ps rest w.view ≡ (ok tt, v)
      → Drained size fuel (length rest) w v
  drain-Drained zero fuel before rest w v some_size whole at enough fed = absurd (omega arith)
  drain-Drained (suc k) fuel before rest w v some_size whole at enough fed =
      let (w', done, shown, caught_up) =
        drain_from k fuel 0 before rest w v (whole, at) enough fed in
      let count : 0 + length rest ≡ length rest = omega arith in
      (w', done ∙ ap (λ n. some (ok n, w')) count, shown, caught_up)
