-- ===== src/Projections/ReadModels/Current.antt =====
-- A read of the read models gives what the log says at that moment.
use mathlib.Core.Path.{subst}
use mathlib.Core.List.{append-nil}
use ledger_py.Base.{suc, ◌<◌, ◌≡◌, some, List, [], ◌∷◌, ◌++◌, arith, ◌∙◌, sym, ap}
use ledger_py.Base.Lists.{length, length-append}
use ledger_py.Shared.Result.{ok, >>=-eq-ok}
use ledger_py.EventStore.Events.{Host}
use ledger_py.EventStore.Records.{StoredEvent}
use ledger_py.EventStore.Registry.{Registry}
use ledger_py.EventStore.Memory.{Store}
use ledger_py.EventStore.Memory.Log.{IsLog}
use ledger_py.Projections.Balances.{Balances, project, project_all}
use ledger_py.Projections.Statements.{Statements, project_statement}
use ledger_py.Projections.Statements.Lines.{project_statements}
use ledger_py.Projections.Runner.{load_checkpoint}
use ledger_py.Projections.Runner.Drains.{feed_all, drain-Drained}
use ledger_py.Projections.ReadModels.{ReadModels, runner_name, both_projectors, catch_up}

module _ {P : Type 0} (host : Host P) (r : Registry P) where
  project_all-append :
      (xs ys : List (StoredEvent P)) (m m₁ m' : Balances)
      → project_all host r xs m ≡ ok m₁
      → project_all host r (xs ++ ys) m ≡ ok m'
      → project_all host r ys m₁ ≡ ok m'
  unfolding project_all
  project_all-append [] ys m m₁ m' first whole = ground (arith, first, whole)
  project_all-append (x ∷ xs) ys m m₁ m' first whole =
      let (n, here, rest) = >>=-eq-ok (project host r x m) _ first in
      project_all-append xs ys n m₁ m' rest (ground (arith, here, whole))

  project_statements-append :
      (xs ys : List (StoredEvent P)) (m m₁ m' : Statements)
      → project_statements host xs m ≡ ok m₁
      → project_statements host (xs ++ ys) m ≡ ok m'
      → project_statements host ys m₁ ≡ ok m'
  unfolding project_statements
  project_statements-append [] ys m m₁ m' first whole = ground (arith, first, whole)
  project_statements-append (x ∷ xs) ys m m₁ m' first whole =
      let (n, here, rest) =
        >>=-eq-ok (unfold project_statement in project_statement host x m) _ first in
      project_statements-append xs ys n m₁ m' rest (ground (arith, here, whole))

  feed_both :
      (xs : List (StoredEvent P)) (m m' : Balances) (n n' : Statements)
      → project_all host r xs m ≡ ok m'
      → project_statements host xs n ≡ ok n'
      → feed_all (both_projectors host r) xs (m, n) ≡ (ok tt, (m', n'))
  unfolding project_all project_statements
  feed_both [] m m' n n' first second = ground (arith, first, second)
  feed_both (x ∷ xs) m m' n n' first second =
      let (m₁, here, rest) = >>=-eq-ok (project host r x m) _ first in
      let (n₁, there, left) =
        >>=-eq-ok (unfold project_statement in project_statement host x n) _ second in
      ground (arith, here, there, feed_both xs m₁ m' n₁ n' rest left)

module _ {P : Type 0} (host : Host P) (s : Store P) where
  -- The views are the projections of a first part of the log, and the checkpoint stands behind it.
  pub record IsAt (before rest : List (StoredEvent P)) (w : ReadModels) : Type 0 where
    pub whole : s.events ≡ before ++ rest
    pub checkpoint : load_checkpoint runner_name w.checkpoints ≡ length before
    pub balances : project_all host s.registry before [] ≡ ok w.view.0
    pub statements : project_statements host before [] ≡ ok w.view.1

  -- A catch-up ends with the projections of the whole log.
  pub catch_up-IsAt :
      (before rest : List (StoredEvent P)) (w : ReadModels) (m : Balances) (n : Statements)
      → IsLog s
      → IsAt before rest w
      → project_all host s.registry s.events [] ≡ ok m
      → project_statements host s.events [] ≡ ok n
      → (w' : ReadModels) × (catch_up host s.registry s w ≡ some (ok (length rest), w'))
        × (w'.view ≡ (m, n))
        × IsAt s.events [] w'
  unfolding catch_up
  catch_up-IsAt before rest w m n log at p q =
      let r = s.registry in
      let first =
        project_all-append host r before rest [] w.view.0 m at.balances
          (subst (λ es. project_all host r es [] ≡ ok m) at.whole p) in
      let second =
        project_statements-append host r before rest [] w.view.1 n at.statements
          (subst (λ es. project_statements host es [] ≡ ok n) at.whole q) in
      let fed = feed_both host r rest w.view.0 m w.view.1 n first second in
      let sizes : length rest < suc (length s.events) =
        omega (arith, ap length at.whole, length-append before rest) in
      let (w', done, shown, caught_up) =
        drain-Drained s log runner_name (both_projectors host r) 500 (suc (length s.events)) before
          rest w (m, n) (omega arith) at.whole at.checkpoint sizes fed in
      (
        w',
        done,
        shown,
        record {
          whole = sym (append-nil s.events);
          checkpoint = caught_up;
          balances = p ∙ ap (λ v. ok v.0) (sym shown);
          statements = q ∙ ap (λ v. ok v.1) (sym shown);
        },
      )
