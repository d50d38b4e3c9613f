-- ===== src/Projections/Statements/Lines.antt =====
-- The statement of an account is the list of its events with an amount, in the order of the log.
use Prim.Native.String.{String}
use text.Mathlib.Text.{◌==◌ as str_eq}
use text.Mathlib.TextEquality.{eq_iff}
use mathlib.Core.List.{append_assoc, append-nil}
use mathlib.Core.Path.{subst}
use ledger_py.Base.{
  Bool, ◌≡◌, refl, true, false, ◌&&◌, ◌||◌, inl, inr, Option, none, some, List, [], ◌∷◌, ◌++◌,
  arith, Bool-cases, Option-cases, sym, ap, ◌∙◌, ==→≡, ◌==◌,
}
use ledger_py.Base.Dict.{get, put, get-put, get-put_other}
use ledger_py.Shared.Errors.{Uuid, account_stream, same_type}
use ledger_py.Shared.Result.{Result, ok, ◌>>=◌, >>=-eq-ok}
use ledger_py.Shared.Money.{Money}
use ledger_py.EventStore.Events.{Host}
use ledger_py.EventStore.Records.{StoredEvent}
use ledger_py.EventStore.Memory.{in_stream}
use ledger_py.Projections.Statements.{
  StatementLine, Statements, amount_events, is_listed, lines_or_empty, line_of, statement_of,
  project_statement,
}

module _ {P : Type 0} (host : Host P) where
  -- `project` on each event of a list in turn
  unfoldable pub project_statements : List (StoredEvent P) → Statements → Result Statements
  unfolding project_statement
  project_statements [] m = ok m
  project_statements (e ∷ es) m = do m' ← project_statement host e m; project_statements es m'

  -- The types of the five events by which the money of an account moves.
  abbrev moves_money : String → Bool
  moves_money x =
      str_eq x "AccountCredited"
      || str_eq x "AccountDebited"
      || str_eq x "HoldReleased"
      || str_eq x "FundsHeld"
      || str_eq x "FundsDeposited"

  listed-moves_money : (x : String) → is_listed x amount_events ≡ moves_money x
  listed-moves_money x = ground arith

  abbrev line_for : StoredEvent P → Option Money → List StatementLine
  line_for e none = []
  line_for e (some m) =
      (record {
        global_position = e.global_position;
        kind = e.event_type;
        amount = m.amount;
        currency = m.currency;
        occurred_at = e.occurred_at;
      })
      ∷ []

  -- The line that an event should give in the statement of an account, if any.
  abbrev pub line_in : Uuid → StoredEvent P → List StatementLine
  line_in id e = elim (in_stream account_stream id e && moves_money e.event_type) [
    | true ↦ line_for e (host.payload_amount e.payload)
    | false ↦ []
  ]

  abbrev pub lines_in : Uuid → List (StoredEvent P) → List StatementLine
  lines_in id [] = []
  lines_in id (e ∷ es) = line_in id e ++ lines_in id es

  put_kept :
      (id j : Uuid) (m : Statements)
      → statement_of id (put j (lines_or_empty (get j m)) m) ≡ statement_of id m
  unfolding statement_of
  put_kept id j m = elim (Bool-cases (id == j)) [
    | inl same ↦ ground (arith, ==→≡ id j same, get-put id (lines_or_empty (get j m)) m)
    | inr other ↦ ground (arith, get-put_other id j (lines_or_empty (get j m)) m other)
  ]

  put_own :
      (id : Uuid) (new : List StatementLine) (m : Statements)
      → statement_of id (put id (lines_or_empty (get id m) ++ new) m) ≡ statement_of id m ++ new
  unfolding statement_of
  put_own id new m = ap lines_or_empty (get-put id (lines_or_empty (get id m) ++ new) m)

  put_foreign :
      (id j : Uuid) (lines : List StatementLine) (m : Statements)
      → (id == j) ≡ false
      → statement_of id (put j lines m) ≡ statement_of id m
  unfolding statement_of
  put_foreign id j lines m other = ap lines_or_empty (get-put_other id j lines m other)

  opened_not_listed : (x : String) → str_eq x "AccountOpened" ≡ true → moves_money x ≡ false
  opened_not_listed x h =
      let same : x ≡ "AccountOpened" = ground (arith, eq_iff x "AccountOpened") in
      subst (λ y. moves_money y ≡ false) (sym same) refl

  listed-line :
      (id : Uuid) (e : StoredEvent P) (amount : Money) (m : Statements)
      → same_type e.stream_type account_stream ≡ true
      → moves_money e.event_type ≡ true
      → host.payload_amount e.payload ≡ some amount
      → statement_of id
          (put e.stream_id (lines_or_empty (get e.stream_id m) ++ line_of e amount ∷ []) m)
        ≡ statement_of id m ++ line_in id e
  listed-line id e amount m here listed has = elim (Bool-cases (e.stream_id == id)) [
    | inl own ↦
        let same = ==→≡ e.stream_id id own in
        let added = put_own e.stream_id (line_of e amount ∷ []) m in
        ground (arith, same, added, here, listed, has, own)
    | inr other ↦
        let lines = lines_or_empty (get e.stream_id m) ++ line_of e amount ∷ [] in
        let apart : (id == e.stream_id) ≡ false = ground arith in
        ground (
          arith,
          put_foreign id e.stream_id lines m apart,
          here,
          other,
          append-nil (statement_of id m),
        )
  ]

  statement-line :
      (id : Uuid) (e : StoredEvent P) (m m' : Statements)
      → project_statement host e m ≡ ok m'
      → statement_of id m' ≡ statement_of id m ++ line_in id e
  unfolding project_statement
  statement-line id e m m' h = elim (Bool-cases (same_type e.stream_type account_stream)) [
    | inr elsewhere ↦ ground (arith, elsewhere, h, append-nil (statement_of id m))
    | inl here ↦ elim (Bool-cases (str_eq e.event_type "AccountOpened")) [
      | inl opening ↦ ground (
        arith,
        here,
        opening,
        h,
        opened_not_listed e.event_type opening,
        put_kept id e.stream_id m,
        append-nil (statement_of id m),
      )
      | inr later ↦ elim (Bool-cases (moves_money e.event_type)) [
        | inr unlisted ↦ ground (
          arith,
          here,
          later,
          unlisted,
          listed-moves_money e.event_type,
          h,
          append-nil (statement_of id m),
        )
        | inl listed ↦ elim (Option-cases (host.payload_amount e.payload)) [
          | inl missing ↦
              absurd
                (ground (arith, here, later, listed, listed-moves_money e.event_type, missing, h))
          | inr (amount, has) ↦ ground (
            arith,
            here,
            later,
            listed,
            listed-moves_money e.event_type,
            has,
            h,
            listed-line id e amount m here listed has,
          )
        ]
      ]
    ]
  ]

  statements-lines :
      (id : Uuid) (es : List (StoredEvent P)) (m m' : Statements)
      → project_statements es m ≡ ok m'
      → statement_of id m' ≡ statement_of id m ++ lines_in id es
  unfolding project_statements
  statements-lines id [] m m' h = ground (arith, h, append-nil (statement_of id m))
  statements-lines id (e ∷ es) m m' h =
      let (m₁, first, rest) =
        >>=-eq-ok (unfold project_statement in project_statement host e m) _ h in
      statements-lines id es m₁ m' rest
      ∙ ap (λ xs. xs ++ lines_in id es) (statement-line id e m m₁ first)
      ∙ append_assoc (statement_of id m) (line_in id e) (lines_in id es)

-- When the projection has gone through a log without raising, the statement of every account is
-- exactly the lines of the account's events with an amount, in the order of the log.
pub statement_of-lines_in :
    {P : Type 0} (host : Host P) (id : Uuid) (events : List (StoredEvent P)) (m : Statements)
    → project_statements host events [] ≡ ok m
    → statement_of id m ≡ lines_in host id events
unfolding statement_of
statement_of-lines_in host id events m h = statements-lines host id events [] m h
