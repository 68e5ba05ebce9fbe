-- ===== src/Settlement/Outcome.antt =====
-- What `settle` commits: nothing, or the whole settlement.
use mathlib.Core.Option
use mathlib.Core.Path.{subst}
use yanzl.Prelude.{
  ◌≡◌, refl, sym, ap, ◌∙◌, Bool, true, false, ◌⊎◌, inl, inr, Option, none, some, List, [], ◌∷◌,
  arith, String,
}
use yanzl.Prelude.Tests.{if◌then◌else◌, Bool-cases}
use yanzl.Domain.Positions.{Position}
use yanzl.Database.UnitOfWork.{
  Error, Result, ok, err, continue, handle_any, Session, pure, commit, ◌>>◌,
}
use yanzl.Database.Runs.{Ends, Runs}
use yanzl.Position.Store.{PositionDb}
use yanzl.Position.Derived.{roll}
use yanzl.Position.Derived.Laws.{IsBalanced, after-IsBalanced}
use yanzl.Settlement.Models.{
  TradingCalendar, SettlementContext, settled, duplicate, SettlementSnapshot, SettlementResult,
  SettlementPlan,
}
use yanzl.Settlement.Store.{
  SettlementRow, SettlementDb, find_settlement, same_canonical_settlement_snapshot,
  settlement_snapshot_to_domain,
}
use yanzl.Settlement.Live.{load_live_positions, lives_differ, live_divergence_reason}
use yanzl.Settlement.Calculator.{plan, answer, Planned, build_plan}
use yanzl.Settlement.Calculator.Laws.{IsPlan, build_plan-IsPlan}
use yanzl.Settlement.Engine.{
  Keys, engine_result, settle_failed, write_rows, write_settlement, settle_live, settle_new,
  settle_existing, settle_unless_known, settle_planned, replay_result, check_live, settle_as,
}
use yanzl.Settlement.Writes.{Wrote, write_rows-Runs}
use yanzl.Settlement.Rows.{roll_rows}

abbrev pub closed : SettlementDb → Session SettlementDb
closed d = record { committed = d; working = d }

module _ (keys : Keys) (c : SettlementContext) (p : SettlementPlan) (live : List Position)
    (d : SettlementDb) where
  -- The `try` and its `except` clauses, after the writes.
  abbrev finish_try :
      Result SettlementSnapshot × Session SettlementDb
      → Result SettlementResult × Session SettlementDb
  finish_try x =
      let y =
        continue x.0 (λ appended. do commit; pure (engine_result c settled (some appended) none))
          x.1 in
      handle_any y.0 (settle_failed c) y.1

  failed-committed :
      (e : Error) (s : Session SettlementDb) → (settle_failed c e s).1.committed ≡ s.committed
  failed-committed e s = ground arith

  -- Nothing is committed, or all that was written.
  abbrev Tried : Result SettlementResult × Session SettlementDb → Type 0
  Tried y =
      (y.1.committed ≡ d)
      ⊎ ((x : SettlementSnapshot) × (v : SettlementDb) × Wrote keys c p live d x v
          × (y ≡ (ok (engine_result c settled (some x) none), closed v)))

  finish_try-Tried :
      (x : Result SettlementSnapshot × Session SettlementDb)
      → Ends (Wrote keys c p live d) d x
      → Tried (finish_try x)
  finish_try-Tried (ok a, s) h = inr (a, s.working, h.1, refl)
  finish_try-Tried (err e, s) h = inl (failed-committed e s ∙ h)

  write_settlement-Tried :
      find_settlement p.snapshot.account_id p.snapshot.trading_day d.settlements ≡ none
      → Tried (write_settlement keys c p live (closed d))
  unfolding write_settlement Runs
  write_settlement-Tried new =
      finish_try-Tried (write_rows keys c p live (closed d)) (write_rows-Runs keys c p live d d new)

-- A settlement that is committed: the plan, the live rows that the context repeats, what is written and the
-- answer.
pub record IsSettled (keys : Keys) (c : SettlementContext) (calendar : Option TradingCalendar)
    (d : SettlementDb) (y : Result SettlementResult × SettlementDb) : Type 0 where
  pub p : SettlementPlan
  pub planned : build_plan c calendar ≡ ok (plan p)
  pub is_plan : IsPlan c calendar p
  pub fresh : find_settlement c.account_id c.trading_day d.settlements ≡ none
  pub live : List Position
  pub loaded : load_live_positions d.positions c.positions ≡ some live
  pub undiverged : lives_differ live c.positions ≡ false
  pub snapshot : SettlementSnapshot
  pub after : SettlementDb
  pub wrote : Wrote keys c p live d snapshot after
  pub answered : y ≡ (ok (engine_result c settled (some snapshot) none), after)

abbrev pub Outcome :
    Keys
    → SettlementContext
    → Option TradingCalendar
    → SettlementDb
    → Result SettlementResult × SettlementDb
    → Type 0
Outcome keys c calendar d y = (y.1 ≡ d) ⊎ IsSettled keys c calendar d y

abbrev pub outcome :
    Result SettlementResult × Session SettlementDb → Result SettlementResult × SettlementDb
outcome x = (x.0, x.1.committed)

module _ (keys : Keys) (c : SettlementContext) (calendar : Option TradingCalendar)
    (d : SettlementDb) where
  pub plan-account :
      (p : SettlementPlan) → IsPlan c calendar p → p.snapshot.account_id ≡ c.account_id
  plan-account p k = ap (λ (q : SettlementPlan). q.snapshot.account_id) k.planned_as

  pub plan-day : (p : SettlementPlan) → IsPlan c calendar p → p.snapshot.trading_day ≡ c.trading_day
  plan-day p k = ap (λ (q : SettlementPlan). q.snapshot.trading_day) k.planned_as

  module _ (p : SettlementPlan) (planned : build_plan c calendar ≡ ok (plan p))
      (new : find_settlement p.snapshot.account_id p.snapshot.trading_day d.settlements
        ≡ none) where
    by_try :
        (live : List Position)
        → load_live_positions d.positions c.positions ≡ some live
        → lives_differ live c.positions ≡ false
        → Outcome keys c calendar d (outcome (write_settlement keys c p live (closed d)))
    by_try live loaded undiverged = elim (write_settlement-Tried keys c p live d new) [
      | inl kept ↦ inl kept
      | inr (x, v, w, eq) ↦
          let k = build_plan-IsPlan c calendar p planned in
          inr (record {
            p = p;
            planned = planned;
            is_plan = k;
            fresh =
                sym (
                  ap (λ a. find_settlement a p.snapshot.trading_day d.settlements)
                    (plan-account p k)
                  ∙ ap (λ t. find_settlement c.account_id t d.settlements) (plan-day p k))
                ∙ new;
            live = live;
            loaded = loaded;
            undiverged = undiverged;
            snapshot = x;
            after = v;
            wrote = w;
            answered = ap outcome eq;
          })
    ]

    by_live :
        (o : Option (List Position))
        → load_live_positions d.positions c.positions ≡ o
        → Outcome keys c calendar d (outcome (settle_live keys c p o (closed d)))
    by_live none loaded = inl refl
    by_live (some live) loaded = elim (Bool-cases (lives_differ live c.positions)) [
      | inl diverged ↦ rw diverged (inl refl)
      | inr undiverged ↦ rw undiverged (by_try live loaded undiverged)
    ]

  replay_result-committed :
      (e : SettlementSnapshot) (x : Result (Option String))
      → (replay_result keys c true e x (closed d)).1.committed ≡ d
  replay_result-committed e (err f) = refl
  replay_result-committed e (ok none) = refl
  replay_result-committed e (ok (some reason)) = refl

  replayed-committed :
      (replay : Bool) (e : SettlementSnapshot)
      → ((if replay
            then check_live keys c replay e
            else pure (engine_result c duplicate (some e) none))
          (closed d)).1.committed
        ≡ d
  replayed-committed true e = replay_result-committed e (live_divergence_reason d e)
  replayed-committed false e = refl

  existing-committed :
      (replay : Bool) (e : SettlementSnapshot) (p : SettlementPlan)
      → (settle_existing keys c replay e p (closed d)).1.committed ≡ d
  unfolding settle_existing
  existing-committed replay e p =
      elim (Bool-cases (same_canonical_settlement_snapshot e p.snapshot)) [
        | inr other ↦ rw other refl
        | inl same ↦ rw same (replayed-committed replay e)
      ]

  by_known :
      (replay : Bool) (p : SettlementPlan) (o : Option SettlementRow)
      → build_plan c calendar ≡ ok (plan p)
      → find_settlement p.snapshot.account_id p.snapshot.trading_day d.settlements ≡ o
      → Outcome keys c calendar d (
          outcome (
            settle_unless_known keys c replay p
              (Option.map settlement_snapshot_to_domain o)
              (closed d)))
  unfolding settle_new
  by_known replay p none planned new = by_live p planned new _ refl
  by_known replay p (some r) planned known =
      inl (existing-committed replay (settlement_snapshot_to_domain r) p)

  by_plan :
      (replay : Bool) (x : Result Planned)
      → build_plan c calendar ≡ x
      → Outcome keys c calendar d (settle_planned keys c replay x d)
  by_plan replay (err e) planned = inl refl
  by_plan replay (ok (answer r)) planned = inl refl
  by_plan replay (ok (plan p)) planned = by_known replay p _ planned refl

  -- `settle` and `replay_settlement` leave the database as it was, or commit together the account's snapshots,
  -- the settlement and the roll of every position, for a plan whose live positions are those of the context
  -- and for a day that the account had not settled.
  pub settle_as-outcome :
      (replay : Bool) → Outcome keys c calendar d (settle_as keys c replay calendar d)
  unfolding settle_as
  settle_as-outcome replay = by_plan replay (build_plan c calendar) refl

roll_rows-IsBalanced :
    (ps : List Position) (d : PositionDb)
    → IsBalanced d
    → IsBalanced (record d { positions = roll_rows ps d.positions })
roll_rows-IsBalanced [] d b = b
roll_rows-IsBalanced (p ∷ ps) d b =
    roll_rows-IsBalanced ps _ (after-IsBalanced p.account_id p.instrument_id roll d b)

-- `settle` and `replay_settlement`, whatever they answer, leave every position found by its key and sound, and its
-- two sides the sums of its events' deltas.
pub settle-IsBalanced :
    (keys : Keys) (c : SettlementContext) (calendar : Option TradingCalendar) (replay : Bool)
    (d : SettlementDb)
    → IsBalanced d.positions
    → IsBalanced (settle_as keys c replay calendar d).1.positions
settle-IsBalanced keys c calendar replay d b = elim (settle_as-outcome keys c calendar d replay) [
  | inl kept ↦ subst (λ (v : SettlementDb). IsBalanced v.positions) (sym kept) b
  | inr s ↦
      subst (λ (v : SettlementDb). IsBalanced v.positions)
        (sym (ap (λ z. z.1) s.answered ∙ s.wrote.written))
        (roll_rows-IsBalanced s.live d.positions b)
]
