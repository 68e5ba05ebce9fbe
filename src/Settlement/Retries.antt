-- ===== src/Settlement/Retries.antt =====
-- A settlement that is asked for again, and its replay.
use mathlib.Core.Option
use mathlib.Core.Path.{subst}
use yanzl.Prelude.{
  ℕ, ◌≡◌, ◌≢◌, refl, sym, ap, ◌∙◌, Bool, true, false, inl, inr, Option, none, some, List, [], ◌∷◌,
  ◌++◌, arith, String,
}
use yanzl.Prelude.Equality.{==_iff, ℕ_eq, String_eq}
use yanzl.Database.UnitOfWork.{Result, ok}
use yanzl.Settlement.Models.{
  TradingCalendar, SettlementContext, settled, duplicate, SettlementSnapshot, SettlementResult,
}
use yanzl.Settlement.Store.{
  SettlementRow, SettlementDb, find_settlement, settlement_snapshot_to_domain, canonical_payload,
  same_canonical_settlement_snapshot, same_canonical_settlement_snapshot-of,
}
use yanzl.Settlement.Engine.{
  Keys, engine_result, settle_existing, settle_unless_known, settle_planned, settle_as, settle,
}
use yanzl.Settlement.Writes.{Wrote}
use yanzl.Settlement.Outcome.{closed, IsSettled, outcome, plan-account, plan-day, settle_as-outcome}

find_settlement-append_new :
    (a : String) (t : ℕ) (rs : List SettlementRow) (r : SettlementRow)
    → find_settlement a t rs ≡ none
    → r.state.account_id ≡ a
    → r.state.trading_day ≡ t
    → find_settlement a t (rs ++ r ∷ []) ≡ some r
unfolding find_settlement
find_settlement-append_new a t [] r new same_account same_day =
    rw ((==_iff r.state.account_id a).1 same_account)
      (rw ((==_iff r.state.trading_day t).1 same_day) refl)
find_settlement-append_new a t (q ∷ rs) r new same_account same_day =
    ground (arith, find_settlement-append_new a t rs r)

module _ (keys keys' : Keys) (c : SettlementContext) (calendar : Option TradingCalendar)
    (d : SettlementDb) (y : Result SettlementResult × SettlementDb)
    (s : IsSettled keys c calendar d y) where
  abbrev pub w : Wrote keys c s.p s.live d s.snapshot s.after
  w = s.wrote

  pub row-account : w.row.state.account_id ≡ c.account_id
  row-account =
      ap (λ (x : SettlementSnapshot). x.account_id) w.row_state
      ∙ plan-account keys c calendar d s.p s.is_plan

  row-day : w.row.state.trading_day ≡ c.trading_day
  row-day =
      ap (λ (x : SettlementSnapshot). x.trading_day) w.row_state
      ∙ plan-day keys c calendar d s.p s.is_plan

  known :
      find_settlement s.p.snapshot.account_id s.p.snapshot.trading_day s.after.settlements
      ≡ some w.row
  known =
      ap
        (λ (v : SettlementDb).
          find_settlement s.p.snapshot.account_id s.p.snapshot.trading_day v.settlements)
        w.written
      ∙ ap (λ a. find_settlement a s.p.snapshot.trading_day (d.settlements ++ w.row ∷ []))
          (plan-account keys c calendar d s.p s.is_plan)
      ∙ ap (λ t. find_settlement c.account_id t (d.settlements ++ w.row ∷ []))
          (plan-day keys c calendar d s.p s.is_plan)
      ∙ find_settlement-append_new c.account_id c.trading_day d.settlements w.row s.fresh
          row-account row-day

  pub same :
      same_canonical_settlement_snapshot (settlement_snapshot_to_domain w.row) s.p.snapshot ≡ true
  unfolding canonical_payload
  same = same_canonical_settlement_snapshot-of (settlement_snapshot_to_domain w.row) s.p.snapshot (
      ap
        (λ (x : SettlementSnapshot).
          canonical_payload (settlement_snapshot_to_domain (record w.row { state = x })))
        w.row_state)

  pub again :
      (replay : Bool)
      → settle_as keys' c replay calendar s.after
        ≡ outcome (
            settle_existing keys' c replay
              (settlement_snapshot_to_domain w.row)
              s.p
              (closed s.after))
  unfolding settle_as
  again replay =
      ap (λ x. settle_planned keys' c replay x s.after) s.planned
      ∙ ap
          (λ (o : Option SettlementRow). outcome (
            settle_unless_known keys' c replay s.p (Option.map settlement_snapshot_to_domain o)
              (closed s.after)))
          known

  again-duplicate :
      settle keys' c calendar s.after
      ≡ (ok (engine_result c duplicate (some s.snapshot) none), s.after)
  unfolding settle settle_existing
  again-duplicate =
      again false
      ∙ rw same (ap (λ x. (ok (engine_result c duplicate (some x) none), s.after)) (sym w.answer))

-- The first answer, and the second with its snapshot.
abbrev pub Repeated :
    SettlementContext
    → Result SettlementResult × SettlementDb
    → (SettlementDb → Result SettlementResult × SettlementDb)
    → Type 0
Repeated c y second =
    (x : SettlementSnapshot) × (y.0 ≡ ok (engine_result c settled (some x) none))
    × (second y.1 ≡ (ok (engine_result c duplicate (some x) none), y.1))

pub repeated :
    (keys : Keys) (c : SettlementContext) (calendar : Option TradingCalendar) (d : SettlementDb)
    (y : Result SettlementResult × SettlementDb)
    (second : SettlementDb → Result SettlementResult × SettlementDb)
    (s : IsSettled keys c calendar d y)
    → second s.after ≡ (ok (engine_result c duplicate (some s.snapshot) none), s.after)
    → Repeated c y second
repeated keys c calendar d y second s h = (
  s.snapshot,
  ap (λ z. z.0) s.answered,
  subst (λ v. second v ≡ (ok (engine_result c duplicate (some s.snapshot) none), v))
      (sym (ap (λ z. z.1) s.answered)) h,
)

-- After a call of `settle` that changed the database, the same context and calendar are answered as a duplicate
-- with the snapshot of the first answer, and nothing changes.
pub settle-again :
    (keys keys' : Keys) (c : SettlementContext) (calendar : Option TradingCalendar)
    (d : SettlementDb)
    → (settle keys c calendar d).1 ≢ d
    → Repeated c (settle keys c calendar d) (settle keys' c calendar)
unfolding settle
settle-again keys keys' c calendar d changed = elim (settle_as-outcome keys c calendar d false) [
  | inl kept ↦ absurd (changed kept)
  | inr s ↦
      repeated keys c calendar d _ (settle keys' c calendar) s
        (again-duplicate keys keys' c calendar d _ s)
]
