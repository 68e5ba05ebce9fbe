-- ===== src/Settlement/Calculator/Cash.antt =====
-- The money of a plan, described without the calculator: from the day's stored results of the account.

use yanzl.Prelude.{◌≡◌, refl, Option, List, [], ◌∷◌, arith}
use yanzl.Prelude.Equality.{ℕ_eq, String_eq}
use yanzl.Prelude.Int.{pos, ◌+ℤ◌, ◌-ℤ◌, ℤ_eq, eq_of_parts, int_laws}
use yanzl.Domain.Orders.{Decimal, OrderId}
use yanzl.Domain.Positions.{Position}
use yanzl.Database.UnitOfWork.{ok}
use yanzl.Margin.Calculator.{AccountContext}
use yanzl.Settlement.Models.{
  AccountBefore, AccountSnapshot, of_context, of_snapshot, MarginSnapshot, PnlSnapshot,
  SettlementContext, TradingCalendar, SettlementPlan,
}
use yanzl.Settlement.Calculator.{
  Checked, pass, refuse, and_then, check_each, check_position, Facts, facts_of, realized_of,
  unrealized_of, used_of, cash_before_of, snapshot_of, plan_of, plan, build_plan,
}
use yanzl.Settlement.Calculator.Laws.{build_plan-IsPlan, sub_add}
use yanzl.Settlement.Calculator.Found.{
  IsDayPnl, IsDayMargin, IsFree, check_position-IsFree, facts_of-found,
}

module _ (c : SettlementContext) where
  -- Positions with the realized result, the unrealized result and the margin that the day books for them.
  pub data Booked : List Position → Decimal → Decimal → Decimal → Type 0 where
    nothing : Booked [] (pos 0) (pos 0) (pos 0)
    book :
        {p : Position} {ps : List Position} {s : PnlSnapshot} {m : MarginSnapshot}
        {realized unrealized used : Decimal}
        → IsFree c p
        → IsDayPnl c p s
        → IsDayMargin c p m
        → Booked ps realized unrealized used
        → Booked
            (p ∷ ps)
            (s.realized_pnl +ℤ realized)
            (s.unrealized_pnl +ℤ unrealized)
            (m.margin_used +ℤ used)

-- The cash that is free after a realized result and a used margin. A context's cash is what is free
-- beside today's margin, so the margin does not count; a snapshot's cash and margin are yesterday's.
pub data CashAfter : AccountBefore → Decimal → Decimal → Decimal → Type 0 where
  from_context :
      {a : AccountContext} {realized used cash : Decimal}
      → cash ≡ a.available_cash +ℤ realized
      → CashAfter (of_context a) realized used cash
  from_snapshot :
      {a : AccountSnapshot} {realized used cash : Decimal}
      → cash +ℤ used ≡ a.available_cash +ℤ a.margin_used +ℤ realized
      → CashAfter (of_snapshot a) realized used cash

-- A loop that passes has passed its first element and then the rest.
and_then-pass {ℓ} :
    {A : Type ℓ}
    → (x : Checked A) (y : Checked (List A)) (zs : List A) → and_then x y ≡ pass zs
    → (a : A) × (rest : List A) × (x ≡ pass a) × (y ≡ pass rest) × (zs ≡ a ∷ rest)
and_then-pass (refuse status reason) y zs h = absurd cc
and_then-pass (pass a) (refuse status reason) zs h = absurd cc
and_then-pass (pass a) (pass rest) zs h = (a, rest, refl, refl, ground arith)

loops-Booked :
    (c : SettlementContext) (ps : List Position) (units : List (Unit {0})) (facts : List Facts)
    → check_each (check_position c) ps ≡ pass units
    → check_each (facts_of c) ps ≡ pass facts
    → Booked c ps (realized_of c facts) (unrealized_of c facts) (used_of c facts)
unfolding check_each
loops-Booked c [] units facts h k =
    let none_found : facts ≡ [] = ground arith in rw none_found nothing
loops-Booked c (p ∷ ps) units facts h k =
    let free = and_then-pass _ _ units h in
    let found = and_then-pass _ _ facts k in
    let first = facts_of-found c p found.0 found.2 in
    rw found.4 (
      book (check_position-IsFree c p free.2) first.0 first.1
        (loops-Booked c ps free.1 found.1 free.3 found.3))

cash-CashAfter :
    (a : AccountBefore) (realized used : Decimal)
    → CashAfter a realized used (cash_before_of a used +ℤ realized -ℤ used)
cash-CashAfter (of_context a) r k = from_context (eq_of_parts _ _ (omega int_laws))
cash-CashAfter (of_snapshot a) r k = from_snapshot (eq_of_parts _ _ (omega int_laws))

equity_splits : (cash k u : Decimal) → cash +ℤ u ≡ cash -ℤ k +ℤ k +ℤ u
equity_splits cash k u = rw (sub_add cash k) refl

plan_money :
    (c : SettlementContext) (p : SettlementPlan) (facts : List Facts)
    (pnl_ids margin_ids : List OrderId)
    → p ≡ plan_of c (snapshot_of c facts pnl_ids margin_ids)
    → CashAfter c.account_before (realized_of c facts) (used_of c facts) p.available_cash_after
      × (p.snapshot.margin_used ≡ used_of c facts)
      × (p.equity_after ≡ p.available_cash_after +ℤ used_of c facts +ℤ unrealized_of c facts)
plan_money c p facts pnl_ids margin_ids e = rw e (
  cash-CashAfter c.account_before (realized_of c facts) (used_of c facts),
  refl,
  equity_splits _ (used_of c facts) (unrealized_of c facts),
)

-- A plan is made only when every position of the context is the account's, has no frozen lots, and has a
-- stored PnL result, marked at a settlement price of the day, and a stored margin result of the account
-- for its version and the day. Then the cash available after it is the cash that the account's own
-- equation gives for the sums of these results: an account context's available cash changes by the
-- realized result, and an account snapshot's available cash and margin together change by the realized
-- result into the new available cash and margin. The margin booked is the sum of the margins, and
-- the equity is the available cash with the margin and the unrealized result.
pub build_plan_booked :
    (c : SettlementContext) (calendar : Option TradingCalendar) (p : SettlementPlan)
    → build_plan c calendar ≡ ok (plan p)
    → (realized : Decimal) × (unrealized : Decimal) × (used : Decimal) × Booked c c.positions
        realized unrealized used
      × CashAfter c.account_before realized used p.available_cash_after
      × (p.snapshot.margin_used ≡ used)
      × (p.equity_after ≡ p.available_cash_after +ℤ used +ℤ unrealized)
build_plan_booked c calendar p planned =
    let made = build_plan-IsPlan c calendar p planned in
    let money = plan_money c p made.facts made.pnl_ids made.margin_ids made.planned_as in
    (
      realized_of c made.facts,
      unrealized_of c made.facts,
      used_of c made.facts,
      loops-Booked c c.positions made.checked.0 made.facts made.checked.1 made.found,
      money.0,
      money.1,
      money.2,
    )
