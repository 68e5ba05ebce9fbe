-- ===== src/Settlement/Calculator/Laws.antt =====
-- When the settlement's calculator makes a plan, and what the plan says.
use yanzl.Prelude.{◌≡◌, ◌≢◌, refl, false, inl, inr, Option, List, [], ◌∷◌, map, arith}
use yanzl.Prelude.Tests.{Bool-cases}
use yanzl.Prelude.Equality.{ℕ_eq, String_eq}
use yanzl.Prelude.Int.{pos, ◌≤ℤ◌, ◌+ℤ◌, ◌-ℤ◌, ℤ_eq, ℤ, eq_of_parts, +ℤ_parts, -ℤ_parts}
use yanzl.Domain.Orders.{OrderId}
use yanzl.Domain.Positions.{Position}
use yanzl.Database.UnitOfWork.{Result, ok, err}
use yanzl.Settlement.Models.{SettlementContext, TradingCalendar, SettlementPlan}
use yanzl.Settlement.Calculator.{
  Checked, pass, refuse, check_each, check_position, Facts, facts_of, required_ids, with_ids,
  with_facts, with_checks, with_positions, is_closed, calculate_settlement, snapshot_of, used_of,
  plan_of, plan, build_plan, planned,
}

-- A plan, with the facts that its positions have.
pub record IsPlan (c : SettlementContext) (calendar : Option TradingCalendar) (p : SettlementPlan)
    : Type 0 where
  pub facts : List Facts
  pub pnl_ids : List OrderId
  pub margin_ids : List OrderId
  pub planned_as : p ≡ plan_of c (snapshot_of c facts pnl_ids margin_ids)
  pub is_open : is_closed c calendar ≡ false
  pub some_position : c.positions ≢ []
  pub checked : (units : List (Unit {0})) × (check_each (check_position c) c.positions ≡ pass units)
  pub found : check_each (facts_of c) c.positions ≡ pass facts
  pub pnl_stored : required_ids "pnl_snapshot_id" (map (λ f. f.pnl.id) facts) ≡ ok pnl_ids
  pub margin_stored :
      required_ids "margin_snapshot_id" (map (λ f. f.margin.id) facts) ≡ ok margin_ids
  pub used : pos 0 ≤ℤ used_of c facts

module _ (c : SettlementContext) (calendar : Option TradingCalendar) where
  -- Each stage of the calculation, from the last on.
  by_ids :
      (facts : List Facts) (x y : Result (List OrderId)) (p : SettlementPlan)
      → is_closed c calendar ≡ false
      → c.positions ≢ []
      → ((units : List (Unit {0})) × (check_each (check_position c) c.positions ≡ pass units))
      → check_each (facts_of c) c.positions ≡ pass facts
      → required_ids "pnl_snapshot_id" (map (λ f. f.pnl.id) facts) ≡ x
      → required_ids "margin_snapshot_id" (map (λ f. f.margin.id) facts) ≡ y
      → planned c (with_ids c facts x y) ≡ ok (plan p)
      → IsPlan c calendar p
  by_ids facts (err e) y p a b k f g h eq = absurd cc
  by_ids facts (ok pnl_ids) (err e) p a b k f g h eq = absurd cc
  by_ids facts (ok pnl_ids) (ok margin_ids) p a b k f g h eq = record {
    facts = facts;
    pnl_ids = pnl_ids;
    margin_ids = margin_ids;
    planned_as = ground arith;
    is_open = a;
    some_position = b;
    checked = k;
    found = f;
    pnl_stored = g;
    margin_stored = h;
    used = ground arith;
  }

  by_facts :
      (x : Checked (List Facts)) (p : SettlementPlan)
      → is_closed c calendar ≡ false
      → c.positions ≢ []
      → ((units : List (Unit {0})) × (check_each (check_position c) c.positions ≡ pass units))
      → check_each (facts_of c) c.positions ≡ x
      → planned c (with_facts c x) ≡ ok (plan p)
      → IsPlan c calendar p
  by_facts (refuse status reason) p a b k f eq = absurd cc
  by_facts (pass facts) p a b k f eq = by_ids facts _ _ p a b k f refl refl eq

  by_checks :
      (x : Checked (List (Unit {0}))) (p : SettlementPlan)
      → is_closed c calendar ≡ false
      → c.positions ≢ []
      → check_each (check_position c) c.positions ≡ x
      → planned c (with_checks c x) ≡ ok (plan p)
      → IsPlan c calendar p
  by_checks (refuse status reason) p a b k eq = absurd cc
  by_checks (pass units) p a b k eq = by_facts _ p a b (units, k) refl eq

  by_positions :
      (x : List Position) (p : SettlementPlan)
      → is_closed c calendar ≡ false
      → c.positions ≡ x
      → planned c (with_positions c x) ≡ ok (plan p)
      → IsPlan c calendar p
  by_positions [] p a same eq = absurd cc
  by_positions (q ∷ qs) p a same eq = by_checks _ p a (λ none_held. cc) refl eq

  -- A plan is made only for a trading day and for positions that all passed both loops, with stored
  -- results of the PnL and margin engines for each.
  pub build_plan-IsPlan :
      (p : SettlementPlan) → build_plan c calendar ≡ ok (plan p) → IsPlan c calendar p
  unfolding build_plan calculate_settlement
  build_plan-IsPlan p eq = elim (Bool-cases (is_closed c calendar)) [
    | inl closed ↦ absurd (ground arith)
    | inr open_day ↦ by_positions c.positions p open_day refl (ground arith)
  ]

pub sub_add : (a b : ℤ) → a -ℤ b +ℤ b ≡ a
sub_add a b = eq_of_parts _ _ (omega (arith, +ℤ_parts (a -ℤ b) b, -ℤ_parts a b))
