-- ===== src/Settlement/Calculator.antt =====
-- src/futures_mvp/modules/settlement/calculator.py: the checks and sums of a settlement.
pub mod Cash
pub mod Found
pub mod Laws
use yanzl.Prelude.{
  Bool, true, false, not, ◌&&◌, ◌||◌, Option, none, some, List, [], ◌∷◌, map, String,
}
use yanzl.Prelude.Tests.{if◌then◌else◌}
use yanzl.Prelude.Equality.{◌==◌, ℕ_eq, String_eq}
use yanzl.Prelude.Int.{pos, ◌+ℤ◌, ◌-ℤ◌, ltb_ℤ, ℤ_eq}
use yanzl.Prelude.Lists.{any, find}
use yanzl.Domain.Orders.{Decimal, OrderId}
use yanzl.Domain.Positions.{Position, text}
use yanzl.Database.UnitOfWork.{value_error, Result, ok, err}
use yanzl.Pnl.Calculator.{PnlPriceBasis, last_price, settlement_price, manual}
use yanzl.Settlement.Models.{
  AccountBefore, of_context, of_snapshot, MarginSnapshot, PnlSnapshot, SettlementPrice,
  TradingCalendar, SettlementContext, SettlementResultStatus, settled, rejected_non_trading_day,
  rejected_missing_position, rejected_missing_pnl, rejected_missing_margin,
  rejected_missing_settlement_price, rejected_frozen_position, conflict, error, SettlementSnapshot,
  SettlementResult, SettlementPlan, position_payload, rolled_position_payload,
}

-- `_result`
abbrev pub settlement_refused :
    SettlementContext → SettlementResultStatus → String → SettlementResult
settlement_refused c status reason = record {
  status = status;
  snapshot = none;
  reason = some (text reason);
  account_id = c.account_id;
  trading_day = c.trading_day;
}

-- What a check of the loop finds, or the status and the reason with which it returns.
pub data Checked {ℓ} (A : Type ℓ) : Type ℓ where
  refuse : SettlementResultStatus → String → Checked A
  pass : A → Checked A

-- `dict.get` of the prices by instrument: of two prices of an instrument the later one stands.
abbrev pub or_earlier {ℓ} : {A : Type ℓ} → Option A → Option A → Option A
or_earlier none earlier = earlier
or_earlier (some later_snapshot) earlier = some later_snapshot

unfoldable pub price_of : String → List SettlementPrice → Option SettlementPrice
price_of instrument_id [] = none
price_of instrument_id (p ∷ ps) =
    or_earlier (price_of instrument_id ps)
      (if p.instrument_id == instrument_id then some p else none)

abbrev pub is_settlement_basis : PnlPriceBasis → Bool
is_settlement_basis settlement_price = true
is_settlement_basis last_price = false
is_settlement_basis manual = false

-- What the dictionaries of the loop hold for a position: the entry of a key depends on the key alone.
pub record Facts : Type 0 where
  pub position : Position
  pub price : SettlementPrice
  pub pnl : PnlSnapshot
  pub margin : MarginSnapshot

module _ (c : SettlementContext) (p : Position) where
  unfoldable pub matching_pnl_snapshot : Option PnlSnapshot
  matching_pnl_snapshot =
      find
        (λ s.
          s.account_id == c.account_id
          && s.instrument_id == p.instrument_id
          && s.position_version == p.version
          && s.trading_day == c.trading_day)
        c.pnl_snapshots

  unfoldable pub matching_margin_snapshot : Option MarginSnapshot
  matching_margin_snapshot =
      find
        (λ s.
          s.account_id == c.account_id
          && s.instrument_id == p.instrument_id
          && s.position_version == p.version
          && s.trading_day == c.trading_day)
        c.margin_snapshots

  unfoldable pub has_pnl_snapshot_identity_mismatch : Bool
  has_pnl_snapshot_identity_mismatch =
      any
        (λ s.
          s.instrument_id == p.instrument_id
          && (not (s.account_id == c.account_id)
              || not (s.position_version == p.version)
              || not (s.trading_day == c.trading_day)))
        c.pnl_snapshots

  unfoldable pub has_margin_snapshot_identity_mismatch : Bool
  has_margin_snapshot_identity_mismatch =
      any
        (λ s.
          s.instrument_id == p.instrument_id
          && (not (s.account_id == c.account_id)
              || not (s.position_version == p.version)
              || not (s.trading_day == c.trading_day)))
        c.margin_snapshots

  -- The first loop's checks of a position.
  unfoldable pub check_position : Checked (Unit {0})
  check_position =
      if not (p.account_id == c.account_id)
      then refuse error "settlement_identity_mismatch: account_id"
      else if ltb_ℤ (pos 0) p.frozen_long_qty || ltb_ℤ (pos 0) p.frozen_short_qty
      then refuse rejected_frozen_position "frozen_position"
      else pass tt

  -- The second loop's, from the last on.
  abbrev pub with_margin : SettlementPrice → PnlSnapshot → Option MarginSnapshot → Checked Facts
  with_margin price pnl none = refuse rejected_missing_margin "missing_margin_snapshot"
  with_margin price pnl (some margin) =
      pass (record { position = p; price = price; pnl = pnl; margin = margin })

  abbrev pub with_pnl : SettlementPrice → Option PnlSnapshot → Checked Facts
  with_pnl price none = refuse rejected_missing_pnl "missing_pnl_snapshot"
  with_pnl price (some pnl) =
      if not (is_settlement_basis pnl.price_basis) || not (pnl.mark_price == price.price)
      then refuse rejected_missing_pnl "pnl_snapshot_not_settlement_compatible"
      else if has_margin_snapshot_identity_mismatch
      then refuse conflict "margin_snapshot_identity_mismatch"
      else with_margin price pnl matching_margin_snapshot

  abbrev pub with_settlement_price : Option SettlementPrice → Checked Facts
  with_settlement_price none = refuse rejected_missing_settlement_price "missing_settlement_price"
  with_settlement_price (some price) =
      if not (price.trading_day == c.trading_day)
      then refuse rejected_missing_settlement_price "missing_settlement_price"
      else if has_pnl_snapshot_identity_mismatch
      then refuse conflict "pnl_snapshot_identity_mismatch"
      else with_pnl price matching_pnl_snapshot

  unfoldable pub facts_of : Checked Facts
  facts_of = with_settlement_price (price_of p.instrument_id c.settlement_prices)

-- A loop that returns at the first refusal.
abbrev pub and_then {ℓ} : {A : Type ℓ} → Checked A → Checked (List A) → Checked (List A)
and_then (refuse status reason) rest = refuse status reason
and_then (pass a) (refuse status reason) = refuse status reason
and_then (pass a) (pass rest) = pass (a ∷ rest)

unfoldable pub check_each {ℓ} :
    {A : Type ℓ} → (Position → Checked A) → List Position → Checked (List A)
check_each check [] = pass []
check_each check (p ∷ ps) = and_then (check p) (check_each check ps)

-- `sum(…, Decimal("0"))`
abbrev pub sum_of {ℓ} : {A : Type ℓ} → (A → Decimal) → List A → Decimal
sum_of f [] = pos 0
sum_of f (x ∷ xs) = f x +ℤ sum_of f xs

abbrev pub cash_before_of : AccountBefore → Decimal → Decimal
cash_before_of (of_snapshot account) used = account.available_cash +ℤ account.margin_used
cash_before_of (of_context account) used = account.available_cash +ℤ used

abbrev pub frozen_cash_of : AccountBefore → Decimal
frozen_cash_of (of_snapshot account) = account.frozen_margin
frozen_cash_of (of_context account) = account.frozen_cash

-- `getattr(account, "id", None)`
abbrev pub account_before_id : AccountBefore → Option OrderId
account_before_id (of_snapshot account) = account.id
account_before_id (of_context account) = none

abbrev pub add_id : Option OrderId → String → Result (List OrderId) → Result (List OrderId)
add_id none field_name rest = err (value_error field_name)
add_id (some id) field_name (err e) = err e
add_id (some id) field_name (ok ids) = ok (id ∷ ids)

-- `_required_id` of each.
unfoldable pub required_ids : String → List (Option OrderId) → Result (List OrderId)
required_ids field_name [] = ok []
required_ids field_name (id ∷ ids) = add_id id field_name (required_ids field_name ids)

module _ (c : SettlementContext) where
  abbrev pub realized_of : List Facts → Decimal
  realized_of = sum_of (λ f. f.pnl.realized_pnl)

  abbrev pub unrealized_of : List Facts → Decimal
  unrealized_of = sum_of (λ f. f.pnl.unrealized_pnl)

  abbrev pub used_of : List Facts → Decimal
  used_of = sum_of (λ f. f.margin.margin_used)

  abbrev pub snapshot_of : List Facts → List OrderId → List OrderId → SettlementSnapshot
  snapshot_of facts pnl_ids margin_ids = record {
    id = none;
    account_id = c.account_id;
    trading_day = c.trading_day;
    calculation_key = c.calculation_key;
    positions_before = map position_payload c.positions;
    positions_after = map rolled_position_payload c.positions;
    settlement_prices = map (λ f. f.price) facts;
    pnl_snapshot_ids = pnl_ids;
    margin_snapshot_ids = margin_ids;
    account_snapshot_before_id = account_before_id c.account_before;
    account_snapshot_after_id = none;
    cash_before = cash_before_of c.account_before (used_of facts);
    cash_after = cash_before_of c.account_before (used_of facts) +ℤ realized_of facts;
    realized_pnl = realized_of facts;
    unrealized_pnl = unrealized_of facts;
    margin_used = used_of facts;
    status = settled;
    reason = none;
    created_at = c.settled_at;
  }

  abbrev pub settled_result : SettlementSnapshot → SettlementResult
  settled_result s = record {
    status = settled;
    snapshot = some s;
    reason = none;
    account_id = c.account_id;
    trading_day = c.trading_day;
  }

  -- The snapshot's own check follows its arguments.
  abbrev pub with_ids :
      List Facts → Result (List OrderId) → Result (List OrderId) → Result SettlementResult
  with_ids facts (err e) margin_ids = err e
  with_ids facts (ok pnl_ids) (err e) = err e
  with_ids facts (ok pnl_ids) (ok margin_ids) =
      if ltb_ℤ (used_of facts) (pos 0)
      then err (value_error "margin_used")
      else ok (settled_result (snapshot_of facts pnl_ids margin_ids))

  abbrev pub with_facts : Checked (List Facts) → Result SettlementResult
  with_facts (refuse status reason) = ok (settlement_refused c status reason)
  with_facts (pass facts) =
      with_ids facts (required_ids "pnl_snapshot_id" (map (λ f. f.pnl.id) facts))
        (required_ids "margin_snapshot_id" (map (λ f. f.margin.id) facts))

  abbrev pub with_checks : Checked (List (Unit {0})) → Result SettlementResult
  with_checks (refuse status reason) = ok (settlement_refused c status reason)
  with_checks (pass done) = with_facts (check_each (facts_of c) c.positions)

  abbrev pub with_positions : List Position → Result SettlementResult
  with_positions [] = ok (settlement_refused c rejected_missing_position "missing_position")
  with_positions (p ∷ ps) = with_checks (check_each (check_position c) c.positions)

  abbrev pub is_closed : Option TradingCalendar → Bool
  is_closed none = false
  is_closed (some k) = not (k.trading_day == c.trading_day) || not k.is_trading_day

  unfoldable pub calculate_settlement : Option TradingCalendar → Result SettlementResult
  calculate_settlement calendar =
      if is_closed calendar
      then ok (settlement_refused c rejected_non_trading_day "non_trading_day")
      else with_positions c.positions

  -- `SettlementPlan | SettlementResult`
  abbrev pub plan_of : SettlementSnapshot → SettlementPlan
  plan_of s = record {
    snapshot = s;
    equity_after = s.cash_after +ℤ s.unrealized_pnl;
    available_cash_after = s.cash_after -ℤ s.margin_used;
    frozen_cash_after = frozen_cash_of c.account_before;
  }

pub data Planned : Type 0 where
  answer : SettlementResult → Planned
  plan : SettlementPlan → Planned

abbrev pub plan_result :
    SettlementContext
    → SettlementResult
    → Option SettlementSnapshot
    → SettlementResultStatus
    → Planned
plan_result c r none status = answer r
plan_result c r (some s) settled = plan (plan_of c s)
plan_result c r (some s) status = answer r

abbrev pub planned : SettlementContext → Result SettlementResult → Result Planned
planned c (err e) = err e
planned c (ok r) = ok (plan_result c r r.snapshot r.status)

unfoldable pub build_plan : SettlementContext → Option TradingCalendar → Result Planned
build_plan c calendar = planned c (calculate_settlement c calendar)
