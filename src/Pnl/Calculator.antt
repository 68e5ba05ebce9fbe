-- ===== src/Pnl/Calculator.antt =====
-- src/futures_mvp/modules/pnl/calculator.py, with the models of domain/models.py that it reads and makes.
pub mod Laws
pub mod Rounding
use yanzl.Prelude.{ℕ, Bool, not, ◌||◌, Option, none, some, [], ◌∷◌, String}
use yanzl.Prelude.Tests.{if◌then◌else◌}
use yanzl.Prelude.Equality.{◌==◌, String_eq}
use yanzl.Prelude.Lists.{contains}
use yanzl.Prelude.Int.{pos, ltb_ℤ, leb_ℤ}
use yanzl.Decimal.{Context, plus, minus, times}
use yanzl.Domain.Enums.{
  Direction, buy, sell, Offset, close, close_today, close_yesterday, Offset_eq,
}
use yanzl.Domain.Orders.{Decimal}
use yanzl.Domain.Positions.{Trade, Position}
use yanzl.Oms.Events.{Format}
use yanzl.Position.Replay.{trade_text}

pub data PnlPriceBasis : Type 0 where
  last_price settlement_price manual : PnlPriceBasis

pub data PnlResultStatus : Type 0 where
  calculated rejected_missing_position rejected_missing_price : PnlResultStatus
  rejected_missing_multiplier domain_field_unsupported error : PnlResultStatus

pub record CloseTradeContext : Type 0 where
  pub account_id : String
  pub instrument_id : String
  pub avg_cost : Decimal
  pub available_qty : Decimal
  pub contract_multiplier : Decimal

pub record RealizedPnl : Type 0 where
  pub account_id : String
  pub instrument_id : String
  pub trade_id : String
  pub direction : Direction
  pub offset : Offset
  pub quantity : Decimal
  pub close_price : Decimal
  pub avg_cost : Decimal
  pub contract_multiplier : Decimal
  pub gross_realized_pnl : Decimal
  pub fee_amount : Option Decimal
  pub net_realized_pnl : Option Decimal
  pub currency : Option String
  pub calculated_at : ℕ

pub record UnrealizedPnl : Type 0 where
  pub account_id : String
  pub instrument_id : String
  pub long_qty : Decimal
  pub short_qty : Decimal
  pub long_avg_price : Decimal
  pub short_avg_price : Decimal
  pub price_basis : PnlPriceBasis
  pub mark_price : Decimal
  pub contract_multiplier : Decimal
  pub gross_unrealized_pnl : Decimal
  pub net_unrealized_pnl : Decimal

pub record PnlResult : Type 0 where
  pub status : PnlResultStatus
  pub realized : Option RealizedPnl
  pub unrealized : Option UnrealizedPnl
  pub reason : Option String
  pub account_id : Option String
  pub instrument_id : Option String

abbrev pub refused : PnlResultStatus → String → String → String → PnlResult
refused status reason account_id instrument_id = record {
  status = status;
  realized = none;
  unrealized = none;
  reason = some reason;
  account_id = some account_id;
  instrument_id = some instrument_id;
}

-- The two formulas of the gross result, each difference and product rounded; a direction is one of two.
abbrev pub gross_realized : Context → Direction → Decimal → Decimal → Decimal → Decimal → Decimal
gross_realized ctx sell price avg_cost quantity multiplier =
    times ctx (times ctx (minus ctx price avg_cost) quantity) multiplier
gross_realized ctx buy price avg_cost quantity multiplier =
    times ctx (times ctx (minus ctx avg_cost price) quantity) multiplier

abbrev pub net_of : Context → Decimal → Option Decimal → Option Decimal
net_of ctx gross none = none
net_of ctx gross (some fee) = some (minus ctx gross fee)

abbrev pub fee_reason : Option Decimal → Option String
fee_reason none = some "fee_unknown"
fee_reason (some fee) = none

unfoldable pub calculate_realized_pnl : Context → Format → ℕ → Trade → CloseTradeContext → PnlResult
calculate_realized_pnl ctx fmt calculated_at t c =
    let gross =
      gross_realized ctx t.direction t.price c.avg_cost t.quantity c.contract_multiplier in
    if not (t.account_id == c.account_id)
    then refused error "pnl_identity_mismatch: account_id" t.account_id t.instrument_id
    else if not (t.instrument_id == c.instrument_id)
    then refused error "pnl_identity_mismatch: instrument_id" t.account_id t.instrument_id
    else if not (contains (close ∷ close_today ∷ close_yesterday ∷ []) t.offset)
    then refused domain_field_unsupported "open_trade_has_no_realized_pnl" t.account_id
        t.instrument_id
    else if ltb_ℤ c.available_qty t.quantity
    then refused error "close_quantity_exceeds_available_qty" t.account_id t.instrument_id
    else record {
      status = calculated;
      realized = some (record {
        account_id = t.account_id;
        instrument_id = t.instrument_id;
        trade_id = trade_text fmt t t.id;
        direction = t.direction;
        offset = t.offset;
        quantity = t.quantity;
        close_price = t.price;
        avg_cost = c.avg_cost;
        contract_multiplier = c.contract_multiplier;
        gross_realized_pnl = gross;
        fee_amount = t.fee_amount;
        net_realized_pnl = net_of ctx gross t.fee_amount;
        currency = t.fee_currency;
        calculated_at = calculated_at;
      });
      unrealized = none;
      reason = fee_reason t.fee_amount;
      account_id = some t.account_id;
      instrument_id = some t.instrument_id;
    }

unfoldable pub positive_decimal_or_none : Option Decimal → Option Decimal
positive_decimal_or_none none = none
positive_decimal_or_none (some v) = if leb_ℤ v (pos 0) then none else some v

abbrev pub gross_unrealized : Context → Position → Decimal → Decimal → Decimal
gross_unrealized ctx p price multiplier =
    let long_qty = plus ctx p.long_today_qty p.long_yesterday_qty in
    let short_qty = plus ctx p.short_today_qty p.short_yesterday_qty in
    plus ctx (times ctx (times ctx (minus ctx price p.long_avg_price) long_qty) multiplier)
      (times ctx (times ctx (minus ctx p.short_avg_price price) short_qty) multiplier)

abbrev pub unrealized_result :
    Context → Position → PnlPriceBasis → Option Decimal → Option Decimal → PnlResult
unrealized_result ctx p basis none multiplier =
    refused rejected_missing_price "missing_pnl_price" p.account_id p.instrument_id
unrealized_result ctx p basis (some price) none =
    refused rejected_missing_multiplier "missing_contract_multiplier" p.account_id p.instrument_id
unrealized_result ctx p basis (some price) (some multiplier) = record {
  status = calculated;
  realized = none;
  unrealized = some (record {
    account_id = p.account_id;
    instrument_id = p.instrument_id;
    long_qty = plus ctx p.long_today_qty p.long_yesterday_qty;
    short_qty = plus ctx p.short_today_qty p.short_yesterday_qty;
    long_avg_price = p.long_avg_price;
    short_avg_price = p.short_avg_price;
    price_basis = basis;
    mark_price = price;
    contract_multiplier = multiplier;
    gross_unrealized_pnl = gross_unrealized ctx p price multiplier;
    net_unrealized_pnl = gross_unrealized ctx p price multiplier;
  });
  reason = none;
  account_id = some p.account_id;
  instrument_id = some p.instrument_id;
}

unfoldable pub calculate_unrealized_pnl :
    Context → Option Position → PnlPriceBasis → Option Decimal → Option Decimal → PnlResult
calculate_unrealized_pnl ctx none basis mark_price multiplier = record {
  status = rejected_missing_position;
  realized = none;
  unrealized = none;
  reason = some "missing_position";
  account_id = none;
  instrument_id = none;
}
calculate_unrealized_pnl ctx (some p) basis mark_price multiplier =
    unrealized_result ctx p basis (positive_decimal_or_none mark_price)
      (positive_decimal_or_none multiplier)
