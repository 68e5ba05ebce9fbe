-- ===== src/Margin/Calculator.antt =====
-- src/futures_mvp/modules/margin/calculator.py, with the models of domain/models.py that it reads and makes.
-- A margin is an integer in the product of the units of a quantity, a price, a multiplier and a rate, and so
-- is the account's cash.
pub mod Laws
use yanzl.Prelude.{ℕ, Bool, true, false, not, ◌&&◌, Option, none, some, String}
use yanzl.Prelude.Tests.{if◌then◌else◌}
use yanzl.Prelude.Equality.{◌==◌, String_eq}
use yanzl.Prelude.Int.{pos, ◌+ℤ◌, ◌*ℤ◌, ltb_ℤ, leb_ℤ, ℤ_eq}
use yanzl.Domain.Orders.{Decimal}
use yanzl.Domain.Positions.{Position}
use yanzl.Decimal.{Context}

pub data MarginPriceBasis : Type 0 where
  settlement_price last_price avg_price manual : MarginPriceBasis

pub data MarginResultStatus : Type 0 where
  calculated rejected_missing_position rejected_missing_rule : MarginResultStatus
  rejected_missing_price rejected_insufficient_cash error : MarginResultStatus

pub record MarginRule : Type 0 where
  pub instrument_id : String
  pub contract_multiplier : Decimal
  pub long_initial_margin_rate : Decimal
  pub short_initial_margin_rate : Decimal
  pub long_maintenance_margin_rate : Decimal
  pub short_maintenance_margin_rate : Decimal
  pub price_basis : MarginPriceBasis
  pub price : Option Decimal

pub record AccountContext : Type 0 where
  pub account_id : String
  pub equity : Decimal
  pub available_cash : Decimal
  pub frozen_cash : Decimal
  pub snapshot_time : ℕ

pub record MarginRequirement : Type 0 where
  pub account_id : String
  pub instrument_id : String
  pub long_initial_margin : Decimal
  pub short_initial_margin : Decimal
  pub total_initial_margin : Decimal
  pub long_maintenance_margin : Decimal
  pub short_maintenance_margin : Decimal
  pub total_maintenance_margin : Decimal
  pub margin_used : Decimal
  pub required_cash : Decimal
  pub is_sufficient : Bool
  pub reason : Option String

pub record MarginResult : Type 0 where
  pub status : MarginResultStatus
  pub requirement : Option MarginRequirement
  pub reason : Option String
  pub account_id : String
  pub instrument_id : Option String

pub record ResolvedMarginPrices : Type 0 where
  pub long_price : Decimal
  pub short_price : Decimal
  pub snapshot_price : Decimal

-- `_same_price`
unfoldable pub same_price : Option Decimal → Option ResolvedMarginPrices
same_price none = none
same_price (some price) =
    if leb_ℤ price (pos 0)
    then none
    else some (record { long_price = price; short_price = price; snapshot_price = price })

abbrev pub held_long : Position → Decimal
held_long p = p.long_today_qty +ℤ p.long_yesterday_qty

abbrev pub held_short : Position → Decimal
held_short p = p.short_today_qty +ℤ p.short_yesterday_qty

-- A side that holds nothing has no price.
abbrev pub price_if_held : Decimal → Decimal → Decimal
price_if_held quantity price = if ltb_ℤ (pos 0) quantity then price else pos 0

abbrev pub snapshot_price_of : Context → Decimal → Decimal → Decimal → Decimal → Decimal
snapshot_price_of ctx long_qty long_price short_qty short_price =
    if long_qty +ℤ short_qty == pos 0
    then pos 0
    else ctx.divide (long_qty *ℤ long_price +ℤ short_qty *ℤ short_price) (long_qty +ℤ short_qty)

unfoldable pub average_prices : Context → Position → Option ResolvedMarginPrices
average_prices ctx p =
    if ltb_ℤ (pos 0) (held_long p) && leb_ℤ p.long_avg_price (pos 0)
    then none
    else if ltb_ℤ (pos 0) (held_short p) && leb_ℤ p.short_avg_price (pos 0)
    then none
    else some (record {
      long_price = price_if_held (held_long p) p.long_avg_price;
      short_price = price_if_held (held_short p) p.short_avg_price;
      snapshot_price =
          snapshot_price_of ctx (held_long p) (price_if_held (held_long p) p.long_avg_price)
            (held_short p) (price_if_held (held_short p) p.short_avg_price);
    })

unfoldable pub resolve_margin_prices :
    Context
    → MarginPriceBasis
    → Position
    → MarginRule
    → Option Decimal
    → Option Decimal
    → Option ResolvedMarginPrices
resolve_margin_prices ctx manual p rule latest settlement = same_price rule.price
resolve_margin_prices ctx last_price p rule latest settlement = same_price latest
resolve_margin_prices ctx settlement_price p rule latest settlement = same_price settlement
resolve_margin_prices ctx avg_price p rule latest settlement = average_prices ctx p

-- The margin of one side.
abbrev pub side_margin : Decimal → Decimal → Decimal → Decimal → Decimal
side_margin quantity price multiplier rate = quantity *ℤ price *ℤ multiplier *ℤ rate

abbrev pub total_initial : Position → MarginRule → ResolvedMarginPrices → Decimal
total_initial p rule r =
    side_margin (held_long p) r.long_price rule.contract_multiplier rule.long_initial_margin_rate
    +ℤ side_margin (held_short p) r.short_price rule.contract_multiplier
        rule.short_initial_margin_rate

abbrev pub total_maintenance : Position → MarginRule → ResolvedMarginPrices → Decimal
total_maintenance p rule r =
    side_margin (held_long p) r.long_price rule.contract_multiplier
      rule.long_maintenance_margin_rate
    +ℤ side_margin (held_short p) r.short_price rule.contract_multiplier
        rule.short_maintenance_margin_rate

abbrev pub requirement_of : Position → MarginRule → ResolvedMarginPrices → Bool → MarginRequirement
requirement_of p rule r is_sufficient = record {
  account_id = p.account_id;
  instrument_id = p.instrument_id;
  long_initial_margin =
      side_margin (held_long p) r.long_price rule.contract_multiplier rule.long_initial_margin_rate;
  short_initial_margin =
      side_margin (held_short p) r.short_price rule.contract_multiplier
        rule.short_initial_margin_rate;
  total_initial_margin = total_initial p rule r;
  long_maintenance_margin =
      side_margin (held_long p) r.long_price rule.contract_multiplier
        rule.long_maintenance_margin_rate;
  short_maintenance_margin =
      side_margin (held_short p) r.short_price rule.contract_multiplier
        rule.short_maintenance_margin_rate;
  total_maintenance_margin = total_maintenance p rule r;
  margin_used = total_initial p rule r;
  required_cash = total_initial p rule r;
  is_sufficient = is_sufficient;
  reason = if is_sufficient then none else some "insufficient_cash";
}

abbrev pub margin_result :
    Position → MarginResultStatus → Option MarginRequirement → Option String → MarginResult
margin_result p status requirement reason = record {
  status = status;
  requirement = requirement;
  reason = reason;
  account_id = p.account_id;
  instrument_id = some p.instrument_id;
}

-- What follows the resolution of the prices.
unfoldable pub with_prices :
    Position → MarginRule → AccountContext → Option ResolvedMarginPrices → MarginResult
with_prices p rule account none =
    margin_result p rejected_missing_price none (some "missing_margin_price")
with_prices p rule account (some r) =
    let is_sufficient = leb_ℤ (total_initial p rule r) account.available_cash in
    if not is_sufficient
    then margin_result p rejected_insufficient_cash (some (requirement_of p rule r is_sufficient))
        (some "insufficient_cash")
    else margin_result p calculated (some (requirement_of p rule r is_sufficient)) none

-- `MarginCalculator.calculate`
unfoldable pub calculate :
    Context
    → Option Position
    → Option MarginRule
    → AccountContext
    → Option Decimal
    → Option Decimal
    → MarginResult
calculate ctx none rule account latest settlement = record {
  status = rejected_missing_position;
  requirement = none;
  reason = some "missing_position";
  account_id = account.account_id;
  instrument_id = none;
}
calculate ctx (some p) none account latest settlement =
    margin_result p rejected_missing_rule none (some "missing_margin_rule")
calculate ctx (some p) (some rule) account latest settlement =
    if not (p.account_id == account.account_id)
    then margin_result p error none (some "margin_identity_mismatch: account_id")
    else if not (rule.instrument_id == p.instrument_id)
    then margin_result p error none (some "margin_identity_mismatch: instrument_id")
    else with_prices p rule account
        (resolve_margin_prices ctx rule.price_basis p rule latest settlement)
