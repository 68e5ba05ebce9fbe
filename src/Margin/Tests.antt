-- ===== src/Margin/Tests.antt =====
-- A position, a rule and an account on which the results about the margin are tried.
use yanzl.Prelude.{◌≡◌, refl, true, none, some, arith}
use yanzl.Prelude.Int.{pos, ◌+ℤ◌, ◌*ℤ◌, int_laws}
use yanzl.Domain.Positions.{Position}
use yanzl.Decimal.Floor.{floor_context, floor_divide}
use yanzl.Position.Apply.Laws.{IsSound}
use yanzl.Position.Store.{new_position}
use yanzl.Margin.Calculator.{
  MarginRule, AccountContext, MarginRequirement, avg_price, calculate, with_prices,
  resolve_margin_prices, average_prices, requirement_of,
}
use yanzl.Margin.Calculator.Laws.{IsRule, IsCovered, calculate-IsCovered}

abbrev three : Position
three = record (new_position 5 "acc" "rb2510").state {
  long_today_qty = pos 3;
  long_avg_price = pos 3500;
}

three-IsSound : IsSound three
three-IsSound = record {
  long_today = omega arith;
  long_yesterday = omega arith;
  short_today = omega arith;
  short_yesterday = omega arith;
  long_frozen = omega int_laws;
  short_frozen = omega int_laws;
  long_price = omega arith;
  short_price = omega arith;
}

abbrev rule : MarginRule
rule = record {
  instrument_id = "rb2510";
  contract_multiplier = pos 10;
  long_initial_margin_rate = pos 12;
  short_initial_margin_rate = pos 12;
  long_maintenance_margin_rate = pos 10;
  short_maintenance_margin_rate = pos 10;
  price_basis = avg_price;
  price = none;
}

rule-IsRule : IsRule rule
rule-IsRule = record {
  multiplier = omega arith;
  long_initial = omega arith;
  short_initial = omega arith;
}

abbrev account : AccountContext
account = record {
  account_id = "acc";
  equity = pos 2000000;
  available_cash = pos 2000000;
  frozen_cash = pos 0;
  snapshot_time = 0;
}

abbrev needed : MarginRequirement
needed =
    requirement_of three rule
      (record { long_price = pos 3500; short_price = pos 0; snapshot_price = pos 3500 }) true

calculated_needed :
    (calculate floor_context (some three) (some rule) account none none).requirement ≡ some needed
unfolding calculate with_prices resolve_margin_prices average_prices ◌+ℤ◌ ◌*ℤ◌ floor_divide
calculated_needed = refl

calculate-IsCovered_example :
    IsCovered account (calculate floor_context (some three) (some rule) account none none) needed
calculate-IsCovered_example =
    calculate-IsCovered floor_context three rule account none none needed three-IsSound rule-IsRule
      calculated_needed
