-- ===== src/Pnl/Tests.antt =====
-- A position and a closing trade on which the results about profit and loss are tried.
use yanzl.Prelude.{◌≡◌, refl, false, none, some, String, ℕ, arith}
use yanzl.Prelude.Int.{pos, ℤ_beq, ◌+ℤ◌, ◌-ℤ◌, ◌*ℤ◌}
use yanzl.Domain.Enums.{sell, close_today}
use yanzl.Domain.Orders.{Decimal, numeral}
use yanzl.Domain.Positions.{Trade, Position, applied}
use yanzl.Decimal.Floor.{floor_context, floor_round, drop_digits}
use yanzl.Oms.Events.{Format}
use yanzl.Position.Apply.{apply_trade_to_position, trade_effect, close_bucket}
use yanzl.Position.Store.{new_position}
use yanzl.Pnl.Calculator.{
  CloseTradeContext, manual, calculate_realized_pnl, calculate_unrealized_pnl, gross_unrealized,
}
use yanzl.Pnl.Calculator.Laws.{realized_gross, unrealized_gross, close_moves_result}
use yanzl.Pnl.Calculator.Rounding.{RealizedFits, UnrealizedFits, exact_unrealized}

abbrev blank : ℕ → String
blank n = "id"

abbrev fmt : Format
fmt = record { str = blank; isoformat = blank }

abbrev three : Position
three = record (new_position 5 "acc" "rb2510").state {
  long_today_qty = pos 3;
  long_avg_price = pos 3500;
}

abbrev one : Position
one = record three { long_today_qty = pos 1 }

abbrev sold : Trade
sold = record {
  id = some (numeral 2);
  account_id = "acc";
  exchange = "SHFE";
  exchange_trade_id = "t-2";
  instrument_id = "rb2510";
  direction = sell;
  offset = close_today;
  price = pos 3550;
  quantity = pos 2;
  fee_amount = none;
  fee_currency = none;
  trade_time = 2;
}

abbrev context : CloseTradeContext
context = record {
  account_id = "acc";
  instrument_id = "rb2510";
  avg_cost = pos 3500;
  available_qty = pos 3;
  contract_multiplier = pos 10;
}

sold_applied : (apply_trade_to_position floor_context three sold).status ≡ applied
unfolding apply_trade_to_position trade_effect close_bucket ◌+ℤ◌ ◌-ℤ◌
sold_applied = refl

sold_left : (apply_trade_to_position floor_context three sold).position ≡ some one
unfolding apply_trade_to_position trade_effect close_bucket ◌+ℤ◌ ◌-ℤ◌
sold_left = refl

sold_fits : RealizedFits sell (pos 3550) (pos 3500) (pos 2) (pos 10)
unfolding ◌-ℤ◌ ◌*ℤ◌
sold_fits = record {
  gain_fits = omega arith;
  product_fits = omega arith;
  result_fits = omega arith;
}

three_fits : UnrealizedFits three (pos 3550) (pos 10)
unfolding ◌+ℤ◌ ◌-ℤ◌ ◌*ℤ◌
three_fits = record {
  long_qty = omega arith;
  short_qty = omega arith;
  long = record { gain_fits = omega arith; product_fits = omega arith; result_fits = omega arith };
  short = record { gain_fits = omega arith; product_fits = omega arith; result_fits = omega arith };
  total = omega arith;
}

one_fits : UnrealizedFits one (pos 3550) (pos 10)
unfolding ◌+ℤ◌ ◌-ℤ◌ ◌*ℤ◌
one_fits = record {
  long_qty = omega arith;
  short_qty = omega arith;
  long = record { gain_fits = omega arith; product_fits = omega arith; result_fits = omega arith };
  short = record { gain_fits = omega arith; product_fits = omega arith; result_fits = omega arith };
  total = omega arith;
}

-- Where a price needs all 28 digits a product may need more: the result is then rounded.
abbrev averaged : Position
averaged = record three {
  long_today_qty = pos 31;
  long_avg_price = pos 3845548387096774193548387097;
}

rounding_shows :
    ℤ_beq
      (gross_unrealized floor_context averaged (pos 3301900000000000000000000000) (pos 10))
      (exact_unrealized averaged (pos 3301900000000000000000000000) (pos 10))
    ≡ false
unfolding ◌+ℤ◌ ◌-ℤ◌ ◌*ℤ◌ floor_round drop_digits
rounding_shows = refl

close_moves_result_example :
    (a : Decimal) × (b : Decimal) × (realized_gross
        (calculate_realized_pnl floor_context fmt 30 sold context)
      ≡ some a)
    × (unrealized_gross (
          calculate_unrealized_pnl floor_context
            (some one)
            manual
            (some (pos 3550))
            (some (pos 10)))
        ≡ some b)
    × (unrealized_gross (
          calculate_unrealized_pnl floor_context
            (some three)
            manual
            (some (pos 3550))
            (some (pos 10)))
        ≡ some (a +ℤ b))
close_moves_result_example =
    close_moves_result floor_context fmt 30 manual three one sold context (λ h. cc h) sold_applied
      sold_left refl refl (omega arith) refl (omega arith) (omega arith) sold_fits three_fits
      one_fits
