-- ===== src/Position/Apply.antt =====
-- src/futures_mvp/modules/position/manager.py: what one trade does to one position.
pub mod Laws
pub mod Closes
pub mod Sound
use yanzl.Prelude.{Bool, true, false, ◌||◌, Option, none, some, String}
use yanzl.Prelude.Tests.{if◌then◌else◌}
use yanzl.Prelude.Equality.{◌==◌}
use yanzl.Prelude.Int.{pos, ◌+ℤ◌, ◌-ℤ◌, ◌*ℤ◌, ltb_ℤ, leb_ℤ, ℤ_eq}
use yanzl.Prelude.Text.{is_blank}
use yanzl.Domain.Enums.{
  Direction, buy, sell, Offset, open_offset, close, close_today, close_yesterday,
}
use yanzl.Domain.Orders.{Decimal, OrderId, numeral, malformed}
use yanzl.Domain.Positions.{
  Trade, Position, PositionManagerResultStatus, applied, rejected_insufficient_position, error,
  Reason, text, required, unsupported, insufficient, insufficient_unfrozen, PositionManagerResult,
}
use yanzl.Decimal.{Context}

abbrev pub applied_result : Trade → Position → PositionManagerResult
applied_result t p = record {
  status = applied;
  position = some p;
  position_event = none;
  reason = none;
  trade_id = t.id;
  account_id = t.account_id;
  instrument_id = t.instrument_id;
}

abbrev pub error_result : Trade → Reason → PositionManagerResult
error_result t reason = record {
  status = error;
  position = none;
  position_event = none;
  reason = some reason;
  trade_id = t.id;
  account_id = t.account_id;
  instrument_id = t.instrument_id;
}

abbrev pub insufficient_result : Trade → Option Position → Reason → PositionManagerResult
insufficient_result t p reason = record {
  status = rejected_insufficient_position;
  position = p;
  position_event = none;
  reason = some reason;
  trade_id = t.id;
  account_id = t.account_id;
  instrument_id = t.instrument_id;
}

abbrev pub is_missing : Option OrderId → Bool
is_missing none = true
is_missing (some (numeral n)) = false
is_missing (some (malformed t)) = is_blank t

-- `_validate_trade_for_position`; `trade_time` is never missing.
unfoldable pub validate_trade_for_position : Trade → Option PositionManagerResult
validate_trade_for_position t =
    if is_missing t.id
    then some (error_result t (required "id"))
    else if is_blank t.account_id
    then some (error_result t (required "account_id"))
    else if is_blank t.exchange
    then some (error_result t (required "exchange"))
    else if is_blank t.exchange_trade_id
    then some (error_result t (required "exchange_trade_id"))
    else if is_blank t.instrument_id
    then some (error_result t (required "instrument_id"))
    else if leb_ℤ t.price (pos 0)
    then some (error_result t (text "trade.price must be positive to apply position"))
    else if leb_ℤ t.quantity (pos 0)
    then some (error_result t (text "trade.quantity must be positive to apply position"))
    else none

-- `_close_bucket`, with the position that the close would leave.
unfoldable pub close_bucket :
    Trade → Position → String → Decimal → Decimal → Decimal → Position → PositionManagerResult
close_bucket t p bucket current side_total frozen closed =
    if ltb_ℤ current t.quantity
    then insufficient_result t (some p) (insufficient bucket current t.quantity)
    else if ltb_ℤ (side_total -ℤ t.quantity) frozen
    then insufficient_result t (some p) (insufficient_unfrozen side_total t.quantity frozen)
    else applied_result t closed

module _ (ctx : Context) where
  -- `_weighted_average`
  unfoldable pub weighted_average : Decimal → Decimal → Decimal → Decimal → Decimal
  weighted_average existing_qty existing_avg added_qty added_price =
      let total = existing_qty +ℤ added_qty in
      if total == pos 0
      then added_price
      else ctx.divide (existing_qty *ℤ existing_avg +ℤ added_qty *ℤ added_price) total

  -- The branches of `_apply_trade_to_position`, on the trade's offset and direction.
  unfoldable pub trade_effect : Offset → Direction → Position → Trade → PositionManagerResult
  trade_effect open_offset buy p t = applied_result t (record p {
    long_today_qty = p.long_today_qty +ℤ t.quantity;
    long_avg_price =
        weighted_average (p.long_today_qty +ℤ p.long_yesterday_qty) p.long_avg_price t.quantity
          t.price;
  })
  trade_effect open_offset sell p t = applied_result t (record p {
    short_today_qty = p.short_today_qty +ℤ t.quantity;
    short_avg_price =
        weighted_average (p.short_today_qty +ℤ p.short_yesterday_qty) p.short_avg_price t.quantity
          t.price;
  })
  trade_effect close_today sell p t =
      close_bucket t p "long_today_qty" p.long_today_qty (p.long_today_qty +ℤ p.long_yesterday_qty)
        p.frozen_long_qty (record p { long_today_qty = p.long_today_qty -ℤ t.quantity })
  trade_effect close_yesterday sell p t =
      close_bucket t p "long_yesterday_qty" p.long_yesterday_qty
        (p.long_today_qty +ℤ p.long_yesterday_qty) p.frozen_long_qty
        (record p { long_yesterday_qty = p.long_yesterday_qty -ℤ t.quantity })
  trade_effect close_today buy p t =
      close_bucket t p "short_today_qty" p.short_today_qty
        (p.short_today_qty +ℤ p.short_yesterday_qty) p.frozen_short_qty
        (record p { short_today_qty = p.short_today_qty -ℤ t.quantity })
  trade_effect close_yesterday buy p t =
      close_bucket t p "short_yesterday_qty" p.short_yesterday_qty
        (p.short_today_qty +ℤ p.short_yesterday_qty) p.frozen_short_qty
        (record p { short_yesterday_qty = p.short_yesterday_qty -ℤ t.quantity })
  trade_effect close direction p t = error_result t (unsupported t.direction t.offset)

  -- `_apply_trade_to_position`
  unfoldable pub apply_trade_to_position : Position → Trade → PositionManagerResult
  unfolding trade_effect close_bucket weighted_average
  apply_trade_to_position p t = trade_effect t.offset t.direction p t
