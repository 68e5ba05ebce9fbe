-- ===== src/Position/Manager.antt =====
-- src/futures_mvp/modules/position/manager.py: `PositionManager.apply_trade`.
use yanzl.Prelude.{ℕ, Bool, true, false, not, ◌&&◌, ◌||◌, Option, none, some}
use yanzl.Prelude.Tests.{if◌then◌else◌}
use yanzl.Prelude.Equality.{◌==◌, ℕ_eq, String_eq, Option_eq}
use yanzl.Prelude.Int.{ℤ_eq}
use yanzl.Domain.Enums.{open_offset, close_today, close_yesterday, Direction_eq, Offset_eq}
use yanzl.Domain.Orders.{OrderId, OrderId_eq}
use yanzl.Domain.Positions.{
  Trade, Position, PositionSnapshot, from_position, same_snapshot, PositionEvent,
  PositionManagerResultStatus, applied, duplicate_ignored, conflict, error, Reason, text,
  unsupported, raised, PositionManagerResult,
}
use yanzl.Database.UnitOfWork.{
  Error, position_event_conflict, value_error, invalid_order_transition, event_key_collision,
  integrity_error, Result, ok, Uow, pure, raise, or_raise, commit, rollback, with_uow, except_any,
  ◌>>=◌, ◌>>◌,
}
use yanzl.Decimal.{Context}
use yanzl.Position.Apply.{
  error_result, insufficient_result, validate_trade_for_position, apply_trade_to_position,
}
use yanzl.Position.Store.{
  PositionDb, get_by_account_instrument, create_or_get_position, update_position, get_by_trade_key,
  append_position_event,
}

-- `_same_trade_event`
unfoldable pub same_trade_event : PositionEvent → Trade → Bool
same_trade_event e t =
    e.account_id == t.account_id
    && e.instrument_id == t.instrument_id
    && e.exchange == t.exchange
    && e.exchange_trade_id == t.exchange_trade_id
    && some e.trade_id == t.id
    && e.direction == t.direction
    && e.offset == t.offset
    && e.price == t.price
    && e.quantity == t.quantity
    && e.occurred_at == t.trade_time

abbrev pub manager_result :
    Trade
    → PositionManagerResultStatus
    → Option Position
    → Option PositionEvent
    → Option Reason
    → PositionManagerResult
manager_result t status position event reason = record {
  status = status;
  position = position;
  position_event = event;
  reason = reason;
  trade_id = t.id;
  account_id = t.account_id;
  instrument_id = t.instrument_id;
}

-- `current_position is None or PositionSnapshot.from_position(current_position) != …`
abbrev pub has_diverged : Option Position → PositionSnapshot → Bool
has_diverged none after = true
has_diverged (some p) after = not (same_snapshot (from_position p) after)

-- `_duplicate_result`
unfoldable pub duplicate_result : PositionEvent → Trade → Uow PositionDb PositionManagerResult
duplicate_result e t =
    if not (same_trade_event e t)
    then pure
        (manager_result t conflict none (some e) (some (text "position event trade key conflict")))
    else do
      current ← get_by_account_instrument e.account_id e.instrument_id
      pure (
          if has_diverged current e.after_snapshot
          then manager_result t conflict current (some e)
              (some (text "position_projection_diverged_from_event_snapshot"))
          else manager_result t duplicate_ignored current (some e) none)

-- `_missing_position_result`
unfoldable pub missing_position_result : Trade → PositionManagerResult
missing_position_result t =
    if t.offset == close_today || t.offset == close_yesterday
    then insufficient_result t none (text "insufficient position: position does not exist")
    else error_result t (unsupported t.direction t.offset)

abbrev pub trade_applied_event :
    Trade → OrderId → OrderId → PositionSnapshot → Position → ℕ → PositionEvent
trade_applied_event t trade_id position_id before updated now = record {
  account_id = t.account_id;
  instrument_id = t.instrument_id;
  exchange = t.exchange;
  exchange_trade_id = t.exchange_trade_id;
  trade_id = trade_id;
  position_id = position_id;
  event_type = "TRADE_APPLIED";
  direction = t.direction;
  offset = t.offset;
  price = t.price;
  quantity = t.quantity;
  before_snapshot = before;
  after_snapshot = from_position updated;
  occurred_at = t.trade_time;
  created_at = now;
}

-- The `except` clauses: roll back, and say what was raised.
abbrev pub failed : Trade → Error → Uow PositionDb PositionManagerResult
failed t (invalid_order_transition a b) = raise (invalid_order_transition a b)
failed t (event_key_collision m) = raise (event_key_collision m)
failed t (integrity_error m) = raise (integrity_error m)
failed t (position_event_conflict m) = do
  rollback
  pure (manager_result t conflict none none (some (raised (position_event_conflict m))))
failed t e = do rollback; pure (manager_result t error none none (some (raised e)))

-- The `try` and what follows it; `now` is the clock.
unfoldable pub write_trade : ℕ → Trade → Position → Position → Uow PositionDb PositionManagerResult
write_trade now t position after =
    except_any
      (do
        updated ← update_position after (some position.version)
        trade_id ← or_raise t.id (value_error "trade.id is required to apply position")
        position_id ←
            or_raise updated.id (value_error "position.id is required to append position event")
        event ←
            append_position_event
              (trade_applied_event t trade_id position_id (from_position position) updated now)
        commit
        pure (manager_result t applied (some updated) (some event) none))
      (failed t)

abbrev pub write_calculated :
    ℕ
    → Trade
    → Position
    → PositionManagerResult
    → Option Position
    → Uow PositionDb PositionManagerResult
write_calculated now t position calculated none =
    pure (error_result t (text "position calculation did not return a position"))
write_calculated now t position calculated (some after) = write_trade now t position after

abbrev pub is_applied : PositionManagerResultStatus → Bool
is_applied applied = true
is_applied _ = false

module _ (ctx : Context) (next_id now : ℕ) where
  unfoldable pub apply_to : Trade → Position → Uow PositionDb PositionManagerResult
  apply_to t position =
      let calculated = apply_trade_to_position ctx position t in
      if not (is_applied calculated.status)
      then pure calculated
      else write_calculated now t position calculated calculated.position

  abbrev pub apply_to_existing : Trade → Option Position → Uow PositionDb PositionManagerResult
  apply_to_existing t none = pure (missing_position_result t)
  apply_to_existing t (some position) = apply_to t position

  abbrev pub apply_open : Trade → Uow PositionDb PositionManagerResult
  apply_open t = do
    position ← create_or_get_position next_id t.account_id t.instrument_id
    apply_to t position

  abbrev pub apply_close : Trade → Uow PositionDb PositionManagerResult
  apply_close t = do
    existing ← get_by_account_instrument t.account_id t.instrument_id
    apply_to_existing t existing

  abbrev pub apply_new : Trade → Uow PositionDb PositionManagerResult
  apply_new t = if t.offset == open_offset then apply_open t else apply_close t

  abbrev pub apply_unless_known :
      Trade → Option PositionEvent → Uow PositionDb PositionManagerResult
  apply_unless_known t (some e) = duplicate_result e t
  apply_unless_known t none = apply_new t

  abbrev pub apply_valid :
      Trade → Option PositionManagerResult → PositionDb → Result PositionManagerResult × PositionDb
  apply_valid t (some preflight) d = (ok preflight, d)
  apply_valid t none d =
      with_uow
        (do
          existing ← get_by_trade_key t.account_id t.exchange t.exchange_trade_id
          apply_unless_known t existing)
        d

  unfoldable pub apply_trade : Trade → PositionDb → Result PositionManagerResult × PositionDb
  apply_trade t d = apply_valid t (validate_trade_for_position t) d
