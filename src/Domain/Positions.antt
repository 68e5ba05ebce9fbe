-- ===== src/Domain/Positions.antt =====
-- src/futures_mvp/domain/models.py: trades, positions, their snapshots and events, and the result of the
-- position manager. Fields that no modelled component reads are left out.
use yanzl.Prelude.{ℕ, Bool, ◌&&◌, Option, String}
use yanzl.Prelude.Equality.{◌==◌, ℕ_eq, String_eq}
use yanzl.Prelude.Int.{ℤ_eq}
use yanzl.Domain.Enums.{Direction, Offset}
use yanzl.Domain.Orders.{Decimal, OrderId}
use yanzl.Database.UnitOfWork.{Error}

pub record Trade : Type 0 where
  pub id : Option OrderId
  pub account_id : String
  pub exchange : String
  pub exchange_trade_id : String
  pub instrument_id : String
  pub direction : Direction
  pub offset : Offset
  pub price : Decimal
  pub quantity : Decimal
  pub fee_amount : Option Decimal
  pub fee_currency : Option String
  pub trade_time : ℕ

pub record Position : Type 0 where
  pub id : Option OrderId
  pub account_id : String
  pub instrument_id : String
  pub long_today_qty : Decimal
  pub long_yesterday_qty : Decimal
  pub short_today_qty : Decimal
  pub short_yesterday_qty : Decimal
  pub frozen_long_qty : Decimal
  pub frozen_short_qty : Decimal
  pub long_avg_price : Decimal
  pub short_avg_price : Decimal
  pub settlement_price : Decimal
  pub last_price : Decimal
  pub realized_pnl : Decimal
  pub unrealized_pnl : Decimal
  pub margin_used : Decimal
  pub version : ℕ

pub record PositionSnapshot : Type 0 where
  pub account_id : String
  pub instrument_id : String
  pub long_today_qty : Decimal
  pub long_yesterday_qty : Decimal
  pub short_today_qty : Decimal
  pub short_yesterday_qty : Decimal
  pub long_avg_price : Decimal
  pub short_avg_price : Decimal
  pub version : ℕ

abbrev pub from_position : Position → PositionSnapshot
from_position p = record {
  account_id = p.account_id;
  instrument_id = p.instrument_id;
  long_today_qty = p.long_today_qty;
  long_yesterday_qty = p.long_yesterday_qty;
  short_today_qty = p.short_today_qty;
  short_yesterday_qty = p.short_yesterday_qty;
  long_avg_price = p.long_avg_price;
  short_avg_price = p.short_avg_price;
  version = p.version;
}

-- `==` on snapshots.
unfoldable pub same_snapshot : PositionSnapshot → PositionSnapshot → Bool
same_snapshot a b =
    a.account_id == b.account_id
    && a.instrument_id == b.instrument_id
    && a.long_today_qty == b.long_today_qty
    && a.long_yesterday_qty == b.long_yesterday_qty
    && a.short_today_qty == b.short_today_qty
    && a.short_yesterday_qty == b.short_yesterday_qty
    && a.long_avg_price == b.long_avg_price
    && a.short_avg_price == b.short_avg_price
    && a.version == b.version

pub record PositionEvent : Type 0 where
  pub account_id : String
  pub instrument_id : String
  pub exchange : String
  pub exchange_trade_id : String
  pub trade_id : OrderId
  pub position_id : OrderId
  pub event_type : String
  pub direction : Direction
  pub offset : Offset
  pub price : Decimal
  pub quantity : Decimal
  pub before_snapshot : PositionSnapshot
  pub after_snapshot : PositionSnapshot
  pub occurred_at : ℕ
  pub created_at : ℕ

pub data PositionManagerResultStatus : Type 0 where
  applied duplicate_ignored rejected_insufficient_position : PositionManagerResultStatus
  conflict error : PositionManagerResultStatus

-- The texts of `reason`, with the values that they print.
pub data Reason : Type 0 where
  text : String → Reason
  required : String → Reason
  unsupported : Direction → Offset → Reason
  insufficient : String → Decimal → Decimal → Reason
  insufficient_unfrozen : Decimal → Decimal → Decimal → Reason
  raised : Error → Reason

pub record PositionManagerResult : Type 0 where
  pub status : PositionManagerResultStatus
  pub position : Option Position
  pub position_event : Option PositionEvent
  pub reason : Option Reason
  pub trade_id : Option OrderId
  pub account_id : String
  pub instrument_id : String
