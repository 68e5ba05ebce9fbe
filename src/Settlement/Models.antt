-- ===== src/Settlement/Models.antt =====
-- src/futures_mvp/domain/models.py: what a settlement reads and makes. Of the stored results of the
-- margin and PnL engines there are the fields that the settlement reads. A date is a natural number.
-- The JSON forms of a position and of a price keep the values themselves: the text of a normalized
-- decimal tells its value.
use yanzl.Prelude.{ℕ, suc, refl, Bool, Option, List, String}
use yanzl.Prelude.Equality.{Comparable, by_columns, ◌⊗◌, ◌#◌, ℕ_eq, String_eq, Option_eq, Tuple_eq}
use yanzl.Prelude.Int.{pos, ◌+ℤ◌, ℤ_eq}
use yanzl.Domain.Orders.{Decimal, OrderId, OrderId_eq}
use yanzl.Domain.Positions.{Position, Reason}
use yanzl.Margin.Calculator.{AccountContext}
use yanzl.Pnl.Calculator.{PnlPriceBasis}

pub record AccountSnapshot : Type 0 where
  pub id : Option OrderId
  pub account_id : String
  pub equity : Decimal
  pub available_cash : Decimal
  pub margin_used : Decimal
  pub frozen_margin : Decimal
  pub realized_pnl : Decimal
  pub unrealized_pnl : Decimal
  pub snapshot_time : ℕ

pub record MarginSnapshot : Type 0 where
  pub id : Option OrderId
  pub account_id : String
  pub instrument_id : String
  pub position_version : ℕ
  pub trading_day : ℕ
  pub margin_used : Decimal

pub record PnlSnapshot : Type 0 where
  pub id : Option OrderId
  pub account_id : String
  pub instrument_id : String
  pub position_version : ℕ
  pub trading_day : ℕ
  pub price_basis : PnlPriceBasis
  pub mark_price : Decimal
  pub realized_pnl : Decimal
  pub unrealized_pnl : Decimal

pub record SettlementPrice : Type 0 where
  pub instrument_id : String
  pub exchange : String
  pub trading_day : ℕ
  pub price : Decimal
  pub source : Option String
  pub received_at : ℕ

pub record TradingCalendar : Type 0 where
  pub trading_day : ℕ
  pub is_trading_day : Bool

-- `AccountContext | AccountSnapshot`
pub data AccountBefore : Type 0 where
  of_context : AccountContext → AccountBefore
  of_snapshot : AccountSnapshot → AccountBefore

-- Its validators, that `calculation_key` is not blank and `account_before` is of this account, are left out.
pub record SettlementContext : Type 0 where
  pub account_id : String
  pub trading_day : ℕ
  pub account_before : AccountBefore
  pub positions : List Position
  pub pnl_snapshots : List PnlSnapshot
  pub margin_snapshots : List MarginSnapshot
  pub settlement_prices : List SettlementPrice
  pub calculation_key : String
  pub settled_at : ℕ

pub data SettlementResultStatus : Type 0 where
  settled duplicate rejected_non_trading_day rejected_missing_position : SettlementResultStatus
  rejected_missing_pnl rejected_missing_margin : SettlementResultStatus
  rejected_missing_settlement_price rejected_frozen_position : SettlementResultStatus
  conflict error : SettlementResultStatus

pub record PositionPayload : Type 0 where
  pub id : Option OrderId
  pub account_id : String
  pub instrument_id : String
  pub long_today_qty : Decimal
  pub long_yesterday_qty : Decimal
  pub short_today_qty : Decimal
  pub short_yesterday_qty : Decimal
  pub frozen_long_qty : Decimal
  pub frozen_short_qty : Decimal
  pub long_avg_price : Decimal
  pub short_avg_price : Decimal
  pub settlement_price : Decimal
  pub last_price : Decimal
  pub realized_pnl : Decimal
  pub unrealized_pnl : Decimal
  pub margin_used : Decimal
  pub version : ℕ

pub record SettlementSnapshot : Type 0 where
  pub id : Option OrderId
  pub account_id : String
  pub trading_day : ℕ
  pub calculation_key : String
  pub positions_before : List PositionPayload
  pub positions_after : List PositionPayload
  pub settlement_prices : List SettlementPrice
  pub pnl_snapshot_ids : List OrderId
  pub margin_snapshot_ids : List OrderId
  pub account_snapshot_before_id : Option OrderId
  pub account_snapshot_after_id : Option OrderId
  pub cash_before : Decimal
  pub cash_after : Decimal
  pub realized_pnl : Decimal
  pub unrealized_pnl : Decimal
  pub margin_used : Decimal
  pub status : SettlementResultStatus
  pub reason : Option String
  pub created_at : ℕ

pub record SettlementResult : Type 0 where
  pub status : SettlementResultStatus
  pub snapshot : Option SettlementSnapshot
  pub reason : Option Reason
  pub account_id : String
  pub trading_day : ℕ

pub record SettlementPlan : Type 0 where
  pub snapshot : SettlementSnapshot
  pub equity_after : Decimal
  pub available_cash_after : Decimal
  pub frozen_cash_after : Decimal

-- `_position_payload`
abbrev pub position_payload : Position → PositionPayload
position_payload p = record {
  id = p.id;
  account_id = p.account_id;
  instrument_id = p.instrument_id;
  long_today_qty = p.long_today_qty;
  long_yesterday_qty = p.long_yesterday_qty;
  short_today_qty = p.short_today_qty;
  short_yesterday_qty = p.short_yesterday_qty;
  frozen_long_qty = p.frozen_long_qty;
  frozen_short_qty = p.frozen_short_qty;
  long_avg_price = p.long_avg_price;
  short_avg_price = p.short_avg_price;
  settlement_price = p.settlement_price;
  last_price = p.last_price;
  realized_pnl = p.realized_pnl;
  unrealized_pnl = p.unrealized_pnl;
  margin_used = p.margin_used;
  version = p.version;
}

-- `_rolled_position_payload`
abbrev pub rolled_position_payload : Position → PositionPayload
rolled_position_payload p = record (position_payload p) {
  long_yesterday_qty = p.long_yesterday_qty +ℤ p.long_today_qty;
  short_yesterday_qty = p.short_yesterday_qty +ℤ p.short_today_qty;
  long_today_qty = pos 0;
  short_today_qty = pos 0;
  version = suc p.version;
}

-- The columns of a payload: names and quantities, then prices and results.
abbrev Holding : Type 0
Holding =
    Option OrderId ⊗ String ⊗ String ⊗ ℕ ⊗ Decimal ⊗ Decimal ⊗ Decimal ⊗ Decimal ⊗ Decimal ⊗ Decimal

abbrev Marks : Type 0
Marks = Decimal ⊗ Decimal ⊗ Decimal ⊗ Decimal ⊗ Decimal ⊗ Decimal ⊗ Decimal

abbrev payload_columns : PositionPayload → Holding ⊗ Marks
payload_columns p =
    (p.id # p.account_id # p.instrument_id # p.version # p.long_today_qty # p.long_yesterday_qty
      # p.short_today_qty # p.short_yesterday_qty # p.frozen_long_qty # p.frozen_short_qty)
    # p.long_avg_price
    # p.short_avg_price
    # p.settlement_price
    # p.last_price
    # p.realized_pnl
    # p.unrealized_pnl
    # p.margin_used

abbrev payload_of : Holding ⊗ Marks → PositionPayload
payload_of
      ((id # account # instrument # v # lt # ly # st # sy # fl # fs)
        # la
        # sa
        # settlement
        # last
        # realized
        # unrealized
        # used) =
    record {
      id = id;
      account_id = account;
      instrument_id = instrument;
      long_today_qty = lt;
      long_yesterday_qty = ly;
      short_today_qty = st;
      short_yesterday_qty = sy;
      frozen_long_qty = fl;
      frozen_short_qty = fs;
      long_avg_price = la;
      short_avg_price = sa;
      settlement_price = settlement;
      last_price = last;
      realized_pnl = realized;
      unrealized_pnl = unrealized;
      margin_used = used;
      version = v;
    }

instance abbrev pub PositionPayload_eq : Comparable PositionPayload
PositionPayload_eq = by_columns payload_columns payload_of (λ a. refl)

abbrev price_columns : SettlementPrice → String ⊗ String ⊗ ℕ ⊗ Decimal ⊗ Option String ⊗ ℕ
price_columns p = p.instrument_id # p.exchange # p.trading_day # p.price # p.source # p.received_at

abbrev price_of_columns : String ⊗ String ⊗ ℕ ⊗ Decimal ⊗ Option String ⊗ ℕ → SettlementPrice
price_of_columns (instrument # exchange # day # price # source # received) = record {
  instrument_id = instrument;
  exchange = exchange;
  trading_day = day;
  price = price;
  source = source;
  received_at = received;
}

instance abbrev pub SettlementPrice_eq : Comparable SettlementPrice
SettlementPrice_eq = by_columns price_columns price_of_columns (λ a. refl)
