-- ===== src/Reports/Trades.antt =====
-- src/futures_mvp/modules/oms_to_trade/service.py: the trade of a context; and the table `trades` of
-- db/repositories.py.
use yanzl.Prelude.{
  ℕ, Bool, true, false, not, ◌&&◌, ◌||◌, Option, none, some, List, [], ◌∷◌, ◌++◌, String,
}
use yanzl.Prelude.Tests.{if◌then◌else◌}
use yanzl.Prelude.Equality.{◌==◌, String_eq, ℕ_eq, Option_eq}
use yanzl.Prelude.Int.{pos, leb_ℤ, ℤ_eq}
use yanzl.Prelude.Lists.{contains}
use yanzl.Prelude.Text.{is_empty}
use yanzl.Domain.Enums.{Direction_eq, Offset_eq, OrderStatus_eq, EventSource_eq}
use yanzl.Domain.Orders.{Decimal, OrderId, numeral, malformed, OrderId_eq}
use yanzl.Database.UnitOfWork.{repository, idempotency_conflict, Result, ok, err}
use yanzl.Reports.Models.{
  ExecutionReportStatus_eq, ReportEvent, TradeIdentitySource, from_exchange, derived_from_report,
  LineageTrade, check_fee,
}
use yanzl.Reports.Proof.{BridgeContext}

abbrev pub event_id_of : Option ReportEvent → Option String
event_id_of none = none
event_id_of (some e) = some e.base.external_event_id

-- The trade of a context, under an identity and at a price.
abbrev pub trade_of : BridgeContext → String → TradeIdentitySource → Decimal → LineageTrade
trade_of x key source price =
    let r = x.report in
    let q = x.order_state.request in
    record {
      trade = record {
        id = none;
        account_id = q.account_id;
        exchange = q.exchange;
        exchange_trade_id = key;
        instrument_id = q.instrument_id;
        direction = q.direction;
        offset = q.offset;
        price = price;
        quantity = r.filled_qty;
        fee_amount = r.fee_amount;
        fee_currency = r.fee_currency;
        trade_time = r.report_ts;
      };
      identity_source = source;
      order_id = r.order_id;
      client_order_id = some r.client_order_id;
      trade_instrument_id = some x.trade_instrument_id;
      symbol = some x.symbol;
      fee_source = r.fee_source;
      trading_day = x.trading_day;
      source_report_id = some r.report_id;
      source_exchange_report_id = some r.report_id;
      source_order_event_id = event_id_of x.applied_order_event;
    }

-- The validators of `Trade`.
unfoldable pub check_trade : LineageTrade → Option String
check_trade t =
    if leb_ℤ t.trade.quantity (pos 0)
    then some "quantity must be greater than 0"
    else check_fee t.trade.fee_amount t.trade.fee_currency t.fee_source

abbrev pub same_source : TradeIdentitySource → TradeIdentitySource → Bool
same_source from_exchange from_exchange = true
same_source derived_from_report derived_from_report = true
same_source _ _ = false

-- `a or b` of texts.
abbrev pub report_or : Option String → Option String → Option String
report_or none other = other
report_or (some t) other = if is_empty t then other else some t

-- `_same_canonical_trade_payload`
unfoldable pub same_canonical_trade : LineageTrade → LineageTrade → Bool
same_canonical_trade a b =
    a.trade.account_id == b.trade.account_id
    && a.trade.exchange == b.trade.exchange
    && a.trade.exchange_trade_id == b.trade.exchange_trade_id
    && same_source a.identity_source b.identity_source
    && a.order_id == b.order_id
    && a.client_order_id == b.client_order_id
    && a.trade.instrument_id == b.trade.instrument_id
    && a.trade_instrument_id == b.trade_instrument_id
    && a.symbol == b.symbol
    && a.trade.direction == b.trade.direction
    && a.trade.offset == b.trade.offset
    && a.trade.price == b.trade.price
    && a.trade.quantity == b.trade.quantity
    && a.trade.fee_amount == b.trade.fee_amount
    && a.trade.fee_currency == b.trade.fee_currency
    && a.fee_source == b.fee_source
    && a.trade.trade_time == b.trade.trade_time
    && a.trading_day == b.trading_day
    && report_or a.source_report_id a.source_exchange_report_id
      == report_or b.source_report_id b.source_exchange_report_id
    && a.source_order_event_id == b.source_order_event_id

-- The keys of `orders`, and the table `trades`, as the trades that its rows stand for, in the order of their
-- keys.
pub record TradeDb : Type 0 where
  pub orders : List ℕ
  pub trades : List LineageTrade

unfoldable pub find_trade : String → String → String → List LineageTrade → Option LineageTrade
find_trade account exchange key [] = none
find_trade account exchange key (t ∷ ts) =
    if t.trade.account_id == account
      && t.trade.exchange == exchange
      && t.trade.exchange_trade_id == key
    then some t
    else find_trade account exchange key ts

-- Whether a row has the key.
unfoldable pub is_taken : ℕ → List LineageTrade → Bool
is_taken id [] = false
is_taken id (t ∷ ts) = t.trade.id == some (numeral id) || is_taken id ts

-- `_new_trade`, whose row has the key that the database gives.
abbrev pub with_id : ℕ → LineageTrade → LineageTrade
with_id next_id t = record t { trade = record t.trade { id = some (numeral next_id) } }

-- The table with a row more.
abbrev pub add_trade : LineageTrade → TradeDb → TradeDb
add_trade t d = record d { trades = d.trades ++ t ∷ [] }

-- The insert of `create_or_get_trade`. A key of the row that is taken or a foreign key without an order is an integrity
-- error, after which the trade is looked up again and not found.
abbrev pub new_trade : ℕ → LineageTrade → OrderId → TradeDb → Result LineageTrade × TradeDb
new_trade next_id t (malformed key) d = (err (repository "invalid order_id"), d)
new_trade next_id t (numeral n) d =
    if is_taken next_id d.trades || not (contains d.orders n)
    then (err (repository "trade unique conflict but trade not found"), d)
    else (ok (with_id next_id t), add_trade (with_id next_id t) d)

-- `create_or_get_trade`; `next_id` is the key that the database gives to the row.
abbrev pub create_or_get :
    ℕ → LineageTrade → Option LineageTrade → TradeDb → Result LineageTrade × TradeDb
create_or_get next_id t (some existing) d =
    if same_canonical_trade existing t
    then (ok existing, d)
    else (err (idempotency_conflict t.trade.exchange_trade_id), d)
create_or_get next_id t none d = new_trade next_id t t.order_id d

unfoldable pub append_trade : ℕ → LineageTrade → TradeDb → Result LineageTrade × TradeDb
append_trade next_id t d =
    create_or_get next_id t
      (find_trade t.trade.account_id t.trade.exchange t.trade.exchange_trade_id d.trades) d
