-- ===== src/Reports/Bridge.antt =====
-- src/futures_mvp/modules/oms_to_trade/service.py: `OMSToTradeBridgeService.create_trade`.
pub mod Laws
use yanzl.Prelude.{
  ℕ, Bool, true, false, not, ◌&&◌, ◌||◌, Option, none, some, List, [], ◌∷◌, ◌++◌, String,
}
use yanzl.Prelude.Tests.{if◌then◌else◌, is_some}
use yanzl.Prelude.Equality.{◌==◌, String_eq, ℕ_eq, Option_eq}
use yanzl.Prelude.Int.{pos, leb_ℤ, ℤ_eq}
use yanzl.Prelude.Text.{is_empty, is_blank}
use yanzl.Domain.Enums.{
  Direction_eq, Offset_eq, OrderStatus_eq, EventSource_eq, OrderStatus, partially_filled, filled,
  execution_report_normalizer,
}
use yanzl.Domain.Orders.{Decimal, OrderId, numeral, malformed, OrderId_eq, OrderState}
use yanzl.Domain.Positions.{Trade}
use yanzl.Database.UnitOfWork.{
  Error, repository, value_error, idempotency_conflict, Result, ok, err,
}
use yanzl.Reports.Models.{
  ExecutionReportStatus, report_filled, ExecutionReportStatus_eq, is_fill,
  NormalizedExecutionReport, ReportEvent, TradeIdentitySource, from_exchange, derived_from_report,
  LineageTrade, is_not_positive, check_fee, is_empty_id,
}
use yanzl.Reports.Proof.{
  IdentityPayload, IdentityHash, check_identity, Identity, identified, unidentified, has_trade_id,
  stripped, fallback_identity, build_trade_identity, BridgeContext, BridgeStatus, trade_created,
  trade_duplicate, rejected_not_filled, rejected_oms_not_applied, rejected_missing_trade_identity,
  rejected_lineage_mismatch, trade_conflict, trade_error, BridgeReason, says, raised, BridgeResult,
  Refusal, expected_status, proves, proves_price, typed_fields_reason, applied_event_reject_reason,
  is_other_event, or_refuse, has_no_price, lineage_reject_reason, proof_reject_reason,
  reject_reason,
}
use yanzl.Reports.Trades.{
  event_id_of, trade_of, check_trade, same_source, report_or, same_canonical_trade, TradeDb,
  find_trade, with_id, new_trade, create_or_get, append_trade,
}

abbrev pub bridge_result :
    BridgeContext → BridgeStatus → Option LineageTrade → Option BridgeReason → BridgeResult
bridge_result x status t reason = record {
  status = status;
  created = t;
  source_report_id = x.report.report_id;
  source_event = event_id_of x.applied_order_event;
  bridge_reason = reason;
}

-- `except TradeIdempotencyConflictError` and `except Exception`.
abbrev pub failure : Error → BridgeStatus
failure (idempotency_conflict key) = trade_conflict
failure _ = trade_error

abbrev pub bridged :
    BridgeContext
    → Option LineageTrade
    → Result LineageTrade × TradeDb
    → Result BridgeResult × TradeDb
bridged x existing (ok t, d) = (
  ok (bridge_result x (if is_some existing then trade_duplicate else trade_created) (some t) none),
  d,
)
bridged x existing (err e, d) = (ok (bridge_result x (failure e) none (some (raised e))), d)

-- The trade is looked up before it is appended, to tell a duplicate.
unfoldable pub store_trade :
    BridgeContext → ℕ → LineageTrade → TradeDb → Result BridgeResult × TradeDb
store_trade x next_id t d =
    bridged x (find_trade t.trade.account_id t.trade.exchange t.trade.exchange_trade_id d.trades)
      (append_trade next_id t d)

-- A trade that its validators refuse is an exception that nothing catches.
abbrev pub checked_trade :
    BridgeContext → ℕ → LineageTrade → Option String → TradeDb → Result BridgeResult × TradeDb
checked_trade x next_id t (some e) d = (err (value_error e), d)
checked_trade x next_id t none d = store_trade x next_id t d

abbrev pub with_identity :
    BridgeContext → ℕ → Decimal → Identity → TradeDb → Result BridgeResult × TradeDb
with_identity x next_id price (unidentified reason) d =
    (ok (bridge_result x rejected_missing_trade_identity none (some (says reason))), d)
with_identity x next_id price (identified key source) d =
    let t = trade_of x key source price in checked_trade x next_id t (check_trade t) d

abbrev pub identity_payload : BridgeContext → Decimal → IdentityPayload
identity_payload x price = record {
  account_id = x.order_state.request.account_id;
  exchange = x.order_state.request.exchange;
  order_id = x.report.order_id;
  report_id = x.report.report_id;
  cumulative_filled_qty = x.report.cumulative_filled_qty;
  fill_price = price;
  report_ts = x.report.report_ts;
}

-- The price is there once nothing is refused, which the source asserts.
abbrev pub with_price :
    IdentityHash → BridgeContext → ℕ → Option Decimal → TradeDb → Result BridgeResult × TradeDb
with_price h x next_id none d = (err (value_error "assertion failed"), d)
with_price h x next_id (some price) d =
    with_identity x next_id price
      (build_trade_identity h x.report.exchange_trade_id (identity_payload x price)) d

abbrev pub unless_refused :
    BridgeContext
    → Refusal
    → TradeDb
    → Result BridgeResult × TradeDb
    → Result BridgeResult × TradeDb
unless_refused x (some (status, reason)) d rest =
    (ok (bridge_result x status none (some (says reason))), d)
unless_refused x none d rest = rest

-- `create_trade`
unfoldable pub create_trade :
    IdentityHash → BridgeContext → ℕ → TradeDb → Result BridgeResult × TradeDb
create_trade h x next_id d =
    unless_refused x (reject_reason x) d (with_price h x next_id x.report.fill_price d)
