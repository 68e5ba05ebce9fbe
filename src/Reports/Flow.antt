-- ===== src/Reports/Flow.antt =====
-- From a report to a trade: the event that the application builds is the proof that the bridge asks for.
use yanzl.Prelude.{ℕ, ◌≡◌, refl, sym, ap, ◌∙◌, true, false, Option, none, some, String, arith}
use yanzl.Prelude.Equality.{==_refl, ==_iff, String_eq, ℕ_eq, Option_eq}
use yanzl.Prelude.Lists.{contains}
use yanzl.Prelude.Int.{pos, ◌<ℤ◌, ℤ_eq}
use yanzl.Domain.Enums.{OrderStatus, OrderStatus_eq, EventSource_eq}
use yanzl.Domain.Orders.{Decimal, OrderState, numeral, OrderId_eq}
use yanzl.Database.UnitOfWork.{ok}
use yanzl.Reports.Models.{
  ExecutionReportStatus, ExecutionReportStatus_eq, is_fill, NormalizedExecutionReport, ReportEvent,
  LineageTrade, from_exchange, check_normalized, check_amounts, check_fee,
}
use yanzl.Reports.Normalizer.{order_status_of}
use yanzl.Reports.Events.{EventFormat, build_application_candidate, event_of}
use yanzl.Reports.Proof.{
  IdentityHash, identified, has_trade_id, stripped, build_trade_identity, BridgeContext,
  trade_created, reject_reason, applied_event_reject_reason, typed_fields_reason,
  lineage_reject_reason, expected_status,
}
use yanzl.Reports.Trades.{
  TradeDb, find_trade, trade_of, check_trade, with_id, append_trade, add_trade, is_taken,
}
use yanzl.Reports.Bridge.{store_trade, checked_trade, with_identity, bridge_result, create_trade}
use yanzl.Reports.Bridge.Laws.{
  IsTradeOf, trade_of-IsTradeOf, some_price, identity_at, same_passes, price_passes,
  create_trade-priced,
}

fill_status :
    (s : ExecutionReportStatus) (status : OrderStatus)
    → is_fill s ≡ true
    → order_status_of s ≡ some status
    → status ≡ expected_status s
fill_status s status fill target = ground arith

module _ (fmt : EventFormat) (r : NormalizedExecutionReport) (status : OrderStatus) where
  -- The event that the application builds of a report, from the order as it was then.
  abbrev pub report_event : OrderState → ReportEvent
  report_event before = event_of fmt (build_application_candidate r) before status

  typed_fields_match :
      (before : OrderState) (price : Decimal)
      → r.fill_price ≡ some price
      → typed_fields_reason (report_event before) r ≡ none
  unfolding typed_fields_reason build_application_candidate
  typed_fields_match before price priced = same_passes r.execution_status _ _ (
      same_passes r.report_id _ _ (
        same_passes r.report_ts _ _ (
          same_passes r.filled_qty _ _ (
            price_passes price r.fill_price _ priced
              (same_passes r.cumulative_filled_qty none _ refl)))))

  event_proves :
      (before : OrderState) (price : Decimal)
      → is_fill r.execution_status ≡ true
      → order_status_of r.execution_status ≡ some status
      → r.fill_price ≡ some price
      → applied_event_reject_reason (report_event before) r ≡ none
  unfolding applied_event_reject_reason build_application_candidate
  event_proves before price fill target priced = ground (
    arith,
    typed_fields_match before price priced,
    ==_refl (expected_status r.execution_status),
    fill_status r.execution_status status fill target,
  )

  -- What the bridge is given of the fill.
  abbrev pub context : OrderState → OrderState → String → String → Option ℕ → BridgeContext
  context before after symbol instrument day = record {
    report = r;
    order_state = after;
    symbol = symbol;
    trade_instrument_id = instrument;
    applied_order_event = some (report_event before);
    source_order_event_id = none;
    trading_day = day;
  }

  bridge_accepts :
      (before after : OrderState) (symbol instrument : String) (day : Option ℕ) (price : Decimal)
      → is_fill r.execution_status ≡ true
      → order_status_of r.execution_status ≡ some status
      → r.fill_price ≡ some price
      → pos 0 <ℤ price
      → pos 0 <ℤ r.filled_qty
      → r.order_id ≡ after.order_id
      → r.client_order_id ≡ after.request.client_order_id
      → reject_reason (context before after symbol instrument day) ≡ none
  unfolding reject_reason lineage_reject_reason build_application_candidate
  bridge_accepts before after symbol instrument day price fill target priced positive quantity order
        client =
      ground (
        arith,
        event_proves before price fill target priced,
        ==_iff r.order_id after.order_id,
        ==_iff r.client_order_id after.request.client_order_id,
        ==_refl r.order_id,
      )

  -- What the validators of a report say of a fill.
  valid_fill :
      check_normalized r ≡ none
      → is_fill r.execution_status ≡ true
      → (check_fee r.fee_amount r.fee_currency r.fee_source ≡ none)
        × ((price : Decimal) × (r.fill_price ≡ some price) × (pos 0 <ℤ price))
  unfolding check_normalized check_amounts
  valid_fill valid fill = (ground arith, some_price r.fill_price (ground arith))

store_new :
    (x : BridgeContext) (n k : ℕ) (t : LineageTrade) (d : TradeDb)
    → t.order_id ≡ numeral k
    → find_trade t.trade.account_id t.trade.exchange t.trade.exchange_trade_id d.trades ≡ none
    → is_taken n d.trades ≡ false
    → contains d.orders k ≡ true
    → store_trade x n t d
      ≡ (ok (bridge_result x trade_created (some (with_id n t)) none), add_trade (with_id n t) d)
unfolding store_trade append_trade
store_new x n k t d owner new free stored = ground arith

module _ (fmt : EventFormat) (h : IdentityHash) (r : NormalizedExecutionReport)
    (status : OrderStatus) (before after : OrderState) (symbol instrument : String) (day : Option ℕ)
    (n : ℕ) (d : TradeDb) where
  abbrev pub fill_context : BridgeContext
  fill_context = context fmt r status before after symbol instrument day

  -- A valid report of a fill of a positive quantity, which names the exchange's trade, becomes a trade of its
  -- order, where the order is stored: with the event that the application builds of the same report as the
  -- proof, and under an identity and a row key that are new, the bridge creates and stores a trade with the
  -- report's quantity, price and instant and the order's account, exchange, instrument, direction and offset.
  pub fill_becomes_trade :
      (k : ℕ)
      → check_normalized r ≡ none
      → is_fill r.execution_status ≡ true
      → order_status_of r.execution_status ≡ some status
      → pos 0 <ℤ r.filled_qty
      → has_trade_id r.exchange_trade_id ≡ true
      → r.order_id ≡ numeral k
      → after.order_id ≡ numeral k
      → r.client_order_id ≡ after.request.client_order_id
      → find_trade after.request.account_id after.request.exchange
          (stripped h r.exchange_trade_id)
          d.trades
        ≡ none
      → is_taken n d.trades ≡ false
      → contains d.orders k ≡ true
      → (t : LineageTrade) × IsTradeOf fill_context t
        × (t.trade.exchange_trade_id ≡ stripped h r.exchange_trade_id)
        × (create_trade h fill_context n d
            ≡ (ok (bridge_result fill_context trade_created (some t) none), add_trade t d))
  unfolding build_trade_identity check_trade
  fill_becomes_trade k valid fill target quantity named owner order client new free stored =
      let (fee, (price, priced, positive)) = valid_fill fmt r status valid fill in
      let key = stripped h r.exchange_trade_id in
      let t = trade_of fill_context key from_exchange price in
      (
        with_id n t,
        trade_of-IsTradeOf fill_context n key from_exchange price priced,
        refl,
        create_trade-priced h fill_context n d price
              (bridge_accepts fmt r status before after symbol instrument day price fill target
                priced positive quantity (owner ∙ sym order) client)
              priced
            ∙ ap (λ i. with_identity fill_context n price i d)
                (let i : identity_at h fill_context price ≡ identified key from_exchange =
                    rw named refl in
                  i)
            ∙ ap (λ v. checked_trade fill_context n t v d)
                (let v : check_trade t ≡ none = ground (arith, fee) in v)
            ∙ store_new fill_context n k t d owner new free stored,
      )
