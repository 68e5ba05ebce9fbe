-- ===== src/Reports/Proof.antt =====
-- src/futures_mvp/modules/oms_to_trade/: identity.py, and the checks of service.py that an event proves the
-- fill of a report.
use yanzl.Prelude.{ℕ, Bool, true, false, not, Option, none, some, String}
use yanzl.Prelude.Tests.{if◌then◌else◌}
use yanzl.Prelude.Equality.{◌==◌, String_eq, ℕ_eq, Option_eq}
use yanzl.Prelude.Int.{pos, leb_ℤ, ℤ_eq}
use yanzl.Prelude.Text.{is_empty, is_blank}
use yanzl.Domain.Enums.{
  Direction_eq, Offset_eq, OrderStatus_eq, EventSource_eq, OrderStatus, partially_filled, filled,
  execution_report_normalizer,
}
use yanzl.Domain.Orders.{Decimal, OrderId, OrderId_eq, OrderState}
use yanzl.Database.UnitOfWork.{Error}
use yanzl.Reports.Models.{
  ExecutionReportStatus, report_filled, ExecutionReportStatus_eq, is_fill,
  NormalizedExecutionReport, ReportEvent, TradeIdentitySource, from_exchange, derived_from_report,
  LineageTrade, is_empty_id,
}

-- What the derived identity of a trade reads.
pub record IdentityPayload : Type 0 where
  pub account_id : String
  pub exchange : String
  pub order_id : OrderId
  pub report_id : String
  pub cumulative_filled_qty : Decimal
  pub fill_price : Decimal
  pub report_ts : ℕ

-- `"derived_" + stable_json_sha256(payload)`, and `str.strip`.
pub record IdentityHash : Type 0 where
  pub derived : IdentityPayload → String
  pub strip : String → String

-- `_required_string` of the texts of a payload: the error of the first that is missing.
unfoldable pub check_identity : IdentityPayload → Option String
check_identity p =
    if is_empty p.account_id
    then some "account_id is required for derived trade identity"
    else if is_empty p.exchange
    then some "exchange is required for derived trade identity"
    else if is_empty_id p.order_id
    then some "order_id is required for derived trade identity"
    else if is_empty p.report_id
    then some "report_id is required for derived trade identity"
    else none

pub data Identity : Type 0 where
  identified : String → TradeIdentitySource → Identity
  unidentified : String → Identity

-- `exchange_trade_id is not None and exchange_trade_id.strip()`
abbrev pub has_trade_id : Option String → Bool
has_trade_id none = false
has_trade_id (some t) = not (is_blank t)

abbrev pub stripped : IdentityHash → Option String → String
stripped h none = ""
stripped h (some t) = h.strip t

abbrev pub fallback_identity : Option String → String → Identity
fallback_identity none key = identified key derived_from_report
fallback_identity (some error) key = unidentified error

-- `build_trade_identity`
unfoldable pub build_trade_identity : IdentityHash → Option String → IdentityPayload → Identity
build_trade_identity h exchange_trade_id p =
    if has_trade_id exchange_trade_id
    then identified (stripped h exchange_trade_id) from_exchange
    else fallback_identity (check_identity p) (h.derived p)

pub record BridgeContext : Type 0 where
  pub report : NormalizedExecutionReport
  pub order_state : OrderState
  pub symbol : String
  pub trade_instrument_id : String
  pub applied_order_event : Option ReportEvent
  pub source_order_event_id : Option String
  pub trading_day : Option ℕ

pub data BridgeStatus : Type 0 where
  trade_created trade_duplicate rejected_not_filled rejected_oms_not_applied : BridgeStatus
  rejected_missing_trade_identity rejected_lineage_mismatch trade_conflict : BridgeStatus
  trade_error : BridgeStatus

-- The source's text, or the message of an error.
pub data BridgeReason : Type 0 where
  says : String → BridgeReason
  raised : Error → BridgeReason

pub record BridgeResult : Type 0 where
  pub status : BridgeStatus
  pub created : Option LineageTrade
  pub source_report_id : String
  pub source_event : Option String
  pub bridge_reason : Option BridgeReason

abbrev pub Refusal : Type 0
Refusal = Option (BridgeStatus × String)

-- The order status that a fill's status stands for.
abbrev pub expected_status : ExecutionReportStatus → OrderStatus
expected_status report_filled = filled
expected_status _ = partially_filled

-- A field of the proof that must be there and be the report's.
abbrev pub proves {ℓ} :
    {A : Type ℓ} → (A → A → Bool) → Option A → A → String → String → Refusal → Refusal
proves same none value missing mismatch rest = some (rejected_oms_not_applied, missing)
proves same (some proof) value missing mismatch rest =
    if same proof value then rest else some (rejected_lineage_mismatch, mismatch)

-- The price of the proof against the report's, which may be missing there.
abbrev pub proves_price : Option Decimal → Option Decimal → Refusal → Refusal
proves_price none price rest = some (rejected_oms_not_applied, "OMS proof missing fill_price")
proves_price (some proof) price rest =
    if some proof == price
    then rest
    else some (rejected_lineage_mismatch, "OMS proof fill_price mismatch")

-- `_applied_event_reject_reason`, from the typed fields on.
unfoldable pub typed_fields_reason : ReportEvent → NormalizedExecutionReport → Refusal
typed_fields_reason e r =
    proves (λ a b. a == b) e.execution_status r.execution_status
      "OMS proof missing execution_status" "OMS proof execution_status mismatch"
      (proves (λ a b. a == b) e.report_id r.report_id "OMS proof missing report_id"
        "OMS proof report_id mismatch"
        (proves (λ a b. a == b) e.report_ts r.report_ts "OMS proof missing report_ts"
          "OMS proof report_ts mismatch"
          (proves (λ a b. a == b) e.filled_qty r.filled_qty "OMS proof missing filled_qty"
            "OMS proof filled_qty mismatch"
            (proves_price e.fill_price r.fill_price (
              proves (λ a b. a == b) e.cumulative_filled_qty r.cumulative_filled_qty
                "OMS proof missing cumulative_filled_qty" "OMS proof cumulative_filled_qty mismatch"
                none)))))

-- `_applied_event_reject_reason`
unfoldable pub applied_event_reject_reason : ReportEvent → NormalizedExecutionReport → Refusal
applied_event_reject_reason e r =
    if not (e.base.event_source == execution_report_normalizer)
    then some (rejected_oms_not_applied, "OMS proof source is not execution_report_normalizer")
    else if not (e.base.new_status == expected_status r.execution_status)
    then some (rejected_lineage_mismatch, "OMS proof status does not match report status")
    else typed_fields_reason e r

-- `_source_order_event_id_reject_reason`, with an event at hand.
abbrev pub is_other_event : Option String → ReportEvent → Bool
is_other_event none e = false
is_other_event (some id) e = not (id == e.base.external_event_id)

abbrev pub or_refuse : Refusal → Refusal → Refusal
or_refuse none rest = rest
or_refuse (some r) rest = some r

abbrev pub has_no_price : Option Decimal → Bool
has_no_price none = true
has_no_price (some p) = leb_ℤ p (pos 0)

-- The comparison of the report with the order, and of what was filled.
unfoldable pub lineage_reject_reason : BridgeContext → ReportEvent → Refusal
lineage_reject_reason x e =
    let r = x.report in
    if is_other_event x.source_order_event_id e
    then some (rejected_lineage_mismatch, "source_order_event_id does not match applied OMS event")
    else if not (r.order_id == x.order_state.order_id)
    then some (rejected_lineage_mismatch, "order_id mismatch")
    else if not (r.client_order_id == x.order_state.request.client_order_id)
    then some (rejected_lineage_mismatch, "client_order_id mismatch")
    else if not (r.order_id == e.base.order_id)
    then some (rejected_lineage_mismatch, "order event order_id mismatch")
    else if leb_ℤ r.filled_qty (pos 0)
    then some (rejected_not_filled, "filled_qty must be positive")
    else if has_no_price r.fill_price
    then some (rejected_not_filled, "fill_price must be positive")
    else none

abbrev pub proof_reject_reason : BridgeContext → Option ReportEvent → Refusal
proof_reject_reason x none = some (rejected_oms_not_applied, "applied OMS event proof is required")
proof_reject_reason x (some e) =
    or_refuse (applied_event_reject_reason e x.report) (lineage_reject_reason x e)

-- `_reject_reason`
unfoldable pub reject_reason : BridgeContext → Refusal
reject_reason x =
    if not (is_fill x.report.execution_status)
    then some (rejected_not_filled, "report is not filled")
    else proof_reject_reason x x.applied_order_event
