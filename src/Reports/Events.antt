-- ===== src/Reports/Events.antt =====
-- src/futures_mvp/modules/oms_event_application/: mapping.py, canonical.py, ids.py, and the checks of
-- service.py on a context: from a candidate to an order's event.
use yanzl.Prelude.{ℕ, Bool, false, not, ◌&&◌, Option, none, some, [], ◌∷◌, String}
use yanzl.Prelude.Tests.{if◌then◌else◌, is_some}
use yanzl.Prelude.Equality.{◌==◌, String_eq, ℕ_eq, Option_eq}
use yanzl.Prelude.Int.{ℤ_eq}
use yanzl.Prelude.Text.{is_empty}
use yanzl.Domain.Enums.{
  OrderStatus, submitted, acked, partially_filled, filled, rejected_by_exchange, canceled, unknown,
  execution_report_normalizer, OrderStatus_eq,
}
use yanzl.Domain.Orders.{Decimal, OrderId, OrderId_eq, OrderState, Payload}
use yanzl.Database.UnitOfWork.{Error}
use yanzl.Reports.Models.{
  ExecutionReportStatus, report_submitted, report_acked, report_partially_filled, report_filled,
  report_rejected, report_canceled, report_error, ExecutionReportStatus_eq, is_fill,
  NormalizedExecutionReport, OrderEventCandidate, ReportEvent,
}
use yanzl.Reports.Normalizer.{order_status_of, candidate_of}

-- `_CANDIDATE_STATUS_BY_EXECUTION_STATUS`
abbrev pub candidate_status : ExecutionReportStatus → OrderStatus
candidate_status report_acked = acked
candidate_status report_partially_filled = partially_filled
candidate_status report_filled = filled
candidate_status report_rejected = rejected_by_exchange
candidate_status report_canceled = canceled
candidate_status report_submitted = submitted
candidate_status report_error = unknown

unfoldable pub build_application_candidate : NormalizedExecutionReport → OrderEventCandidate
build_application_candidate r = candidate_of r (candidate_status r.execution_status)

pub record EventIdPayload : Type 0 where
  pub cumulative_filled_qty : Option Decimal
  pub execution_status : Option ExecutionReportStatus
  pub order_id : OrderId
  pub report_id : String
  pub report_ts : ℕ

-- The event's key from the hash of a payload, and how Python prints what the event's metadata hold.
pub record EventFormat : Type 0 where
  pub event_key : EventIdPayload → String
  pub decimal_value : Decimal → String
  pub datetime_value : ℕ → String

-- `.value` of a report's status.
abbrev pub report_value : ExecutionReportStatus → String
report_value report_submitted = "SUBMITTED"
report_value report_acked = "ACKED"
report_value report_partially_filled = "PARTIALLY_FILLED"
report_value report_filled = "FILLED"
report_value report_rejected = "REJECTED"
report_value report_canceled = "CANCELED"
report_value report_error = "ERROR"

abbrev pub print_decimal : EventFormat → Option Decimal → Option String
print_decimal fmt none = none
print_decimal fmt (some v) = some (fmt.decimal_value v)

abbrev pub print_status : Option ExecutionReportStatus → Option String
print_status none = none
print_status (some s) = some (report_value s)

-- `build_oms_order_event_id`
abbrev pub build_oms_order_event_id : EventFormat → OrderEventCandidate → String
build_oms_order_event_id fmt c = fmt.event_key (record {
  cumulative_filled_qty = c.cumulative_filled_qty;
  execution_status = c.execution_status;
  order_id = c.order_id;
  report_id = c.normalized_report_id;
  report_ts = c.occurred_at;
})

-- `_event_metadata`
abbrev pub event_metadata : EventFormat → OrderEventCandidate → String → Payload
event_metadata fmt c event_id =
    ("adapter_order_ref", c.adapter_order_ref)
    ∷ ("client_order_id", c.client_order_id)
    ∷ ("command_id", c.command_id)
    ∷ ("cumulative_filled_qty", print_decimal fmt c.cumulative_filled_qty)
    ∷ ("event_id", some event_id)
    ∷ ("exchange_order_id", c.exchange_order_id)
    ∷ ("execution_status", print_status c.execution_status)
    ∷ ("fill_price", print_decimal fmt c.fill_price)
    ∷ ("filled_qty", print_decimal fmt c.filled_qty)
    ∷ ("normalized_report_id", some c.normalized_report_id)
    ∷ ("report_id", some c.normalized_report_id)
    ∷ ("report_ts", some (fmt.datetime_value c.occurred_at))
    ∷ []

-- The event that `map_candidate_to_order_event` builds for a status.
abbrev pub event_of : EventFormat → OrderEventCandidate → OrderState → OrderStatus → ReportEvent
event_of fmt c current status =
    let event_id = build_oms_order_event_id fmt c in
    record {
      base = record {
        order_id = c.order_id;
        previous_status = some current.status;
        new_status = status;
        event_source = execution_report_normalizer;
        external_event_id = event_id;
        raw_payload = event_metadata fmt c event_id;
        occurred_at = c.occurred_at;
      };
      execution_status = c.execution_status;
      report_id = some c.normalized_report_id;
      report_ts = some c.occurred_at;
      filled_qty = c.filled_qty;
      fill_price = c.fill_price;
      cumulative_filled_qty = c.cumulative_filled_qty;
    }

pub data ApplyStatus : Type 0 where
  event_applied dry_run_only no_op_report event_duplicate event_conflict : ApplyStatus
  rejected_invalid_candidate rejected_no_event application_error : ApplyStatus

-- A text, a status of which the message says that it has no event, or the message of an error.
pub data ApplyReason : Type 0 where
  says : String → ApplyReason
  no_event_for : ExecutionReportStatus → ApplyReason
  raised : Error → ApplyReason

pub record ApplyContext : Type 0 where
  pub order_event_candidate : OrderEventCandidate
  pub current_order_state : OrderState
  pub allow_live_apply : Bool

pub record ApplyResult : Type 0 where
  pub status : ApplyStatus
  pub candidate : OrderEventCandidate
  pub order_event : Option ReportEvent
  pub order_state : Option OrderState
  pub event_id : Option String
  pub reason : Option ApplyReason
  pub dry_run : Bool

-- An event, or the reason of the `ValueError`.
pub data Mapped : Type 0 where
  mapped : ReportEvent → Mapped
  unmapped : ApplyReason → Mapped

abbrev pub map_target :
    EventFormat
    → OrderEventCandidate
    → OrderState
    → ExecutionReportStatus
    → Option OrderStatus
    → Mapped
map_target fmt c current s none = unmapped (no_event_for s)
map_target fmt c current s (some status) = mapped (event_of fmt c current status)

abbrev pub map_status :
    EventFormat → OrderEventCandidate → OrderState → Option ExecutionReportStatus → Mapped
map_status fmt c current none = unmapped (says "execution_status is required")
map_status fmt c current (some s) = map_target fmt c current s (order_status_of s)

unfoldable pub map_candidate_to_order_event :
    EventFormat → OrderEventCandidate → OrderState → Mapped
map_candidate_to_order_event fmt c current = map_status fmt c current c.execution_status

-- `candidate_no_event_reason`
unfoldable pub candidate_no_event_reason : OrderEventCandidate → Option (ApplyStatus × String)
candidate_no_event_reason c = elim c.execution_status [
  | some report_submitted ↦ some (no_op_report, "submitted_report_no_oms_event")
  | some report_error ↦ some (rejected_no_event, "error_report_no_oms_event")
  | _ ↦ none
]

abbrev pub is_fill_status : Option ExecutionReportStatus → Bool
is_fill_status none = false
is_fill_status (some s) = is_fill s

-- `_invalid_context_reason`
unfoldable pub invalid_context_reason : ApplyContext → Option String
invalid_context_reason x =
    let c = x.order_event_candidate in
    if not (c.order_id == x.current_order_state.order_id)
    then some "candidate_order_id_mismatch"
    else if is_empty c.normalized_report_id
    then some "normalized_report_id is required"
    else if not (is_some c.execution_status)
    then some "execution_status is required"
    else if not (is_some c.cumulative_filled_qty)
    then some "cumulative_filled_qty is required"
    else if is_fill_status c.execution_status && not (is_some c.fill_price)
    then some "fill_price is required for fill execution statuses"
    else if is_fill_status c.execution_status && not (is_some c.filled_qty)
    then some "filled_qty is required for fill execution statuses"
    else none

-- `_safe_event_id`
abbrev pub safe_event_id : EventFormat → OrderEventCandidate → Option String
safe_event_id fmt c =
    if is_some c.execution_status && is_some c.cumulative_filled_qty
    then some (build_oms_order_event_id fmt c)
    else none

-- What `canonical_order_event_payload` compares, of an event that has all its typed fields.
unfoldable pub is_canonical : ReportEvent → Bool
is_canonical e =
    is_some e.execution_status
    && is_some e.report_id
    && is_some e.report_ts
    && is_some e.cumulative_filled_qty

unfoldable pub same_canonical_event : ReportEvent → ReportEvent → Bool
same_canonical_event a b =
    is_canonical a
    && is_canonical b
    && a.cumulative_filled_qty == b.cumulative_filled_qty
    && a.base.external_event_id == b.base.external_event_id
    && a.execution_status == b.execution_status
    && a.fill_price == b.fill_price
    && a.filled_qty == b.filled_qty
    && a.base.new_status == b.base.new_status
    && a.base.order_id == b.base.order_id
    && a.base.previous_status == b.base.previous_status
    && a.report_id == b.report_id
    && a.report_ts == b.report_ts
