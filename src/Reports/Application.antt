-- ===== src/Reports/Application.antt =====
-- src/futures_mvp/modules/oms_event_application/service.py: `OMSEventApplicationService`, with the OMS as what
-- the service is given.
pub mod Oms
pub mod Laws
pub mod Path
use yanzl.Prelude.{ℕ, Bool, true, false, not, ◌&&◌, Option, none, some, List, [], ◌∷◌, String}
use yanzl.Prelude.Tests.{if◌then◌else◌, is_some}
use yanzl.Prelude.Equality.{◌==◌, String_eq, ℕ_eq, Option_eq}
use yanzl.Prelude.Int.{ℤ_eq}
use yanzl.Prelude.Text.{is_empty}
use yanzl.Domain.Enums.{
  OrderStatus, submitted, acked, partially_filled, filled, rejected_by_exchange, canceled, unknown,
  EventSource, execution_report_normalizer, OrderStatus_eq,
}
use yanzl.Domain.Orders.{
  Decimal, OrderId, OrderId_eq, OrderState, OrderEvent, Payload, EventApplicationStatus, applied,
  duplicate, mismatch_rejected, event_key_collision, OrderEventApplicationResult,
}
use yanzl.Database.UnitOfWork.{Error, Result, ok, err}
use yanzl.Reports.Models.{
  ExecutionReportStatus, report_submitted, report_acked, report_partially_filled, report_filled,
  report_rejected, report_canceled, report_error, ExecutionReportStatus_eq, is_fill,
  NormalizedExecutionReport, OrderEventCandidate, ReportEvent,
}
use yanzl.Reports.Normalizer.{order_status_of, candidate_of}
use yanzl.Reports.Events.{
  candidate_status, build_application_candidate, EventIdPayload, EventFormat, report_value,
  print_decimal, print_status, build_oms_order_event_id, event_metadata, event_of, ApplyStatus,
  event_applied, dry_run_only, no_op_report, event_duplicate, event_conflict,
  rejected_invalid_candidate, rejected_no_event, application_error, ApplyReason, says, no_event_for,
  raised, ApplyContext, ApplyResult, Mapped, mapped, unmapped, map_target, map_status,
  map_candidate_to_order_event, candidate_no_event_reason, is_fill_status, invalid_context_reason,
  safe_event_id, is_canonical, same_canonical_event,
}

-- `_map_oms_result_status`
abbrev pub map_oms_result_status : EventApplicationStatus → ApplyStatus
map_oms_result_status applied = event_applied
map_oms_result_status duplicate = event_duplicate
map_oms_result_status event_key_collision = event_conflict
map_oms_result_status mismatch_rejected = event_conflict
map_oms_result_status _ = application_error

-- `OMSOrderEventApplier` and `OMSOrderEventLookup` on a database.
abbrev pub Applier : Type 0 → Type 0
Applier D = ReportEvent → D → Result OrderEventApplicationResult × D

abbrev pub Lookup : Type 0 → Type 0
Lookup D = EventSource → String → D → Result (Option ReportEvent)

abbrev pub optional_says : Option String → Option ApplyReason
optional_says none = none
optional_says (some t) = some (says t)

-- A result about an event that the service built.
abbrev pub event_result :
    ApplyContext → ReportEvent → ApplyStatus → Option ApplyReason → ApplyResult
event_result x e status reason = record {
  status = status;
  candidate = x.order_event_candidate;
  order_event = some e;
  order_state = none;
  event_id = some e.base.external_event_id;
  reason = reason;
  dry_run = not x.allow_live_apply;
}

-- A result about a candidate for which no event was built.
abbrev pub candidate_result : EventFormat → ApplyContext → ApplyStatus → ApplyReason → ApplyResult
candidate_result fmt x status reason = record {
  status = status;
  candidate = x.order_event_candidate;
  order_event = none;
  order_state = none;
  event_id = safe_event_id fmt x.order_event_candidate;
  reason = some reason;
  dry_run = not x.allow_live_apply;
}

abbrev pub compare_existing : ApplyContext → ReportEvent → Option ReportEvent → Option ApplyResult
compare_existing x e none = none
compare_existing x e (some existing) =
    if same_canonical_event e existing
    then some (event_result x e event_duplicate (some (says "order_event_duplicate")))
    else some (event_result x e event_conflict (some (says "order_event_canonical_conflict")))

abbrev pub found_existing :
    ApplyContext → ReportEvent → Result (Option ReportEvent) → Option ApplyResult
found_existing x e (err error) = some (event_result x e application_error (some (raised error)))
found_existing x e (ok existing) = compare_existing x e existing

-- `_precheck_existing_event`
unfoldable pub precheck_existing_event :
    {D : Type 0} → Option (Lookup D) → ApplyContext → ReportEvent → D → Option ApplyResult
precheck_existing_event none x e d =
    if x.allow_live_apply
    then some (
        event_result x e application_error
          (some (says "live OMS apply requires OMSOrderEventLookup")))
    else none
precheck_existing_event (some lookup) x e d =
    found_existing x e (lookup e.base.event_source e.base.external_event_id d)

-- The result of a live application, from the OMS's answer.
abbrev pub answered :
    {D : Type 0}
    → ApplyContext
    → ReportEvent
    → Result OrderEventApplicationResult × D
    → ApplyResult × D
answered x e (ok r, d) = (
  record (event_result x e (map_oms_result_status r.status) (optional_says r.reason)) {
    order_state = some r.order;
  },
  d,
)
answered x e (err error, d) = (event_result x e application_error (some (raised error)), d)

abbrev pub apply_live :
    {D : Type 0} → Option (Applier D) → ApplyContext → ReportEvent → D → ApplyResult × D
apply_live none x e d = (
  event_result x e application_error (some (says "live OMS apply requires OMSOrderEventApplier")),
  d,
)
apply_live (some apply) x e d = answered x e (apply e d)

abbrev pub unless_checked :
    {D : Type 0} → Option ApplyResult → D → ApplyResult × D → ApplyResult × D
unless_checked (some r) d rest = (r, d)
unless_checked none d rest = rest

-- The part of `apply_candidate` for an event.
unfoldable pub apply_event :
    {D : Type 0}
    → Option (Applier D)
    → Option (Lookup D)
    → ApplyContext
    → ReportEvent
    → D
    → ApplyResult × D
apply_event applier lookup x e d = unless_checked (precheck_existing_event lookup x e d) d (
    if not x.allow_live_apply
    then (event_result x e dry_run_only none, d)
    else apply_live applier x e d)

abbrev pub apply_mapped :
    {D : Type 0}
    → EventFormat
    → Option (Applier D)
    → Option (Lookup D)
    → ApplyContext
    → Mapped
    → D
    → ApplyResult × D
apply_mapped fmt applier lookup x (unmapped reason) d =
    (candidate_result fmt x rejected_invalid_candidate reason, d)
apply_mapped fmt applier lookup x (mapped e) d = apply_event applier lookup x e d

abbrev pub no_event_answer :
    EventFormat → ApplyContext → Option (ApplyStatus × String) → Option ApplyResult
no_event_answer fmt x none = none
no_event_answer fmt x (some (status, reason)) = some (candidate_result fmt x status (says reason))

abbrev pub invalid_answer : EventFormat → ApplyContext → Option String → Option ApplyResult
invalid_answer fmt x (some reason) =
    some (candidate_result fmt x rejected_invalid_candidate (says reason))
invalid_answer fmt x none =
    no_event_answer fmt x (candidate_no_event_reason x.order_event_candidate)

-- What `apply_candidate` answers before it builds an event.
unfoldable pub early_answer : EventFormat → ApplyContext → Option ApplyResult
early_answer fmt x = invalid_answer fmt x (invalid_context_reason x)

-- `apply_candidate`
unfoldable pub apply_candidate :
    {D : Type 0}
    → EventFormat
    → Option (Applier D)
    → Option (Lookup D)
    → ApplyContext
    → D
    → ApplyResult × D
apply_candidate fmt applier lookup x d = unless_checked (early_answer fmt x) d (
    apply_mapped fmt applier lookup x
      (map_candidate_to_order_event fmt x.order_event_candidate x.current_order_state) d)
