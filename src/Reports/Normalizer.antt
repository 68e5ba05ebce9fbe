-- ===== src/Reports/Normalizer.antt =====
-- src/futures_mvp/modules/execution_reports/: mapping.py, canonical.py, ids.py and `ExecutionReportNormalizer`
-- of service.py, on the table of db/repositories.py.
pub mod Laws
use yanzl.Prelude.{ℕ, Bool, not, ◌&&◌, Option, none, some, List, [], ◌∷◌, ◌++◌, String}
use yanzl.Prelude.Tests.{if◌then◌else◌}
use yanzl.Prelude.Equality.{◌==◌, String_eq, ℕ_eq, Option_eq}
use yanzl.Prelude.Int.{ℤ_eq}
use yanzl.Prelude.Lists.{find}
use yanzl.Prelude.Text.{is_empty}
use yanzl.Domain.Enums.{
  OrderStatus, acked, partially_filled, filled, rejected_by_exchange, canceled,
}
use yanzl.Domain.Orders.{Decimal, OrderId, OrderId_eq}
use yanzl.Database.UnitOfWork.{
  Error, repository, Result, ok, err, Uow, pure, raise, gets, modify, commit, rollback, with_uow,
  ◌>>=◌, ◌>>◌,
}
use yanzl.Reports.Models.{
  ExecutionReportStatus, report_submitted, report_acked, report_partially_filled, report_filled,
  report_rejected, report_canceled, report_error, ExecutionReportStatus_eq, ExecutionTarget,
  ExecutionTarget_eq, RawExecutionReport, NormalizedExecutionReport, OrderEventCandidate,
  is_empty_id, check_normalized,
}

-- What the hash of a raw report reads: every field but the instant of its receipt.
pub record RawPayload : Type 0 where
  pub adapter_name : String
  pub adapter_order_ref : String
  pub client_order_id : String
  pub command_id : String
  pub cumulative_filled_qty : Decimal
  pub exchange_order_id : Option String
  pub exchange_trade_id : Option String
  pub execution_target : ExecutionTarget
  pub fee_amount : Option Decimal
  pub fee_currency : Option String
  pub fee_source : Option String
  pub fill_id : Option String
  pub fill_price : Option Decimal
  pub filled_qty : Decimal
  pub order_id : OrderId
  pub raw_report_id : String
  pub remaining_qty : Decimal
  pub report_ts : ℕ
  pub report_type : String

-- `stable_json_sha256` of the dictionaries with these entries, `str.lower`, and the text of a reason.
pub record ReportHashes : Type 0 where
  pub sha_raw : RawPayload → String
  pub sha_report : String → String → OrderId → String → String
  pub lower : String → String
  pub prefix : String → String → String

abbrev pub canonical_raw_execution_report_payload : RawExecutionReport → RawPayload
canonical_raw_execution_report_payload r = record {
  adapter_name = r.adapter_name;
  adapter_order_ref = r.adapter_order_ref;
  client_order_id = r.client_order_id;
  command_id = r.command_id;
  cumulative_filled_qty = r.cumulative_filled_qty;
  exchange_order_id = r.exchange_order_id;
  exchange_trade_id = r.exchange_trade_id;
  execution_target = r.execution_target;
  fee_amount = r.fee_amount;
  fee_currency = r.fee_currency;
  fee_source = r.fee_source;
  fill_id = r.fill_id;
  fill_price = r.fill_price;
  filled_qty = r.filled_qty;
  order_id = r.order_id;
  raw_report_id = r.raw_report_id;
  remaining_qty = r.remaining_qty;
  report_ts = r.report_ts;
  report_type = r.report_type;
}

abbrev pub status_by_report_type : List (String × ExecutionReportStatus)
status_by_report_type =
    ("submitted", report_submitted)
    ∷ ("accepted", report_acked)
    ∷ ("acked", report_acked)
    ∷ ("partial_fill", report_partially_filled)
    ∷ ("partially_filled", report_partially_filled)
    ∷ ("full_fill", report_filled)
    ∷ ("filled", report_filled)
    ∷ ("rejected", report_rejected)
    ∷ ("canceled", report_canceled)
    ∷ ("cancelled", report_canceled)
    ∷ ("unknown", report_error)
    ∷ ("error", report_error)
    ∷ []

-- `table.get(key, default)`
abbrev pub get_or :
    List (String × ExecutionReportStatus) → String → ExecutionReportStatus → ExecutionReportStatus
get_or [] key default = default
get_or ((k, v) ∷ rest) key default = if k == key then v else get_or rest key default

module _ (h : ReportHashes) where
  unfoldable pub map_report_type_to_execution_status : String → ExecutionReportStatus
  map_report_type_to_execution_status report_type =
      get_or status_by_report_type (h.lower report_type) report_error

  abbrev pub build_source_report_hash : RawExecutionReport → String
  build_source_report_hash r = h.sha_raw (canonical_raw_execution_report_payload r)

  abbrev pub build_normalized_report_id : RawExecutionReport → String → String
  build_normalized_report_id r hash =
      h.prefix "er_" (h.sha_report r.client_order_id r.command_id r.order_id hash)

  -- `build_normalized_report`, without the validators of what it builds.
  unfoldable pub normalized_fields : ℕ → RawExecutionReport → NormalizedExecutionReport
  normalized_fields now r =
      let status = map_report_type_to_execution_status r.report_type in
      let hash = build_source_report_hash r in
      record {
        report_id = build_normalized_report_id r hash;
        raw_report_id = r.raw_report_id;
        adapter_name = r.adapter_name;
        execution_target = r.execution_target;
        command_id = r.command_id;
        order_id = r.order_id;
        client_order_id = r.client_order_id;
        adapter_order_ref = r.adapter_order_ref;
        exchange_order_id = r.exchange_order_id;
        exchange_trade_id = r.exchange_trade_id;
        fill_id = r.fill_id;
        execution_status = status;
        filled_qty = r.filled_qty;
        fill_price = r.fill_price;
        cumulative_filled_qty = r.cumulative_filled_qty;
        remaining_qty = r.remaining_qty;
        fee_amount = r.fee_amount;
        fee_currency = r.fee_currency;
        fee_source = r.fee_source;
        report_ts = r.report_ts;
        normalized_at = now;
        reason =
            if status == report_error
            then some (h.prefix "mapped_error_report_type:" r.report_type)
            else none;
        source_report_hash = hash;
      }

-- `_ORDER_STATUS_BY_EXECUTION_STATUS.get`, which is also `_MAPPABLE_STATUSES.get` of the event application.
abbrev pub order_status_of : ExecutionReportStatus → Option OrderStatus
order_status_of report_acked = some acked
order_status_of report_partially_filled = some partially_filled
order_status_of report_filled = some filled
order_status_of report_rejected = some rejected_by_exchange
order_status_of report_canceled = some canceled
order_status_of report_submitted = none
order_status_of report_error = none

-- The candidate that a report and a status give.
abbrev pub candidate_of : NormalizedExecutionReport → OrderStatus → OrderEventCandidate
candidate_of r status = record {
  normalized_report_id = r.report_id;
  order_id = r.order_id;
  new_status = status;
  external_event_id = r.report_id;
  occurred_at = r.report_ts;
  execution_status = some r.execution_status;
  command_id = some r.command_id;
  client_order_id = some r.client_order_id;
  adapter_order_ref = some r.adapter_order_ref;
  exchange_order_id = r.exchange_order_id;
  filled_qty = some r.filled_qty;
  fill_price = r.fill_price;
  cumulative_filled_qty = some r.cumulative_filled_qty;
}

unfoldable pub build_order_event_candidate : NormalizedExecutionReport → Option OrderEventCandidate
build_order_event_candidate r = elim (order_status_of r.execution_status) [
  | none ↦ none
  | some status ↦ some (candidate_of r status)
]

-- `canonical_normalized_execution_report_payload(a) == …(b)`: all but the instant of normalization.
unfoldable pub same_canonical_report : NormalizedExecutionReport → NormalizedExecutionReport → Bool
same_canonical_report a b =
    a.adapter_name == b.adapter_name
    && a.adapter_order_ref == b.adapter_order_ref
    && a.client_order_id == b.client_order_id
    && a.command_id == b.command_id
    && a.cumulative_filled_qty == b.cumulative_filled_qty
    && a.exchange_order_id == b.exchange_order_id
    && a.exchange_trade_id == b.exchange_trade_id
    && a.execution_status == b.execution_status
    && a.execution_target == b.execution_target
    && a.fee_amount == b.fee_amount
    && a.fee_currency == b.fee_currency
    && a.fee_source == b.fee_source
    && a.fill_id == b.fill_id
    && a.fill_price == b.fill_price
    && a.filled_qty == b.filled_qty
    && a.order_id == b.order_id
    && a.raw_report_id == b.raw_report_id
    && a.reason == b.reason
    && a.remaining_qty == b.remaining_qty
    && a.report_id == b.report_id
    && a.report_ts == b.report_ts
    && a.source_report_hash == b.source_report_hash

-- The table `normalized_execution_reports`, in the order of its keys.
abbrev pub ReportDb : Type 0
ReportDb = List NormalizedExecutionReport

unfoldable pub find_raw : String → ReportDb → Option NormalizedExecutionReport
find_raw key [] = none
find_raw key (r ∷ rs) = if r.raw_report_id == key then some r else find_raw key rs

unfoldable pub find_report : String → ReportDb → Option NormalizedExecutionReport
find_report key [] = none
find_report key (r ∷ rs) = if r.report_id == key then some r else find_report key rs

pub data NormalizeStatus : Type 0 where
  normalized duplicate_report report_conflict rejected_invalid_report : NormalizeStatus

pub record NormalizeResult : Type 0 where
  pub status : NormalizeStatus
  pub normalized_report : Option NormalizedExecutionReport
  pub order_event_candidate : Option OrderEventCandidate
  pub result_reason : Option String

abbrev pub rejected_report : String → NormalizeResult
rejected_report reason = record {
  status = rejected_invalid_report;
  normalized_report = none;
  order_event_candidate = none;
  result_reason = some reason;
}

-- The answer about a report that the table has: the rollback and the commit there have nothing to end.
unfoldable pub known_report :
    NormalizedExecutionReport → NormalizedExecutionReport → String → Uow ReportDb NormalizeResult
known_report existing report conflict =
    if not (same_canonical_report existing report)
    then (do
      rollback
      pure (record {
        status = report_conflict;
        normalized_report = some existing;
        order_event_candidate = none;
        result_reason = some conflict;
      }))
    else (do
      commit
      pure (record {
        status = duplicate_report;
        normalized_report = some existing;
        order_event_candidate = none;
        result_reason = some "duplicate";
      }))

-- `append_normalized_report`, its lookups having found nothing, and the commit.
unfoldable pub append_new : NormalizedExecutionReport → Uow ReportDb NormalizeResult
append_new report = do
  modify (λ d. d ++ report ∷ [])
  commit
  pure (record {
    status = normalized;
    normalized_report = some report;
    order_event_candidate = build_order_event_candidate report;
    result_reason = none;
  })

abbrev pub by_report_id :
    Option NormalizedExecutionReport → NormalizedExecutionReport → Uow ReportDb NormalizeResult
by_report_id (some existing) report =
    known_report existing report "normalized_execution_report_canonical_conflict"
by_report_id none report = append_new report

abbrev pub by_raw_id :
    Option NormalizedExecutionReport → NormalizedExecutionReport → Uow ReportDb NormalizeResult
by_raw_id (some existing) report =
    known_report existing report "normalized_execution_report_raw_identity_conflict"
by_raw_id none report = do
  existing ← gets (find_report report.report_id)
  by_report_id existing report

unfoldable pub record_report : NormalizedExecutionReport → Uow ReportDb NormalizeResult
record_report report = do existing ← gets (find_raw report.raw_report_id); by_raw_id existing report

-- `_invalid_lineage_reason`
unfoldable pub invalid_lineage_reason : RawExecutionReport → Option String
invalid_lineage_reason r =
    if is_empty r.command_id
    then some "command_id is required"
    else if is_empty_id r.order_id
    then some "order_id is required"
    else if is_empty r.client_order_id
    then some "client_order_id is required"
    else if is_empty r.adapter_name
    then some "adapter_name is required"
    else none

-- An early return of `normalize`, where there is a reason for one.
abbrev pub unless_rejected :
    Option String → ReportDb → Result NormalizeResult × ReportDb → Result NormalizeResult × ReportDb
unless_rejected (some reason) d rest = (ok (rejected_report reason), d)
unless_rejected none d rest = rest

-- `normalize`
unfoldable pub normalize :
    ReportHashes → ℕ → RawExecutionReport → ReportDb → Result NormalizeResult × ReportDb
normalize h now raw d = unless_rejected (invalid_lineage_reason raw) d (
    unless_rejected (check_normalized (normalized_fields h now raw)) d
      (with_uow (record_report (normalized_fields h now raw)) d))
