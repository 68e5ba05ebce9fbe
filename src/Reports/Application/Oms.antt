-- ===== src/Reports/Application/Oms.antt =====
-- The event application over the OMS: `OMSService.apply_order_event` applies, and the repository of order
-- events looks up. Its table has no columns for the typed fields of a report, so they come back as `None`.
use yanzl.Prelude.{Option, none, some}
use yanzl.Database.UnitOfWork.{ok}
use yanzl.Oms.Store.{OmsDb, OrderEventRow, find_event, order_event_to_domain}
use yanzl.Oms.Service.{apply_order_event}
use yanzl.Reports.Models.{ReportEvent}
use yanzl.Reports.Events.{EventFormat, ApplyContext, ApplyResult}
use yanzl.Reports.Application.{Applier, Lookup, apply_candidate}

abbrev pub stored_event : OrderEventRow → ReportEvent
stored_event row = record {
  base = order_event_to_domain row;
  execution_status = none;
  report_id = none;
  report_ts = none;
  filled_qty = none;
  fill_price = none;
  cumulative_filled_qty = none;
}

abbrev pub optional_event : Option OrderEventRow → Option ReportEvent
optional_event none = none
optional_event (some row) = some (stored_event row)

abbrev pub oms_applier : Applier OmsDb
oms_applier e d = apply_order_event e.base d

abbrev pub oms_lookup : Lookup OmsDb
oms_lookup source key d = ok (optional_event (find_event source key d.events))

unfoldable pub apply_to_oms : EventFormat → ApplyContext → OmsDb → ApplyResult × OmsDb
apply_to_oms fmt x d = apply_candidate fmt (some oms_applier) (some oms_lookup) x d
