-- ===== src/Oms/Events.antt =====
-- src/futures_mvp/modules/oms/service.py: the events, the results and the lookups that the
-- methods of `OMSService` share.
use Prim.Native.String.{◌++◌ as append}
use yanzl.Prelude.{ℕ, Bool, not, ◌&&◌, Option, none, some, List, [], ◌∷◌, String}
use yanzl.Prelude.Tests.{ltb, if◌then◌else◌}
use yanzl.Prelude.Equality.{◌==◌, Option_eq}
use yanzl.Prelude.Lists.{contains}
use yanzl.Domain.Enums.{
  OrderStatus, unknown, status_place, EventSource, risk, source_value, decision_value,
  OrderStatus_eq,
}
use yanzl.Domain.Orders.{
  OrderId, numeral, malformed, OrderState, RiskResult, OrderEvent, EventApplicationStatus,
  duplicate, old_ignored, mismatch_rejected, ignored_terminal, event_key_collision,
  OrderEventApplicationResult, OrderId_eq,
}
use yanzl.Database.UnitOfWork.{
  order_not_found, event_already_exists, invalid_order_transition, Uow, pure, raise, or_raise,
  rollback, ◌>>=◌, ◌>>◌,
}
use yanzl.Oms.Status.{unknown_recovery_targets, can_transition, is_terminal}
use yanzl.Oms.Store.{OmsDb, orders_get_by_id, events_get_by_event_key}

-- How Python prints an int and an instant, which shape the keys of the events made here.
pub record Format : Type 0 where
  pub str : ℕ → String
  pub isoformat : ℕ → String

-- A method's result, with the state that the `with` block leaves.
abbrev pub Outcome : Type 0
Outcome = OrderEventApplicationResult

abbrev pub order_text : Format → OrderId → String
order_text fmt (numeral n) = fmt.str n
order_text fmt (malformed t) = t

abbrev pub initial_event_id : Format → OrderId → String
initial_event_id fmt order_id = append "oms:create:" (order_text fmt order_id)

abbrev pub unknown_event_id : OrderEvent → String
unknown_event_id e =
    append "oms:unknown:" (append (source_value e.event_source) (append ":" e.external_event_id))

abbrev pub risk_checking_event_id : String → String
risk_checking_event_id key = append key ":risk_checking"

abbrev pub result : EventApplicationStatus → OrderState → Option String → Outcome
result status order reason = record { status = status; order = order; reason = reason }

abbrev pub invalid_transition_result : OrderState → Outcome
invalid_transition_result order =
    result mismatch_rejected order (some "invalid_transition_rejected")

abbrev pub terminal_order_event_result : OrderState → OrderEvent → Outcome
terminal_order_event_result order e =
    if e.new_status == order.status
    then result old_ignored order (some "terminal_same_status_late_event_ignored")
    else if is_terminal e.new_status
    then result mismatch_rejected order (some "terminal_conflict_rejected")
    else result ignored_terminal order (some "terminal_order_event_ignored")

unfoldable pub is_obvious_old_event : OrderStatus → OrderStatus → Bool
is_obvious_old_event current event = ltb (status_place event) (status_place current)

unfoldable pub is_unknown_recovery : OrderStatus → OrderStatus → Bool
is_unknown_recovery current event = current == unknown && contains unknown_recovery_targets event

abbrev pub require_order : OrderId → Uow OmsDb OrderState
require_order order_id = do
  order ← orders_get_by_id order_id
  or_raise order (order_not_found order_id)

abbrev pub validate_transition : OrderStatus → OrderStatus → Uow OmsDb (Unit {0})
validate_transition from to =
    if can_transition from to then pure tt else raise (invalid_order_transition from to)

abbrev pub risk_event :
    OrderState → OrderStatus → OrderStatus → RiskResult → String → ℕ → OrderEvent
risk_event order previous new r key occurred_at = record {
  order_id = order.order_id;
  previous_status = some previous;
  new_status = new;
  event_source = risk;
  external_event_id = key;
  raw_payload =
      ("decision", some (decision_value r.decision))
      ∷ ("rule_name", some r.rule_name)
      ∷ ("reason", r.reason)
      ∷ [];
  occurred_at = occurred_at;
}

-- `existing_event.order_id != requested_order.order_id` first, then the order as it is now.
abbrev pub duplicate_or_collision_result : OrderState → OrderEvent → Uow OmsDb Outcome
duplicate_or_collision_result order existing =
    if not (existing.order_id == order.order_id)
    then pure (result event_key_collision order (some "event key belongs to a different order"))
    else do
      current ← require_order order.order_id
      pure (result duplicate current (some "event_key_duplicate"))

abbrev pub load_or : Option OrderEvent → OrderState → Uow OmsDb Outcome → Uow OmsDb Outcome
load_or none order next = next
load_or (some e) order next = duplicate_or_collision_result order e

-- The keys that are tried, in turn, for the event that stood in the way; `asked` is the first.
abbrev pub load_existing : OrderState → EventSource → String → List String → Uow OmsDb Outcome
load_existing order source asked [] = raise (event_already_exists asked)
load_existing order source asked (key ∷ keys) =
    let next = load_existing order source asked keys in
    do existing ← events_get_by_event_key source key; load_or existing order next

abbrev pub duplicate_after_rollback_result :
    OrderState → EventSource → String → List String → Uow OmsDb Outcome
duplicate_after_rollback_result order source key fallbacks = do
  rollback
  current ← require_order order.order_id
  load_existing current source key (key ∷ fallbacks)
