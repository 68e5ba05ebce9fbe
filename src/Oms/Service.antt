-- ===== src/Oms/Service.antt =====
-- src/futures_mvp/modules/oms/service.py: the public methods of `OMSService`. The clock is the argument
-- `now` of a method: each call of the clock inside one method returns it. A method takes the
-- committed database to its result and the database that its `with` block leaves.
pub mod Effects
pub mod Dispatch
pub mod Refinement
pub mod Verdict
pub mod Retries
use yanzl.Prelude.{ℕ, not, ◌&&◌, Option, none, some, [], ◌∷◌, String}
use yanzl.Prelude.Tests.{if◌then◌else◌}
use yanzl.Prelude.Equality.{◌==◌, Option_eq}
use yanzl.Domain.Enums.{
  OrderStatus, created, risk_checking, rejected_by_risk, risk_accepted, unknown, status_value,
  source_value, risk, RiskDecision, accepted, rejected, OrderStatus_eq,
}
use yanzl.Domain.Orders.{
  OrderId, OrderState, RiskResult, OrderEvent, Payload, applied, old_ignored, mismatch_rejected,
  recovered_from_unknown, OrderId_eq,
}
use yanzl.Database.UnitOfWork.{Result, Uow, pure, commit, except_exists, with_uow, ◌>>=◌, ◌>>◌}
use yanzl.Oms.Status.{can_transition, is_terminal}
use yanzl.Oms.Store.{OmsDb, orders_update_status, events_get_by_event_key, events_append}
use yanzl.Oms.Events.{
  Outcome, unknown_event_id, risk_checking_event_id, result, invalid_transition_result,
  terminal_order_event_result, is_obvious_old_event, is_unknown_recovery, require_order, risk_event,
  duplicate_or_collision_result, duplicate_after_rollback_result,
}
use yanzl.Oms.Writes.{apply_validated_event, enter_unknown}

abbrev pub value_of : Option OrderStatus → Option String
value_of none = none
value_of (some s) = some (status_value s)

abbrev pub mismatch_payload : OrderState → OrderEvent → Payload
mismatch_payload o e =
    ("reason", some "previous_status_mismatch_unresolved")
    ∷ ("event_source", some (source_value e.event_source))
    ∷ ("external_event_id", some e.external_event_id)
    ∷ ("previous_status", value_of e.previous_status)
    ∷ ("current_status", some (status_value o.status))
    ∷ ("new_status", some (status_value e.new_status))
    ∷ []

-- An order event whose key is new, for the order that it names.
unfoldable pub dispatch_order_event : OrderState → OrderEvent → Uow OmsDb Outcome
dispatch_order_event order event =
    if is_terminal order.status
    then pure (terminal_order_event_result order event)
    else if order.status == unknown
    then (if event.previous_status == some unknown
          && is_unknown_recovery order.status event.new_status
        then apply_validated_event order event recovered_from_unknown
            (some "unknown_recovered_by_explicit_event")
        else pure (
            result mismatch_rejected order
              (some "unknown_recovery_requires_previous_status_unknown")))
    else if event.previous_status == some order.status
    then (if not (can_transition order.status event.new_status)
        then pure (result mismatch_rejected order (some "invalid_transition_rejected"))
        else apply_validated_event order event applied none)
    else if is_obvious_old_event order.status event.new_status
    then pure (result old_ignored order (some "old_event_ignored"))
    else enter_unknown order "previous_status_mismatch_unresolved" (unknown_event_id event)
        event.occurred_at (mismatch_payload order event)

abbrev pub unless_known : Option OrderEvent → OrderState → Uow OmsDb Outcome → Uow OmsDb Outcome
unless_known (some e) order next = duplicate_or_collision_result order e
unless_known none order next = next

-- `apply_order_event`
unfoldable pub apply_order_event : OrderEvent → OmsDb → Result Outcome × OmsDb
apply_order_event event = with_uow (do
  order ← require_order event.order_id
  existing ← events_get_by_event_key event.event_source event.external_event_id
  unless_known existing order (dispatch_order_event order event))

-- `_apply_risk_accepted`: the second step, from the status that the first one left.
unfoldable pub accept_risk : OrderState → RiskResult → String → ℕ → Uow OmsDb Outcome
accept_risk order r key occurred_at =
    if not (can_transition order.status risk_accepted)
    then pure (invalid_transition_result order)
    else do
      updated ← orders_update_status order.order_id risk_accepted (some order.version)
      events_append (risk_event updated order.status risk_accepted r key occurred_at)
      commit
      pure (result applied updated none)

-- `_apply_risk_accepted`
unfoldable pub apply_risk_accepted : OrderState → RiskResult → String → ℕ → Uow OmsDb Outcome
apply_risk_accepted order r key occurred_at =
    if order.status == created
    then (if not (can_transition created risk_checking)
        then pure (invalid_transition_result order)
        else if not (can_transition risk_checking risk_accepted)
        then pure (invalid_transition_result order)
        else do
          current ← orders_update_status order.order_id risk_checking (some order.version)
          events_append
              (risk_event current created risk_checking r (risk_checking_event_id key) occurred_at)
          accept_risk current r key occurred_at)
    else accept_risk order r key occurred_at

-- `_apply_risk_rejected`
unfoldable pub apply_risk_rejected : OrderState → RiskResult → String → ℕ → Uow OmsDb Outcome
apply_risk_rejected order r key occurred_at =
    if not (can_transition order.status rejected_by_risk)
    then pure (invalid_transition_result order)
    else do
      updated ← orders_update_status order.order_id rejected_by_risk (some order.version)
      events_append (risk_event updated order.status rejected_by_risk r key occurred_at)
      commit
      pure (result applied updated none)

abbrev pub by_decision : RiskDecision → OrderState → RiskResult → String → ℕ → Uow OmsDb Outcome
by_decision accepted order r key occurred_at = apply_risk_accepted order r key occurred_at
by_decision rejected order r key occurred_at = apply_risk_rejected order r key occurred_at

-- `apply_risk_result`; `occurred_at` is the caller's instant or the clock's.
unfoldable pub apply_risk_result :
    OrderId → RiskResult → String → ℕ → OmsDb → Result Outcome × OmsDb
apply_risk_result order_id r key occurred_at = with_uow (do
  order ← require_order order_id
  existing ← events_get_by_event_key risk key
  unless_known existing order (
      except_exists (by_decision r.decision order r key occurred_at)
        (duplicate_after_rollback_result order risk key (risk_checking_event_id key ∷ []))))
