-- ===== src/Oms/Writes.antt =====
-- src/futures_mvp/modules/oms/service.py: the private methods of `OMSService` that write: one update of
-- an order, one event for it, and a commit. Each `except` leaves its method, so what follows the `try`
-- in the source stands inside it here.
pub mod Effects
use Prim.Native.String.{◌++◌ as append}
use yanzl.Prelude.{ℕ, not, Option, none, some, [], ◌∷◌, String}
use yanzl.Prelude.Tests.{if◌then◌else◌}
use yanzl.Prelude.Equality.{◌==◌, Option_eq}
use yanzl.Domain.Enums.{OrderStatus, unknown, status_value, oms, OrderStatus_eq}
use yanzl.Domain.Orders.{
  OrderId, OrderState, OrderEvent, Payload, EventApplicationStatus, mismatch_rejected,
  entered_unknown, recovered_from_unknown, OrderId_eq,
}
use yanzl.Database.UnitOfWork.{value_error, Uow, pure, raise, commit, except_exists, ◌>>=◌, ◌>>◌}
use yanzl.Oms.Status.{should_enter_unknown}
use yanzl.Oms.Store.{OmsDb, orders_update_status, events_get_by_event_key, events_append}
use yanzl.Oms.Events.{
  Format, Outcome, order_text, result, validate_transition, duplicate_or_collision_result,
  duplicate_after_rollback_result,
}

-- `_apply_validated_event`
unfoldable pub apply_validated_event :
    OrderState → OrderEvent → EventApplicationStatus → Option String → Uow OmsDb Outcome
apply_validated_event order event status reason = do
  validate_transition order.status event.new_status
  updated ← orders_update_status order.order_id event.new_status (some order.version)
  except_exists (do events_append event; commit; pure (result status updated reason))
      (duplicate_after_rollback_result order event.event_source event.external_event_id [])

abbrev pub oms_event :
    OrderId → Option OrderStatus → OrderStatus → String → Payload → ℕ → OrderEvent
oms_event order_id previous new key payload occurred_at = record {
  order_id = order_id;
  previous_status = previous;
  new_status = new;
  event_source = oms;
  external_event_id = key;
  raw_payload = payload;
  occurred_at = occurred_at;
}

-- The part of `_enter_unknown` behind its guards.
unfoldable pub write_unknown : OrderState → String → String → ℕ → Payload → Uow OmsDb Outcome
write_unknown order reason key occurred_at payload = do
  updated ← orders_update_status order.order_id unknown (some order.version)
  except_exists
      (do
        events_append (oms_event order.order_id (some order.status) unknown key payload occurred_at)
        commit
        pure (result entered_unknown updated (some reason)))
      (duplicate_after_rollback_result order oms key [])

abbrev pub unknown_or_existing :
    Option OrderEvent → OrderState → String → String → ℕ → Payload → Uow OmsDb Outcome
unknown_or_existing (some e) order reason key occurred_at payload =
    duplicate_or_collision_result order e
unknown_or_existing none order reason key occurred_at payload =
    write_unknown order reason key occurred_at payload

-- `_enter_unknown`
unfoldable pub enter_unknown : OrderState → String → String → ℕ → Payload → Uow OmsDb Outcome
enter_unknown order reason key occurred_at payload =
    if order.status == unknown
    then pure (result mismatch_rejected order (some "already_unknown"))
    else if not (should_enter_unknown reason)
    then raise (value_error "unsupported UNKNOWN entry reason")
    else do
      validate_transition order.status unknown
      existing ← events_get_by_event_key oms key
      unknown_or_existing existing order reason key occurred_at payload

abbrev pub recovery_key : Format → ℕ → OrderId → OrderStatus → String
recovery_key fmt now order_id recovered = append "oms:recovery:resolved:" (
    append (order_text fmt order_id)
      (append ":" (append (status_value recovered) (append ":" (fmt.isoformat now)))))

abbrev pub recovery_event : Format → ℕ → OrderId → OrderStatus → OrderEvent
recovery_event fmt now order_id recovered =
    oms_event order_id (some unknown) recovered (recovery_key fmt now order_id recovered)
      (("reason", some "replay_recovered")
        ∷ ("order_id", some (order_text fmt order_id))
        ∷ ("recovered_status", some (status_value recovered))
        ∷ [])
      now

-- `_recover_unknown`
unfoldable pub recover_unknown : Format → ℕ → OrderState → OrderStatus → Uow OmsDb Outcome
recover_unknown fmt now order recovered = do
  validate_transition unknown recovered
  updated ← orders_update_status order.order_id recovered (some order.version)
  except_exists
      (do
        events_append (recovery_event fmt now order.order_id recovered)
        commit
        pure (result recovered_from_unknown updated (some "replay_recovered")))
      (duplicate_after_rollback_result order oms (recovery_key fmt now order.order_id recovered) [])
