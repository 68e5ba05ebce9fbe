-- ===== src/Oms/Recovery.antt =====
-- src/futures_mvp/modules/oms/service.py: `create_order`, `recover_order` and `get_by_client_order_id`
-- of `OMSService`, and the replay of an order's events.
pub mod Refinement
use Prim.Native.String.{◌++◌ as append}
use yanzl.Prelude.{ℕ, not, ◌||◌, Option, none, some, List, [], ◌∷◌, String}
use yanzl.Prelude.Tests.{if◌then◌else◌, is_some}
use yanzl.Prelude.Equality.{◌==◌, Option_eq}
use yanzl.Prelude.Lists.{contains}
use yanzl.Domain.Enums.{
  OrderStatus, created, unknown, status_value, EventSource, oms, OrderStatus_eq,
}
use yanzl.Domain.Orders.{
  OrderId, OrderRequest, OrderState, OrderEvent, applied, mismatch_rejected, ignored_terminal,
  OrderId_eq,
}
use yanzl.Database.UnitOfWork.{
  event_already_exists, event_key_collision, Result, Uow, pure, raise, commit, rollback,
  except_exists, with_uow, ◌>>=◌, ◌>>◌,
}
use yanzl.Oms.Status.{can_transition, is_terminal, unknown_recovery_targets}
use yanzl.Oms.Store.{
  OmsDb, orders_create, orders_get_by_client_order_id, events_get_by_event_key, events_append,
  events_list_by_order_id,
}
use yanzl.Oms.Events.{Format, Outcome, order_text, initial_event_id, result, require_order}
use yanzl.Oms.Writes.{oms_event, enter_unknown, recover_unknown}
use yanzl.Oms.Service.{value_of}

-- The order that the event under the key belongs to, when it is the expected one.
abbrev pub load_created : Option OrderEvent → OrderId → String → Uow OmsDb OrderState
load_created none expected key = raise (event_already_exists key)
load_created (some e) expected key =
    if not (e.order_id == expected)
    then raise (event_key_collision key)
    else require_order e.order_id

-- `_create_order_duplicate_after_rollback`, which `create_order` calls with one key.
abbrev pub create_order_duplicate_after_rollback :
    OrderId → EventSource → String → Uow OmsDb OrderState
create_order_duplicate_after_rollback expected source key = do
  rollback
  existing ← events_get_by_event_key source key
  load_created existing expected key

abbrev pub append_initial : Option OrderEvent → ℕ → OrderState → String → Uow OmsDb OrderState
append_initial (some e) now order key =
    if not (e.order_id == order.order_id) then raise (event_key_collision key) else pure order
append_initial none now order key =
    except_exists
      (do
        events_append
            (oms_event order.order_id none created key (("reason", some "order_created") ∷ []) now)
        commit
        pure order)
      (create_order_duplicate_after_rollback order.order_id oms key)

-- `create_order`; `next_id` is the key that the database would give to a new row.
unfoldable pub create_order :
    Format → ℕ → ℕ → OrderRequest → String → OmsDb → Result OrderState × OmsDb
create_order fmt now next_id request client_order_id = with_uow (do
  existing ← orders_get_by_client_order_id client_order_id
  order ← orders_create next_id request client_order_id
  if is_some existing then pure order else do
    let key = initial_event_id fmt order.order_id
    initial ← events_get_by_event_key oms key
    append_initial initial now order key)

-- The loop of `_replay_status`.
unfoldable pub replay_from : OrderStatus → List OrderEvent → Option OrderStatus
replay_from current [] = some current
replay_from current (e ∷ es) =
    let rest = replay_from e.new_status es in
    if not (e.previous_status == some current)
    then none
    else if not (can_transition current e.new_status)
    then none
    else rest

unfoldable pub replay_status : List OrderEvent → Option OrderStatus
unfolding replay_from
replay_status [] = none
replay_status (e ∷ es) =
    if is_some e.previous_status || not (e.new_status == created)
    then none
    else replay_from created es

abbrev pub resolve_unknown : Format → ℕ → OrderState → Option OrderStatus → Uow OmsDb Outcome
resolve_unknown fmt now order none =
    pure (result mismatch_rejected order (some "unknown_replay_unrecoverable"))
resolve_unknown fmt now order (some s) =
    if contains unknown_recovery_targets s
    then recover_unknown fmt now order s
    else pure (result mismatch_rejected order (some "unknown_replay_unrecoverable"))

-- `recover_order` on what the replay says.
unfoldable pub reconcile : Format → ℕ → OrderState → Option OrderStatus → Uow OmsDb Outcome
reconcile fmt now order replayed =
    if replayed == some order.status
    then pure (result applied order (some "replay_consistent_noop"))
    else if order.status == unknown
    then resolve_unknown fmt now order replayed
    else enter_unknown order "replay_inconsistent"
        (append "oms:recovery:unknown:"
          (append (order_text fmt order.order_id) (append ":" (fmt.isoformat now))))
        now
        (("reason", some "replay_inconsistent")
          ∷ ("order_id", some (order_text fmt order.order_id))
          ∷ ("current_status", some (status_value order.status))
          ∷ ("replayed_status", value_of replayed)
          ∷ [])

unfoldable pub recover_order : Format → ℕ → OrderId → OmsDb → Result Outcome × OmsDb
recover_order fmt now order_id = with_uow (do
  order ← require_order order_id
  if is_terminal order.status
      then pure (result ignored_terminal order (some "terminal_order_recovery_noop"))
      else do
        events ← events_list_by_order_id order_id
        reconcile fmt now order (replay_status events))

unfoldable pub get_by_client_order_id : String → OmsDb → Result (Option OrderState) × OmsDb
get_by_client_order_id key = with_uow (orders_get_by_client_order_id key)
