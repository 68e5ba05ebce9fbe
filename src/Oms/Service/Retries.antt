-- ===== src/Oms/Service/Retries.antt =====
-- What a second delivery of an event answers.
use yanzl.Prelude.{ℕ, ◌≡◌, refl, ◌≢◌, true, none, some, arith}
use yanzl.Prelude.Equality.{==_iff, Option_eq}
use yanzl.Domain.Enums.{OrderStatus_eq, unknown, status_eq_iff}
use yanzl.Domain.Orders.{numeral, OrderEvent, applied, duplicate}
use yanzl.Database.UnitOfWork.{ok}
use yanzl.Oms.Status.{can_transition}
use yanzl.Oms.Status.Graph.{terminal_stays}
use yanzl.Oms.Store.{
  OrderRow, OrderEventRow, OmsDb, find_order, find_event, order_to_domain, new_event,
}
use yanzl.Oms.Store.Laws.{
  advance, find_order-id, find_order-set_status_self, find_event-append_self,
}
use yanzl.Oms.Events.{result}
use yanzl.Oms.Journal.{move}
use yanzl.Oms.Writes.Effects.{apply_validated_event-eq}
use yanzl.Oms.Service.{apply_order_event, dispatch_order_event}

module _ (d : OmsDb) (id : ℕ) (r : OrderRow) (found : find_order id d.orders ≡ some r) where
  -- An event whose key the order has already had is a duplicate: it answers with the order as it is.
  apply_order_event-duplicate :
      (e : OrderEvent) (old : OrderEventRow)
      → e.order_id ≡ numeral id
      → find_event e.event_source e.external_event_id d.events ≡ some old
      → old.order_id ≡ id
      → apply_order_event e d
        ≡ (ok (result duplicate (order_to_domain r) (some "event_key_duplicate")), d)
  unfolding apply_order_event
  apply_order_event-duplicate e old same seen own = ground (arith, find_order-id id d.orders r)

module _ (d : OmsDb) (id : ℕ) (r : OrderRow) (found : find_order id d.orders ≡ some r) where
  -- A valid event of a live order is applied: the order moves, and the event is on record.
  pub apply_order_event-applied :
      (e : OrderEvent)
      → e.order_id ≡ numeral id
      → find_event e.event_source e.external_event_id d.events ≡ none
      → r.status ≢ unknown
      → e.previous_status ≡ some r.status
      → can_transition r.status e.new_status ≡ true
      → apply_order_event e d
        ≡ (ok (result applied (order_to_domain (advance r e.new_status)) none), move d id e)
  unfolding apply_order_event dispatch_order_event
  apply_order_event-applied e same new known from allowed = ground (
    arith,
    terminal_stays r.status e.new_status,
    status_eq_iff r.status unknown,
    ==_iff e.previous_status (some r.status),
    apply_validated_event-eq d id r found e applied none same allowed new,
  )

  -- An event with a new key, for an order that is not UNKNOWN, from the order's status to one that the table
  -- allows, is applied; delivered again, it is answered as a duplicate, with the order as the first delivery
  -- left it, and the database stays as it is.
  pub apply_order_event-again :
      (e : OrderEvent)
      → e.order_id ≡ numeral id
      → find_event e.event_source e.external_event_id d.events ≡ none
      → r.status ≢ unknown
      → e.previous_status ≡ some r.status
      → can_transition r.status e.new_status ≡ true
      → let d' = (apply_order_event e d).1 in
        let r' = order_to_domain (advance r e.new_status) in
        ((apply_order_event e d).0 ≡ ok (result applied r' none))
        × (apply_order_event e d' ≡ (ok (result duplicate r' (some "event_key_duplicate")), d'))
  apply_order_event-again e same new known from allowed =
      let first = apply_order_event-applied e same new known from allowed in rw first (refl, again)
    where
      again : apply_order_event e (move d id e) ≡ (
        ok (
            result duplicate
              (order_to_domain (advance r e.new_status))
              (some "event_key_duplicate")),
        move d id e,
      )
      again =
          apply_order_event-duplicate (move d id e) id (advance r e.new_status)
            (find_order-set_status_self id e.new_status d.orders r found) e (new_event id e) same
            (find_event-append_self d.events (new_event id e) new) refl
