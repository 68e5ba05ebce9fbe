-- ===== src/Oms/Writes/Effects.antt =====
-- What the writing methods of the OMS do to a session that has written nothing yet.
use yanzl.Prelude.{ℕ, ◌≡◌, true, Option, none, some, ◌⊎◌, String, arith}
use yanzl.Domain.Enums.{OrderStatus, unknown, oms}
use yanzl.Domain.Orders.{numeral, OrderEvent, EventApplicationStatus, entered_unknown, Payload}
use yanzl.Database.UnitOfWork.{Session, ok}
use yanzl.Oms.Status.{can_transition}
use yanzl.Oms.Store.{OrderRow, OmsDb, find_order, find_event, order_to_domain}
use yanzl.Oms.Store.Laws.{advance, find_order-id, find_order-set_status_self}
use yanzl.Oms.Events.{Format, result}
use yanzl.Oms.Journal.{move}
use yanzl.Oms.Writes.{
  apply_validated_event, write_unknown, recover_unknown, oms_event, recovery_key, recovery_event,
}

abbrev pub clean : OmsDb → Session OmsDb
clean d = record { committed = d; working = d }

module _ (d : OmsDb) (id : ℕ) (r : OrderRow) (found : find_order id d.orders ≡ some r) where
  pub apply_validated_event-eq :
      (e : OrderEvent) (status : EventApplicationStatus) (reason : Option String)
      → e.order_id ≡ numeral id
      → can_transition r.status e.new_status ≡ true
      → find_event e.event_source e.external_event_id d.events ≡ none
      → apply_validated_event (order_to_domain r) e status reason (clean d) ≡ (
        ok (result status (order_to_domain (advance r e.new_status)) reason),
        clean (move d id e),
      )
  unfolding apply_validated_event
  apply_validated_event-eq e status reason same allowed new =
      ground
        (arith, find_order-id id d.orders r, find_order-set_status_self id e.new_status d.orders r)

  pub write_unknown-eq :
      (reason key : String) (now : ℕ) (payload : Payload)
      → find_event oms key d.events ≡ none
      → write_unknown (order_to_domain r) reason key now payload (clean d) ≡ (
        ok (result entered_unknown (order_to_domain (advance r unknown)) (some reason)),
        clean (move d id (oms_event (numeral id) (some r.status) unknown key payload now)),
      )
  unfolding write_unknown
  write_unknown-eq reason key now payload new =
      ground (arith, find_order-id id d.orders r, find_order-set_status_self id unknown d.orders r)

  -- The key may be taken: then what was written is rolled back.
  pub recover_unknown-db :
      (fmt : Format) (now : ℕ) (status : OrderStatus)
      → can_transition unknown status ≡ true
      → let d' = (recover_unknown fmt now (order_to_domain r) status (clean d)).1.committed in
        (d' ≡ d)
        ⊎ ((find_event oms (recovery_key fmt now (numeral id) status) d.events ≡ none)
            × (d' ≡ move d id (recovery_event fmt now (numeral id) status)))
  unfolding recover_unknown
  recover_unknown-db fmt now status allowed =
      ground (arith, find_order-id id d.orders r, find_order-set_status_self id status d.orders r)
