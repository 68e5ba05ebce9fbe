-- ===== src/Oms/Service/Refinement.antt =====
-- What `apply_order_event` leaves, as steps of the journal.
use yanzl.Prelude.{ℕ, ◌≡◌, refl, none, some, inl, inr, arith}
use yanzl.Prelude.Tests.{Option-cases}
use yanzl.Prelude.Equality.{Option_eq}
use yanzl.Domain.Enums.{OrderStatus_eq}
use yanzl.Domain.Orders.{OrderId, numeral, malformed, OrderEvent}
use yanzl.Oms.Store.{OrderRow, OrderEventRow, OmsDb, find_order, find_event, order_to_domain}
use yanzl.Oms.Journal.{moved, Steps, here, next, same_db}
use yanzl.Oms.Writes.Effects.{clean}
use yanzl.Oms.Service.{dispatch_order_event, apply_order_event}
use yanzl.Oms.Service.Dispatch.{loss, Written, dispatch_order_event-Written}

module _ (d : OmsDb) (id : ℕ) (r : OrderRow) (found : find_order id d.orders ≡ some r) where
  Written-Steps :
      (e : OrderEvent) (d' : OmsDb)
      → find_event e.event_source e.external_event_id d.events ≡ none
      → Written d id r found e d'
      → Steps d d'
  Written-Steps e d' new (inl same) = same_db same
  Written-Steps e d' new (inr (inl (from, allowed, is))) =
      next here (moved id r e found from allowed new is)
  Written-Steps e d' new (inr (inr (allowed, free, is))) =
      next here (moved id r (loss id r e) found refl allowed free is)

  apply_order_event-eq_dispatch :
      (e : OrderEvent)
      → e.order_id ≡ numeral id
      → find_event e.event_source e.external_event_id d.events ≡ none
      → (apply_order_event e d).1
        ≡ (dispatch_order_event (order_to_domain r) e (clean d)).1.committed
  unfolding apply_order_event
  apply_order_event-eq_dispatch e same new = ground arith

  apply_order_event-seen :
      (e : OrderEvent) (old : OrderEventRow)
      → e.order_id ≡ numeral id
      → find_event e.event_source e.external_event_id d.events ≡ some old
      → (apply_order_event e d).1 ≡ d
  unfolding apply_order_event
  apply_order_event-seen e old same seen = ground arith

  known_order-Steps : (e : OrderEvent) → e.order_id ≡ numeral id → Steps d (apply_order_event e d).1
  known_order-Steps e same =
      elim (Option-cases (find_event e.event_source e.external_event_id d.events)) [
        | inl new ↦
            rw (apply_order_event-eq_dispatch e same new)
              (Written-Steps e _ new (dispatch_order_event-Written d id r found e same new))
        | inr (old, seen) ↦ same_db (apply_order_event-seen e old same seen)
      ]

-- Without the order that the event names nothing is written.
no_order-Steps :
    (e : OrderEvent) (d : OmsDb)
    → (elim e.order_id [ numeral id ↦ find_order id d.orders | malformed t ↦ none ]) ≡ none
    → (apply_order_event e d).1 ≡ d
unfolding apply_order_event
no_order-Steps e d missing = ground arith

-- An event that an external system sends moves the order that it names, or loses it, or is refused.
pub apply_order_event-Steps : (e : OrderEvent) (d : OmsDb) → Steps d (apply_order_event e d).1
apply_order_event-Steps e d = go e.order_id refl
  where
    go : (o : OrderId) → e.order_id ≡ o → Steps d (apply_order_event e d).1
    go (malformed t) is = same_db (no_order-Steps e d (rw is refl))
    go (numeral id) is = elim (Option-cases (find_order id d.orders)) [
      | inl missing ↦ same_db (no_order-Steps e d (rw is missing))
      | inr (r, found) ↦ known_order-Steps d id r found e is
    ]
