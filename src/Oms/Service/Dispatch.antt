-- ===== src/Oms/Service/Dispatch.antt =====
-- What `apply_order_event` writes on each of its branches.
use yanzl.Prelude.{ℕ, ◌≡◌, refl, true, ◌&&◌, Option, none, some, ◌⊎◌, inl, inr, String, arith}
use yanzl.Prelude.Tests.{Bool-cases, and_left, and_right}
use yanzl.Prelude.Equality.{==_iff, ◌==◌, Option_eq}
use yanzl.Domain.Enums.{OrderStatus, unknown, oms, OrderStatus_eq, status_eq_iff}
use yanzl.Domain.Orders.{numeral, OrderEvent, EventApplicationStatus, Payload, applied}
use yanzl.Oms.Status.{can_transition, is_terminal}
use yanzl.Oms.Store.{OrderRow, OmsDb, find_order, find_event, order_to_domain}
use yanzl.Oms.Store.Laws.{find_order-id}
use yanzl.Oms.Events.{unknown_event_id, is_unknown_recovery, is_obvious_old_event}
use yanzl.Oms.Journal.{move}
use yanzl.Oms.Writes.{apply_validated_event, oms_event, enter_unknown}
use yanzl.Oms.Writes.Effects.{clean, apply_validated_event-eq, write_unknown-eq}
use yanzl.Oms.Service.{dispatch_order_event, mismatch_payload}

-- A recovery target is a status that UNKNOWN may move to.
recovery_allowed :
    (current target : OrderStatus)
    → is_unknown_recovery current target ≡ true
    → can_transition current target ≡ true
unfolding can_transition is_unknown_recovery
recovery_allowed current target h =
    let e : current ≡ unknown = ground (arith, status_eq_iff current unknown) in rw e (ground arith)

-- An explicit recovery starts from the status that the order has.
explicit :
    (current target : OrderStatus) (previous : Option OrderStatus)
    → (current == unknown) ≡ true
    → (previous == some unknown && is_unknown_recovery current target) ≡ true
    → previous ≡ some current
explicit current target previous lost h =
    cc ((status_eq_iff current unknown).0 lost, (==_iff previous (some unknown)).0 (and_left _ _ h))

-- The event that loses an order to UNKNOWN.
abbrev pub loss : ℕ → OrderRow → OrderEvent → OrderEvent
loss id r e =
    oms_event (numeral id) (some r.status) unknown (unknown_event_id e)
      (mismatch_payload (order_to_domain r) e) e.occurred_at

module _ (d : OmsDb) (id : ℕ) (r : OrderRow) (found : find_order id d.orders ≡ some r) where
  -- `_enter_unknown` moves the order to UNKNOWN, or writes nothing.
  pub enter_unknown-db :
      (reason key : String) (now : ℕ) (payload : Payload)
      → let d' = (enter_unknown (order_to_domain r) reason key now payload (clean d)).1.committed in
        (d' ≡ d)
        ⊎ ((can_transition r.status unknown ≡ true)
            × (find_event oms key d.events ≡ none)
            × (d' ≡ move d id (oms_event (numeral id) (some r.status) unknown key payload now)))
  unfolding enter_unknown
  enter_unknown-db reason key now payload =
      ground
        (arith, find_order-id id d.orders r, write_unknown-eq d id r found reason key now payload)

  -- What an event with a new key may write: itself, or the move to UNKNOWN that it causes.
  abbrev pub Written : OrderEvent → OmsDb → Type 0
  Written e d' =
      (d' ≡ d)
      ⊎ ((e.previous_status ≡ some r.status)
          × (can_transition r.status e.new_status ≡ true)
          × (d' ≡ move d id e))
      ⊎ ((can_transition r.status unknown ≡ true)
          × (find_event oms (unknown_event_id e) d.events ≡ none)
          × (d' ≡ move d id (loss id r e)))

  validated-Written :
      (e : OrderEvent) (status : EventApplicationStatus) (reason : Option String)
      → e.order_id ≡ numeral id
      → find_event e.event_source e.external_event_id d.events ≡ none
      → e.previous_status ≡ some r.status
      → can_transition r.status e.new_status ≡ true
      → Written e (apply_validated_event (order_to_domain r) e status reason (clean d)).1.committed
  validated-Written e status reason same new from allowed =
      rw (apply_validated_event-eq d id r found e status reason same allowed new)
        (inr (inl (from, allowed, refl)))

  mismatch-Written :
      (e : OrderEvent)
      → Written e
          (enter_unknown
            (order_to_domain r)
            "previous_status_mismatch_unresolved"
            (unknown_event_id e)
            e.occurred_at
            (mismatch_payload (order_to_domain r) e)
            (clean d)).1.committed
  mismatch-Written e =
      elim (enter_unknown-db "previous_status_mismatch_unresolved" (unknown_event_id e)
        e.occurred_at (mismatch_payload (order_to_domain r) e)) [
          | inl same ↦ inl same
          | inr written ↦ inr (inr written)
        ]

  pub dispatch_order_event-Written :
      (e : OrderEvent)
      → e.order_id ≡ numeral id
      → find_event e.event_source e.external_event_id d.events ≡ none
      → Written e (dispatch_order_event (order_to_domain r) e (clean d)).1.committed
  unfolding dispatch_order_event
  dispatch_order_event-Written e same new = elim (Bool-cases (is_terminal r.status)) [
    | inl ended ↦ rw ended (inl refl)
    | inr live ↦ rw live (elim (Bool-cases (r.status == unknown)) [
      | inl lost ↦
          let recovers =
            e.previous_status == some unknown && is_unknown_recovery r.status e.new_status in
          rw lost (elim (Bool-cases recovers) [
            | inl h ↦ rw h (
                validated-Written e _ _ same new (explicit _ e.new_status _ lost h)
                  (recovery_allowed _ _ (and_right _ _ h)))
            | inr h ↦ rw h (inl refl)
          ])
      | inr known ↦ rw known (elim (Bool-cases (e.previous_status == some r.status)) [
        | inl current ↦ rw current (elim (Bool-cases (can_transition r.status e.new_status)) [
          | inl allowed ↦ rw allowed (
              rw allowed at
                (validated-Written e applied none same new ((==_iff _ _).0 current) allowed))
          | inr refused ↦ rw refused (inl refl)
        ])
        | inr late ↦ rw late (elim (Bool-cases (is_obvious_old_event r.status e.new_status)) [
          | inl old ↦ rw old (inl refl)
          | inr fresh ↦ rw fresh (mismatch-Written e)
        ])
      ])
    ])
  ]
