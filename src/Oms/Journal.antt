-- ===== src/Oms/Journal.antt =====
-- The abstract view of the OMS tables: a journal of order events that carries each order from status
-- to status.
pub mod Consistency
pub mod Safety
use yanzl.Prelude.{ℕ, ◌≡◌, true, none, some, [], ◌∷◌, ◌++◌, String}
use yanzl.Domain.Enums.{created}
use yanzl.Domain.Orders.{OrderRequest, OrderEvent}
use yanzl.Oms.Status.{can_transition}
use yanzl.Oms.Store.{
  OrderRow, OmsDb, find_order, find_client_order, set_status, find_event, new_order, new_event,
}

-- One event moves one order.
abbrev pub move : OmsDb → ℕ → OrderEvent → OmsDb
move d id e = record {
  orders = set_status id e.new_status d.orders;
  events = d.events ++ new_event id e ∷ [];
}

-- A new order, with the event that creates it.
abbrev pub open_order : OmsDb → ℕ → OrderRequest → String → OrderEvent → OmsDb
open_order d id request key e = record {
  orders = d.orders ++ new_order id request key ∷ [];
  events = d.events ++ new_event id e ∷ [];
}

-- A move starts from the order's status, follows the transition table, and has a new event key.
pub data Step (d d' : OmsDb) : Type 0 where
  moved :
      (id : ℕ) (r : OrderRow) (e : OrderEvent)
      → find_order id d.orders ≡ some r
      → e.previous_status ≡ some r.status
      → can_transition r.status e.new_status ≡ true
      → find_event e.event_source e.external_event_id d.events ≡ none
      → d' ≡ move d id e
      → Step d d'
  opened :
      (id : ℕ) (request : OrderRequest) (key : String) (e : OrderEvent)
      → find_order id d.orders ≡ none
      → find_client_order key d.orders ≡ none
      → e.previous_status ≡ none
      → e.new_status ≡ created
      → find_event e.event_source e.external_event_id d.events ≡ none
      → d' ≡ open_order d id request key e
      → Step d d'

pub data Steps (d : OmsDb) : OmsDb → Type 0 where
  here : Steps d d
  next : {e f : OmsDb} → Steps d e → Step e f → Steps d f

pub same_db : {d d' : OmsDb} → d' ≡ d → Steps d d'
same_db e = rw e here
