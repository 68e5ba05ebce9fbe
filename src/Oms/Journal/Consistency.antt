-- ===== src/Oms/Journal/Consistency.antt =====
-- The invariant of the tables `orders` and `order_events`, under the steps of the journal.
use yanzl.Prelude.{
  ℕ, suc, ◌≡◌, refl, ◌≢◌, ap, ◌∙◌, true, none, some, List, [], ◌∷◌, ◌++◌, map, String, arith,
}
use mathlib.Core.List.{append-nil, map-append}
use native.Mathlib.Decide.{ℕ_discrete}
use yanzl.Prelude.Lists.{length, length-append_one}
use yanzl.Prelude.Equality.{==_refl, Option_eq}
use yanzl.Domain.Enums.{OrderStatus, created, OrderStatus_eq}
use yanzl.Domain.Orders.{OrderRequest, OrderEvent}
use yanzl.Oms.Status.{can_transition}
use yanzl.Oms.Store.{
  OrderRow, OrderEventRow, OmsDb, find_order, events_of, order_event_to_domain, new_event,
  new_order, set_status,
}
use yanzl.Oms.Store.Laws.{
  find_order-set_status_self, find_order-set_status_ne, find_order-append_ne,
  find_order-append_self, events_of-append, events_of-one_self, events_of-one_ne,
}
use yanzl.Oms.Journal.{move, open_order, Step, moved, opened, Steps, here, next}
use yanzl.Oms.Recovery.{replay_from, replay_status}

abbrev pub history : ℕ → OmsDb → List OrderEvent
history id d = map order_event_to_domain (events_of id d.events)

pub replay_from-append :
    (c s : OrderStatus) (es : List OrderEvent) (e : OrderEvent)
    → replay_from c es ≡ some s
    → e.previous_status ≡ some s
    → can_transition s e.new_status ≡ true
    → replay_from c (es ++ e ∷ []) ≡ some e.new_status
unfolding replay_from
replay_from-append c s [] e replays from allowed =
    ground (arith, ==_refl (some s), ==_refl (some c))
replay_from-append c s (x ∷ es) e replays from allowed =
    ground (arith, replay_from-append x.new_status s es e)

-- One more event, from the status that the others replay to, replays to its own.
pub replay_status-append :
    (s : OrderStatus) (es : List OrderEvent) (e : OrderEvent)
    → replay_status es ≡ some s
    → e.previous_status ≡ some s
    → can_transition s e.new_status ≡ true
    → replay_status (es ++ e ∷ []) ≡ some e.new_status
unfolding replay_status
replay_status-append s [] e replays from allowed = cc
replay_status-append s (x ∷ es) e replays from allowed =
    ground (arith, replay_from-append created s es e)

pub record IsConsistent (d : OmsDb) : Type 0 where
  -- The status is the replay of the order's own events.
  pub replays :
      (id : ℕ) (r : OrderRow)
      → find_order id d.orders ≡ some r
      → replay_status (history id d) ≡ some r.status
  -- Each write of the row but its creation has an event.
  pub counted :
      (id : ℕ) (r : OrderRow)
      → find_order id d.orders ≡ some r
      → length (history id d) ≡ suc r.version
  -- An event belongs to an order that is there.
  pub owned : (id : ℕ) → find_order id d.orders ≡ none → history id d ≡ []

pub history-append_self :
    (id : ℕ) (d : OmsDb) (e : OrderEventRow) (rs : List OrderRow)
    → e.order_id ≡ id
    → history id (record { orders = rs; events = d.events ++ e ∷ [] })
      ≡ history id d ++ order_event_to_domain e ∷ []
history-append_self id d e rs same =
    simp (events_of-append, events_of-one_self id e same, map-append)

pub history-append_ne :
    (id : ℕ) (d : OmsDb) (e : OrderEventRow) (rs : List OrderRow)
    → e.order_id ≢ id
    → history id (record { orders = rs; events = d.events ++ e ∷ [] }) ≡ history id d
history-append_ne id d e rs ne = simp (events_of-append, events_of-one_ne id e ne, append-nil)

module _ (d : OmsDb) (c : IsConsistent d) where
  module _ (k : ℕ) (r : OrderRow) (e : OrderEvent) (found : find_order k d.orders ≡ some r)
      (from : e.previous_status ≡ some r.status)
      (allowed : can_transition r.status e.new_status ≡ true) where
    here_eq : history k (move d k e) ≡ history k d ++ order_event_to_domain (new_event k e) ∷ []
    here_eq = history-append_self k d (new_event k e) (set_status k e.new_status d.orders) refl

    there_eq : (id : ℕ) → k ≢ id → history id (move d k e) ≡ history id d
    there_eq id ne = history-append_ne id d (new_event k e) (set_status k e.new_status d.orders) ne

    move-IsConsistent : IsConsistent (move d k e)
    move-IsConsistent = record {
      replays = λ id q h. elim (ℕ_discrete k id) [
        | yes same ↦ ground (
          arith,
          here_eq,
          replay_status-append r.status (history k d) (order_event_to_domain (new_event k e))
              (c.replays k r found) from allowed,
          find_order-set_status_self k e.new_status d.orders r found,
        )
        | no ne ↦ ground (
          arith,
          there_eq id ne,
          find_order-set_status_ne id k e.new_status d.orders ne,
          c.replays id q,
        )
      ];
      counted = λ id q h. elim (ℕ_discrete k id) [
        | yes same ↦ ground (
          arith,
          here_eq,
          length-append_one (history k d) (order_event_to_domain (new_event k e)),
          c.counted k r found,
          find_order-set_status_self k e.new_status d.orders r found,
        )
        | no ne ↦ ground (
          arith,
          there_eq id ne,
          find_order-set_status_ne id k e.new_status d.orders ne,
          c.counted id q,
        )
      ];
      owned = λ id h. elim (ℕ_discrete k id) [
        | yes same ↦ ground (arith, find_order-set_status_self k e.new_status d.orders r found)
        | no ne ↦ ground (
          arith,
          there_eq id ne,
          find_order-set_status_ne id k e.new_status d.orders ne,
          c.owned id,
        )
      ];
    }

  module _ (k : ℕ) (request : OrderRequest) (key : String) (e : OrderEvent)
      (free : find_order k d.orders ≡ none) (from : e.previous_status ≡ none)
      (starts : e.new_status ≡ created) where
    opened_here_eq :
        history k (open_order d k request key e) ≡ order_event_to_domain (new_event k e) ∷ []
    opened_here_eq =
        history-append_self k d (new_event k e) (d.orders ++ new_order k request key ∷ []) refl
        ∙ ap (λ (es : List OrderEvent). es ++ order_event_to_domain (new_event k e) ∷ [])
            (c.owned k free)

    opened_there_eq : (id : ℕ) → k ≢ id → history id (open_order d k request key e) ≡ history id d
    opened_there_eq id ne =
        history-append_ne id d (new_event k e) (d.orders ++ new_order k request key ∷ []) ne

    opened_replays : replay_status (order_event_to_domain (new_event k e) ∷ []) ≡ some created
    unfolding replay_status
    opened_replays = rw (from, starts) refl

    open_order-IsConsistent : IsConsistent (open_order d k request key e)
    open_order-IsConsistent = record {
      replays = λ id q h. elim (ℕ_discrete k id) [
        | yes same ↦ ground (
          arith,
          opened_here_eq,
          opened_replays,
          find_order-append_self d.orders (new_order k request key) free,
        )
        | no ne ↦ ground (
          arith,
          opened_there_eq id ne,
          find_order-append_ne id d.orders (new_order k request key) ne,
          c.replays id q,
        )
      ];
      counted = λ id q h. elim (ℕ_discrete k id) [
        | yes same ↦
            ground (
              arith,
              opened_here_eq,
              find_order-append_self d.orders (new_order k request key) free,
            )
        | no ne ↦ ground (
          arith,
          opened_there_eq id ne,
          find_order-append_ne id d.orders (new_order k request key) ne,
          c.counted id q,
        )
      ];
      owned = λ id h. elim (ℕ_discrete k id) [
        | yes same ↦ ground (arith, find_order-append_self d.orders (new_order k request key) free)
        | no ne ↦ ground (
          arith,
          opened_there_eq id ne,
          find_order-append_ne id d.orders (new_order k request key) ne,
          c.owned id,
        )
      ];
    }

pub Step-IsConsistent : {d d' : OmsDb} → Step d d' → IsConsistent d → IsConsistent d'
Step-IsConsistent {d} (moved k r e found from allowed new is) c =
    rw is (move-IsConsistent d c k r e found from allowed)
Step-IsConsistent {d} (opened k request key e free unused from starts new is) c =
    rw is (open_order-IsConsistent d c k request key e free from starts)

pub Steps-IsConsistent : {d d' : OmsDb} → Steps d d' → IsConsistent d → IsConsistent d'
Steps-IsConsistent here c = c
Steps-IsConsistent (next run step) c = Step-IsConsistent step (Steps-IsConsistent run c)
