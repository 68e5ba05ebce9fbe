-- ===== src/Oms/Journal/Safety.antt =====
-- What steps of the journal leave alone, and how an order gets past the risk check in it.
use native.Mathlib.Decide.{ℕ_discrete}
use yanzl.Prelude.{ℕ, ◌≡◌, refl, Bool, true, false, ◌||◌, some, List, [], ◌∷◌, String, arith}
use yanzl.Prelude.Equality.{◌==◌, ==_iff, Option_eq}
use yanzl.Domain.Enums.{OrderStatus, created, risk_accepted, unknown, EventSource, OrderStatus_eq}
use yanzl.Domain.Orders.{OrderEvent}
use yanzl.Oms.Status.{can_transition, is_terminal}
use yanzl.Oms.Status.Graph.{terminal_stays, before_risk, risk_gate}
use yanzl.Oms.Store.{OrderRow, OrderEventRow, OmsDb, find_order, find_event, new_event, new_order}
use yanzl.Oms.Store.Laws.{find_order-set_status_ne, find_order-append_old, find_event-append_old}
use yanzl.Oms.Journal.{Step, moved, opened, Steps, here, next}
use yanzl.Oms.Recovery.{replay_from, replay_status}

-- A step moves no terminal order.
Step-terminal :
    {d d' : OmsDb} (id : ℕ) (r : OrderRow)
    → Step d d'
    → find_order id d.orders ≡ some r
    → is_terminal r.status ≡ true
    → find_order id d'.orders ≡ some r
Step-terminal {d} id r (moved k q e found from allowed new is) h ends = elim (ℕ_discrete k id) [
  | yes same ↦ ground (arith, terminal_stays r.status e.new_status ends)
  | no ne ↦ ground (arith, find_order-set_status_ne id k e.new_status d.orders ne)
]
Step-terminal {d} id r (opened k request key e free unused from starts new is) h ends =
    ground (arith, find_order-append_old id d.orders (new_order k request key ∷ []) r h)

pub Steps-terminal :
    {d d' : OmsDb} (id : ℕ) (r : OrderRow)
    → Steps d d'
    → find_order id d.orders ≡ some r
    → is_terminal r.status ≡ true
    → find_order id d'.orders ≡ some r
Steps-terminal id r here h ends = h
Steps-terminal id r (next run step) h ends =
    Step-terminal id r step (Steps-terminal id r run h ends) ends

Step-event :
    {d d' : OmsDb} (source : EventSource) (key : String) (e : OrderEventRow)
    → Step d d'
    → find_event source key d.events ≡ some e
    → find_event source key d'.events ≡ some e
Step-event {d} source key x (moved k q e found from allowed new is) h =
    ground (arith, find_event-append_old source key d.events (new_event k e ∷ []) x h)
Step-event {d} source key x (opened k request ck e free unused from starts new is) h =
    ground (arith, find_event-append_old source key d.events (new_event k e ∷ []) x h)

-- The event that is found under a source and a key is found there, unchanged, after any steps.
pub Steps-event :
    {d d' : OmsDb} (source : EventSource) (key : String) (e : OrderEventRow)
    → Steps d d'
    → find_event source key d.events ≡ some e
    → find_event source key d'.events ≡ some e
Steps-event source key e here h = h
Steps-event source key e (next run step) h =
    Step-event source key e step (Steps-event source key e run h)

-- Whether some event of the list moves its order to the status.
abbrev pub enters : OrderStatus → List OrderEvent → Bool
enters s [] = false
enters s (e ∷ es) = e.new_status == s || enters s es

-- What a replay that goes through says of its first event.
pub replay_from-cons :
    (c s : OrderStatus) (e : OrderEvent) (es : List OrderEvent)
    → replay_from c (e ∷ es) ≡ some s
    → (e.previous_status ≡ some c)
      × (can_transition c e.new_status ≡ true)
      × (replay_from e.new_status es ≡ some s)
unfolding replay_from
replay_from-cons c s e es h = ground (arith, ==_iff e.previous_status (some c))

either_now_or_later :
    (a b c b' c' : Bool)
    → (a || b || c) ≡ true
    → (a ≡ true → (b' || c') ≡ true)
    → ((b || b') || (c || c')) ≡ true
either_now_or_later true b c b' c' h later = ground (arith, later refl)
either_now_or_later false b c b' c' h later = ground arith

replay_from-gate :
    (c s : OrderStatus) (es : List OrderEvent)
    → before_risk c ≡ true
    → replay_from c es ≡ some s
    → before_risk s ≡ false
    → (enters risk_accepted es || enters unknown es) ≡ true
replay_from-gate c s [] b replays past = unfold replay_from in cc
replay_from-gate c s (e ∷ es) b replays past =
    let (from, allowed, rest) = replay_from-cons c s e es replays in
    either_now_or_later _ _ _ _ _ (risk_gate c e.new_status b allowed)
      (λ still. replay_from-gate e.new_status s es still rest past)

replay_status-cons :
    (s : OrderStatus) (e : OrderEvent) (es : List OrderEvent)
    → replay_status (e ∷ es) ≡ some s
    → replay_from created es ≡ some s
unfolding replay_status
replay_status-cons s e es h = ground arith

either_later : (b c b' c' : Bool) → (b' || c') ≡ true → ((b || b') || (c || c')) ≡ true
either_later b c b' c' h = ground arith

-- Events that replay to a status past the risk check hold an acceptance or a loss to UNKNOWN.
pub replay_status-gate :
    (s : OrderStatus) (es : List OrderEvent)
    → replay_status es ≡ some s
    → before_risk s ≡ false
    → (enters risk_accepted es || enters unknown es) ≡ true
replay_status-gate s [] replays past = unfold replay_status in cc
replay_status-gate s (e ∷ es) replays past =
    let rest = replay_status-cons s e es replays in
    either_later (e.new_status == risk_accepted) (e.new_status == unknown) (enters risk_accepted es)
      (enters unknown es) (replay_from-gate created s es refl rest past)
