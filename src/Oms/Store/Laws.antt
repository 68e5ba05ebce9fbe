-- ===== src/Oms/Store/Laws.antt =====
-- How the lookups in `orders` and `order_events` answer after an update or an insert.
use yanzl.Prelude.{ℕ, suc, ◌≡◌, refl, ◌≢◌, none, some, List, [], ◌∷◌, ◌++◌, String, arith}
use yanzl.Prelude.Equality.{==_refl, String_eq}
use yanzl.Domain.Enums.{OrderStatus, EventSource, EventSource_eq}
use yanzl.Oms.Store.{OrderRow, OrderEventRow, find_order, set_status, find_event, events_of}

-- A row that has moved to a status.
abbrev pub advance : OrderRow → OrderStatus → OrderRow
advance r status = record r { status = status; version = suc r.version }

pub find_order-id :
    (id : ℕ) (rs : List OrderRow) (r : OrderRow) → find_order id rs ≡ some r → r.id ≡ id
unfolding find_order
find_order-id id [] r h = cc
find_order-id id (x ∷ rs) r h = ground (arith, find_order-id id rs r)

pub find_order-set_status_self :
    (id : ℕ) (status : OrderStatus) (rs : List OrderRow) (r : OrderRow)
    → find_order id rs ≡ some r
    → find_order id (set_status id status rs) ≡ some (advance r status)
unfolding find_order set_status
find_order-set_status_self id status [] r h = cc
find_order-set_status_self id status (x ∷ rs) r h =
    ground (arith, find_order-set_status_self id status rs r)

pub find_order-set_status_ne :
    (id k : ℕ) (status : OrderStatus) (rs : List OrderRow)
    → k ≢ id
    → find_order id (set_status k status rs) ≡ find_order id rs
unfolding find_order set_status
find_order-set_status_ne id k status [] ne = refl
find_order-set_status_ne id k status (x ∷ rs) ne =
    ground (arith, find_order-set_status_ne id k status rs ne)

pub find_order-append_old :
    (id : ℕ) (rs ss : List OrderRow) (r : OrderRow)
    → find_order id rs ≡ some r
    → find_order id (rs ++ ss) ≡ some r
unfolding find_order
find_order-append_old id [] ss r h = cc
find_order-append_old id (x ∷ rs) ss r h = ground (arith, find_order-append_old id rs ss r)

pub find_order-append_new :
    (id : ℕ) (rs ss : List OrderRow)
    → find_order id rs ≡ none
    → find_order id (rs ++ ss) ≡ find_order id ss
unfolding find_order
find_order-append_new id [] ss h = refl
find_order-append_new id (x ∷ rs) ss h = ground (arith, find_order-append_new id rs ss)

pub events_of-append :
    (id : ℕ) (es fs : List OrderEventRow)
    → events_of id (es ++ fs) ≡ events_of id es ++ events_of id fs
unfolding events_of
events_of-append id [] fs = refl
events_of-append id (e ∷ es) fs = ground (arith, events_of-append id es fs)

pub find_event-append_old :
    (source : EventSource) (key : String) (es fs : List OrderEventRow) (f : OrderEventRow)
    → find_event source key es ≡ some f
    → find_event source key (es ++ fs) ≡ some f
unfolding find_event
find_event-append_old source key [] fs f h = cc
find_event-append_old source key (e ∷ es) fs f h =
    ground (arith, find_event-append_old source key es fs f)

pub find_event-append_new :
    (source : EventSource) (key : String) (es fs : List OrderEventRow)
    → find_event source key es ≡ none
    → find_event source key (es ++ fs) ≡ find_event source key fs
unfolding find_event
find_event-append_new source key [] fs h = refl
find_event-append_new source key (e ∷ es) fs h =
    ground (arith, find_event-append_new source key es fs)

pub find_order-append_self :
    (rs : List OrderRow) (r : OrderRow)
    → find_order r.id rs ≡ none
    → find_order r.id (rs ++ r ∷ []) ≡ some r
unfolding find_order
find_order-append_self rs r h = ground (arith, find_order-append_new r.id rs (r ∷ []) h)

pub events_of-one_self :
    (id : ℕ) (e : OrderEventRow) → e.order_id ≡ id → events_of id (e ∷ []) ≡ e ∷ []
unfolding events_of
events_of-one_self id e same = ground arith

pub events_of-one_ne : (id : ℕ) (e : OrderEventRow) → e.order_id ≢ id → events_of id (e ∷ []) ≡ []
unfolding events_of
events_of-one_ne id e ne = ground arith

pub find_order-append_ne :
    (id : ℕ) (rs : List OrderRow) (r : OrderRow)
    → r.id ≢ id
    → find_order id (rs ++ r ∷ []) ≡ find_order id rs
unfolding find_order
find_order-append_ne id [] r ne = ground arith
find_order-append_ne id (x ∷ rs) r ne = ground (arith, find_order-append_ne id rs r ne)

pub find_event-append_self :
    (es : List OrderEventRow) (e : OrderEventRow)
    → find_event e.event_source e.external_event_id es ≡ none
    → find_event e.event_source e.external_event_id (es ++ e ∷ []) ≡ some e
unfolding find_event
find_event-append_self es e h = ground (
  arith,
  find_event-append_new e.event_source e.external_event_id es (e ∷ []) h,
  ==_refl e.event_source,
  ==_refl e.external_event_id,
)
