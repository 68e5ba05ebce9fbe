-- ===== src/Oms/Store.antt =====
-- src/futures_mvp/db/repositories.py: the tables `orders` and `order_events` and their repositories.
-- One session writes at a time, so an insert meets no row that its own lookup did not see.
pub mod Laws
use mathlib.Core.Option
use yanzl.Prelude.{
  ℕ, suc, Bool, true, false, not, ◌&&◌, Option, none, some, List, [], ◌∷◌, ◌++◌, map, String,
}
use yanzl.Prelude.Tests.{if◌then◌else◌, is_some}
use yanzl.Prelude.Equality.{◌==◌, ℕ_eq, String_eq}
use yanzl.Prelude.Int.{pos, ℤ_eq}
use yanzl.Domain.Enums.{
  OrderStatus, created, EventSource, Direction_eq, Offset_eq, OrderType_eq, EventSource_eq,
}
use yanzl.Domain.Orders.{
  Decimal, OrderId, numeral, malformed, OrderRequest, OrderState, OrderEvent, Payload,
}
use yanzl.Database.UnitOfWork.{
  Error, order_not_found, idempotency_conflict, event_already_exists, optimistic_lock, repository,
  Uow, pure, raise, gets, or_raise, modify, ◌>>=◌, ◌>>◌,
}

-- A row of `orders`; the columns that come from the request stand together.
pub record OrderRow : Type 0 where
  pub id : ℕ
  pub request : OrderRequest
  pub filled_quantity : Decimal
  pub status : OrderStatus
  pub reject_reason : Option String
  pub version : ℕ

-- A row of `order_events`.
pub record OrderEventRow : Type 0 where
  pub order_id : ℕ
  pub previous_status : Option OrderStatus
  pub new_status : OrderStatus
  pub event_source : EventSource
  pub external_event_id : String
  pub raw_payload : Payload
  pub occurred_at : ℕ

pub record OmsDb : Type 0 where
  pub orders : List OrderRow
  pub events : List OrderEventRow  -- in the order of their ids

unfoldable pub find_order : ℕ → List OrderRow → Option OrderRow
find_order id [] = none
find_order id (r ∷ rs) = if r.id == id then some r else find_order id rs

unfoldable pub find_client_order : String → List OrderRow → Option OrderRow
find_client_order key [] = none
find_client_order key (r ∷ rs) =
    if r.request.client_order_id == key then some r else find_client_order key rs

-- `update(Order).where(Order.id == id).values(status=…, version=Order.version + 1)`
unfoldable pub set_status : ℕ → OrderStatus → List OrderRow → List OrderRow
set_status id status [] = []
set_status id status (r ∷ rs) =
    (if r.id == id then record r { status = status; version = suc r.version } else r)
    ∷ set_status id status rs

unfoldable pub find_event : EventSource → String → List OrderEventRow → Option OrderEventRow
find_event source key [] = none
find_event source key (e ∷ es) =
    if e.event_source == source && e.external_event_id == key
    then some e
    else find_event source key es

unfoldable pub events_of : ℕ → List OrderEventRow → List OrderEventRow
events_of id [] = []
events_of id (e ∷ es) = if e.order_id == id then e ∷ events_of id es else events_of id es

abbrev pub parse_order_id : OrderId → Uow OmsDb ℕ
parse_order_id (numeral n) = pure n
parse_order_id (malformed t) = raise (repository "invalid order_id")

abbrev pub order_to_domain : OrderRow → OrderState
order_to_domain r = record {
  order_id = numeral r.id;
  request = r.request;
  status = r.status;
  filled_quantity = r.filled_quantity;
  reject_reason = r.reject_reason;
  version = r.version;
}

abbrev pub order_event_to_domain : OrderEventRow → OrderEvent
order_event_to_domain e = record {
  order_id = numeral e.order_id;
  previous_status = e.previous_status;
  new_status = e.new_status;
  event_source = e.event_source;
  external_event_id = e.external_event_id;
  raw_payload = e.raw_payload;
  occurred_at = e.occurred_at;
}

-- The client's key is no part of the payload that an idempotent retry must repeat.
unfoldable pub same_canonical_order_payload : OrderRequest → OrderRequest → Bool
same_canonical_order_payload a b =
    a.account_id == b.account_id
    && a.instrument_id == b.instrument_id
    && a.exchange == b.exchange
    && a.direction == b.direction
    && a.offset == b.offset
    && a.order_type == b.order_type
    && a.limit_price == b.limit_price
    && a.quantity == b.quantity

abbrev pub new_order : ℕ → OrderRequest → String → OrderRow
new_order id request client_order_id = record {
  id = id;
  request = record request { client_order_id = client_order_id };
  filled_quantity = pos 0;
  status = created;
  reject_reason = none;
  version = 0;
}

abbrev pub existing_order_for_create : OrderRow → OrderRequest → Uow OmsDb OrderState
existing_order_for_create existing request =
    if same_canonical_order_payload existing.request request
    then pure (order_to_domain existing)
    else raise (idempotency_conflict existing.request.client_order_id)

-- `next_id` is the key that the database gives to the row; one that is taken is an integrity error.
abbrev pub insert_order : ℕ → OrderRequest → String → Uow OmsDb OrderState
insert_order next_id request key = do
  taken ← gets (λ d. is_some (find_order next_id d.orders))
  if taken then raise (repository "client_order_id unique conflict but order not found") else do
    modify (λ d. record d { orders = d.orders ++ new_order next_id request key ∷ [] })
    pure (order_to_domain (new_order next_id request key))

abbrev pub create_order_with : Option OrderRow → ℕ → OrderRequest → String → Uow OmsDb OrderState
create_order_with (some existing) next_id request key = existing_order_for_create existing request
create_order_with none next_id request key = insert_order next_id request key

abbrev pub orders_create : ℕ → OrderRequest → String → Uow OmsDb OrderState
orders_create next_id request key = do
  existing ← gets (λ d. find_client_order key d.orders)
  create_order_with existing next_id request key

abbrev pub orders_get_by_id : OrderId → Uow OmsDb (Option OrderState)
orders_get_by_id order_id = do
  id ← parse_order_id order_id
  gets (λ d. Option.map order_to_domain (find_order id d.orders))

abbrev pub orders_get_by_client_order_id : String → Uow OmsDb (Option OrderState)
orders_get_by_client_order_id key =
    gets (λ d. Option.map order_to_domain (find_client_order key d.orders))

-- Whether the row that is to be updated has the version that the caller read.
abbrev pub matches_version : Option OrderRow → Option ℕ → Bool
matches_version none expected = false
matches_version (some r) none = true
matches_version (some r) (some v) = r.version == v

abbrev pub update_error : OrderId → Option ℕ → Error
update_error order_id none = order_not_found order_id
update_error order_id (some v) = optimistic_lock order_id

abbrev pub orders_update_status : OrderId → OrderStatus → Option ℕ → Uow OmsDb OrderState
orders_update_status order_id status expected = do
  id ← parse_order_id order_id
  found ← gets (λ d. matches_version (find_order id d.orders) expected)
  if not found then raise (update_error order_id expected) else do
    modify (λ d. record d { orders = set_status id status d.orders })
    updated ← gets (λ d. Option.map order_to_domain (find_order id d.orders))
    or_raise updated (repository "order updated but not found")

abbrev pub events_get_by_event_key : EventSource → String → Uow OmsDb (Option OrderEvent)
events_get_by_event_key source key =
    gets (λ d. Option.map order_event_to_domain (find_event source key d.events))

abbrev pub new_event : ℕ → OrderEvent → OrderEventRow
new_event id e = record {
  order_id = id;
  previous_status = e.previous_status;
  new_status = e.new_status;
  event_source = e.event_source;
  external_event_id = e.external_event_id;
  raw_payload = e.raw_payload;
  occurred_at = e.occurred_at;
}

-- The foreign key to `orders` is the only constraint left to fail after the lookup.
abbrev pub insert_event : Option OrderEvent → OrderEvent → Uow OmsDb OrderEvent
insert_event (some existing) event = raise (event_already_exists event.external_event_id)
insert_event none event = do
  id ← parse_order_id event.order_id
  known ← gets (λ d. is_some (find_order id d.orders))
  if not known then raise (repository "order event unique conflict but event not found") else do
    modify (λ d. record d { events = d.events ++ new_event id event ∷ [] })
    pure (order_event_to_domain (new_event id event))

abbrev pub events_append : OrderEvent → Uow OmsDb OrderEvent
events_append event = do
  existing ← events_get_by_event_key event.event_source event.external_event_id
  insert_event existing event

abbrev pub events_list_by_order_id : OrderId → Uow OmsDb (List OrderEvent)
events_list_by_order_id order_id = do
  id ← parse_order_id order_id
  gets (λ d. map order_event_to_domain (events_of id d.events))
