-- ===== src/Position/Store.antt =====
-- src/futures_mvp/db/repositories.py: the tables `positions` and `position_events` and their
-- repositories, as far as the position manager uses them. Of `trades` there are only the keys, which an
-- event's foreign key needs. One session writes at a time, so an insert meets no row that its own lookup
-- did not see.
pub mod Laws
use mathlib.Core.Option
use yanzl.Prelude.{
  ℕ, suc, Bool, true, false, not, ◌&&◌, ◌||◌, Option, none, some, List, [], ◌∷◌, ◌++◌, String,
}
use yanzl.Prelude.Tests.{if◌then◌else◌, is_some}
use yanzl.Prelude.Equality.{◌==◌, ℕ_eq, String_eq}
use yanzl.Prelude.Int.{pos, ℤ_eq}
use yanzl.Prelude.Lists.{contains}
use yanzl.Domain.Enums.{Direction_eq, Offset_eq}
use yanzl.Domain.Orders.{OrderId, numeral, malformed, OrderId_eq}
use yanzl.Domain.Positions.{Position, PositionSnapshot, same_snapshot, PositionEvent}
use yanzl.Database.UnitOfWork.{
  Error, repository, optimistic_lock, position_event_conflict, Uow, pure, raise, gets, or_raise,
  modify, ◌>>=◌, ◌>>◌,
}

-- A row of `positions`: its key, and the other columns as the domain has them.
pub record PositionRow : Type 0 where
  pub id : ℕ
  pub state : Position

-- A row of `position_events`: its foreign keys, and the other columns as the domain has them.
pub record PositionEventRow : Type 0 where
  pub trade_id : ℕ
  pub position_id : ℕ
  pub event : PositionEvent

pub record PositionDb : Type 0 where
  pub trades : List ℕ
  pub positions : List PositionRow
  pub events : List PositionEventRow  -- in the order of their ids

unfoldable pub find_position : String → String → List PositionRow → Option PositionRow
find_position account_id instrument_id [] = none
find_position account_id instrument_id (r ∷ rs) =
    if r.state.account_id == account_id && r.state.instrument_id == instrument_id
    then some r
    else find_position account_id instrument_id rs

unfoldable pub find_position_id : ℕ → List PositionRow → Option PositionRow
find_position_id id [] = none
find_position_id id (r ∷ rs) = if r.id == id then some r else find_position_id id rs

unfoldable pub find_trade_event :
    String → String → String → List PositionEventRow → Option PositionEventRow
find_trade_event account_id exchange exchange_trade_id [] = none
find_trade_event account_id exchange exchange_trade_id (r ∷ rs) =
    if r.event.account_id == account_id
      && r.event.exchange == exchange
      && r.event.exchange_trade_id == exchange_trade_id
    then some r
    else find_trade_event account_id exchange exchange_trade_id rs

-- `.values(…)` of `update_position`
abbrev pub with_quantities : Position → Position → Position
with_quantities old new = record old {
  long_today_qty = new.long_today_qty;
  long_yesterday_qty = new.long_yesterday_qty;
  short_today_qty = new.short_today_qty;
  short_yesterday_qty = new.short_yesterday_qty;
  long_avg_price = new.long_avg_price;
  short_avg_price = new.short_avg_price;
  version = suc old.version;
}

unfoldable pub set_quantities : ℕ → Position → List PositionRow → List PositionRow
set_quantities id new [] = []
set_quantities id new (r ∷ rs) =
    (if r.id == id then record r { state = with_quantities r.state new } else r)
    ∷ set_quantities id new rs

abbrev pub position_to_domain : PositionRow → Position
position_to_domain r = record r.state { id = some (numeral r.id) }

abbrev pub position_event_to_domain : PositionEventRow → PositionEvent
position_event_to_domain r = record r.event {
  trade_id = numeral r.trade_id;
  position_id = numeral r.position_id;
}

abbrev pub get_by_account_instrument : String → String → Uow PositionDb (Option Position)
get_by_account_instrument account_id instrument_id =
    gets (λ d. Option.map position_to_domain (find_position account_id instrument_id d.positions))

-- A row with the columns' defaults.
abbrev pub new_position : ℕ → String → String → PositionRow
new_position id account_id instrument_id = record {
  id = id;
  state = record {
    id = none;
    account_id = account_id;
    instrument_id = instrument_id;
    long_today_qty = pos 0;
    long_yesterday_qty = pos 0;
    short_today_qty = pos 0;
    short_yesterday_qty = pos 0;
    frozen_long_qty = pos 0;
    frozen_short_qty = pos 0;
    long_avg_price = pos 0;
    short_avg_price = pos 0;
    settlement_price = pos 0;
    last_price = pos 0;
    realized_pnl = pos 0;
    unrealized_pnl = pos 0;
    margin_used = pos 0;
    version = 0;
  };
}

-- `next_id` is the key that the database gives to the row; one that is taken is an integrity error.
abbrev pub get_or_insert : Option PositionRow → ℕ → String → String → Uow PositionDb Position
get_or_insert (some existing) next_id account_id instrument_id = pure (position_to_domain existing)
get_or_insert none next_id account_id instrument_id = do
  taken ← gets (λ d. is_some (find_position_id next_id d.positions))
  if taken then raise (repository "position unique conflict but position not found") else do
    modify (λ d. record d {
      positions = d.positions ++ new_position next_id account_id instrument_id ∷ [];
    })
    pure (position_to_domain (new_position next_id account_id instrument_id))

abbrev pub create_or_get_position : ℕ → String → String → Uow PositionDb Position
create_or_get_position next_id account_id instrument_id = do
  existing ← gets (λ d. find_position account_id instrument_id d.positions)
  get_or_insert existing next_id account_id instrument_id

abbrev pub parse_key : OrderId → Uow PositionDb ℕ
parse_key (numeral n) = pure n
parse_key (malformed t) = raise (repository "invalid order_id")

-- Whether the row that is to be updated has the version that the caller read.
abbrev pub has_version : Option PositionRow → Option ℕ → Bool
has_version none expected = false
has_version (some r) none = true
has_version (some r) (some v) = r.state.version == v

abbrev pub position_update_error : OrderId → Option ℕ → Error
position_update_error id none = repository "position not found"
position_update_error id (some v) = optimistic_lock id

abbrev pub update_row : OrderId → Position → Option ℕ → Uow PositionDb Position
update_row key position expected = do
  id ← parse_key key
  found ← gets (λ d. has_version (find_position_id id d.positions) expected)
  if not found then raise (position_update_error key expected) else do
    modify (λ d. record d { positions = set_quantities id position d.positions })
    updated ← gets (λ d. Option.map position_to_domain (find_position_id id d.positions))
    or_raise updated (repository "position updated but not found")

abbrev pub update_position : Position → Option ℕ → Uow PositionDb Position
update_position position expected = do
  key ← or_raise position.id (repository "position.id is required for update_position")
  update_row key position expected

-- `created_at` is no part of the payload that a second append must repeat.
unfoldable pub same_canonical_position_event_payload : PositionEvent → PositionEvent → Bool
same_canonical_position_event_payload a b =
    a.account_id == b.account_id
    && a.instrument_id == b.instrument_id
    && a.exchange == b.exchange
    && a.exchange_trade_id == b.exchange_trade_id
    && a.trade_id == b.trade_id
    && a.position_id == b.position_id
    && a.event_type == b.event_type
    && a.direction == b.direction
    && a.offset == b.offset
    && a.price == b.price
    && a.quantity == b.quantity
    && same_snapshot a.before_snapshot b.before_snapshot
    && same_snapshot a.after_snapshot b.after_snapshot
    && a.occurred_at == b.occurred_at

abbrev pub get_by_trade_key : String → String → String → Uow PositionDb (Option PositionEvent)
get_by_trade_key account_id exchange exchange_trade_id = gets (λ d.
    Option.map position_event_to_domain
      (find_trade_event account_id exchange exchange_trade_id d.events))

-- The foreign keys are the only constraints left to fail after the lookup.
abbrev pub append_or_existing : Option PositionEvent → PositionEvent → Uow PositionDb PositionEvent
append_or_existing (some existing) event =
    if same_canonical_position_event_payload existing event
    then pure existing
    else raise
        (position_event_conflict "exchange_trade_id reused with different position event payload")
append_or_existing none event = do
  trade_id ← parse_key event.trade_id
  position_id ← parse_key event.position_id
  known ←
      gets (λ d. contains d.trades trade_id && is_some (find_position_id position_id d.positions))
  if not known then raise (repository "position event unique conflict but event not found") else do
    modify (λ d. record d {
      events =
          d.events ++ record { trade_id = trade_id; position_id = position_id; event = event } ∷ [];
    })
    pure (record event { trade_id = numeral trade_id; position_id = numeral position_id })

abbrev pub append_position_event : PositionEvent → Uow PositionDb PositionEvent
append_position_event event = do
  existing ← get_by_trade_key event.account_id event.exchange event.exchange_trade_id
  append_or_existing existing event
