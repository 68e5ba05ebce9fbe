-- ===== src/Position/Books.antt =====
-- What the `try` block of `apply_trade` writes.
use yanzl.Prelude.{
  ℕ, ◌≡◌, refl, true, false, ◌⊎◌, inl, inr, Option, none, some, List, [], ◌∷◌, ◌++◌, String, arith,
}
use yanzl.Prelude.Tests.{Bool-cases}
use yanzl.Prelude.Equality.{ℕ_eq}
use yanzl.Prelude.Lists.{contains}
use yanzl.Domain.Enums.{
  buy, sell, Offset, open_offset, close, close_today, close_yesterday, Direction,
}
use yanzl.Domain.Orders.{OrderId, numeral, malformed}
use yanzl.Domain.Positions.{
  Trade, Position, from_position, PositionEvent, applied, PositionManagerResult,
}
use yanzl.Database.UnitOfWork.{Session, ok}
use yanzl.Decimal.{Context}
use yanzl.Position.Apply.{trade_effect, close_bucket, apply_trade_to_position}
use yanzl.Position.Store.{
  PositionRow, PositionDb, find_position_id, find_trade_event, set_quantities, position_to_domain,
}
use yanzl.Position.Store.Laws.{renewed, find_position_id-set_self}
use yanzl.Position.Manager.{manager_result, trade_applied_event, write_trade}

trade_effect-id :
    (ctx : Context) (o : Offset) (d : Direction) (p q : Position) (t : Trade)
    → (trade_effect ctx o d p t).status ≡ applied
    → (trade_effect ctx o d p t).position ≡ some q
    → q.id ≡ p.id
unfolding trade_effect close_bucket
trade_effect-id ctx open_offset buy p q t h e = ground arith
trade_effect-id ctx open_offset sell p q t h e = ground arith
trade_effect-id ctx close d p q t h e = ground arith
trade_effect-id ctx close_today buy p q t h e = ground arith
trade_effect-id ctx close_today sell p q t h e = ground arith
trade_effect-id ctx close_yesterday buy p q t h e = ground arith
trade_effect-id ctx close_yesterday sell p q t h e = ground arith

pub apply_trade_to_position-id :
    (ctx : Context) (p q : Position) (t : Trade)
    → (apply_trade_to_position ctx p t).status ≡ applied
    → (apply_trade_to_position ctx p t).position ≡ some q
    → q.id ≡ p.id
unfolding apply_trade_to_position
apply_trade_to_position-id ctx p q t h e = trade_effect-id ctx t.offset t.direction p q t h e

-- The event of a trade on a row, with the snapshots before and after.
abbrev pub booked_event : ℕ → Trade → ℕ → PositionRow → Position → PositionEvent
booked_event now t key r after =
    trade_applied_event t (numeral key) (numeral r.id) (from_position (position_to_domain r))
      (position_to_domain (renewed r after)) now

-- The database with a row renewed and the event appended.
abbrev pub book :
    ℕ → Trade → ℕ → List PositionRow → PositionRow → Position → PositionDb → PositionDb
book now t key rows r after d = record d {
  positions = set_quantities r.id after rows;
  events =
      d.events
      ++ record { trade_id = key; position_id = r.id; event = booked_event now t key r after } ∷ [];
}

abbrev pub booked_result : ℕ → Trade → ℕ → PositionRow → Position → PositionManagerResult
booked_result now t key r after =
    manager_result t applied (some (position_to_domain (renewed r after)))
      (some (booked_event now t key r after)) none

-- A session that has written only position rows.
abbrev pub holding : PositionDb → List PositionRow → Session PositionDb
holding d rows = record { committed = d; working = record d { positions = rows } }

abbrev pub closed : PositionDb → Session PositionDb
closed d = record { committed = d; working = d }

module _ (now : ℕ) (t : Trade) (d : PositionDb) (rows : List PositionRow) (r : PositionRow)
    (after : Position) (found : find_position_id r.id rows ≡ some r)
    (same : after.id ≡ some (numeral r.id))
    (new : find_trade_event t.account_id t.exchange t.exchange_trade_id d.events ≡ none) where
  write_trade-eq :
      (key : ℕ)
      → t.id ≡ some (numeral key)
      → contains d.trades key ≡ true
      → write_trade now t (position_to_domain r) after (holding d rows)
        ≡ (ok (booked_result now t key r after), closed (book now t key rows r after d))
  unfolding write_trade
  write_trade-eq key e known = ground (arith, find_position_id-set_self r.id after rows r)

  write_trade-none :
      t.id ≡ none
      → (write_trade now t (position_to_domain r) after (holding d rows)).1.committed ≡ d
  unfolding write_trade
  write_trade-none e = ground (arith, find_position_id-set_self r.id after rows r)

  write_trade-malformed :
      (x : String)
      → t.id ≡ some (malformed x)
      → (write_trade now t (position_to_domain r) after (holding d rows)).1.committed ≡ d
  unfolding write_trade
  write_trade-malformed x e = ground (arith, find_position_id-set_self r.id after rows r)

  write_trade-unknown :
      (key : ℕ)
      → t.id ≡ some (numeral key)
      → contains d.trades key ≡ false
      → (write_trade now t (position_to_domain r) after (holding d rows)).1.committed ≡ d
  unfolding write_trade
  write_trade-unknown key e unknown = ground (arith, find_position_id-set_self r.id after rows r)

-- The session that `write_trade` leaves: nothing committed, or the row and the event.
abbrev pub Wrote : ℕ → Trade → PositionDb → List PositionRow → PositionRow → Position → Type 0
Wrote now t d rows r after =
    (((write_trade now t (position_to_domain r) after (holding d rows)).1.committed) ≡ d)
    ⊎ ((key : ℕ) × (t.id ≡ some (numeral key))
        × (write_trade now t (position_to_domain r) after (holding d rows)
            ≡ (ok (booked_result now t key r after), closed (book now t key rows r after d))))

module _ (now : ℕ) (t : Trade) (d : PositionDb) (rows : List PositionRow) (r : PositionRow)
    (after : Position) (found : find_position_id r.id rows ≡ some r)
    (same : after.id ≡ some (numeral r.id))
    (new : find_trade_event t.account_id t.exchange t.exchange_trade_id d.events ≡ none) where
  write_trade-by : (key : Option OrderId) → t.id ≡ key → Wrote now t d rows r after
  write_trade-by none e = inl (write_trade-none now t d rows r after found same new e)
  write_trade-by (some (malformed x)) e =
      inl (write_trade-malformed now t d rows r after found same new x e)
  write_trade-by (some (numeral key)) e = elim (Bool-cases (contains d.trades key)) [
    | inl known ↦ inr (key, e, write_trade-eq now t d rows r after found same new key e known)
    | inr unknown ↦ inl (write_trade-unknown now t d rows r after found same new key e unknown)
  ]

  pub write_trade-Wrote : Wrote now t d rows r after
  write_trade-Wrote = write_trade-by t.id refl
