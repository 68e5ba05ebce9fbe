-- ===== src/Position/Retries.antt =====
-- What a second delivery of an applied trade does.
use yanzl.Prelude.{ℕ, suc, ◌≡◌, refl, ap, sym, ◌∙◌, ◌≢◌, true, inl, inr, none, some, [], ◌∷◌, arith}
use yanzl.Prelude.Tests.{Bool-cases}
use yanzl.Prelude.Equality.{==_iff, ==_refl, String_eq, ℕ_eq, Option_eq}
use yanzl.Prelude.Int.{ℤ_eq}
use yanzl.Domain.Enums.{Direction_eq, Offset_eq}
use yanzl.Domain.Orders.{numeral, OrderId_eq}
use yanzl.Domain.Positions.{
  Trade, Position, PositionSnapshot, from_position, same_snapshot, PositionEvent, duplicate_ignored,
  conflict, text,
}
use yanzl.Database.UnitOfWork.{ok}
use yanzl.Decimal.{Context}
use yanzl.Position.Store.{
  PositionRow, PositionEventRow, PositionDb, find_position, find_trade_event, position_to_domain,
}
use yanzl.Position.Store.Laws.{renewed, find_trade_event-append_new, find_trade_event-append_old}
use yanzl.Position.Manager.{manager_result, same_trade_event, duplicate_result, apply_trade}
use yanzl.Position.Books.{booked_event, closed}
use yanzl.Position.Outcome.{Booked, outcome, apply_trade-known}
use yanzl.Position.Ledger.{IsLedger, rows-HasKeys, booked, Booked-IsLedger}
use yanzl.Position.Ledger.Lookups.{set_self, Rows-value}
use yanzl.Position.Sums.{version_of}

same_snapshot_refl : (s : PositionSnapshot) → same_snapshot s s ≡ true
unfolding same_snapshot
same_snapshot_refl s =
    rw
      (
        ==_refl s.account_id,
        ==_refl s.instrument_id,
        ==_refl s.long_today_qty,
        ==_refl s.long_yesterday_qty,
        ==_refl s.short_today_qty,
        ==_refl s.short_yesterday_qty,
        ==_refl s.long_avg_price,
        ==_refl s.short_avg_price,
        ==_refl s.version,
      )
      refl

same_snapshot-version : (a b : PositionSnapshot) → same_snapshot a b ≡ true → a.version ≡ b.version
unfolding same_snapshot
same_snapshot-version a b h = ground (arith, ==_iff a.version b.version)

same_trade_event-booked :
    (now : ℕ) (t : Trade) (key : ℕ) (r : PositionRow) (after : Position)
    → t.id ≡ some (numeral key)
    → same_trade_event (booked_event now t key r after) t ≡ true
unfolding same_trade_event
same_trade_event-booked now t key r after e = rw e (
    rw
      (
        ==_refl t.account_id,
        ==_refl t.instrument_id,
        ==_refl t.exchange,
        ==_refl t.exchange_trade_id,
        ==_refl key,
        ==_refl t.direction,
        ==_refl t.offset,
        ==_refl t.price,
        ==_refl t.quantity,
        ==_refl t.trade_time,
      )
      refl)

module _ (ctx : Context) (next_id now : ℕ) (t : Trade) (d : PositionDb) (l : IsLedger d)
    (b : Booked ctx next_id now t d) where
  abbrev row : PositionEventRow
  row = record {
    trade_id = b.key;
    position_id = b.row.id;
    event = booked_event now t b.key b.row b.after;
  }

  pub booked-event :
      find_trade_event t.account_id t.exchange t.exchange_trade_id
        (booked ctx next_id now t d l b).events
      ≡ some row
  unfolding find_trade_event
  booked-event =
      find_trade_event-append_new t.account_id t.exchange t.exchange_trade_id d.events (row ∷ [])
        b.new
      ∙ rw (==_refl t.account_id) (rw (==_refl t.exchange) (rw (==_refl t.exchange_trade_id) refl))

  pub booked-position :
      find_position t.account_id t.instrument_id (booked ctx next_id now t d l b).positions
      ≡ some (renewed b.row b.after)
  booked-position =
      set_self b.rows (rows-HasKeys ctx next_id now t d l b) t.account_id t.instrument_id b.row
        b.after b.found t.account_id t.instrument_id
        (rw (==_refl t.account_id) (==_refl t.instrument_id))

-- A known event of the same trade is answered by comparing the current position with its snapshot.
duplicate_result-same :
    (e : PositionEvent) (t : Trade) (d : PositionDb) (r : PositionRow)
    → same_trade_event e t ≡ true
    → find_position e.account_id e.instrument_id d.positions ≡ some r
    → same_snapshot (from_position (position_to_domain r)) e.after_snapshot ≡ true
    → duplicate_result e t (closed d) ≡ (
      ok (manager_result t duplicate_ignored (some (position_to_domain r)) (some e) none),
      closed d,
    )
unfolding duplicate_result
duplicate_result-same e t d r h at same = rw h (rw at (rw same refl))

-- A trade that has just been applied to a ledger, delivered again, is ignored: it is answered with the
-- position and the event that the first delivery wrote, and the database stays as it is.
pub apply_trade-again :
    (ctx : Context) (next_id now : ℕ) (t : Trade) (d : PositionDb)
    → IsLedger d
    → (b : Booked ctx next_id now t d) → (next_id' now' : ℕ)
    → let d' = (apply_trade ctx next_id now t d).1 in
      apply_trade ctx next_id' now' t d' ≡ (
        ok (
            manager_result t duplicate_ignored
              (some (position_to_domain (renewed b.row b.after)))
              (some (booked_event now t b.key b.row b.after))
              none),
        d',
      )
apply_trade-again ctx next_id now t d l b next_id' now' =
    let d' = booked ctx next_id now t d l b in
    rw b.written (
      apply_trade-known ctx next_id' now' t d' _ b.valid (booked-event ctx next_id now t d l b)
      ∙ ap outcome (
          duplicate_result-same _ t d' (renewed b.row b.after)
            (same_trade_event-booked now t b.key b.row b.after b.has_key)
            (booked-position ctx next_id now t d l b) (same_snapshot_refl _)))

duplicate_result-moved :
    (e : PositionEvent) (t : Trade) (d : PositionDb) (r : PositionRow)
    → same_trade_event e t ≡ true
    → find_position e.account_id e.instrument_id d.positions ≡ some r
    → r.state.version ≢ e.after_snapshot.version
    → duplicate_result e t (closed d) ≡ (
      ok (
          manager_result t conflict
            (some (position_to_domain r))
            (some e)
            (some (text "position_projection_diverged_from_event_snapshot"))),
      closed d,
    )
unfolding duplicate_result
duplicate_result-moved e t d r h at moved =
    elim (Bool-cases (same_snapshot (from_position (position_to_domain r)) e.after_snapshot)) [
      | inl same ↦ absurd (moved (same_snapshot-version _ _ same))
      | inr differs ↦ rw h (rw at (rw differs refl))
    ]

module _ (ctx : Context) (next_id now : ℕ) (t : Trade) (d : PositionDb) (l : IsLedger d)
    (b : Booked ctx next_id now t d) (next_id' now' : ℕ) (t' : Trade)
    (c : Booked ctx next_id' now' t' (booked ctx next_id now t d l b))
    (account : t'.account_id ≡ t.account_id) (instrument : t'.instrument_id ≡ t.instrument_id) where
  abbrev pub later : IsLedger (booked ctx next_id now t d l b)
  later = Booked-IsLedger ctx next_id now t d l b

  met_version : c.row.state.version ≡ suc b.row.state.version
  met_version =
      ap version_of (sym c.found)
      ∙ Rows-value next_id' t' (booked ctx next_id now t d l b).positions version_of c.from refl
          t'.account_id t'.instrument_id
      ∙ rw account (rw instrument (ap version_of (booked-position ctx next_id now t d l b)))

  abbrev pub second : PositionDb
  second = booked ctx next_id' now' t' (booked ctx next_id now t d l b) later c

  second-position :
      find_position t.account_id t.instrument_id second.positions ≡ some (renewed c.row c.after)
  second-position =
      set_self c.rows (rows-HasKeys ctx next_id' now' t' (booked ctx next_id now t d l b) later c)
        t'.account_id t'.instrument_id c.row c.after c.found t.account_id t.instrument_id
        (rw account (rw instrument (rw (==_refl t.account_id) (==_refl t.instrument_id))))

  abbrev first_row : PositionEventRow
  first_row = record {
    trade_id = b.key;
    position_id = b.row.id;
    event = booked_event now t b.key b.row b.after;
  }

  second-event :
      find_trade_event t.account_id t.exchange t.exchange_trade_id second.events ≡ some first_row
  second-event =
      find_trade_event-append_old t.account_id t.exchange t.exchange_trade_id
        (booked ctx next_id now t d l b).events _ first_row (booked-event ctx next_id now t d l b)

  -- A trade that was applied to a ledger, delivered again after a later trade was applied to the same
  -- position, is answered with a conflict, and the database stays as it is.
  pub apply_trade-late :
      (n m : ℕ)
      → apply_trade ctx n m t second ≡ (
        ok (
            manager_result t conflict
              (some (position_to_domain (renewed c.row c.after)))
              (some (booked_event now t b.key b.row b.after))
              (some (text "position_projection_diverged_from_event_snapshot"))),
        second,
      )
  apply_trade-late n m =
      apply_trade-known ctx n m t second first_row b.valid second-event
      ∙ ap outcome (
          duplicate_result-moved _ t second (renewed c.row c.after)
            (same_trade_event-booked now t b.key b.row b.after b.has_key) second-position
            (λ e. absurd (omega (arith, e, met_version))))
