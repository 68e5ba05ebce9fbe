-- ===== src/Position/Ledger.antt =====
-- The invariant of the tables `positions` and `position_events`, and what `apply_trade` makes of it.
pub mod Lookups
use yanzl.Prelude.{
  ℕ, suc, ◌≡◌, refl, ap, sym, ◌∙◌, ◌≢◌, Bool, true, false, ◌&&◌, ◌⊎◌, inl, inr, Option, none, some,
  List, [], ◌∷◌, ◌++◌, String, arith,
}
use yanzl.Prelude.Tests.{Bool-cases, Option-cases, and_left, and_right}
use yanzl.Prelude.Equality.{◌==◌, ==_iff, ==_refl, String_eq, ℕ_eq}
use yanzl.Prelude.Int.{pos, int_laws, eq_of_parts, ◌+ℤ◌, ◌<ℤ◌, ◌≤ℤ◌}
use yanzl.Domain.Positions.{Trade, Position, PositionEvent}
use yanzl.Domain.Orders.{Decimal}
use yanzl.Decimal.{Context}
use yanzl.Position.Apply.{validate_trade_for_position}
use yanzl.Position.Apply.Laws.{long_qty, short_qty, IsSound, long_delta, short_delta}
use yanzl.Position.Apply.Closes.{Effect}
use yanzl.Position.Apply.Sound.{apply-Effect}
use yanzl.Position.Store.{
  PositionRow, PositionEventRow, PositionDb, find_position, find_position_id, set_quantities,
  position_to_domain, new_position,
}
use yanzl.Position.Store.Laws.{
  renewed, find_position-key, find_position_id-id, find_position_id-set_self,
  find_position_id-set_ne, find_position-set_none, find_position-set_self, find_position-set_ne,
  find_position-append_old, find_position-append_new, find_position_id-append_old,
  find_position_id-append_new,
}
use yanzl.Position.Manager.{apply_trade}
use yanzl.Position.Books.{book, booked_event}
use yanzl.Position.Outcome.{HasKeys, Rows, held, opened, Booked, apply_trade-outcome}
use yanzl.Position.Sums.{
  concerns, event_long, event_short, total, count, long_of, short_of, version_of, total_from-append,
  count_from-append,
}
use yanzl.Position.Ledger.Lookups.{
  AllSound, Rows-value, Rows-sound, Rows-keys, find-same, same-key, set_other, set_self,
}

-- Rows are found by their keys and sound, and each position's quantities and version are what its events
-- add up to.
pub record IsLedger (d : PositionDb) : Type 0 where
  pub keys : HasKeys d.positions
  pub sound : AllSound d.positions
  pub long :
      (a i : String) → long_of (find_position a i d.positions) ≡ total event_long a i d.events
  pub short :
      (a i : String) → short_of (find_position a i d.positions) ≡ total event_short a i d.events
  pub version : (a i : String) → version_of (find_position a i d.positions) ≡ count a i d.events

pub validate-positive :
    (t : Trade) → validate_trade_for_position t ≡ none → (pos 0 <ℤ t.quantity) × (pos 0 <ℤ t.price)
unfolding validate_trade_for_position
validate-positive t h = ground arith

-- The domain's position has the row's quantities and prices.
domain-IsSound : (r : PositionRow) → IsSound r.state → IsSound (position_to_domain r)
domain-IsSound r s = record {
  long_today = s.long_today;
  long_yesterday = s.long_yesterday;
  short_today = s.short_today;
  short_yesterday = s.short_yesterday;
  long_frozen = s.long_frozen;
  short_frozen = s.short_frozen;
  long_price = s.long_price;
  short_price = s.short_price;
}

renewed-IsSound :
    (r : PositionRow) (new : Position)
    → IsSound new
    → r.state.frozen_long_qty ≡ new.frozen_long_qty
    → r.state.frozen_short_qty ≡ new.frozen_short_qty
    → IsSound (renewed r new).state
renewed-IsSound r new s fl fs = record {
  long_today = s.long_today;
  long_yesterday = s.long_yesterday;
  short_today = s.short_today;
  short_yesterday = s.short_yesterday;
  long_frozen = rw fl s.long_frozen;
  short_frozen = rw fs s.short_frozen;
  long_price = s.long_price;
  short_price = s.short_price;
}

module _ (ctx : Context) (next_id now : ℕ) (t : Trade) (d : PositionDb) (l : IsLedger d)
    (b : Booked ctx next_id now t d) where
  pub rows-HasKeys : HasKeys b.rows
  rows-HasKeys = Rows-keys next_id t d.positions b.from l.keys

  rows-AllSound : AllSound b.rows
  rows-AllSound = Rows-sound next_id t d.positions b.from l.sound

  pub Booked-Effect : Effect (position_to_domain b.row) b.after t.offset t.direction t.quantity
  Booked-Effect =
      let (positive, price) = validate-positive t b.valid in
      apply-Effect ctx (position_to_domain b.row) b.after t
        (domain-IsSound b.row (rows-AllSound t.account_id t.instrument_id b.row b.found)) positive
        (omega arith) b.status_applied b.calculated

  abbrev pub booked : PositionDb
  booked = book now t b.key b.rows b.row b.after d

  -- A value of a position that an event adds to, in the rows and in the sum over the events.
  pub preserved :
      {A : Type 0} (f : Option PositionRow → A) (sum : String → String → List PositionEventRow → A)
      (grown : A → A)
      → f (some (new_position next_id t.account_id t.instrument_id)) ≡ f none
      → ((a i : String) → f (find_position a i d.positions) ≡ sum a i d.events)
      → ((a i : String)
          → (es : List PositionEventRow) → (r : PositionEventRow) → concerns a i r.event ≡ false
          → sum a i (es ++ r ∷ []) ≡ sum a i es)
      → ((a i : String)
          → concerns a i (booked_event now t b.key b.row b.after) ≡ true
          → sum a i booked.events ≡ grown (sum a i d.events))
      → f (some (renewed b.row b.after)) ≡ grown (f (some b.row))
      → (a i : String) → f (find_position a i booked.positions) ≡ sum a i booked.events
  preserved f sum grown zero before other same step a i =
      elim (Bool-cases ((t.account_id == a) && (t.instrument_id == i))) [
        | inl concerned ↦
            ap f (
              set_self b.rows rows-HasKeys t.account_id t.instrument_id b.row b.after b.found a i
                concerned)
            ∙ step
            ∙ ap (λ x. grown (f x))
                (sym b.found ∙ find-same t.account_id t.instrument_id a i b.rows concerned)
            ∙ ap grown (Rows-value next_id t d.positions f b.from zero a i ∙ before a i)
            ∙ sym (same a i concerned)
        | inr elsewhere ↦
            ap f (
              set_other b.rows rows-HasKeys t.account_id t.instrument_id b.row b.after b.found a i
                elsewhere)
            ∙ Rows-value next_id t d.positions f b.from zero a i
            ∙ before a i
            ∙ sym (other a i d.events _ elsewhere)
      ]

  booked-HasKeys : HasKeys booked.positions
  booked-HasKeys a i r at = elim (Bool-cases ((t.account_id == a) && (t.instrument_id == i))) [
    | inl concerned ↦
        let e : some (renewed b.row b.after) ≡ some r =
          sym (
            set_self b.rows rows-HasKeys t.account_id t.instrument_id b.row b.after b.found a i
              concerned)
          ∙ at in
        cc (
          e,
          find_position_id-set_self b.row.id b.after b.rows b.row
              (rows-HasKeys t.account_id t.instrument_id b.row b.found),
        )
    | inr elsewhere ↦
        let e : find_position a i b.rows ≡ some r =
          sym (
            set_other b.rows rows-HasKeys t.account_id t.instrument_id b.row b.after b.found a i
              elsewhere)
          ∙ at in
        find_position_id-set_ne r.id b.row.id b.after b.rows (λ same. absurd (
          cc (
            same-key b.rows rows-HasKeys t.account_id t.instrument_id b.row b.after b.found a i r e
                (sym same),
            elsewhere,
          )))
        ∙ rows-HasKeys a i r e
  ]

  booked-AllSound : AllSound booked.positions
  booked-AllSound a i r at = elim (Bool-cases ((t.account_id == a) && (t.instrument_id == i))) [
    | inl concerned ↦
        let e : some (renewed b.row b.after) ≡ some r =
          sym (
            set_self b.rows rows-HasKeys t.account_id t.instrument_id b.row b.after b.found a i
              concerned)
          ∙ at in
        let same : renewed b.row b.after ≡ r = cc e in
        rw (sym same) (
          renewed-IsSound b.row b.after Booked-Effect.sound
            (ap (λ (p : Position). p.frozen_long_qty) Booked-Effect.rest)
            (ap (λ (p : Position). p.frozen_short_qty) Booked-Effect.rest))
    | inr elsewhere ↦ rows-AllSound a i r (
        sym (
          set_other b.rows rows-HasKeys t.account_id t.instrument_id b.row b.after b.found a i
            elsewhere)
        ∙ at)
  ]

  add_other :
      (value : PositionEvent → Decimal) (a i : String) (es : List PositionEventRow)
      (r : PositionEventRow)
      → concerns a i r.event ≡ false
      → total value a i (es ++ r ∷ []) ≡ total value a i es
  add_other value a i es r h = rw (total_from-append value a i (pos 0) es r) (rw h refl)

  add_self :
      (value : PositionEvent → Decimal) (a i : String)
      → concerns a i (booked_event now t b.key b.row b.after) ≡ true
      → total value a i booked.events
        ≡ total value a i d.events +ℤ value (booked_event now t b.key b.row b.after)
  add_self value a i h = rw (total_from-append value a i (pos 0) d.events _) (rw h refl)

  pub Booked-IsLedger : IsLedger booked
  Booked-IsLedger = record {
    keys = booked-HasKeys;
    sound = booked-AllSound;
    long =
        preserved long_of (total event_long) (λ x. x +ℤ long_delta t.offset t.direction t.quantity)
          (eq_of_parts _ _ (omega int_laws)) l.long (add_other event_long) (add_self event_long)
          Booked-Effect.long;
    short =
        preserved short_of (total event_short)
          (λ x. x +ℤ short_delta t.offset t.direction t.quantity) (eq_of_parts _ _ (omega int_laws))
          l.short (add_other event_short) (add_self event_short) Booked-Effect.short;
    version =
        preserved version_of count suc refl l.version
          (λ a i es r h. rw (count_from-append a i 0 es r) (rw h refl))
          (λ a i h. rw (count_from-append a i 0 d.events _) (rw h refl)) refl;
  }

-- A trade, applied or refused, leaves a database in which every position is what its events add up to: its
-- sides are the sums of the events' deltas and its version is their number; and every position is sound.
pub apply_trade-IsLedger :
    (ctx : Context) (next_id now : ℕ) (t : Trade) (d : PositionDb)
    → IsLedger d
    → IsLedger (apply_trade ctx next_id now t d).1
apply_trade-IsLedger ctx next_id now t d l = elim (apply_trade-outcome ctx next_id now t d l.keys) [
  | inl same ↦ rw same l
  | inr b ↦ rw b.written (Booked-IsLedger ctx next_id now t d l b)
]
