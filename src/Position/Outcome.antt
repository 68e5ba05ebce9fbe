-- ===== src/Position/Outcome.antt =====
-- What `apply_trade` leaves in the database.
use mathlib.Core.Option
use yanzl.Prelude.{
  ℕ, ◌≡◌, refl, ap, ◌∙◌, true, ◌⊎◌, inl, inr, Option, none, some, List, [], ◌∷◌, ◌++◌, String,
  arith,
}
use yanzl.Prelude.Tests.{Bool-cases, Option-cases}
use yanzl.Prelude.Equality.{ℕ_eq, ◌==◌, ==_iff, ==_refl, String_eq}
use yanzl.Domain.Enums.{open_offset, Offset_eq}
use yanzl.Domain.Orders.{numeral}
use yanzl.Domain.Positions.{
  Trade, Position, PositionEvent, applied, PositionManagerResult, PositionManagerResultStatus,
}
use yanzl.Database.UnitOfWork.{Session, Result, ok}
use yanzl.Decimal.{Context}
use yanzl.Position.Apply.{validate_trade_for_position, apply_trade_to_position}
use yanzl.Position.Store.{
  PositionRow, PositionEventRow, PositionDb, find_position, find_position_id, find_trade_event,
  position_to_domain, position_event_to_domain, new_position,
}
use yanzl.Position.Store.Laws.{find_position-append_new, find_position_id-append_new}
use yanzl.Position.Manager.{
  apply_to, apply_trade, duplicate_result, apply_unless_known, apply_valid, apply_new, is_applied,
}
use yanzl.Position.Books.{
  write_trade-Wrote, apply_trade_to_position-id, book, booked_result, holding, closed,
}

-- A row found by its account and instrument is the row of its key: the table's primary key.
abbrev pub HasKeys : List PositionRow → Type 0
HasKeys rows =
    (a i : String)
    → (r : PositionRow) → find_position a i rows ≡ some r
    → find_position_id r.id rows ≡ some r

-- The rows that a trade is applied to: those that there are, or an opening trade's new one beside them.
pub data Rows (next_id : ℕ) (t : Trade) (held_rows : List PositionRow)
    : List PositionRow → Type 0 where
  held : Rows next_id t held_rows held_rows
  opened :
      t.offset ≡ open_offset
      → find_position t.account_id t.instrument_id held_rows ≡ none
      → find_position_id next_id held_rows ≡ none
      → Rows next_id t held_rows
          (held_rows ++ new_position next_id t.account_id t.instrument_id ∷ [])

-- A trade has been applied: its checks, its calculation, and the one commit that holds both writes.
pub record Booked (ctx : Context) (next_id now : ℕ) (t : Trade) (d : PositionDb) : Type 0 where
  pub rows : List PositionRow
  pub row : PositionRow
  pub after : Position
  pub key : ℕ
  pub valid : validate_trade_for_position t ≡ none
  pub new : find_trade_event t.account_id t.exchange t.exchange_trade_id d.events ≡ none
  pub from : Rows next_id t d.positions rows
  pub found : find_position t.account_id t.instrument_id rows ≡ some row
  pub status_applied : (apply_trade_to_position ctx (position_to_domain row) t).status ≡ applied
  pub calculated : (apply_trade_to_position ctx (position_to_domain row) t).position ≡ some after
  pub has_key : t.id ≡ some (numeral key)
  pub written :
      apply_trade ctx next_id now t d
      ≡ (ok (booked_result now t key row after), book now t key rows row after d)

-- `apply_to` writes nothing, or what `write_trade` writes.
abbrev pub Applies : Context → ℕ → ℕ → Trade → PositionDb → List PositionRow → PositionRow → Type 0
Applies ctx next_id now t d rows r =
    ((apply_to ctx next_id now t (position_to_domain r) (holding d rows)).1.committed ≡ d)
    ⊎ ((after : Position) × (key : ℕ) × ((apply_trade_to_position ctx (position_to_domain r)
            t).status
          ≡ applied)
        × ((apply_trade_to_position ctx (position_to_domain r) t).position ≡ some after)
        × (t.id ≡ some (numeral key))
        × (apply_to ctx next_id now t (position_to_domain r) (holding d rows)
            ≡ (ok (booked_result now t key r after), closed (book now t key rows r after d))))

is_applied-eq : (s : PositionManagerResultStatus) → is_applied s ≡ true → s ≡ applied
is_applied-eq s h = ground arith

module _ (ctx : Context) (next_id now : ℕ) (t : Trade) (d : PositionDb) (rows : List PositionRow)
    (r : PositionRow) (found : find_position_id r.id rows ≡ some r)
    (new : find_trade_event t.account_id t.exchange t.exchange_trade_id d.events ≡ none) where
  apply_to-by :
      (after : Option Position)
      → (apply_trade_to_position ctx (position_to_domain r) t).status ≡ applied
      → (apply_trade_to_position ctx (position_to_domain r) t).position ≡ after
      → Applies ctx next_id now t d rows r
  unfolding apply_to
  apply_to-by none h e = inl (rw h (rw e refl))
  apply_to-by (some after) h e =
      elim (write_trade-Wrote now t d rows r after found
        (apply_trade_to_position-id ctx (position_to_domain r) after t h e) new) [
          | inl same ↦ inl (rw h (rw e same))
          | inr w ↦ inr (after, w.0, h, e, w.1, rw h (rw e w.2))
        ]

  pub apply_to-Applies : Applies ctx next_id now t d rows r
  unfolding apply_to
  apply_to-Applies =
      elim (Bool-cases (is_applied (apply_trade_to_position ctx (position_to_domain r) t).status)) [
        | inl h ↦ apply_to-by _ (is_applied-eq _ h) refl
        | inr h ↦ inl (rw h refl)
      ]

duplicate_result-db :
    (e : PositionEvent) (t : Trade) (d : PositionDb)
    → (duplicate_result e t (closed d)).1.committed ≡ d
unfolding duplicate_result
duplicate_result-db e t d = ground arith

abbrev IsBookedOrSame : Context → ℕ → ℕ → Trade → PositionDb → Type 0
IsBookedOrSame ctx next_id now t d =
    ((apply_trade ctx next_id now t d).1 ≡ d) ⊎ Booked ctx next_id now t d

-- What the `with` block of a method leaves.
abbrev pub outcome :
    Result PositionManagerResult × Session PositionDb → Result PositionManagerResult × PositionDb
outcome x = (x.0, x.1.committed)

module _ (ctx : Context) (next_id now : ℕ) (t : Trade) (d : PositionDb) where
  apply_trade-new :
      validate_trade_for_position t ≡ none
      → find_trade_event t.account_id t.exchange t.exchange_trade_id d.events ≡ none
      → apply_trade ctx next_id now t d ≡ outcome (apply_new ctx next_id now t (closed d))
  unfolding apply_trade
  apply_trade-new valid new =
      ap (λ x. apply_valid ctx next_id now t x d) valid
      ∙ ap
          (λ (x : Option PositionEventRow). outcome (
            apply_unless_known ctx next_id now t (Option.map position_event_to_domain x)
              (closed d)))
          new

  apply_trade-invalid :
      (r : PositionManagerResult)
      → validate_trade_for_position t ≡ some r
      → apply_trade ctx next_id now t d ≡ (ok r, d)
  unfolding apply_trade
  apply_trade-invalid r invalid = ap (λ x. apply_valid ctx next_id now t x d) invalid

  pub apply_trade-known :
      (r : PositionEventRow)
      → validate_trade_for_position t ≡ none
      → find_trade_event t.account_id t.exchange t.exchange_trade_id d.events ≡ some r
      → apply_trade ctx next_id now t d
        ≡ outcome (duplicate_result (position_event_to_domain r) t (closed d))
  unfolding apply_trade
  apply_trade-known r valid known =
      ap (λ x. apply_valid ctx next_id now t x d) valid
      ∙ ap
          (λ (x : Option PositionEventRow). outcome (
            apply_unless_known ctx next_id now t (Option.map position_event_to_domain x)
              (closed d)))
          known

module _ (ctx : Context) (next_id now : ℕ) (t : Trade) (d : PositionDb) (keys : HasKeys d.positions)
    (valid : validate_trade_for_position t ≡ none)
    (new : find_trade_event t.account_id t.exchange t.exchange_trade_id d.events ≡ none) where
  -- From the row that the trade meets to the whole method.
  on_row :
      (rows : List PositionRow) (r : PositionRow)
      → Rows next_id t d.positions rows
      → find_position t.account_id t.instrument_id rows ≡ some r
      → find_position_id r.id rows ≡ some r
      → apply_new ctx next_id now t (closed d)
        ≡ apply_to ctx next_id now t (position_to_domain r) (holding d rows)
      → IsBookedOrSame ctx next_id now t d
  on_row rows r from at by_id same = elim (apply_to-Applies ctx next_id now t d rows r by_id new) [
    | inl kept ↦ inl (rw (apply_trade-new ctx next_id now t d valid new) (rw same kept))
    | inr w ↦ inr (record {
      rows = rows;
      row = r;
      after = w.0;
      key = w.1;
      valid = valid;
      new = new;
      from = from;
      found = at;
      status_applied = w.2;
      calculated = w.3;
      has_key = w.4;
      written = rw (apply_trade-new ctx next_id now t d valid new) (rw same (rw w.5 refl));
    })
  ]

  no_row :
      (apply_new ctx next_id now t (closed d)).1.committed ≡ d → IsBookedOrSame ctx next_id now t d
  no_row same = inl (rw (apply_trade-new ctx next_id now t d valid new) same)

  find_new :
      find_position t.account_id t.instrument_id
        (new_position next_id t.account_id t.instrument_id ∷ [])
      ≡ some (new_position next_id t.account_id t.instrument_id)
  unfolding find_position
  find_new = rw (==_refl t.account_id) (rw (==_refl t.instrument_id) refl)

  find_new_id :
      find_position_id next_id (new_position next_id t.account_id t.instrument_id ∷ [])
      ≡ some (new_position next_id t.account_id t.instrument_id)
  unfolding find_position_id
  find_new_id = rw (==_refl next_id) refl

  on_open :
      t.offset ≡ open_offset
      → find_position t.account_id t.instrument_id d.positions ≡ none
      → IsBookedOrSame ctx next_id now t d
  on_open o absent = elim (Option-cases (find_position_id next_id d.positions)) [
    | inl free ↦
        on_row _ _ (opened o absent free)
          (find_position-append_new _ _ d.positions _ absent ∙ find_new)
          (find_position_id-append_new _ d.positions _ free ∙ find_new_id)
          (ground (arith, ==_iff t.offset open_offset))
    | inr taken ↦ no_row (ground (arith, ==_iff t.offset open_offset))
  ]

  on_found :
      (r : PositionRow)
      → find_position t.account_id t.instrument_id d.positions ≡ some r
      → IsBookedOrSame ctx next_id now t d
  on_found r at =
      on_row d.positions r held at (keys t.account_id t.instrument_id r at)
        (elim (Bool-cases (t.offset == open_offset)) [
          | inl opens ↦ rw opens (rw at refl)
          | inr closing ↦ rw closing (rw at refl)
        ])

  on_new : IsBookedOrSame ctx next_id now t d
  on_new = elim (Option-cases (find_position t.account_id t.instrument_id d.positions)) [
    | inr at ↦ on_found at.0 at.1
    | inl absent ↦ elim (Bool-cases (t.offset == open_offset)) [
      | inl opens ↦ on_open ((==_iff t.offset open_offset).0 opens) absent
      | inr closing ↦ no_row (ground arith)
    ]
  ]

module _ (ctx : Context) (next_id now : ℕ) (t : Trade) (d : PositionDb) where
  -- Where each position is found by its key, a trade leaves the database as it was, or it has passed its
  -- checks, its key was not known, its calculation on the position's row was applied, and the row and its
  -- event are committed together.
  pub apply_trade-outcome :
      HasKeys d.positions → ((apply_trade ctx next_id now t d).1 ≡ d) ⊎ Booked ctx next_id now t d
  apply_trade-outcome keys = elim (Option-cases (validate_trade_for_position t)) [
    | inr bad ↦ inl (rw (apply_trade-invalid ctx next_id now t d bad.0 bad.1) refl)
    | inl valid ↦
        elim (Option-cases
          (find_trade_event t.account_id t.exchange t.exchange_trade_id d.events)) [
            | inl new ↦ on_new ctx next_id now t d keys valid new
            | inr known ↦ inl (
                rw (apply_trade-known ctx next_id now t d known.0 valid known.1)
                  (duplicate_result-db (position_event_to_domain known.0) t d))
          ]
  ]
