-- ===== src/Position/Tests.antt =====
-- Trades and positions on which the results about the position manager are tried.
use yanzl.Prelude.{ℕ, ◌≡◌, refl, ◌↔◌, false, none, some, ◌⊎◌, List, [], ◌∷◌, String, arith}
use yanzl.Prelude.Lists.{length}
use yanzl.Prelude.Int.{pos, ◌+ℤ◌, ◌-ℤ◌, ◌*ℤ◌, ◌≤ℤ◌, int_laws}
use yanzl.Prelude.Text.{is_blank}
use yanzl.Domain.Enums.{Direction, buy, sell, Offset, open_offset, close_today}
use yanzl.Domain.Orders.{numeral}
use yanzl.Domain.Positions.{
  Trade, Position, applied, duplicate_ignored, conflict, text, PositionManagerResult,
}
use yanzl.Database.UnitOfWork.{ok, Session}
use yanzl.Position.Derived.{update_margin_used, update_pnl, roll_today_to_yesterday_for_settlement}
use yanzl.Position.Derived.Laws.{IsBalanced, roll-IsBalanced, stores-IsLedger}
use yanzl.Decimal.Floor.{floor_divide, floor_context}
use yanzl.Position.Apply.{
  apply_trade_to_position, trade_effect, close_bucket, weighted_average,
  validate_trade_for_position,
}
use yanzl.Position.Apply.Laws.{IsSound, weighted_average_between}
use yanzl.Position.Apply.Closes.{Effect, reduced, close-exact}
use yanzl.Position.Apply.Sound.{apply-Effect}
use yanzl.Position.Store.{
  PositionDb, find_position, find_position_id, find_trade_event, position_to_domain, new_position,
  set_quantities,
}
use yanzl.Position.Store.Laws.{renewed}
use yanzl.Position.Manager.{apply_trade, apply_to, write_trade, manager_result}
use yanzl.Position.Books.{booked_event}
use yanzl.Position.Outcome.{held, opened, Booked, apply_trade-outcome}
use yanzl.Position.Ledger.{IsLedger, Booked-IsLedger, apply_trade-IsLedger, booked}
use yanzl.Position.Retries.{apply_trade-again, apply_trade-late, second}
use yanzl.Position.Replay.{
  replay_trades, sort_trades, insert_trade, replay_from, has_divergence, replay_trades-IsLedger,
  replay_trades_complete,
}
use yanzl.Position.Sums.{total_from, count_from}
use yanzl.Oms.Events.{Format}

abbrev trade : Offset → Direction → ℕ → String → ℕ → Trade
trade offset direction id key quantity = record {
  id = some (numeral id);
  account_id = "acc";
  exchange = "SHFE";
  exchange_trade_id = key;
  instrument_id = "rb2510";
  direction = direction;
  offset = offset;
  price = pos 3500;
  quantity = pos quantity;
  fee_amount = none;
  fee_currency = none;
  trade_time = id;
}

abbrev pub bought : Trade
bought = trade open_offset buy 1 "t-1" 3

abbrev sold : Trade
sold = trade close_today sell 2 "t-2" 2

abbrev pub empty : PositionDb
empty = record { trades = 1 ∷ 2 ∷ []; positions = []; events = [] }

pub empty-IsLedger : IsLedger empty
unfolding find_position total_from count_from
empty-IsLedger = record {
  keys = λ a i r h. absurd (cc h);
  sound = λ a i r h. absurd (cc h);
  long = λ a i. refl;
  short = λ a i. refl;
  version = λ a i. refl;
}

-- The position after the first trade.
abbrev three : Position
three = record (new_position 5 "acc" "rb2510").state {
  id = some (numeral 5);
  long_today_qty = pos 3;
  long_avg_price = pos 3500;
}

three-IsSound : IsSound three
three-IsSound = record {
  long_today = omega arith;
  long_yesterday = omega arith;
  short_today = omega arith;
  short_yesterday = omega arith;
  long_frozen = omega int_laws;
  short_frozen = omega int_laws;
  long_price = omega arith;
  short_price = omega arith;
}

unfoldable pub first : Booked floor_context 5 10 bought empty
unfolding validate_trade_for_position is_blank find_trade_event find_position find_position_id
    apply_trade_to_position trade_effect weighted_average floor_divide ◌+ℤ◌ ◌*ℤ◌ apply_trade
    apply_to write_trade set_quantities
first = record {
  rows = new_position 5 "acc" "rb2510" ∷ [];
  row = new_position 5 "acc" "rb2510";
  after = three;
  key = 1;
  valid = refl;
  new = refl;
  from = opened refl refl refl;
  found = refl;
  status_applied = refl;
  calculated = refl;
  has_key = refl;
  written = refl;
}

-- The position after the second trade.
abbrev one : Position
one = record three { long_today_qty = pos 1; version = 1 }

abbrev pub after_first : PositionDb
after_first = booked floor_context 5 10 bought empty empty-IsLedger first

then_sold : Booked floor_context 6 20 sold after_first
unfolding validate_trade_for_position is_blank find_trade_event find_position find_position_id
    apply_trade_to_position trade_effect close_bucket ◌+ℤ◌ ◌-ℤ◌ apply_trade apply_to write_trade
    set_quantities first
then_sold = record {
  rows = after_first.positions;
  row = renewed (new_position 5 "acc" "rb2510") three;
  after = one;
  key = 2;
  valid = refl;
  new = refl;
  from = held;
  found = refl;
  status_applied = refl;
  calculated = refl;
  has_key = refl;
  written = refl;
}

apply_trade-IsLedger_example : IsLedger (apply_trade floor_context 5 10 bought empty).1
apply_trade-IsLedger_example = apply_trade-IsLedger floor_context 5 10 bought empty empty-IsLedger

apply_trade-outcome_example :
    ((apply_trade floor_context 5 10 bought empty).1 ≡ empty)
    ⊎ Booked floor_context 5 10 bought empty
apply_trade-outcome_example =
    apply_trade-outcome floor_context 5 10 bought empty empty-IsLedger.keys

apply_trade-again_example :
    let d' = (apply_trade floor_context 5 10 bought empty).1 in
    apply_trade floor_context 6 11 bought d' ≡ (
      ok (
          manager_result bought duplicate_ignored
            (some (position_to_domain (renewed first.row first.after)))
            (some (booked_event 10 bought first.key first.row first.after))
            none),
      d',
    )
apply_trade-again_example =
    apply_trade-again floor_context 5 10 bought empty empty-IsLedger first 6 11

abbrev after_second : PositionDb
after_second =
    second floor_context 5 10 bought empty empty-IsLedger first 6 20 sold then_sold refl refl

apply_trade-late_example : apply_trade floor_context 7 30 bought after_second ≡ (
  ok (
      manager_result bought conflict
        (some (position_to_domain (renewed then_sold.row then_sold.after)))
        (some (booked_event 10 bought first.key first.row first.after))
        (some (text "position_projection_diverged_from_event_snapshot"))),
  after_second,
)
apply_trade-late_example =
    apply_trade-late floor_context 5 10 bought empty empty-IsLedger first 6 20 sold then_sold refl
      refl 7 30

three_after : (apply_trade_to_position floor_context three sold).status ≡ applied
unfolding apply_trade_to_position trade_effect close_bucket ◌+ℤ◌ ◌-ℤ◌
three_after = refl

three_left :
    (apply_trade_to_position floor_context three sold).position
    ≡ some (record three { long_today_qty = pos 1 })
unfolding apply_trade_to_position trade_effect close_bucket ◌+ℤ◌ ◌-ℤ◌
three_left = refl

apply-Effect_example :
    Effect three (record three { long_today_qty = pos 1 }) close_today sell (pos 2)
apply-Effect_example =
    apply-Effect floor_context three (record three { long_today_qty = pos 1 }) sold three-IsSound
      (omega arith) (omega arith) three_after three_left

close-exact_example :
    ((apply_trade_to_position floor_context three sold).status ≡ applied)
    ↔ IsSound (reduced close_today sell three (pos 2))
close-exact_example = close-exact floor_context three sold three-IsSound (λ h. cc h) (λ h. cc h)

weighted_average_between_example :
    (pos 3400 ≤ℤ weighted_average floor_context (pos 3) (pos 3500) (pos 1) (pos 3400))
    × (weighted_average floor_context (pos 3) (pos 3500) (pos 1) (pos 3400) ≤ℤ pos 3500)
weighted_average_between_example =
    weighted_average_between floor_context (pos 3) (pos 3500) (pos 1) (pos 3400) (pos 3400)
      (pos 3500) (omega arith) (omega arith) (omega arith) (omega arith) (omega arith) (omega arith)

abbrev tally : ℕ → String
tally n = "id"

abbrev fmt : Format
fmt = record { str = tally; isoformat = tally }

abbrev numbered : ℕ → ℕ
numbered n = n

abbrev results : List PositionManagerResult
results =
    manager_result bought applied (some (position_to_domain (renewed first.row first.after)))
      (some (booked_event 10 bought first.key first.row first.after)) none
    ∷ []

abbrev tens : ℕ → ℕ
tens n = 10

abbrev fives : ℕ → ℕ
fives n = 5

replayed : (replay_trades fmt floor_context fives tens (bought ∷ []) empty).0 ≡ ok results
unfolding replay_trades replay_from sort_trades insert_trade validate_trade_for_position is_blank
    find_trade_event find_position find_position_id apply_trade_to_position trade_effect
    weighted_average floor_divide ◌+ℤ◌ ◌*ℤ◌ apply_trade apply_to write_trade set_quantities first
replayed = refl

quiet : has_divergence results ≡ false
unfolding has_divergence
quiet = refl

replay_trades-IsLedger_example :
    IsLedger (replay_trades fmt floor_context fives tens (sold ∷ bought ∷ []) empty).1
replay_trades-IsLedger_example =
    replay_trades-IsLedger fmt floor_context fives tens (sold ∷ bought ∷ []) empty empty-IsLedger

replay_trades_complete_example : length results ≡ 1
replay_trades_complete_example =
    replay_trades_complete fmt floor_context fives tens (bought ∷ []) empty results replayed quiet

abbrev session : Session PositionDb
session = record { committed = empty; working = after_first }

pub after_first-IsLedger : IsLedger after_first
after_first-IsLedger = Booked-IsLedger floor_context 5 10 bought empty empty-IsLedger first

roll-IsBalanced_example :
    IsBalanced (roll_today_to_yesterday_for_settlement "acc" "rb2510" 1 session).1.working
roll-IsBalanced_example = roll-IsBalanced "acc" "rb2510" 1 session (record {
  keys = after_first-IsLedger.keys;
  sound = after_first-IsLedger.sound;
  long = after_first-IsLedger.long;
  short = after_first-IsLedger.short;
})

stores-IsLedger_example :
    IsLedger (update_margin_used "acc" "rb2510" (pos 40) (some 1) session).1.working
    × IsLedger (update_pnl "acc" "rb2510" (pos 5) (pos 6) (some 1) session).1.working
stores-IsLedger_example =
    stores-IsLedger "acc" "rb2510" (pos 40) (pos 5) (pos 6) (some 1) session after_first-IsLedger
