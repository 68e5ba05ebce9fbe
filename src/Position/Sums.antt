-- ===== src/Position/Sums.antt =====
-- What the events of a position add up to, read off `position_events` alone.
use yanzl.Prelude.{ℕ, suc, ◌≡◌, refl, Bool, ◌&&◌, Option, none, some, List, [], ◌∷◌, ◌++◌, String}
use yanzl.Prelude.Tests.{if◌then◌else◌}
use yanzl.Prelude.Equality.{◌==◌, String_eq}
use yanzl.Prelude.Int.{pos, ◌+ℤ◌}
use yanzl.Domain.Orders.{Decimal}
use yanzl.Domain.Positions.{PositionEvent}
use yanzl.Position.Store.{PositionRow, PositionEventRow}
use yanzl.Position.Apply.Laws.{long_qty, short_qty, long_delta, short_delta}

abbrev pub concerns : String → String → PositionEvent → Bool
concerns a i e = e.account_id == a && e.instrument_id == i

abbrev pub event_long : PositionEvent → Decimal
event_long e = long_delta e.offset e.direction e.quantity

abbrev pub event_short : PositionEvent → Decimal
event_short e = short_delta e.offset e.direction e.quantity

-- The sum of a value over the events of one position, in their order.
abbrev pub add_event :
    (PositionEvent → Decimal) → String → String → Decimal → PositionEventRow → Decimal
add_event value a i total r = if concerns a i r.event then total +ℤ value r.event else total

unfoldable pub total_from :
    (PositionEvent → Decimal) → String → String → Decimal → List PositionEventRow → Decimal
total_from value a i total [] = total
total_from value a i total (r ∷ rs) = total_from value a i (add_event value a i total r) rs

abbrev pub total : (PositionEvent → Decimal) → String → String → List PositionEventRow → Decimal
total value a i rs = total_from value a i (pos 0) rs

unfoldable pub count_from : String → String → ℕ → List PositionEventRow → ℕ
count_from a i n [] = n
count_from a i n (r ∷ rs) = count_from a i (if concerns a i r.event then suc n else n) rs

abbrev pub count : String → String → List PositionEventRow → ℕ
count a i rs = count_from a i 0 rs

pub total_from-append :
    (value : PositionEvent → Decimal) (a i : String) (n : Decimal) (es : List PositionEventRow)
    (r : PositionEventRow)
    → total_from value a i n (es ++ r ∷ []) ≡ add_event value a i (total_from value a i n es) r
unfolding total_from
total_from-append value a i n [] r = refl
total_from-append value a i n (e ∷ es) r =
    total_from-append value a i (add_event value a i n e) es r

pub count_from-append :
    (a i : String) (n : ℕ) (es : List PositionEventRow) (r : PositionEventRow)
    → count_from a i n (es ++ r ∷ [])
      ≡ (if concerns a i r.event then suc (count_from a i n es) else count_from a i n es)
unfolding count_from
count_from-append a i n [] r = refl
count_from-append a i n (e ∷ es) r =
    count_from-append a i (if concerns a i e.event then suc n else n) es r

-- What the row of a position holds; no row holds nothing.
abbrev pub long_of : Option PositionRow → Decimal
long_of none = pos 0
long_of (some r) = long_qty r.state

abbrev pub short_of : Option PositionRow → Decimal
short_of none = pos 0
short_of (some r) = short_qty r.state

abbrev pub version_of : Option PositionRow → ℕ
version_of none = 0
version_of (some r) = r.state.version
