-- ===== src/Position/Apply/Closes.antt =====
-- When `_apply_trade_to_position` lets a close through.
use yanzl.Prelude.{String, ◌≢◌, ◌≡◌, refl, ◌↔◌, arith}
use yanzl.Prelude.Int.{pos, ◌+ℤ◌, ◌-ℤ◌, ◌≤ℤ◌, int_laws}
use yanzl.Domain.Enums.{
  Direction, buy, sell, Offset, open_offset, close, close_today, close_yesterday,
}
use yanzl.Domain.Orders.{Decimal}
use yanzl.Domain.Positions.{Trade, Position, applied}
use yanzl.Decimal.{Context}
use yanzl.Position.Apply.{close_bucket, trade_effect, apply_trade_to_position}
use yanzl.Position.Apply.Laws.{long_qty, short_qty, IsSound, long_delta, short_delta}

-- A trade changes quantities and average prices, nothing else.
abbrev pub KeepsRest : Position → Position → Type 0
KeepsRest p q = p ≡ record q {
  long_today_qty = p.long_today_qty;
  long_yesterday_qty = p.long_yesterday_qty;
  short_today_qty = p.short_today_qty;
  short_yesterday_qty = p.short_yesterday_qty;
  long_avg_price = p.long_avg_price;
  short_avg_price = p.short_avg_price;
}

-- What a trade of a quantity, with an offset and a direction, makes of a position.
pub record Effect (p q : Position) (o : Offset) (d : Direction) (n : Decimal) : Type 0 where
  pub sound : IsSound q
  pub long : long_qty q ≡ long_qty p +ℤ long_delta o d n
  pub short : short_qty q ≡ short_qty p +ℤ short_delta o d n
  pub rest : KeepsRest p q

-- The position that a close would leave, whatever is held.
abbrev pub reduced : Offset → Direction → Position → Decimal → Position
reduced close_today sell p n = record p { long_today_qty = p.long_today_qty -ℤ n }
reduced close_yesterday sell p n = record p { long_yesterday_qty = p.long_yesterday_qty -ℤ n }
reduced close_today buy p n = record p { short_today_qty = p.short_today_qty -ℤ n }
reduced close_yesterday buy p n = record p { short_yesterday_qty = p.short_yesterday_qty -ℤ n }
reduced offset direction p n = p

-- A close goes through exactly when the bucket holds the quantity and what is frozen stays covered.
close_bucket-applied :
    (t : Trade) (p q : Position) (bucket : String) (current side frozen : Decimal)
    → ((close_bucket t p bucket current side frozen q).status ≡ applied)
      ↔ ((t.quantity ≤ℤ current) × (frozen ≤ℤ side -ℤ t.quantity))
unfolding close_bucket
close_bucket-applied t p q bucket current side frozen = ground arith

with_long :
    (p : Position) (today yesterday : Decimal)
    → IsSound p
    → pos 0 ≤ℤ today
    → pos 0 ≤ℤ yesterday
    → p.frozen_long_qty ≤ℤ today +ℤ yesterday
    → IsSound (record p { long_today_qty = today; long_yesterday_qty = yesterday })
with_long p today yesterday s ht hy hf = record {
  long_today = ht;
  long_yesterday = hy;
  short_today = s.short_today;
  short_yesterday = s.short_yesterday;
  long_frozen = hf;
  short_frozen = s.short_frozen;
  long_price = s.long_price;
  short_price = s.short_price;
}

with_short :
    (p : Position) (today yesterday : Decimal)
    → IsSound p
    → pos 0 ≤ℤ today
    → pos 0 ≤ℤ yesterday
    → p.frozen_short_qty ≤ℤ today +ℤ yesterday
    → IsSound (record p { short_today_qty = today; short_yesterday_qty = yesterday })
with_short p today yesterday s ht hy hf = record {
  long_today = s.long_today;
  long_yesterday = s.long_yesterday;
  short_today = ht;
  short_yesterday = hy;
  long_frozen = s.long_frozen;
  short_frozen = hf;
  long_price = s.long_price;
  short_price = s.short_price;
}

module _ (ctx : Context) (p : Position) (t : Trade) (s : IsSound p) where
  pub exact_effect :
      (o : Offset) (d : Direction)
      → o ≢ open_offset
      → o ≢ close
      → ((trade_effect ctx o d p t).status ≡ applied) ↔ IsSound (reduced o d p t.quantity)
  unfolding trade_effect
  exact_effect close_today sell _ _ =
      let iff =
        close_bucket-applied t p (reduced close_today sell p t.quantity) "long_today_qty"
          p.long_today_qty (long_qty p) p.frozen_long_qty in
      (
        λ h.
            with_long p _ p.long_yesterday_qty s (let (e, c) = iff.0 h in omega int_laws)
              s.long_yesterday (let (e, c) = iff.0 h in omega int_laws),
        λ r.
            iff.1 (let a = r.long_today in omega int_laws, let b = r.long_frozen in omega int_laws),
      )
  exact_effect close_yesterday sell _ _ =
      let iff =
        close_bucket-applied t p (reduced close_yesterday sell p t.quantity) "long_yesterday_qty"
          p.long_yesterday_qty (long_qty p) p.frozen_long_qty in
      (
        λ h.
            with_long p p.long_today_qty _ s s.long_today (let (e, c) = iff.0 h in omega int_laws)
              (let (e, c) = iff.0 h in omega int_laws),
        λ r.
            iff.1
              (let a = r.long_yesterday in omega int_laws, let b = r.long_frozen in omega int_laws),
      )
  exact_effect close_today buy _ _ =
      let iff =
        close_bucket-applied t p (reduced close_today buy p t.quantity) "short_today_qty"
          p.short_today_qty (short_qty p) p.frozen_short_qty in
      (
        λ h.
            with_short p _ p.short_yesterday_qty s (let (e, c) = iff.0 h in omega int_laws)
              s.short_yesterday (let (e, c) = iff.0 h in omega int_laws),
        λ r.
            iff.1
              (let a = r.short_today in omega int_laws, let b = r.short_frozen in omega int_laws),
      )
  exact_effect close_yesterday buy _ _ =
      let iff =
        close_bucket-applied t p (reduced close_yesterday buy p t.quantity) "short_yesterday_qty"
          p.short_yesterday_qty (short_qty p) p.frozen_short_qty in
      (
        λ h.
            with_short p p.short_today_qty _ s s.short_today
              (let (e, c) = iff.0 h in omega int_laws) (let (e, c) = iff.0 h in omega int_laws),
        λ r.
            iff.1 (
              let a = r.short_yesterday in omega int_laws,
              let b = r.short_frozen in omega int_laws,
            ),
      )
  exact_effect open_offset d n _ = absurd (n refl)
  exact_effect close d _ n = absurd (n refl)

  -- A close of today's or yesterday's bucket on a sound position is applied exactly when the position it
  -- would leave, with the quantity taken from the bucket, is sound.
  pub close-exact :
      t.offset ≢ open_offset
      → t.offset ≢ close
      → ((apply_trade_to_position ctx p t).status ≡ applied)
        ↔ IsSound (reduced t.offset t.direction p t.quantity)
  unfolding apply_trade_to_position
  close-exact n m = exact_effect t.offset t.direction n m
