-- ===== src/Position/Apply/Sound.antt =====
-- What `_apply_trade_to_position` keeps sound.
use yanzl.Prelude.{String, ◌≢◌, ◌≡◌, refl, sym, some, arith}
use yanzl.Prelude.Int.{pos, ◌+ℤ◌, ◌≤ℤ◌, ◌<ℤ◌, int_laws, eq_of_parts}
use yanzl.Domain.Enums.{
  Direction, buy, sell, Offset, open_offset, close, close_today, close_yesterday,
}
use yanzl.Domain.Orders.{Decimal}
use yanzl.Domain.Positions.{Trade, Position, applied}
use yanzl.Decimal.{Context}
use yanzl.Position.Apply.{close_bucket, weighted_average, trade_effect, apply_trade_to_position}
use yanzl.Position.Apply.Laws.{long_qty, short_qty, IsSound, weighted_average_between}
use yanzl.Position.Apply.Closes.{Effect, reduced, exact_effect}

-- What a close leaves when it goes through.
close_bucket-position :
    (t : Trade) (p q left : Position) (bucket : String) (current side frozen : Decimal)
    → (close_bucket t p bucket current side frozen left).status ≡ applied
    → (close_bucket t p bucket current side frozen left).position ≡ some q
    → left ≡ q
unfolding close_bucket
close_bucket-position t p q left bucket current side frozen h e = ground arith

reduced-Effect :
    (p : Position) (o : Offset) (d : Direction) (n : Decimal)
    → o ≢ open_offset
    → IsSound (reduced o d p n)
    → Effect p (reduced o d p n) o d n
reduced-Effect p close_today sell n _ r = record {
  sound = r;
  long = eq_of_parts _ _ (omega int_laws);
  short = eq_of_parts _ _ (omega int_laws);
  rest = refl;
}
reduced-Effect p close_yesterday sell n _ r = record {
  sound = r;
  long = eq_of_parts _ _ (omega int_laws);
  short = eq_of_parts _ _ (omega int_laws);
  rest = refl;
}
reduced-Effect p close_today buy n _ r = record {
  sound = r;
  long = eq_of_parts _ _ (omega int_laws);
  short = eq_of_parts _ _ (omega int_laws);
  rest = refl;
}
reduced-Effect p close_yesterday buy n _ r = record {
  sound = r;
  long = eq_of_parts _ _ (omega int_laws);
  short = eq_of_parts _ _ (omega int_laws);
  rest = refl;
}
reduced-Effect p close d n _ r = record {
  sound = r;
  long = eq_of_parts _ _ (omega int_laws);
  short = eq_of_parts _ _ (omega int_laws);
  rest = refl;
}
reduced-Effect p open_offset d n h _ = absurd (h refl)

-- The record that an opening trade leaves, with any average price that is not negative.
opened_long :
    (p : Position) (n price : Decimal)
    → IsSound p
    → pos 0 <ℤ n
    → pos 0 ≤ℤ price
    → Effect p
        (record p { long_today_qty = p.long_today_qty +ℤ n; long_avg_price = price })
        open_offset
        buy
        n
opened_long p n price s h k = record {
  sound = record {
    long_today = omega (int_laws, s.long_today);
    long_yesterday = s.long_yesterday;
    short_today = s.short_today;
    short_yesterday = s.short_yesterday;
    long_frozen = omega (int_laws, s.long_frozen);
    short_frozen = s.short_frozen;
    long_price = k;
    short_price = s.short_price;
  };
  long = eq_of_parts _ _ (omega int_laws);
  short = eq_of_parts _ _ (omega int_laws);
  rest = refl;
}

opened_short :
    (p : Position) (n price : Decimal)
    → IsSound p
    → pos 0 <ℤ n
    → pos 0 ≤ℤ price
    → Effect p
        (record p { short_today_qty = p.short_today_qty +ℤ n; short_avg_price = price })
        open_offset
        sell
        n
opened_short p n price s h k = record {
  sound = record {
    long_today = s.long_today;
    long_yesterday = s.long_yesterday;
    short_today = omega (int_laws, s.short_today);
    short_yesterday = s.short_yesterday;
    long_frozen = s.long_frozen;
    short_frozen = omega (int_laws, s.short_frozen);
    long_price = s.long_price;
    short_price = k;
  };
  long = eq_of_parts _ _ (omega int_laws);
  short = eq_of_parts _ _ (omega int_laws);
  rest = refl;
}

some_injective : (p q : Position) → some p ≡ some q → p ≡ q
some_injective p q e = ground arith

module _ (ctx : Context) where
  average_nonneg :
      (qty avg n price : Decimal)
      → pos 0 ≤ℤ qty
      → pos 0 <ℤ n
      → pos 0 ≤ℤ avg
      → pos 0 ≤ℤ price
      → pos 0 ≤ℤ weighted_average ctx qty avg n price
  average_nonneg qty avg n price hq hn ha hp =
      (weighted_average_between ctx qty avg n price (pos 0) (avg +ℤ price) hq hn ha hp
        (omega int_laws) (omega int_laws)).0

  effect :
      (o : Offset) (d : Direction) (p q : Position) (t : Trade)
      → IsSound p
      → pos 0 <ℤ t.quantity
      → pos 0 ≤ℤ t.price
      → (trade_effect ctx o d p t).status ≡ applied
      → (trade_effect ctx o d p t).position ≡ some q
      → Effect p q o d t.quantity
  unfolding trade_effect
  effect open_offset buy p q t s hn hp h e =
      rw (sym (some_injective _ q e)) (
        opened_long p t.quantity _ s hn
          (average_nonneg _ _ _ _ (omega int_laws) hn s.long_price hp))
  effect open_offset sell p q t s hn hp h e = rw (sym (some_injective _ q e)) (
      opened_short p t.quantity _ s hn
        (average_nonneg _ _ _ _ (omega int_laws) hn s.short_price hp))
  effect close_today sell p q t s hn hp h e =
      rw
        (sym (
          close_bucket-position t p q (reduced close_today sell p t.quantity) "long_today_qty"
            p.long_today_qty (long_qty p) p.frozen_long_qty h e))
        (reduced-Effect p close_today sell t.quantity (ground arith)
          ((exact_effect ctx p t s close_today sell (ground arith) (ground arith)).0 h))
  effect close_yesterday sell p q t s hn hp h e =
      rw
        (sym (
          close_bucket-position t p q (reduced close_yesterday sell p t.quantity)
            "long_yesterday_qty" p.long_yesterday_qty (long_qty p) p.frozen_long_qty h e))
        (reduced-Effect p close_yesterday sell t.quantity (ground arith)
          ((exact_effect ctx p t s close_yesterday sell (ground arith) (ground arith)).0 h))
  effect close_today buy p q t s hn hp h e =
      rw
        (sym (
          close_bucket-position t p q (reduced close_today buy p t.quantity) "short_today_qty"
            p.short_today_qty (short_qty p) p.frozen_short_qty h e))
        (reduced-Effect p close_today buy t.quantity (ground arith)
          ((exact_effect ctx p t s close_today buy (ground arith) (ground arith)).0 h))
  effect close_yesterday buy p q t s hn hp h e =
      rw
        (sym (
          close_bucket-position t p q (reduced close_yesterday buy p t.quantity)
            "short_yesterday_qty" p.short_yesterday_qty (short_qty p) p.frozen_short_qty h e))
        (reduced-Effect p close_yesterday buy t.quantity (ground arith)
          ((exact_effect ctx p t s close_yesterday buy (ground arith) (ground arith)).0 h))
  effect close d p q t s hn hp h e = absurd (ground arith)

  -- A trade of a positive quantity at a price that is not negative, applied to a sound position, leaves a
  -- sound one: each side has changed by the trade's delta, and only quantities and average prices differ.
  pub apply-Effect :
      (p q : Position) (t : Trade)
      → IsSound p
      → pos 0 <ℤ t.quantity
      → pos 0 ≤ℤ t.price
      → (apply_trade_to_position ctx p t).status ≡ applied
      → (apply_trade_to_position ctx p t).position ≡ some q
      → Effect p q t.offset t.direction t.quantity
  unfolding apply_trade_to_position
  apply-Effect p q t s hn hp h e = effect t.offset t.direction p q t s hn hp h e

  closed_position :
      (o : Offset) (d : Direction) (p q : Position) (t : Trade)
      → o ≢ open_offset
      → (trade_effect ctx o d p t).status ≡ applied
      → (trade_effect ctx o d p t).position ≡ some q
      → reduced o d p t.quantity ≡ q
  unfolding trade_effect
  closed_position close_today sell p q t n h e =
      close_bucket-position t p q (reduced close_today sell p t.quantity) "long_today_qty"
        p.long_today_qty (long_qty p) p.frozen_long_qty h e
  closed_position close_yesterday sell p q t n h e =
      close_bucket-position t p q (reduced close_yesterday sell p t.quantity) "long_yesterday_qty"
        p.long_yesterday_qty (long_qty p) p.frozen_long_qty h e
  closed_position close_today buy p q t n h e =
      close_bucket-position t p q (reduced close_today buy p t.quantity) "short_today_qty"
        p.short_today_qty (short_qty p) p.frozen_short_qty h e
  closed_position close_yesterday buy p q t n h e =
      close_bucket-position t p q (reduced close_yesterday buy p t.quantity) "short_yesterday_qty"
        p.short_yesterday_qty (short_qty p) p.frozen_short_qty h e
  closed_position open_offset d p q t n h e = absurd (n refl)
  closed_position close d p q t n h e = absurd (ground arith)

  -- An applied closing trade leaves the position with the quantity taken from the bucket.
  pub apply_trade_to_position-reduced :
      (p q : Position) (t : Trade)
      → t.offset ≢ open_offset
      → (apply_trade_to_position ctx p t).status ≡ applied
      → (apply_trade_to_position ctx p t).position ≡ some q
      → reduced t.offset t.direction p t.quantity ≡ q
  unfolding apply_trade_to_position
  apply_trade_to_position-reduced p q t n h e = closed_position t.offset t.direction p q t n h e

  -- The offset CLOSE, without a day, is never applied.
  close_unapplied :
      (d : Direction) (p : Position) (t : Trade) → (trade_effect ctx close d p t).status ≢ applied
  unfolding trade_effect
  close_unapplied d p t h = ground arith

  pub apply_unapplied :
      (p : Position) (t : Trade)
      → (apply_trade_to_position ctx p t).status ≡ applied
      → t.offset ≢ close
  unfolding apply_trade_to_position
  apply_unapplied p t h e = absurd (close_unapplied t.direction p t (rw e at h))
