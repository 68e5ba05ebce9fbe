-- ===== src/Position/Apply/Laws.antt =====
-- The arithmetic of one trade on one position.
use yanzl.Prelude.{◌≡◌, ap, inl, inr, arith}
use yanzl.Prelude.Tests.{Bool-cases}
use yanzl.Prelude.Equality.{◌==◌}
use yanzl.Prelude.Int.{
  ℤ, pos, pos_part, neg_part, ◌+ℤ◌, ◌-ℤ◌, ◌*ℤ◌, ◌≤ℤ◌, ◌<ℤ◌, ℤ_eq, ℤ_beq_iff, int_laws, +ℤ_parts,
  *ℤ_comm, *ℤ_distrib, *ℤ_mono_left,
}
use yanzl.Domain.Enums.{Direction, buy, sell, Offset, open_offset, close_today, close_yesterday}
use yanzl.Domain.Orders.{Decimal}
use yanzl.Domain.Positions.{Position}
use yanzl.Decimal.{Context}
use yanzl.Position.Apply.{weighted_average}

abbrev pub long_qty : Position → Decimal
long_qty p = p.long_today_qty +ℤ p.long_yesterday_qty

abbrev pub short_qty : Position → Decimal
short_qty p = p.short_today_qty +ℤ p.short_yesterday_qty

-- Quantities and prices are not negative, and no more is frozen than held.
pub record IsSound (p : Position) : Type 0 where
  pub long_today : pos 0 ≤ℤ p.long_today_qty
  pub long_yesterday : pos 0 ≤ℤ p.long_yesterday_qty
  pub short_today : pos 0 ≤ℤ p.short_today_qty
  pub short_yesterday : pos 0 ≤ℤ p.short_yesterday_qty
  pub long_frozen : p.frozen_long_qty ≤ℤ long_qty p
  pub short_frozen : p.frozen_short_qty ≤ℤ short_qty p
  pub long_price : pos 0 ≤ℤ p.long_avg_price
  pub short_price : pos 0 ≤ℤ p.short_avg_price

-- What a trade adds to each side, in the source's words: a buy opens a long position and closes a short
-- one.
abbrev pub long_delta : Offset → Direction → Decimal → Decimal
long_delta open_offset buy q = q
long_delta close_today sell q = pos 0 -ℤ q
long_delta close_yesterday sell q = pos 0 -ℤ q
long_delta _ _ q = pos 0

abbrev pub short_delta : Offset → Direction → Decimal → Decimal
short_delta open_offset sell q = q
short_delta close_today buy q = pos 0 -ℤ q
short_delta close_yesterday buy q = pos 0 -ℤ q
short_delta _ _ q = pos 0

-- What lies below each of two values lies below their mean weighted by quantities.
below_mean :
    (lo qty avg added price : ℤ)
    → pos 0 ≤ℤ qty
    → pos 0 ≤ℤ added
    → lo ≤ℤ avg
    → lo ≤ℤ price
    → lo *ℤ (qty +ℤ added) ≤ℤ qty *ℤ avg +ℤ added *ℤ price
below_mean lo qty avg added price hq ha la lp = rw (*ℤ_distrib lo qty added) (
    rw (*ℤ_comm qty avg) (
      rw (*ℤ_comm added price) (
        omega (
          int_laws,
          *ℤ_mono_left lo avg qty la hq,
          *ℤ_mono_left lo price added lp ha,
          +ℤ_parts (lo *ℤ qty) (lo *ℤ added),
          +ℤ_parts (avg *ℤ qty) (price *ℤ added),
        ))))

above_mean :
    (hi qty avg added price : ℤ)
    → pos 0 ≤ℤ qty
    → pos 0 ≤ℤ added
    → avg ≤ℤ hi
    → price ≤ℤ hi
    → qty *ℤ avg +ℤ added *ℤ price ≤ℤ hi *ℤ (qty +ℤ added)
above_mean hi qty avg added price hq ha ah ph = rw (*ℤ_distrib hi qty added) (
    rw (*ℤ_comm qty avg) (
      rw (*ℤ_comm added price) (
        omega (
          int_laws,
          *ℤ_mono_left avg hi qty ah hq,
          *ℤ_mono_left price hi added ph ha,
          +ℤ_parts (hi *ℤ qty) (hi *ℤ added),
          +ℤ_parts (avg *ℤ qty) (price *ℤ added),
        ))))

module _ (ctx : Context) where
  -- The average price after adding a positive quantity to one that is not negative lies between any bounds
  -- that both the old average and the trade's price keep.
  pub weighted_average_between :
      (qty avg added price lo hi : Decimal)
      → pos 0 ≤ℤ qty
      → pos 0 <ℤ added
      → lo ≤ℤ avg
      → lo ≤ℤ price
      → avg ≤ℤ hi
      → price ≤ℤ hi
      → (lo ≤ℤ weighted_average ctx qty avg added price)
        × (weighted_average ctx qty avg added price ≤ℤ hi)
  unfolding weighted_average
  weighted_average_between qty avg added price lo hi hq ha la lp ah ph =
      elim (Bool-cases (qty +ℤ added == pos 0)) [
        | inl nothing ↦
            let e : qty +ℤ added ≡ pos 0 = (ℤ_beq_iff (qty +ℤ added) (pos 0)).0 nothing in
            absurd (
              omega (
                arith,
                +ℤ_parts qty added,
                ap (λ (x : ℤ). pos_part x) e,
                ap (λ (x : ℤ). neg_part x) e,
              ))
        | inr some_held ↦ rw some_held (
          ctx.divide_lower lo _ _ (omega (arith, +ℤ_parts qty added))
              (below_mean lo qty avg added price hq (omega arith) la lp),
          ctx.divide_upper hi _ _ (omega (arith, +ℤ_parts qty added))
              (above_mean hi qty avg added price hq (omega arith) ah ph),
        )
      ]
