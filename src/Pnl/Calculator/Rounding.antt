-- ===== src/Pnl/Calculator/Rounding.antt =====
-- The results without rounding, and when the calculator gives them.
use yanzl.Prelude.{◌≡◌}
use yanzl.Prelude.Equality.{String_eq}
use yanzl.Prelude.Int.{◌+ℤ◌, ◌-ℤ◌, ◌*ℤ◌}
use yanzl.Domain.Enums.{Direction, buy, sell}
use yanzl.Domain.Orders.{Decimal}
use yanzl.Domain.Positions.{Position}
use yanzl.Decimal.{Context, Fits, times}
use yanzl.Pnl.Calculator.{gross_realized, gross_unrealized}

-- The two gross results without rounding.
abbrev pub exact_realized : Direction → Decimal → Decimal → Decimal → Decimal → Decimal
exact_realized sell price avg_cost quantity multiplier =
    (price -ℤ avg_cost) *ℤ quantity *ℤ multiplier
exact_realized buy price avg_cost quantity multiplier =
    (avg_cost -ℤ price) *ℤ quantity *ℤ multiplier

abbrev pub exact_unrealized : Position → Decimal → Decimal → Decimal
exact_unrealized p price multiplier =
    (price -ℤ p.long_avg_price) *ℤ (p.long_today_qty +ℤ p.long_yesterday_qty) *ℤ multiplier
    +ℤ (p.short_avg_price -ℤ price) *ℤ (p.short_today_qty +ℤ p.short_yesterday_qty) *ℤ multiplier

-- A gain per lot, its product with a quantity and the result have 28 digits at most.
pub record ResultFits (gain quantity multiplier : Decimal) : Type 0 where
  pub gain_fits : Fits gain
  pub product_fits : Fits (gain *ℤ quantity)
  pub result_fits : Fits (gain *ℤ quantity *ℤ multiplier)

abbrev pub RealizedFits : Direction → Decimal → Decimal → Decimal → Decimal → Type 0
RealizedFits sell price avg_cost = ResultFits (price -ℤ avg_cost)
RealizedFits buy price avg_cost = ResultFits (avg_cost -ℤ price)

-- Every number on the way to a position's unrealized result has 28 digits at most.
pub record UnrealizedFits (p : Position) (price multiplier : Decimal) : Type 0 where
  pub long_qty : Fits (p.long_today_qty +ℤ p.long_yesterday_qty)
  pub short_qty : Fits (p.short_today_qty +ℤ p.short_yesterday_qty)
  pub long :
      ResultFits (price -ℤ p.long_avg_price) (p.long_today_qty +ℤ p.long_yesterday_qty) multiplier
  pub short :
      ResultFits
        (p.short_avg_price -ℤ price)
        (p.short_today_qty +ℤ p.short_yesterday_qty)
        multiplier
  pub total : Fits (exact_unrealized p price multiplier)

module _ (ctx : Context) where
  result_kept :
      (gain quantity multiplier : Decimal)
      → ResultFits gain quantity multiplier
      → times ctx (times ctx (ctx.round gain) quantity) multiplier ≡ gain *ℤ quantity *ℤ multiplier
  result_kept g q k h =
      rw (ctx.round_kept g h.gain_fits)
        (rw (ctx.round_kept (g *ℤ q) h.product_fits) (ctx.round_kept (g *ℤ q *ℤ k) h.result_fits))

  pub gross_realized_kept :
      (d : Direction) (price avg_cost q k : Decimal)
      → RealizedFits d price avg_cost q k
      → gross_realized ctx d price avg_cost q k ≡ exact_realized d price avg_cost q k
  gross_realized_kept sell price avg_cost q k h = result_kept (price -ℤ avg_cost) q k h
  gross_realized_kept buy price avg_cost q k h = result_kept (avg_cost -ℤ price) q k h

  pub gross_unrealized_kept :
      (p : Position) (price k : Decimal)
      → UnrealizedFits p price k
      → gross_unrealized ctx p price k ≡ exact_unrealized p price k
  gross_unrealized_kept p price k h =
      rw (ctx.round_kept (p.long_today_qty +ℤ p.long_yesterday_qty) h.long_qty) (
        rw (ctx.round_kept (p.short_today_qty +ℤ p.short_yesterday_qty) h.short_qty) (
          rw
            (result_kept (price -ℤ p.long_avg_price) (p.long_today_qty +ℤ p.long_yesterday_qty) k
              h.long)
            (rw
              (result_kept (p.short_avg_price -ℤ price) (p.short_today_qty +ℤ p.short_yesterday_qty)
                k h.short)
              (ctx.round_kept (exact_unrealized p price k) h.total))))
