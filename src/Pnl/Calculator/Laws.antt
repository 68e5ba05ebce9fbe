-- ===== src/Pnl/Calculator/Laws.antt =====
-- How the realized and the unrealized result fit together.
use mathlib.Core.Option
use yanzl.Prelude.{ℕ, ◌≡◌, refl, ap, ◌∙◌, ◌≢◌, Option, some, arith}
use yanzl.Prelude.Equality.{==_refl, String_eq}
use yanzl.Prelude.Int.{
  ℤ, pos, ◌+ℤ◌, ◌-ℤ◌, ◌*ℤ◌, ◌≤ℤ◌, ◌<ℤ◌, *ℤ_comm, *ℤ_distrib, eq_of_parts, int_laws,
}
use yanzl.Domain.Enums.{
  Direction, buy, sell, Offset, open_offset, close, close_today, close_yesterday,
}
use yanzl.Domain.Orders.{Decimal}
use yanzl.Domain.Positions.{Trade, Position, applied}
use yanzl.Decimal.{Context}
use yanzl.Position.Apply.{apply_trade_to_position}
use yanzl.Position.Apply.Sound.{apply_trade_to_position-reduced, apply_unapplied}
use yanzl.Oms.Events.{Format}
use yanzl.Position.Apply.Closes.{reduced}
use yanzl.Pnl.Calculator.{
  PnlPriceBasis, CloseTradeContext, PnlResult, RealizedPnl, UnrealizedPnl, gross_realized,
  calculate_realized_pnl, calculate_unrealized_pnl, positive_decimal_or_none,
}
use yanzl.Pnl.Calculator.Rounding.{
  exact_realized, exact_unrealized, RealizedFits, UnrealizedFits, gross_realized_kept,
  gross_unrealized_kept,
}

-- A product with a sum of quantities is the sum of the products.
spread : (a q r k : ℤ) → a *ℤ (q +ℤ r) *ℤ k ≡ a *ℤ q *ℤ k +ℤ a *ℤ r *ℤ k
spread a q r k = rw (*ℤ_distrib a q r) (
    rw (*ℤ_comm (a *ℤ q +ℤ a *ℤ r) k) (
      rw (*ℤ_distrib k (a *ℤ q) (a *ℤ r)) (rw (*ℤ_comm k (a *ℤ q)) (rw (*ℤ_comm k (a *ℤ r)) refl))))

split_today : (x y q : ℤ) → x +ℤ y ≡ q +ℤ (x -ℤ q +ℤ y)
split_today x y q = eq_of_parts _ _ (omega int_laws)

split_yesterday : (x y q : ℤ) → x +ℤ y ≡ q +ℤ (x +ℤ (y -ℤ q))
split_yesterday x y q = eq_of_parts _ _ (omega int_laws)

add_left : (a b s : ℤ) → a +ℤ b +ℤ s ≡ a +ℤ (b +ℤ s)
add_left a b s = eq_of_parts _ _ (omega int_laws)

add_right : (a b s : ℤ) → s +ℤ (a +ℤ b) ≡ a +ℤ (s +ℤ b)
add_right a b s = eq_of_parts _ _ (omega int_laws)

-- The average price of the side that a closing trade reduces.
abbrev pub side_price : Direction → Position → Decimal
side_price sell p = p.long_avg_price
side_price buy p = p.short_avg_price

gross_moves :
    (o : Offset) (d : Direction) (p : Position) (m k q : Decimal)
    → o ≢ open_offset
    → o ≢ close
    → exact_unrealized p m k
      ≡ exact_realized d m (side_price d p) q k +ℤ exact_unrealized (reduced o d p q) m k
gross_moves close_today sell p m k q _ _ =
    ap
      (λ (x : ℤ).
        (m -ℤ p.long_avg_price) *ℤ x *ℤ k
        +ℤ (p.short_avg_price -ℤ m) *ℤ (p.short_today_qty +ℤ p.short_yesterday_qty) *ℤ k)
      (split_today p.long_today_qty p.long_yesterday_qty q)
    ∙ rw (spread (m -ℤ p.long_avg_price) q (p.long_today_qty -ℤ q +ℤ p.long_yesterday_qty) k)
        (add_left _ _ _)
gross_moves close_yesterday sell p m k q _ _ =
    ap
      (λ (x : ℤ).
        (m -ℤ p.long_avg_price) *ℤ x *ℤ k
        +ℤ (p.short_avg_price -ℤ m) *ℤ (p.short_today_qty +ℤ p.short_yesterday_qty) *ℤ k)
      (split_yesterday p.long_today_qty p.long_yesterday_qty q)
    ∙ rw (spread (m -ℤ p.long_avg_price) q (p.long_today_qty +ℤ (p.long_yesterday_qty -ℤ q)) k)
        (add_left _ _ _)
gross_moves close_today buy p m k q _ _ =
    ap
      (λ (x : ℤ).
        (m -ℤ p.long_avg_price) *ℤ (p.long_today_qty +ℤ p.long_yesterday_qty) *ℤ k
        +ℤ (p.short_avg_price -ℤ m) *ℤ x *ℤ k)
      (split_today p.short_today_qty p.short_yesterday_qty q)
    ∙ rw (spread (p.short_avg_price -ℤ m) q (p.short_today_qty -ℤ q +ℤ p.short_yesterday_qty) k)
        (add_right _ _ _)
gross_moves close_yesterday buy p m k q _ _ =
    ap
      (λ (x : ℤ).
        (m -ℤ p.long_avg_price) *ℤ (p.long_today_qty +ℤ p.long_yesterday_qty) *ℤ k
        +ℤ (p.short_avg_price -ℤ m) *ℤ x *ℤ k)
      (split_yesterday p.short_today_qty p.short_yesterday_qty q)
    ∙ rw (spread (p.short_avg_price -ℤ m) q (p.short_today_qty +ℤ (p.short_yesterday_qty -ℤ q)) k)
        (add_right _ _ _)
gross_moves open_offset d p m k q n _ = absurd (n refl)
gross_moves close d p m k q _ n = absurd (n refl)

abbrev pub realized_gross : PnlResult → Option Decimal
realized_gross r = Option.map (λ (x : RealizedPnl). x.gross_realized_pnl) r.realized

abbrev pub unrealized_gross : PnlResult → Option Decimal
unrealized_gross r = Option.map (λ (x : UnrealizedPnl). x.gross_unrealized_pnl) r.unrealized

positive_given : (v : Decimal) → pos 0 <ℤ v → positive_decimal_or_none (some v) ≡ some v
unfolding positive_decimal_or_none
positive_given v h = ground arith

unrealized-eq :
    (ctx : Context) (p : Position) (basis : PnlPriceBasis) (m k : Decimal)
    → pos 0 <ℤ m
    → pos 0 <ℤ k
    → UnrealizedFits p m k
    → unrealized_gross (calculate_unrealized_pnl ctx (some p) basis (some m) (some k))
      ≡ some (exact_unrealized p m k)
unfolding calculate_unrealized_pnl
unrealized-eq ctx p basis m k hm hk fits =
    rw (positive_given m hm)
      (rw (positive_given k hk) (ap some (gross_unrealized_kept ctx p m k fits)))

realized_given :
    (ctx : Context) (fmt : Format) (now : ℕ) (t : Trade) (c : CloseTradeContext)
    → t.account_id ≡ c.account_id
    → t.instrument_id ≡ c.instrument_id
    → t.offset ≢ open_offset
    → t.quantity ≤ℤ c.available_qty
    → realized_gross (calculate_realized_pnl ctx fmt now t c)
      ≡ some (gross_realized ctx t.direction t.price c.avg_cost t.quantity c.contract_multiplier)
unfolding calculate_realized_pnl
realized_given ctx fmt now t c a i o q =
    ground (arith, ==_refl t.account_id, ==_refl t.instrument_id)

-- A closing trade that is applied to a position moves its result from unrealized to realized. Let the
-- trade match the close context in account and instrument, its quantity be within what the context has
-- available, the context's cost be the average price of the side that the trade reduces, and price and
-- multiplier be positive. Let also every number that the two calculators compute on the way, for the
-- trade and for the position before and after it, have 28 digits at most. Then, marked at the trade's
-- price, the unrealized result of the position before is exactly the realized result of the trade plus
-- the unrealized result of the position after.
pub close_moves_result :
    (ctx : Context) (fmt : Format) (now : ℕ) (basis : PnlPriceBasis) (p q : Position) (t : Trade)
    (c : CloseTradeContext)
    → t.offset ≢ open_offset
    → (apply_trade_to_position ctx p t).status ≡ applied
    → (apply_trade_to_position ctx p t).position ≡ some q
    → t.account_id ≡ c.account_id
    → t.instrument_id ≡ c.instrument_id
    → t.quantity ≤ℤ c.available_qty
    → c.avg_cost ≡ side_price t.direction p
    → pos 0 <ℤ t.price
    → pos 0 <ℤ c.contract_multiplier
    → RealizedFits t.direction t.price c.avg_cost t.quantity c.contract_multiplier
    → UnrealizedFits p t.price c.contract_multiplier
    → UnrealizedFits q t.price c.contract_multiplier
    → (a : Decimal) × (b : Decimal) × (realized_gross (calculate_realized_pnl ctx fmt now t c)
        ≡ some a)
      × (unrealized_gross (
            calculate_unrealized_pnl ctx (some q) basis (some t.price) (some c.contract_multiplier))
          ≡ some b)
      × (unrealized_gross (
            calculate_unrealized_pnl ctx (some p) basis (some t.price) (some c.contract_multiplier))
          ≡ some (a +ℤ b))
close_moves_result ctx fmt now basis p q t c o h e account instrument available cost price
      multiplier of_trade of_p of_q =
    (
      exact_realized t.direction t.price c.avg_cost t.quantity c.contract_multiplier,
      exact_unrealized q t.price c.contract_multiplier,
      realized_given ctx fmt now t c account instrument o available
          ∙ ap some (
              gross_realized_kept ctx t.direction t.price c.avg_cost t.quantity
                c.contract_multiplier of_trade),
      unrealized-eq ctx q basis t.price c.contract_multiplier price multiplier of_q,
      unrealized-eq ctx p basis t.price c.contract_multiplier price multiplier of_p
          ∙ ap some (
              gross_moves t.offset t.direction p t.price c.contract_multiplier t.quantity o
                (apply_unapplied ctx p t h)
              ∙ rw cost (rw (apply_trade_to_position-reduced ctx p q t o h e) refl)),
    )
