-- ===== src/Margin/Calculator/Laws.antt =====
-- When a margin is calculated, and how large it is.
use yanzl.Prelude.{◌≡◌, refl, ◌↔◌, Option, none, some, inl, inr, arith}
use yanzl.Prelude.Tests.{Bool-cases}
use yanzl.Prelude.Equality.{◌==◌, String_eq}
use yanzl.Prelude.Int.{pos, ◌+ℤ◌, ◌≤ℤ◌, *ℤ_nonneg, int_laws}
use yanzl.Domain.Orders.{Decimal}
use yanzl.Domain.Positions.{Position}
use yanzl.Decimal.{Context}
use yanzl.Position.Apply.Laws.{IsSound}
use yanzl.Margin.Calculator.{
  MarginPriceBasis, manual, last_price, settlement_price, avg_price, MarginRule, AccountContext,
  MarginRequirement, MarginResult, ResolvedMarginPrices, calculated, same_price, average_prices,
  resolve_margin_prices, side_margin, total_initial, with_prices, calculate, held_long, held_short,
}

-- The rates and the multiplier of a rule are not negative, as its validators demand.
pub record IsRule (rule : MarginRule) : Type 0 where
  pub multiplier : pos 0 ≤ℤ rule.contract_multiplier
  pub long_initial : pos 0 ≤ℤ rule.long_initial_margin_rate
  pub short_initial : pos 0 ≤ℤ rule.short_initial_margin_rate

same_price-nonneg :
    (o : Option Decimal) (r : ResolvedMarginPrices)
    → same_price o ≡ some r
    → (pos 0 ≤ℤ r.long_price) × (pos 0 ≤ℤ r.short_price)
unfolding same_price
same_price-nonneg none r e = absurd (cc e)
same_price-nonneg (some v) r e = ground arith

average_prices-nonneg :
    (ctx : Context) (p : Position) (r : ResolvedMarginPrices)
    → average_prices ctx p ≡ some r
    → (pos 0 ≤ℤ r.long_price) × (pos 0 ≤ℤ r.short_price)
unfolding average_prices
average_prices-nonneg ctx p r e = ground arith

resolve_margin_prices-nonneg :
    (ctx : Context) (basis : MarginPriceBasis) (p : Position) (rule : MarginRule)
    (latest settlement : Option Decimal) (r : ResolvedMarginPrices)
    → resolve_margin_prices ctx basis p rule latest settlement ≡ some r
    → (pos 0 ≤ℤ r.long_price) × (pos 0 ≤ℤ r.short_price)
unfolding resolve_margin_prices
resolve_margin_prices-nonneg ctx manual p rule l s r e = same_price-nonneg rule.price r e
resolve_margin_prices-nonneg ctx last_price p rule l s r e = same_price-nonneg l r e
resolve_margin_prices-nonneg ctx settlement_price p rule l s r e = same_price-nonneg s r e
resolve_margin_prices-nonneg ctx avg_price p rule l s r e = average_prices-nonneg ctx p r e

side_margin-nonneg :
    (quantity price multiplier rate : Decimal)
    → pos 0 ≤ℤ quantity
    → pos 0 ≤ℤ price
    → pos 0 ≤ℤ multiplier
    → pos 0 ≤ℤ rate
    → pos 0 ≤ℤ side_margin quantity price multiplier rate
side_margin-nonneg quantity price multiplier rate hq hp hm hr =
    *ℤ_nonneg _ rate (*ℤ_nonneg _ multiplier (*ℤ_nonneg quantity price hq hp) hm) hr

total_initial-nonneg :
    (p : Position) (rule : MarginRule) (r : ResolvedMarginPrices)
    → IsSound p
    → IsRule rule
    → (pos 0 ≤ℤ r.long_price) × (pos 0 ≤ℤ r.short_price)
    → pos 0 ≤ℤ total_initial p rule r
total_initial-nonneg p rule r s k prices =
    let a =
      side_margin-nonneg (held_long p) r.long_price rule.contract_multiplier
        rule.long_initial_margin_rate (omega (int_laws, s.long_today, s.long_yesterday)) prices.0
        k.multiplier k.long_initial in
    let b =
      side_margin-nonneg (held_short p) r.short_price rule.contract_multiplier
        rule.short_initial_margin_rate (omega (int_laws, s.short_today, s.short_yesterday)) prices.1
        k.multiplier k.short_initial in
    omega int_laws

-- What a requirement says, with the verdict that comes with it.
pub record IsCovered (account : AccountContext) (x : MarginResult) (m : MarginRequirement)
    : Type 0 where
  pub nonneg : pos 0 ≤ℤ m.margin_used
  pub sum : m.margin_used ≡ m.long_initial_margin +ℤ m.short_initial_margin
  pub verdict : (x.status ≡ calculated) ↔ (m.margin_used ≤ℤ account.available_cash)

module _ (p : Position) (rule : MarginRule) (account : AccountContext) (s : IsSound p)
    (k : IsRule rule) where
  with_prices-IsCovered :
      (o : Option ResolvedMarginPrices) (m : MarginRequirement)
      → ((r : ResolvedMarginPrices)
          → o ≡ some r
          → (pos 0 ≤ℤ r.long_price) × (pos 0 ≤ℤ r.short_price))
      → (with_prices p rule account o).requirement ≡ some m
      → IsCovered account (with_prices p rule account o) m
  unfolding with_prices
  with_prices-IsCovered none m prices e = absurd (cc e)
  with_prices-IsCovered (some r) m prices e =
      let least = total_initial-nonneg p rule r s k (prices r refl) in
      record { nonneg = ground arith; sum = ground arith; verdict = ground arith }

-- For a sound position and a rule whose multiplier and rates are not negative, a requirement that the
-- calculation reports is not negative and is the sum of the two sides; and it is accepted exactly when the
-- account's cash covers it.
pub calculate-IsCovered :
    (ctx : Context) (p : Position) (rule : MarginRule) (account : AccountContext)
    (latest settlement : Option Decimal) (m : MarginRequirement)
    → IsSound p
    → IsRule rule
    → (calculate ctx (some p) (some rule) account latest settlement).requirement ≡ some m
    → IsCovered account (calculate ctx (some p) (some rule) account latest settlement) m
unfolding calculate
calculate-IsCovered ctx p rule account latest settlement m s k e =
    elim (Bool-cases (p.account_id == account.account_id)) [
      | inr other ↦ absurd (let x = rw other at e in cc x)
      | inl same ↦ elim (Bool-cases (rule.instrument_id == p.instrument_id)) [
        | inr other ↦ absurd (let x = rw same at rw other at e in cc x)
        | inl fits ↦ rw same (
            rw fits (
              with_prices-IsCovered p rule account s k
                (resolve_margin_prices ctx rule.price_basis p rule latest settlement) m
                (resolve_margin_prices-nonneg ctx rule.price_basis p rule latest settlement)
                (rw fits at (rw same at e))))
      ]
    ]
