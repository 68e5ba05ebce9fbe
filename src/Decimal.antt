-- ===== src/Decimal.antt =====
-- Python's `decimal` as the program uses it. A decimal is an integer number of units; each kind of value
-- (price, quantity, rate) has its own unit, a power of ten, and a product has the product of its factors'
-- units. Python rounds each result to 28 digits: how is the context's affair. The development uses that a
-- number of at most 28 digits is kept, and that a quotient's rounding is monotone. Where a model adds and
-- multiplies integers without the context its results are exact, as Python's are up to 28 digits.
pub mod Floor
use yanzl.Prelude.{ℕ, ◌+◌, ◌<◌, ◌≡◌}
use yanzl.Prelude.Int.{ℤ, pos, pos_part, neg_part, ◌+ℤ◌, ◌-ℤ◌, ◌*ℤ◌, ◌≤ℤ◌, ◌<ℤ◌}

-- 10 ^ 28, the first number of more than 28 digits.
abbrev pub digits_end : ℕ
digits_end = 10000000000000000000000000000

abbrev pub Fits : ℤ → Type 0
Fits v = pos_part v + neg_part v < digits_end

pub record Context : Type 0 where
  pub divide : ℤ → ℤ → ℤ
  -- A quotient that is no less than a value is rounded to no less.
  pub divide_lower : (lo n d : ℤ) → pos 0 <ℤ d → lo *ℤ d ≤ℤ n → lo ≤ℤ divide n d
  -- A quotient that is no more than a value is rounded to no more.
  pub divide_upper : (hi n d : ℤ) → pos 0 <ℤ d → n ≤ℤ hi *ℤ d → divide n d ≤ℤ hi
  -- The exact result of a sum or product, to 28 digits.
  pub round : ℤ → ℤ
  pub round_kept : (v : ℤ) → Fits v → round v ≡ v

module _ (ctx : Context) where
  abbrev pub plus : ℤ → ℤ → ℤ
  plus a b = ctx.round (a +ℤ b)

  abbrev pub minus : ℤ → ℤ → ℤ
  minus a b = ctx.round (a -ℤ b)

  abbrev pub times : ℤ → ℤ → ℤ
  times a b = ctx.round (a *ℤ b)
