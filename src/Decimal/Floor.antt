-- ===== src/Decimal/Floor.antt =====
-- A context that rounds down to whole units, to try the arithmetic on.
use native.Mathlib.Nat.{le-div_iff_mul-le, div-lt_iff_lt-mul}
use yanzl.Prelude.{ℕ, zero, suc, ◌*◌, ◌/◌, ◌≤◌, ◌<◌, ◌≡◌, refl, ap, true, arith}
use yanzl.Prelude.Tests.{ltb, if◌then◌else◌}
use yanzl.Prelude.Int.{ℤ, pos, negsuc, ◌-ℤ◌, ◌*ℤ◌, ◌≤ℤ◌, ◌<ℤ◌, *ℤ_parts, eq_of_parts, int_laws}
use yanzl.Decimal.{Context, Fits, digits_end}

unfoldable pub floor_divide : ℤ → ℤ → ℤ
floor_divide (pos n) (pos d) = pos (n / d)
floor_divide (negsuc n) (pos d) = negsuc (n / d)
floor_divide n (negsuc d) = pos 0

pub floor_lower : (lo n d : ℤ) → pos 0 <ℤ d → lo *ℤ d ≤ℤ n → lo ≤ℤ floor_divide n d
unfolding floor_divide
floor_lower lo n (negsuc d) h e = absurd (omega arith)
floor_lower (pos a) (pos m) (pos k) h e =
    let positive : 0 < k = omega arith in
    let below : a * k ≤ m = omega (arith, *ℤ_parts (pos a) (pos k)) in
    let fits : a ≤ m / k = (le-div_iff_mul-le positive).1 below in omega arith
floor_lower (pos a) (negsuc m) (pos k) h e = absurd (omega (arith, *ℤ_parts (pos a) (pos k)))
floor_lower (negsuc a) (pos m) (pos k) h e = omega arith
floor_lower (negsuc a) (negsuc m) (pos k) h e =
    let positive : 0 < k = omega arith in
    let above : m < suc a * k = omega (arith, *ℤ_parts (negsuc a) (pos k)) in
    let fits : m / k < suc a = (div-lt_iff_lt-mul positive).1 above in omega arith

pub floor_upper : (hi n d : ℤ) → pos 0 <ℤ d → n ≤ℤ hi *ℤ d → floor_divide n d ≤ℤ hi
unfolding floor_divide
floor_upper hi n (negsuc d) h e = absurd (omega arith)
floor_upper (pos b) (pos m) (pos k) h e =
    let positive : 0 < k = omega arith in
    let above : m < suc b * k = omega (arith, *ℤ_parts (pos b) (pos k)) in
    let fits : m / k < suc b = (div-lt_iff_lt-mul positive).1 above in omega arith
floor_upper (negsuc b) (pos m) (pos k) h e = absurd (omega (arith, *ℤ_parts (negsuc b) (pos k)))
floor_upper (pos b) (negsuc m) (pos k) h e = omega arith
floor_upper (negsuc b) (negsuc m) (pos k) h e =
    let positive : 0 < k = omega arith in
    let below : b * k ≤ m = omega (arith, *ℤ_parts (negsuc b) (pos k)) in
    let fits : b ≤ m / k = (le-div_iff_mul-le positive).1 below in omega arith

-- The digits after the 28th are dropped; the fuel is how many may be.
unfoldable pub drop_digits : ℕ → ℕ → ℕ
drop_digits zero n = n
drop_digits (suc fuel) n =
    let rest = drop_digits fuel (n / 10) in if ltb n digits_end then n else 10 * rest

drop_digits_kept : (fuel n : ℕ) → n < digits_end → drop_digits fuel n ≡ n
unfolding drop_digits
drop_digits_kept zero n h = refl
drop_digits_kept (suc fuel) n h =
    let below : ltb n digits_end ≡ true = ground arith in rw below refl

unfoldable pub floor_round : ℤ → ℤ
floor_round (pos n) = pos (drop_digits 99 n)
floor_round (negsuc n) = pos 0 -ℤ pos (drop_digits 99 (suc n))

pub floor_kept : (v : ℤ) → Fits v → floor_round v ≡ v
unfolding floor_round
floor_kept (pos n) h =
    let small : n < digits_end = omega arith in ap pos (drop_digits_kept 99 n small)
floor_kept (negsuc n) h =
    let small : suc n < digits_end = omega arith in
    rw (drop_digits_kept 99 (suc n) small) (eq_of_parts _ _ (omega int_laws))

abbrev pub floor_context : Context
floor_context = record {
  divide = floor_divide;
  divide_lower = floor_lower;
  divide_upper = floor_upper;
  round = floor_round;
  round_kept = floor_kept;
}
