-- ===== src/Prelude/Lists.antt =====
-- Lists indexed by native numbers, membership tests, and enumerations told apart by their place.
use Prim.Native.Nat.{ℕ, zero, suc}
use mathlib.Core.Path.{◌≡◌, refl, ap}
use mathlib.Core.Logic.{◌↔◌}
use mathlib.Core.Bool.{Bool, true, false, ◌&&◌, ◌||◌}
use mathlib.Core.Option.{Option, none, some}
use mathlib.Core.List.{List, [], ◌∷◌, ◌++◌}
use yanzl.Prelude.Tests.{nat_eq, nat_eq_iff}
use yanzl.Prelude.Equality.{Comparable, ◌==◌}

module _ {ℓ} {A : Type ℓ} where
  abbrev pub get_elem? : List A → ℕ → Option A
  get_elem? [] i = none
  get_elem? (x ∷ xs) zero = some x
  get_elem? (x ∷ xs) (suc i) = get_elem? xs i

  abbrev pub length : List A → ℕ
  length [] = 0
  length (x ∷ xs) = suc (length xs)

  pub length-append_one : (xs : List A) (a : A) → length (xs ++ a ∷ []) ≡ suc (length xs)
  length-append_one [] a = refl
  length-append_one (x ∷ xs) a = ap suc (length-append_one xs a)

  -- Members of an enumeration compare by their place in the list of its members.
  pub by_place_iff :
      (members : List A) (place : A → ℕ)
      → ((a : A) → get_elem? members (place a) ≡ some a)
      → (a b : A) → (nat_eq (place a) (place b) ≡ true) ↔ (a ≡ b)
  by_place_iff members place listed a b = (
    λ h. cc (listed a, listed b, ap (get_elem? members) ((nat_eq_iff (place a) (place b)).0 h)),
    λ e. (nat_eq_iff (place a) (place b)).1 (ap place e),
  )

-- `x in s` for a set given by its members.
abbrev pub contains {ℓ} : {A : Type ℓ} ⦃e : Comparable A⦄ → List A → A → Bool
contains [] a = false
contains (x ∷ xs) a = x == a || contains xs a

-- The first element that passes a test.
abbrev pub find {ℓ} : {A : Type ℓ} → (A → Bool) → List A → Option A
find p [] = none
find p (x ∷ xs) = elim (p x) [ true ↦ some x | false ↦ find p xs ]

-- `any(p(x) for x in s)` and `all(p(x) for x in s)`
abbrev pub any {ℓ} : {A : Type ℓ} → (A → Bool) → List A → Bool
any p [] = false
any p (x ∷ xs) = p x || any p xs

abbrev pub all {ℓ} : {A : Type ℓ} → (A → Bool) → List A → Bool
all p [] = true
all p (x ∷ xs) = p x && all p xs
