-- ===== src/Prelude/Equality.antt =====
-- Python's `==` on the values that the program compares, as an interface with instances.
use Prim.Native.Nat.{ℕ}
use Prim.Native.String.{String}
use mathlib.Core.Path.{◌≡◌, refl, sym, ap, ◌∙◌}
use mathlib.Core.Logic.{◌↔◌}
use mathlib.Core.Bool.{Bool, true, false, ◌&&◌}
use mathlib.Core.List.{List, [], ◌∷◌}
use native.Mathlib.Omega.{arith}
use mathlib.Core.Option.{Option, none, some}
use text.Mathlib.Text.{◌==◌ as text_eq}
use text.Mathlib.TextEquality.{eq_iff as text_eq_iff}
use yanzl.Prelude.Tests.{nat_eq, nat_eq_iff}

-- A type with a Boolean test that decides its paths.
pub record Comparable {ℓ} (A : Type ℓ) : Type ℓ where
  pub is_same : A → A → Bool
  pub is_same_iff : (x y : A) → (is_same x y ≡ true) ↔ (x ≡ y)

module _ {ℓ} {A : Type ℓ} ⦃c : Comparable A⦄ where
  infix 50 ◌==◌
  abbrev pub ◌==◌ : A → A → Bool
  ◌==◌ = c.is_same

  -- The laws of `==` under names that a tactic's list can take.
  pub ==_iff : (a b : A) → ((a == b) ≡ true) ↔ (a ≡ b)
  ==_iff a b = c.is_same_iff a b

  pub ==_refl : (a : A) → (a == a) ≡ true
  ==_refl a = (==_iff a a).1 refl

instance abbrev pub ℕ_eq : Comparable ℕ
ℕ_eq = record { is_same = nat_eq; is_same_iff = nat_eq_iff }

instance abbrev pub String_eq : Comparable String
String_eq = record { is_same = text_eq; is_same_iff = text_eq_iff }

module _ {ℓ} {A : Type ℓ} ⦃e : Comparable A⦄ where
  abbrev pub option_eq : Option A → Option A → Bool
  option_eq none none = true
  option_eq (some a) (some b) = a == b
  option_eq _ _ = false

  pub option_eq_iff : (a b : Option A) → (option_eq a b ≡ true) ↔ (a ≡ b)
  option_eq_iff none none = (λ h. refl, λ h. refl)
  option_eq_iff none (some b) = (λ h. cc, λ h. cc)
  option_eq_iff (some a) none = (λ h. cc, λ h. cc)
  option_eq_iff (some a) (some b) =
      (λ h. cc ((e.is_same_iff a b).0 h), λ h. (e.is_same_iff a b).1 (cc))

instance abbrev pub Option_eq {ℓ} : {A : Type ℓ} ⦃e : Comparable A⦄ → Comparable (Option A)
Option_eq = record { is_same = option_eq; is_same_iff = option_eq_iff }

-- The tuples that Python compares column by column.
infixr 30 ◌⊗◌
infixr 30 ◌#◌
pub data ◌⊗◌ {ℓ} (A B : Type ℓ) : Type ℓ where
  ◌#◌ : A → B → A ⊗ B

module _ {ℓ} {A B : Type ℓ} ⦃a : Comparable A⦄ ⦃b : Comparable B⦄ where
  abbrev pub tuple_eq : A ⊗ B → A ⊗ B → Bool
  tuple_eq (x # y) (z # w) = x == z && y == w

  pub tuple_eq_iff : (x y : A ⊗ B) → (tuple_eq x y ≡ true) ↔ (x ≡ y)
  tuple_eq_iff (x # y) (z # w) = ground (arith, a.is_same_iff x z, b.is_same_iff y w)

instance abbrev pub Tuple_eq {ℓ} :
    {A B : Type ℓ} ⦃a : Comparable A⦄ ⦃b : Comparable B⦄ → Comparable (A ⊗ B)
Tuple_eq = record { is_same = tuple_eq; is_same_iff = tuple_eq_iff }

module _ {ℓ} {A : Type ℓ} ⦃e : Comparable A⦄ where
  abbrev pub list_eq : List A → List A → Bool
  list_eq [] [] = true
  list_eq (x ∷ xs) (y ∷ ys) = x == y && list_eq xs ys
  list_eq _ _ = false

  pub list_eq_iff : (xs ys : List A) → (list_eq xs ys ≡ true) ↔ (xs ≡ ys)
  list_eq_iff [] [] = (λ h. refl, λ h. refl)
  list_eq_iff [] (y ∷ ys) = (λ h. cc, λ h. cc)
  list_eq_iff (x ∷ xs) [] = (λ h. cc, λ h. cc)
  list_eq_iff (x ∷ xs) (y ∷ ys) = ground (arith, e.is_same_iff x y, list_eq_iff xs ys)

instance abbrev pub List_eq {ℓ} : {A : Type ℓ} ⦃e : Comparable A⦄ → Comparable (List A)
List_eq = record { is_same = list_eq; is_same_iff = list_eq_iff }

-- Records compare by the tuple of their columns.
module _ {ℓ} {A B : Type ℓ} ⦃e : Comparable B⦄ (columns : A → B) (build : B → A)
    (built : (a : A) → build (columns a) ≡ a) where
  abbrev pub same_columns : A → A → Bool
  same_columns x y = columns x == columns y

  pub same_columns_iff : (x y : A) → (same_columns x y ≡ true) ↔ (x ≡ y)
  same_columns_iff x y = (
    λ h. sym (built x) ∙ ap build ((e.is_same_iff (columns x) (columns y)).0 h) ∙ built y,
    λ h. (e.is_same_iff (columns x) (columns y)).1 (ap columns h),
  )

  abbrev pub by_columns : Comparable A
  by_columns = record { is_same = same_columns; is_same_iff = same_columns_iff }
