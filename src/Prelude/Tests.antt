-- ===== src/Prelude/Tests.antt =====
-- Boolean tests, the conditional, and equality tests as an interface.
use Prim.Native.Nat.{ℕ, ◌<◌, ◌≤◌, compare, Ordering}
use Prim.Native.String.{String}
use mathlib.Core.Path.{◌≡◌, refl}
use mathlib.Core.Logic.{◌↔◌, ◌⊎◌, ◌≢◌, inl, inr}
use mathlib.Core.Bool.{Bool, true, false}
use mathlib.Core.Option.{Option, none, some}
use native.Mathlib.Omega.{arith}
use text.Mathlib.Text.{◌==◌ as str_beq}
use text.Mathlib.TextEquality.{eq_iff}

abbrev pub ltb : ℕ → ℕ → Bool
ltb a b = elim (compare a b) [ Ordering.lt ↦ true | _ ↦ false ]

abbrev pub leb : ℕ → ℕ → Bool
leb a b = elim (compare a b) [ Ordering.gt ↦ false | _ ↦ true ]

abbrev pub nat_beq : ℕ → ℕ → Bool
nat_beq a b = elim (compare a b) [ Ordering.eq ↦ true | _ ↦ false ]

infix 1 if◌then◌else◌
abbrev pub if◌then◌else◌ {ℓ} : {A : Type ℓ} → Bool → A → A → A
if true then x else y = x
if false then x else y = y

pub nat_beq_iff : (a b : ℕ) → (nat_beq a b ≡ true) ↔ (a ≡ b)
nat_beq_iff a b = ground arith

-- Types whose values Python's `==` compares, with what the comparison decides.
pub record Comparable (A : Type 0) : Type 0 where
  pub same : A → A → Bool
  pub decides : (x y : A) → (same x y ≡ true) ↔ (x ≡ y)

instance abbrev pub comparable_texts : Comparable String
comparable_texts = record { same = str_beq; decides = eq_iff }

instance abbrev pub comparable_numbers : Comparable ℕ
comparable_numbers = record { same = nat_beq; decides = nat_beq_iff }

infix 50 ◌==◌
abbrev pub ◌==◌ : {A : Type 0} ⦃c : Comparable A⦄ → A → A → Bool
◌==◌ ⦃c⦄ x y = c.same x y

pub Bool-cases : (b : Bool) → (b ≡ true) ⊎ (b ≡ false)
Bool-cases true = inl refl
Bool-cases false = inr refl

pub Option-cases {ℓ} : {A : Type ℓ} (o : Option A) → (o ≡ none) ⊎ ((a : A) × (o ≡ some a))
Option-cases none = inl refl
Option-cases (some a) = inr (a, refl)

-- An equality test, as a case split with the equation or its refutation.
pub eq_cases : (s t : String) → (s == t ≡ true) × (s ≡ t) ⊎ (s == t ≡ false) × (s ≢ t)
eq_cases s t = elim (Bool-cases (s == t)) [
  | inl p ↦ inl (p, (eq_iff s t).0 p)
  | inr p ↦ inr (p, λ e. cc (p, (eq_iff s t).1 e))
]

pub ne_of_test : (s t : String) → s == t ≡ false → s ≢ t
ne_of_test s t h e = cc (h, (eq_iff s t).1 e)

pub ltb→lt : (a b : ℕ) → ltb a b ≡ true → a < b
ltb→lt a b h = ground arith

pub not_ltb→le : (a b : ℕ) → ltb a b ≡ false → b ≤ a
not_ltb→le a b h = ground arith
