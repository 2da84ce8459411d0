-- ===== src/Prelude/Tests.antt =====
-- Boolean tests on native numbers and on texts, and the conditional.
use Prim.Native.Nat.{ℕ, compare, Ordering}
use Prim.Native.String.{String}
use mathlib.Core.Path.{◌≡◌, refl}
use mathlib.Core.Logic.{◌≢◌, ◌⊎◌, inl, inr}
use mathlib.Core.Bool.{Bool, true, false, ◌&&◌}
use mathlib.Core.Option.{Option, none, some}
use native.Mathlib.Omega.{arith}
use text.Mathlib.Text.{◌==◌ as str_eq}
use text.Mathlib.TextEquality.{eq_iff}

abbrev pub ltb : ℕ → ℕ → Bool
ltb a b = elim (compare a b) [ Ordering.lt ↦ true | _ ↦ false ]

abbrev pub leb : ℕ → ℕ → Bool
leb a b = elim (compare a b) [ Ordering.gt ↦ false | _ ↦ true ]

infix 50 ◌==◌ ◌is◌
abbrev pub ◌==◌ : ℕ → ℕ → Bool
a == b = elim (compare a b) [ Ordering.eq ↦ true | _ ↦ false ]

-- `a == b` on two texts.
abbrev pub ◌is◌ : String → String → Bool
a is b = str_eq a b

-- `a == Some(b)` on an optional text; in a query, `column = ?` on a column that may be NULL.
abbrev pub is_some_of : Option String → String → Bool
is_some_of none b = false
is_some_of (some a) b = a is b

-- `a == b` on two optional texts.
abbrev pub option_is : Option String → Option String → Bool
option_is none none = true
option_is none (some b) = false
option_is (some a) none = false
option_is (some a) (some b) = a is b

infix 1 if◌then◌else◌
abbrev pub if◌then◌else◌ {ℓ} : {A : Type ℓ} → Bool → A → A → A
if true then x else y = x
if false then x else y = y

pub is_self : (a : String) → (a is a) ≡ true
is_self a = (eq_iff a a).1 refl

pub is→≡ : {a b : String} → (a is b) ≡ true → a ≡ b
is→≡ {a} {b} h = (eq_iff a b).0 h

pub is_ne : (a b : String) → a ≢ b → (a is b) ≡ false
is_ne a b h = ground (arith, eq_iff a b)

-- To split on a computed value and keep the equation.
pub Bool-cases : (b : Bool) → (b ≡ true) ⊎ (b ≡ false)
Bool-cases true = inl refl
Bool-cases false = inr refl

pub Option-cases {ℓ} : {A : Type ℓ} (o : Option A) → (o ≡ none) ⊎ ((a : A) × (o ≡ some a))
Option-cases none = inl refl
Option-cases (some a) = inr (a, refl)

pub is_some_of→≡ : (o : Option String) (b : String) → is_some_of o b ≡ true → o ≡ some b
is_some_of→≡ none b h = ground arith
is_some_of→≡ (some a) b h = ground (arith, eq_iff a b)

pub and_left : (a b : Bool) → (a && b) ≡ true → a ≡ true
and_left a b h = ground arith

pub and_right : (a b : Bool) → (a && b) ≡ true → b ≡ true
and_right a b h = ground arith
