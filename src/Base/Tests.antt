-- ===== src/Base/Tests.antt =====
-- Boolean tests on numbers and texts, the conditional, and case splits that keep an equation.
use Prim.Native.Nat.{ℕ, ◌<◌, compare, Ordering}
use Prim.Native.String.{String}
use mathlib.Core.Path.{◌≡◌, refl}
use mathlib.Core.Logic.{◌⊎◌, ◌≢◌, inl, inr}
use mathlib.Core.Bool.{Bool, true, false, not}
use mathlib.Core.Option.{Option, none, some}
use native.Mathlib.Omega.{arith}
use text.Mathlib.Text.{◌==◌ as text_eq}
use text.Mathlib.TextEquality.{eq_iff}

abbrev pub ltb : ℕ → ℕ → Bool
ltb a b = elim (compare a b) [ Ordering.lt ↦ true | _ ↦ false ]

abbrev pub leb : ℕ → ℕ → Bool
leb a b = elim (compare a b) [ Ordering.gt ↦ false | _ ↦ true ]

-- Equality of two numbers.
abbrev pub eqb : ℕ → ℕ → Bool
eqb a b = elim (compare a b) [ Ordering.eq ↦ true | _ ↦ false ]

infix 1 if◌then◌else◌
abbrev pub if◌then◌else◌ {ℓ} : {A : Type ℓ} → Bool → A → A → A
if true then x else y = x
if false then x else y = y

pub lt→ltb : {a b : ℕ} → a < b → ltb a b ≡ true
lt→ltb h = ground arith

-- To split on a computed value and keep the equation.
pub Bool-cases : (b : Bool) → (b ≡ true) ⊎ (b ≡ false)
Bool-cases true = inl refl
Bool-cases false = inr refl

pub Option-cases {ℓ} : {A : Type ℓ} (o : Option A) → (o ≡ none) ⊎ ((a : A) × (o ≡ some a))
Option-cases none = inl refl
Option-cases (some a) = inr (a, refl)

same_by : (a b : String) (t : Bool) → text_eq a b ≡ t → Dec (a ≡ b)
same_by a b true h = yes ((eq_iff a b).0 h)
same_by a b false h = no (λ p. cc ((eq_iff a b).1 p))

-- Whether two texts are equal, with the proof.
unfoldable pub same : (a b : String) → Dec (a ≡ b)
unfolding same_by
same a b = same_by a b (text_eq a b) refl

infix 50 ◌==◌
abbrev pub ◌==◌ : String → String → Bool
a == b = elim (same a b) [ yes _ ↦ true | no _ ↦ false ]

-- Two texts that the test tells apart differ, also as optional values.
pub ne_of_test : (a b : String) → (a == b) ≡ false → a ≢ b
ne_of_test a b h e = ground arith

-- A test that fails fails the other way round too.
pub fails_other_way : (a b : String) → (a == b) ≡ false → (b == a) ≡ false
fails_other_way a b t = elim (Bool-cases (b == a)) [
  | inl e ↦ elim (ne_of_test a b t (ground arith)) [ ]
  | inr e ↦ e
]

pub some-ne_of_test : (a b : String) → (a == b) ≡ false → some a ≢ some b
some-ne_of_test a b h e = ground arith

-- Python's truth value of a text and of a number.
abbrev pub truthy : String → Bool
truthy s = not (s == "")

abbrev pub truthy_ℕ : ℕ → Bool
truthy_ℕ n = ltb 0 n

pub same_self : (x : String) → (x == x) ≡ true
same_self x = elim (Bool-cases (x == x)) [ inl t ↦ t | inr n ↦ elim (ne_of_test x x n refl) [ ] ]

pub eq_of_test : (a b : String) → (a == b) ≡ true → a ≡ b
eq_of_test a b t = ground arith
