-- ===== src/Prelude/Tests.antt =====
-- Boolean tests, the conditional, and the case splits that keep an equation.
use Prim.Native.Nat.{ℕ, compare, Ordering}
use Prim.Native.String.{String}
use mathlib.Core.Path.{◌≡◌, refl}
use mathlib.Core.Logic.{◌⊎◌, inl, inr}
use mathlib.Core.Bool.{Bool, true, false, ◌||◌}
use mathlib.Core.Option.{Option, none, some}
use mathlib.Core.List.{List, [], ◌∷◌}
use text.Mathlib.Text.{◌==◌}

abbrev pub ltb : ℕ → ℕ → Bool
ltb a b = elim (compare a b) [ Ordering.lt ↦ true | _ ↦ false ]

abbrev pub leb : ℕ → ℕ → Bool
leb a b = elim (compare a b) [ Ordering.gt ↦ false | _ ↦ true ]

abbrev pub nat_eq : ℕ → ℕ → Bool
nat_eq a b = elim (compare a b) [ Ordering.eq ↦ true | _ ↦ false ]

infix 1 if◌then◌else◌
abbrev pub if◌then◌else◌ {ℓ} : {A : Type ℓ} → Bool → A → A → A
if true then x else y = x
if false then x else y = y

pub Bool-cases : (b : Bool) → (b ≡ true) ⊎ (b ≡ false)
Bool-cases true = inl refl
Bool-cases false = inr refl

pub Option-cases {ℓ} : {A : Type ℓ} (o : Option A) → (o ≡ none) ⊎ ((a : A) × (o ≡ some a))
Option-cases none = inl refl
Option-cases (some a) = inr (a, refl)

-- `[…].includes(s)` for a list of texts.
unfoldable pub one_of : List String → String → Bool
one_of [] s = false
one_of (w ∷ ws) s = s == w || one_of ws s

-- `o === s` where `o` may be undefined.
abbrev pub is_text : Option String → String → Bool
is_text none s = false
is_text (some t) s = t == s

-- SQL comparisons of a nullable time: NULL satisfies no comparison.
abbrev pub at_most : Option ℕ → ℕ → Bool
at_most none at = false
at_most (some t) at = leb t at

abbrev pub later_than : Option ℕ → ℕ → Bool
later_than none at = false
later_than (some t) at = ltb at t

-- `t IS NULL OR t<=at`
abbrev pub null_or_at_most : Option ℕ → ℕ → Bool
null_or_at_most none at = true
null_or_at_most (some t) at = leb t at

-- `value ?? fallback`, and SQL's COALESCE(value, fallback).
abbrev pub or_else {ℓ} : {A : Type ℓ} → Option A → A → A
or_else none d = d
or_else (some a) d = a

-- `value || fallback` for a text.
abbrev pub text_or : String → String → String
text_or s d = if s == "" then d else s
