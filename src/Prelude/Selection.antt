-- ===== src/Prelude/Selection.antt =====
-- What a WHERE clause, an ORDER BY and a LIMIT leave of a table.
use agent_chat_bridge.Prelude.Tests.{Bool-cases}
use agent_chat_bridge.Prelude.Lists.{filter, take, insert_by, sort_by, In, length}
use Prim.Native.Nat.{ℕ, zero, suc, ◌≤◌}
use mathlib.Core.Path.{◌≡◌}
use mathlib.Core.Logic.{◌⊎◌, inl, inr}
use mathlib.Core.Bool.{Bool, true, false}
use mathlib.Core.List.{List, [], ◌∷◌}
use native.Mathlib.Omega.{arith}

module _ {A : Type 0} where
  pub In-filter : (p : A → Bool) (x : A) (xs : List A) → In x (filter p xs) → In x xs × (p x ≡ true)
  In-filter p x [] i = elim i [ ]
  In-filter p x (y ∷ xs) i = elim (Bool-cases (p y)) [
    | inl q ↦ elim (filtered q i) [
      | inl e ↦ (inl e, rw e q)
      | inr j ↦ let (at, r) = In-filter p x xs j in (inr at, r)
    ]
    | inr q ↦ let (at, r) = In-filter p x xs (rw q at i) in (inr at, r)
  ]
    where
      filtered : p y ≡ true → In x (filter p (y ∷ xs)) → (x ≡ y) ⊎ In x (filter p xs)
      filtered q h = rw q at h

  pub In-take : (n : ℕ) (x : A) (xs : List A) → In x (take n xs) → In x xs
  In-take zero x xs i = elim i [ ]
  In-take (suc n) x [] i = elim i [ ]
  In-take (suc n) x (y ∷ xs) (inl e) = inl e
  In-take (suc n) x (y ∷ xs) (inr i) = inr (In-take n x xs i)

  pub length-take-le : (n : ℕ) (xs : List A) → length (take n xs) ≤ n
  length-take-le zero xs = omega arith
  length-take-le (suc n) [] = omega arith
  length-take-le (suc n) (x ∷ xs) = omega (arith, length-take-le n xs)

  In-insert_by :
      (le : A → A → Bool) (a x : A) (xs : List A) → In x (insert_by le a xs) → (x ≡ a) ⊎ In x xs
  unfolding insert_by
  In-insert_by le a x [] i = i
  In-insert_by le a x (y ∷ xs) i = elim (Bool-cases (le a y)) [
    | inl q ↦ rw q at i
    | inr q ↦ elim (kept q i) [
      | inl e ↦ inr (inl e)
      | inr j ↦ elim (In-insert_by le a x xs j) [ inl e ↦ inl e | inr k ↦ inr (inr k) ]
    ]
  ]
    where
      kept : le a y ≡ false → In x (insert_by le a (y ∷ xs)) → (x ≡ y) ⊎ In x (insert_by le a xs)
      kept q h = rw q at h

  pub In-sort_by : (le : A → A → Bool) (x : A) (xs : List A) → In x (sort_by le xs) → In x xs
  unfolding sort_by
  In-sort_by le x [] i = i
  In-sort_by le x (y ∷ xs) i = elim (In-insert_by le y x (sort_by le xs) i) [
    | inl e ↦ inl e
    | inr j ↦ inr (In-sort_by le x xs j)
  ]
