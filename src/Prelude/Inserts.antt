-- ===== src/Prelude/Inserts.antt =====
-- INSERT … ON DUPLICATE KEY UPDATE, and what a SELECT by the same key finds after it.
use agent_chat_bridge.Prelude.Tests.{Bool-cases, if◌then◌else◌}
use agent_chat_bridge.Prelude.Lists.{find?, any, insert_once, update, In}
use mathlib.Core.Path.{◌≡◌, refl, sym, ap, ◌∙◌}
use mathlib.Core.Logic.{◌⊎◌, inl, inr}
use mathlib.Core.Bool.{Bool, true, false}
use mathlib.Core.Option.{Option, none, some}
use mathlib.Core.List.{List, [], ◌∷◌, ◌++◌}
use native.Mathlib.Omega.{arith}

module _ {A : Type 0} (p : A → Bool) where
  pub any-find? : (rows : List A) {found : A} → find? p rows ≡ some found → any p rows ≡ true
  unfolding find?
  any-find? [] e = cc
  any-find? (x ∷ rows) e = elim (Bool-cases (p x)) [
    | inl met ↦ rw met refl
    | inr missed ↦ rw missed (any-find? rows (rw missed at e))
  ]

  pub find?-any : (rows : List A) → any p rows ≡ false → find? p rows ≡ none
  unfolding find?
  find?-any [] e = refl
  find?-any (x ∷ rows) e = elim (Bool-cases (p x)) [
    | inl met ↦ cc (rw met at e)
    | inr missed ↦ rw missed (find?-any rows (rw missed at e))
  ]

  pub find?-of_any : (rows : List A) → any p rows ≡ true → (found : A) × (find? p rows ≡ some found)
  unfolding find?
  find?-of_any [] e = cc
  find?-of_any (x ∷ rows) e = elim (Bool-cases (p x)) [
    | inl met ↦ (x, rw met refl)
    | inr missed ↦ let (found, at) = find?-of_any rows (rw missed at e) in (found, rw missed at)
  ]

  pub find?-none : (rows : List A) → find? p rows ≡ none → any p rows ≡ false
  unfolding find?
  find?-none [] e = refl
  find?-none (x ∷ rows) e = elim (Bool-cases (p x)) [
    | inl met ↦ cc (rw met at e)
    | inr missed ↦ rw missed (find?-none rows (rw missed at e))
  ]

  -- No row that a table has satisfies a test that none of its rows satisfies.
  pub any-absent : (rows : List A) (x : A) → any p rows ≡ false → In x rows → p x ≡ false
  any-absent [] x h i = elim i [ ]
  any-absent (y ∷ rows) x h (inl e) = ap p e ∙ ground arith
  any-absent (y ∷ rows) x h (inr i) = any-absent rows x (ground arith) i

  pub find?-append :
      (row : A) (rows : List A)
      → p row ≡ true
      → any p rows ≡ false
      → find? p (rows ++ row ∷ []) ≡ some row
  unfolding find?
  find?-append row [] met new = rw met refl
  find?-append row (x ∷ rows) met new = elim (Bool-cases (p x)) [
    | inl known ↦ cc (rw known at new)
    | inr missed ↦ rw missed (find?-append row rows met (rw missed at new))
  ]

  -- After the INSERT the key has a row: the one that was there, or the new one.
  pub insert_once-found :
      (row : A) (rows : List A)
      → p row ≡ true
      → (found : A) × (find? p (insert_once p row rows) ≡ some found)
        × ((find? p rows ≡ some found) ⊎ ((any p rows ≡ false) × (found ≡ row)))
  unfolding insert_once
  insert_once-found row rows met = elim (Bool-cases (any p rows)) [
    | inl known ↦ let (found, at) = find?-of_any rows known in (found, rw known at, inl at)
    | inr new ↦ (row, rw new (find?-append row rows met new), inr (new, refl))
  ]

  -- A second INSERT of a known key changes nothing.
  pub insert_once-again :
      (row : A) (rows : List A) {found : A}
      → find? p rows ≡ some found
      → insert_once p row rows ≡ rows
  unfolding insert_once
  insert_once-again row rows e = rw (any-find? rows e) refl

  pub insert_once-new :
      (row : A) (rows : List A) → any p rows ≡ false → insert_once p row rows ≡ rows ++ row ∷ []
  unfolding insert_once
  insert_once-new row rows e = rw e refl

pub In-append :
    {A : Type 0} (x row : A) (rows : List A) → In x (rows ++ row ∷ []) → In x rows ⊎ (x ≡ row)
In-append x row [] (inl e) = inr e
In-append x row [] (inr i) = elim i [ ]
In-append x row (y ∷ rows) (inl e) = inl (inl e)
In-append x row (y ∷ rows) (inr i) = elim (In-append x row rows i) [
  | inl at ↦ inl (inr at)
  | inr e ↦ inr e
]

module _ {A : Type 0} where
  abbrev pub mapped : (A → A) → Option A → Option A
  mapped f none = none
  mapped f (some a) = some (f a)

  -- What an UPDATE leaves of a row.
  abbrev pub edited : (A → Bool) → (A → A) → A → A
  edited p f x = if p x then f x else x

  -- A SELECT by columns that an UPDATE does not change finds what the UPDATE leaves of what it found.
  pub find?-update-mapped :
      (p q : A → Bool) (f : A → A)
      → ((x : A) → q (f x) ≡ q x)
      → (xs : List A) → find? q (update p f xs) ≡ mapped (edited p f) (find? q xs)
  unfolding find? update
  find?-update-mapped p q f keep [] = refl
  find?-update-mapped p q f keep (x ∷ xs) = elim (Bool-cases (p x)) [
    | inl e ↦ elim (Bool-cases (q x)) [
      | inl met ↦ rw (e, keep x, met, e) refl
      | inr missed ↦ rw (e, keep x, missed) (find?-update-mapped p q f keep xs)
    ]
    | inr e ↦ elim (Bool-cases (q x)) [
      | inl met ↦ rw (e, met, e) refl
      | inr missed ↦ rw (e, missed) (find?-update-mapped p q f keep xs)
    ]
  ]

  pub find?-append-missed :
      (p : A → Bool) (row : A) (rows : List A)
      → p row ≡ false
      → find? p (rows ++ row ∷ []) ≡ find? p rows
  unfolding find?
  find?-append-missed p row [] missed = rw missed refl
  find?-append-missed p row (x ∷ rows) missed = elim (Bool-cases (p x)) [
    | inl met ↦ rw met refl
    | inr other ↦ rw other (find?-append-missed p row rows missed)
  ]

  pub find?-append-met :
      (p : A → Bool) (row : A) (rows : List A) {found : A}
      → find? p rows ≡ some found
      → find? p (rows ++ row ∷ []) ≡ some found
  unfolding find?
  find?-append-met p row [] e = cc
  find?-append-met p row (x ∷ rows) e = elim (Bool-cases (p x)) [
    | inl met ↦ rw met (rw met at e)
    | inr other ↦ rw other (find?-append-met p row rows (rw other at e))
  ]

  pub any-In : (p : A → Bool) (xs : List A) (x : A) → In x xs → p x ≡ true → any p xs ≡ true
  any-In p [] x i e = elim i [ ]
  any-In p (y ∷ xs) x (inl same) e = rw (sym (ap p same) ∙ e) refl
  any-In p (y ∷ xs) x (inr i) e = elim (Bool-cases (p y)) [
    | inl met ↦ rw met refl
    | inr missed ↦ rw missed (any-In p xs x i e)
  ]

  pub any-match : (p : A → Bool) (xs : List A) → any p xs ≡ true → (x : A) × In x xs × (p x ≡ true)
  any-match p [] e = cc
  any-match p (y ∷ xs) e = elim (Bool-cases (p y)) [
    | inl met ↦ (y, inl refl, met)
    | inr missed ↦ let (x, at, q) = any-match p xs (rw missed at e) in (x, inr at, q)
  ]
