-- ===== src/Prelude/Rows.antt =====
-- A table before and after a statement, row by row: `Edits R` relates each row to itself or by `R`.
use agent_chat_bridge.Prelude.Tests.{ltb, Bool-cases}
use agent_chat_bridge.Prelude.Lists.{update, affected, find?, All, In, length}
use Prim.Native.Nat.{suc}
use mathlib.Core.Path.{◌≡◌, refl, sym, ap, ap₂, ◌∙◌}
use mathlib.Core.Logic.{◌⊎◌, inl, inr}
use mathlib.Core.Bool.{Bool, true, false}
use mathlib.Core.Option.{some}
use mathlib.Core.List.{List, [], ◌∷◌, map}
use native.Mathlib.Omega.{arith}

module _ {A : Type 0} (R : A → A → Type 0) where
  abbrev pub Edits : List A → List A → Type 0
  Edits [] [] = Unit {0}
  Edits [] (y ∷ ys) = ⊥
  Edits (x ∷ xs) [] = ⊥
  Edits (x ∷ xs) (y ∷ ys) = ((y ≡ x) ⊎ R x y) × Edits xs ys

  pub Edits-refl : (xs : List A) → Edits xs xs
  Edits-refl [] = tt
  Edits-refl (x ∷ xs) = (inl refl, Edits-refl xs)

  -- An UPDATE edits the rows that its WHERE clause selects.
  pub update-Edits-In :
      (p : A → Bool) (f : A → A) (xs : List A)
      → ((x : A) → In x xs → p x ≡ true → R x (f x))
      → Edits xs (update p f xs)
  unfolding update
  update-Edits-In p f [] step = tt
  update-Edits-In p f (x ∷ xs) step =
      let rest = update-Edits-In p f xs (λ y i. step y (inr i)) in
      elim (Bool-cases (p x)) [
        | inl e ↦ (inr (rw e (step x (inl refl) e)), rest)
        | inr e ↦ (inl (rw e), rest)
      ]

  pub update-Edits :
      (p : A → Bool) (f : A → A)
      → ((x : A) → p x ≡ true → R x (f x))
      → (xs : List A) → Edits xs (update p f xs)
  update-Edits p f step xs = update-Edits-In p f xs (λ x _. step x)

module _ {A : Type 0} where
  -- An UPDATE that matched a row had such a row.
  pub affected-match :
      (p : A → Bool) (xs : List A) → ltb 0 (affected p xs) ≡ true → (x : A) × In x xs × (p x ≡ true)
  unfolding affected
  affected-match p [] h = cc
  affected-match p (x ∷ xs) h = elim (Bool-cases (p x)) [
    | inl e ↦ (x, inl refl, e)
    | inr e ↦ let (y, at, q) = affected-match p xs (rw (e, affected) at h) in (y, inr at, q)
  ]

  pub find?-match :
      (p : A → Bool) (xs : List A) {x : A} → find? p xs ≡ some x → In x xs × (p x ≡ true)
  unfolding find?
  find?-match p [] e = cc
  find?-match p (x ∷ xs) {x = y} e = elim (Bool-cases (p x)) [
    | inl q ↦ (inl (ground arith), ground arith)
    | inr q ↦ let (at, r) = find?-match p xs {x = y} (ground arith) in (inr at, r)
  ]

  -- An UPDATE that changes the row that a SELECT found leaves it the row that the SELECT finds.
  pub find?-update :
      (p q : A → Bool) (f : A → A)
      → ((y : A) → p y ≡ true → q y ≡ true)
      → ((y : A) → q (f y) ≡ q y)
      → (xs : List A) {x : A} → find? q xs ≡ some x
      → p x ≡ true
      → find? q (update p f xs) ≡ some (f x)
  unfolding find? update
  find?-update p q f imp keep [] e h = cc
  find?-update p q f imp keep (y ∷ xs) {x = x} e h = elim (Bool-cases (q y)) [
    | inl found ↦
        let same : y ≡ x = ground arith in
        rw (ap p same ∙ h) (rw (keep y ∙ found) (ap some (ap f same)))
    | inr other ↦
        let apart : p y ≡ false = ground (arith, imp y) in
        rw (apart, other) (find?-update p q f imp keep xs {x = x} (ground arith) h)
  ]

  pub Edits-All :
      {R : A → A → Type 0} (P : A → Type 0)
      → ((x y : A) → R x y → P x → P y)
      → (xs ys : List A) → Edits R xs ys
      → All P xs
      → All P ys
  Edits-All P keep [] [] d h = tt
  Edits-All P keep [] (y ∷ ys) d h = elim d [ ]
  Edits-All P keep (x ∷ xs) [] d h = elim d [ ]
  Edits-All P keep (x ∷ xs) (y ∷ ys) (inl e, d) h = (rw e h.0, Edits-All P keep xs ys d h.1)
  Edits-All P keep (x ∷ xs) (y ∷ ys) (inr r, d) h = (keep x y r h.0, Edits-All P keep xs ys d h.1)

  pub Edits-map :
      {B : Type 0} {R : A → A → Type 0} (g : A → B)
      → ((x y : A) → R x y → g y ≡ g x)
      → (xs ys : List A) → Edits R xs ys
      → map g ys ≡ map g xs
  Edits-map g keep [] [] d = refl
  Edits-map g keep [] (y ∷ ys) d = elim d [ ]
  Edits-map g keep (x ∷ xs) [] d = elim d [ ]
  Edits-map g keep (x ∷ xs) (y ∷ ys) (inl e, d) = ap₂ ◌∷◌ (ap g e) (Edits-map g keep xs ys d)
  Edits-map g keep (x ∷ xs) (y ∷ ys) (inr r, d) = ap₂ ◌∷◌ (keep x y r) (Edits-map g keep xs ys d)

  pub Edits-mono :
      {R S : A → A → Type 0}
      → ((x y : A) → R x y → S x y)
      → (xs ys : List A) → Edits R xs ys
      → Edits S xs ys
  Edits-mono f [] [] d = tt
  Edits-mono f [] (y ∷ ys) d = elim d [ ]
  Edits-mono f (x ∷ xs) [] d = elim d [ ]
  Edits-mono f (x ∷ xs) (y ∷ ys) (inl e, d) = (inl e, Edits-mono f xs ys d)
  Edits-mono f (x ∷ xs) (y ∷ ys) (inr r, d) = (inr (f x y r), Edits-mono f xs ys d)

  -- Each row after a statement comes from one before it.
  pub Edits-source :
      (R : A → A → Type 0) (y : A) (xs ys : List A)
      → Edits R xs ys
      → In y ys
      → (x : A) × In x xs × ((y ≡ x) ⊎ R x y)
  Edits-source R y [] [] d i = elim i [ ]
  Edits-source R y [] (z ∷ ys) d i = elim d [ ]
  Edits-source R y (x ∷ xs) [] d i = elim i [ ]
  Edits-source R y (x ∷ xs) (z ∷ ys) (inl e, d) (inl p) = (x, inl refl, inl (p ∙ e))
  Edits-source R y (x ∷ xs) (z ∷ ys) (inr r, d) (inl p) = (x, inl refl, inr (rw p r))
  Edits-source R y (x ∷ xs) (z ∷ ys) (_, d) (inr i) =
      let (w, at, how) = Edits-source R y xs ys d i in (w, inr at, how)

  -- Each row before a statement is there afterwards, as it was or edited.
  pub Edits-target :
      (R : A → A → Type 0) (x : A) (xs ys : List A)
      → Edits R xs ys
      → In x xs
      → (y : A) × In y ys × ((y ≡ x) ⊎ R x y)
  Edits-target R x [] ys d i = elim i [ ]
  Edits-target R x (z ∷ xs) [] d i = elim d [ ]
  Edits-target R x (z ∷ xs) (y ∷ ys) (inl e, d) (inl p) = (y, inl refl, inl (e ∙ sym p))
  Edits-target R x (z ∷ xs) (y ∷ ys) (inr r, d) (inl p) = (y, inl refl, inr (rw p r))
  Edits-target R x (z ∷ xs) (y ∷ ys) (_, d) (inr i) =
      let (w, at, how) = Edits-target R x xs ys d i in (w, inr at, how)

  pub map-update :
      {B : Type 0} (g : A → B) (p : A → Bool) (f : A → A)
      → ((x : A) → g (f x) ≡ g x)
      → (xs : List A) → map g (update p f xs) ≡ map g xs
  unfolding update
  map-update g p f same [] = refl
  map-update g p f same (x ∷ xs) = ground (arith, same x, map-update g p f same xs)

  pub length-update : (p : A → Bool) (f : A → A) (xs : List A) → length (update p f xs) ≡ length xs
  unfolding update
  length-update p f [] = refl
  length-update p f (x ∷ xs) = ap suc (length-update p f xs)

  -- A row after an UPDATE is one that was edited or one that was not selected.
  pub In-update :
      (p : A → Bool) (f : A → A) (y : A) (xs : List A)
      → In y (update p f xs)
      → (x : A) × In x xs × (((p x ≡ true) × (y ≡ f x)) ⊎ ((p x ≡ false) × (y ≡ x)))
  unfolding update
  In-update p f y [] i = elim i [ ]
  In-update p f y (x ∷ xs) (inl e) = elim (Bool-cases (p x)) [
    | inl q ↦ (x, inl refl, inl (q, rw q at e))
    | inr q ↦ (x, inl refl, inr (q, rw q at e))
  ]
  In-update p f y (x ∷ xs) (inr i) = let (z, at, how) = In-update p f y xs i in (z, inr at, how)
