-- ===== src/Prelude/Lists.antt =====
-- Lists: native lengths, selection and ordering of rows, membership and pointwise predicates.
use Prim.Native.Nat.{ℕ, zero, suc}
use mathlib.Core.Path.{◌≡◌, refl}
use mathlib.Core.Logic.{◌⊎◌, inl, inr}
use mathlib.Core.Bool.{Bool, true, false}
use mathlib.Core.Option.{Option, none, some}
use mathlib.Core.List.{List, [], ◌∷◌, ◌++◌}
use agent_chat_bridge.Prelude.Tests.{if◌then◌else◌, ltb}

module _ {ℓ} {A : Type ℓ} where
  abbrev pub length : List A → ℕ
  length [] = 0
  length (x ∷ xs) = suc (length xs)

  abbrev pub take : ℕ → List A → List A
  take zero xs = []
  take (suc n) [] = []
  take (suc n) (x ∷ xs) = x ∷ take n xs

  -- `xs.filter(p)`, and the rows that a WHERE clause selects.
  abbrev pub filter : (A → Bool) → List A → List A
  filter p [] = []
  filter p (x ∷ xs) = if p x then x ∷ filter p xs else filter p xs

  -- `xs.find(p)`
  unfoldable pub find? : (A → Bool) → List A → Option A
  find? p [] = none
  find? p (x ∷ xs) = if p x then some x else find? p xs

  abbrev pub any : (A → Bool) → List A → Bool
  any p [] = false
  any p (x ∷ xs) = if p x then true else any p xs

  -- UPDATE … SET f WHERE p: the table after it, and the number of rows that matched.
  unfoldable pub update : (A → Bool) → (A → A) → List A → List A
  update p f [] = []
  update p f (x ∷ xs) = (if p x then f x else x) ∷ update p f xs

  unfoldable pub affected : (A → Bool) → List A → ℕ
  affected p [] = 0
  affected p (x ∷ xs) = if p x then suc (affected p xs) else affected p xs

  -- INSERT … ON DUPLICATE KEY UPDATE with nothing to update; `p` tells the rows of the same key.
  unfoldable pub insert_once : (A → Bool) → A → List A → List A
  insert_once p row rows = if any p rows then rows else rows ++ row ∷ []

  -- ORDER BY: a stable insertion sort by a test that `a` may stand before `b`.
  unfoldable pub insert_by : (A → A → Bool) → A → List A → List A
  insert_by le a [] = a ∷ []
  insert_by le a (x ∷ xs) = if le a x then a ∷ x ∷ xs else x ∷ insert_by le a xs

  unfoldable pub sort_by : (A → A → Bool) → List A → List A
  unfolding insert_by
  sort_by le [] = []
  sort_by le (x ∷ xs) = insert_by le x (sort_by le xs)

  -- `xs.slice(-n)`
  unfoldable pub take_last : ℕ → List A → List A
  take_last n [] = []
  take_last n (x ∷ xs) = if ltb (length xs) n then x ∷ xs else take_last n xs

module _ {ℓ κ} {A : Type ℓ} (P : A → Type κ) where
  abbrev pub All : List A → Type κ
  All [] = Unit
  All (x ∷ xs) = P x × All xs

module _ {A : Type 0} where
  abbrev pub In : A → List A → Type 0
  In a [] = ⊥
  In a (x ∷ xs) = (a ≡ x) ⊎ In a xs

pub All-of_In {κ} :
    {A : Type 0} {P : A → Type κ} (xs : List A) → ((x : A) → In x xs → P x) → All P xs
All-of_In [] h = tt
All-of_In (x ∷ xs) h = (h x (inl refl), All-of_In xs (λ y i. h y (inr i)))
