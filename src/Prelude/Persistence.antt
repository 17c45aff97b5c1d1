-- ===== src/Prelude/Persistence.antt =====
-- The row of a key before and after: `Persist p R xs ys` tells that the row which a SELECT by `p` finds
-- is found afterwards as a row in the relation `R` to it.
use agent_chat_bridge.Prelude.Tests.{Bool-cases}
use agent_chat_bridge.Prelude.Lists.{find?, update, insert_once, any}
use agent_chat_bridge.Prelude.Inserts.{
  find?-update-mapped, find?-append-met, insert_once-again, edited, mapped, find?-of_any,
  insert_once-new,
}
use mathlib.Core.Path.{◌≡◌, refl, ap, ◌∙◌}
use mathlib.Core.Logic.{inl, inr}
use mathlib.Core.Bool.{Bool, true}
use mathlib.Core.Option.{some}
use mathlib.Core.List.{List, [], ◌∷◌, ◌++◌}

module _ {A : Type 0} where
  abbrev pub Persist : (A → Bool) → (A → A → Type 0) → List A → List A → Type 0
  Persist p R xs ys = (x : A) → find? p xs ≡ some x → (y : A) × (find? p ys ≡ some y) × R x y

  pub Persist-refl :
      (p : A → Bool) (R : A → A → Type 0) → ((x : A) → R x x) → (xs : List A) → Persist p R xs xs
  Persist-refl p R same xs x e = (x, e, same x)

  pub Persist-trans :
      (p : A → Bool) (R : A → A → Type 0)
      → ((x y z : A) → R x y → R y z → R x z)
      → (xs ys zs : List A) → Persist p R xs ys
      → Persist p R ys zs
      → Persist p R xs zs
  Persist-trans p R trans xs ys zs h k x e =
      let (y, e', r) = h x e in let (z, e'', r') = k y e' in (z, e'', trans x y z r r')

  -- An UPDATE that leaves the columns of the key.
  pub Persist-update :
      (p q : A → Bool) (f : A → A) (R : A → A → Type 0)
      → ((x : A) → R x x)
      → ((x : A) → p (f x) ≡ p x)
      → (xs : List A) → ((x : A) → find? p xs ≡ some x → q x ≡ true → R x (f x))
      → Persist p R xs (update q f xs)
  Persist-update p q f R same keep xs step x e =
      let now = find?-update-mapped q p f keep xs ∙ ap (mapped (edited q f)) e in
      elim (Bool-cases (q x)) [
        | inl met ↦ (f x, now ∙ ap some (rw met refl), step x e met)
        | inr missed ↦ (x, now ∙ ap some (rw missed refl), same x)
      ]

  pub Persist-append :
      (p : A → Bool) (R : A → A → Type 0)
      → ((x : A) → R x x)
      → (row : A) (xs : List A) → Persist p R xs (xs ++ row ∷ [])
  Persist-append p R same row xs x e = (x, find?-append-met p row xs e, same x)

  pub Persist-insert_once :
      (p q : A → Bool) (R : A → A → Type 0)
      → ((x : A) → R x x)
      → (row : A) (xs : List A) → Persist p R xs (insert_once q row xs)
  Persist-insert_once p q R same row xs x e = elim (Bool-cases (any q xs)) [
    | inl known ↦
        let (found, at) = find?-of_any q xs known in
        (x, ap (find? p) (insert_once-again q row xs at) ∙ e, same x)
    | inr new ↦
        (x, ap (find? p) (insert_once-new q row xs new) ∙ find?-append-met p row xs e, same x)
  ]
