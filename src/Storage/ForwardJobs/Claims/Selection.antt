-- ===== src/Storage/ForwardJobs/Claims/Selection.antt =====
-- Which rows a claim chooses and returns, for tables whose primary keys are distinct.
use agent_chat_bridge.Prelude.{
  Edits-refl, ℕ, ◌≡◌, ◌≢◌, inl, inr, Bool, true, false, not, ◌&&◌, arith, refl, sym, ap, ◌∙◌, List,
  [], ◌∷◌, In, All, String, nat_eq, any, ◌≤◌, length, Edits, update-Edits-In, In-update, In-filter,
  In-take, In-sort_by, length-take-le, map-update, Bool-cases,
}
use mathlib.Core.Bool.{false≢true}
use agent_chat_bridge.Storage.ForwardJobs.{Job}
use agent_chat_bridge.Storage.ForwardJobs.Claims.{candidates, ids, is_among, take_over}

abbrev pub Distinct : List ℕ → Type 0
Distinct [] = Unit
Distinct (n ∷ ns) = All (λ m. m ≢ n) ns × Distinct ns

-- The primary key: no two rows have the same id.
abbrev pub HasDistinctIds : List Job → Type 0
HasDistinctIds rows = Distinct (ids rows)

not-In_of_All :
    (n : ℕ) (x : Job) (rows : List Job) → All (λ m. m ≢ n) (ids rows) → In x rows → x.id ≢ n
not-In_of_All n x [] h i = elim i [ ]
not-In_of_All n x (y ∷ rows) h (inl e) = λ p. h.0 (sym (ap (λ (j : Job). j.id) e) ∙ p)
not-In_of_All n x (y ∷ rows) h (inr i) = not-In_of_All n x rows h.1 i

-- A row is determined by its id.
pub eq_of_id :
    (rows : List Job) (x y : Job)
    → HasDistinctIds rows
    → In x rows
    → In y rows
    → x.id ≡ y.id
    → x ≡ y
eq_of_id [] x y d i j e = elim i [ ]
eq_of_id (z ∷ rows) x y d (inl p) (inl q) e = p ∙ sym q
eq_of_id (z ∷ rows) x y d (inl p) (inr j) e =
    absurd (not-In_of_All z.id y rows d.0 j (sym e ∙ ap (λ (k : Job). k.id) p))
eq_of_id (z ∷ rows) x y d (inr i) (inl q) e =
    absurd (not-In_of_All z.id x rows d.0 i (e ∙ ap (λ (k : Job). k.id) q))
eq_of_id (z ∷ rows) x y d (inr i) (inr j) e = eq_of_id rows x y d.1 i j e

any-id :
    (n : ℕ) (rows : List Job)
    → any (nat_eq n) (ids rows) ≡ true
    → (c : Job) × In c rows × (c.id ≡ n)
any-id n [] h = cc
any-id n (c ∷ rows) h = elim (Bool-cases (nat_eq n c.id)) [
  | inl e ↦ (c, inl refl, ground arith)
  | inr e ↦ let (d, i, p) = any-id n rows (rw e at h) in (d, inr i, p)
]

-- A row that a SELECT … FOR UPDATE returns satisfies its WHERE clause and was not locked.
pub candidates_sound :
    (p : Job → Bool) (order : Job → Job → Bool) (n : ℕ) (locked : Job → Bool) (rows : List Job)
    (c : Job)
    → In c (candidates p order n locked rows)
    → In c rows × (p c ≡ true) × (locked c ≡ false)
unfolding candidates
candidates_sound p order n locked rows c i =
    let (at, h) =
      In-filter (λ j. p j && not (locked j)) c rows (In-sort_by order c _ (In-take n c _ i)) in
    (at, ground arith, ground arith)

pub length-candidates :
    (p : Job → Bool) (order : Job → Job → Bool) (n : ℕ) (locked : Job → Bool) (rows : List Job)
    → length (candidates p order n locked rows) ≤ n
unfolding candidates
length-candidates p order n locked rows = length-take-le n _

module _ (connection : String) (order : Job → Job → Bool) (lease : Job → Job) where
  -- A chosen row of the table is one of the candidates.
  chosen-candidate :
      (cs rows : List Job)
      → HasDistinctIds rows
      → ((c : Job) → In c cs → In c rows)
      → (x : Job) → In x rows
      → is_among connection (ids cs) x ≡ true
      → In x cs
  unfolding is_among
  chosen-candidate cs rows d sub x i h =
      let (c, at, e) = any-id x.id cs (ground arith) in
      rw (eq_of_id rows x c d i (sub c at) (sym e)) at

  -- A claim edits its candidates alone.
  pub take_over-Edits :
      (R : Job → Job → Type 0) (cs rows : List Job)
      → HasDistinctIds rows
      → ((c : Job) → In c cs → In c rows)
      → ((c : Job) → In c cs → R c (lease c))
      → Edits R rows (take_over connection order lease cs rows).1
  unfolding take_over
  take_over-Edits R [] rows d sub step = Edits-refl R rows
  take_over-Edits R (c ∷ cs) rows d sub step =
      update-Edits-In R _ lease rows (λ x i h. step x (chosen-candidate (c ∷ cs) rows d sub x i h))

  -- A claim returns its candidates under their new lease.
  pub take_over-leased :
      (cs rows : List Job)
      → HasDistinctIds rows
      → ((c : Job) → In c cs → In c rows)
      → (y : Job) → In y (take_over connection order lease cs rows).0
      → (c : Job) × In c cs × (y ≡ lease c)
  unfolding take_over
  take_over-leased [] rows d sub y i = elim i [ ]
  take_over-leased (c ∷ cs) rows d sub y i =
      let (at, h) = In-filter (is_among connection (ids (c ∷ cs))) y _ (In-sort_by order y _ i) in
      let (x, was, how) = In-update (is_among connection (ids (c ∷ cs))) lease y rows at in
      elim how [
        | inl (p, e) ↦ (x, chosen-candidate (c ∷ cs) rows d sub x was p, e)
        | inr (p, e) ↦
            absurd (false≢true (sym p ∙ ap (is_among connection (ids (c ∷ cs))) (sym e) ∙ h))
      ]

  -- A claim keeps every row's id.
  pub ids-take_over :
      (cs rows : List Job)
      → ((j : Job) → (lease j).id ≡ j.id)
      → ids (take_over connection order lease cs rows).1 ≡ ids rows
  unfolding take_over
  ids-take_over [] rows same = refl
  ids-take_over (c ∷ cs) rows same = map-update (λ j. j.id) _ lease same rows

  -- What a claim returns is in the table that it leaves.
  pub take_over-listed :
      (cs rows : List Job) (y : Job)
      → In y (take_over connection order lease cs rows).0
      → In y (take_over connection order lease cs rows).1
  unfolding take_over
  take_over-listed [] rows y i = elim i [ ]
  take_over-listed (c ∷ cs) rows y i =
      (In-filter (is_among connection (ids (c ∷ cs))) y _ (In-sort_by order y _ i)).0
