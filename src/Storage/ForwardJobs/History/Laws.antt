-- ===== src/Storage/ForwardJobs/History/Laws.antt =====
-- What every sequence of operations keeps of the table of forward jobs.
use agent_chat_bridge.Prelude.{
  String, List, [], ◌∷◌, ◌++◌, ◌≡◌, false, ◌⊎◌, ◌≢◌, inl, inr, All, In, refl, sym, ap, ◌∙◌, subst,
  arith, Edits-All, Edits-map, Edits-target,
}
use agent_chat_bridge.Json.{Json}
use agent_chat_bridge.Storage.ForwardJobs.{Job, Status, is_settled}
use agent_chat_bridge.Storage.ForwardJobs.Lifecycle.{JobStep, SameTask, CanMove, IsWellFormed}
use agent_chat_bridge.Storage.ForwardJobs.Claims.{ids}
use agent_chat_bridge.Storage.ForwardJobs.Claims.Selection.{HasDistinctIds, Distinct}
use agent_chat_bridge.Storage.ForwardJobs.History.{StoreStep, Reach, here, next}
use agent_chat_bridge.Storage.ForwardJobs.History.Evolution.{Evolves, StoreStep-Evolves}

-- Rows keep their ids apart, and each row is what its status says.
pub record IsSound (rows : List Job) : Type 0 where
  pub distinct : HasDistinctIds rows
  pub well_formed : All IsWellFormed rows

Distinct-append :
    (rows : List Job) (j : Job)
    → HasDistinctIds rows
    → All (λ m. m ≢ j.id) (ids rows)
    → HasDistinctIds (rows ++ j ∷ [])
Distinct-append [] j d f = (tt, tt)
Distinct-append (x ∷ rows) j d f = (apart rows d.0, Distinct-append rows j d.1 f.1)
  where
    apart :
        (ks : List Job) → All (λ m. m ≢ x.id) (ids ks) → All (λ m. m ≢ x.id) (ids (ks ++ j ∷ []))
    apart [] h = (λ e. f.0 (sym e), tt)
    apart (k ∷ ks) h = (h.0, apart ks h.1)

All-append :
    (rows : List Job) (j : Job)
    → All IsWellFormed rows
    → IsWellFormed j
    → All IsWellFormed (rows ++ j ∷ [])
All-append [] j h w = (w, tt)
All-append (x ∷ rows) j h w = (h.0, All-append rows j h.1 w)

Evolves-IsSound : (rows rows' : List Job) → IsSound rows → Evolves rows rows' → IsSound rows'
Evolves-IsSound rows rows' s (inl edits) = record {
  distinct =
      subst Distinct (sym (Edits-map (λ (j : Job). j.id) (λ x y r. r.same.id) rows rows' edits))
        s.distinct;
  well_formed = Edits-All IsWellFormed (λ x y r. r.sound) rows rows' edits s.well_formed;
}
Evolves-IsSound rows rows' s (inr (j, table, fresh, new, w)) = rw table (record {
  distinct = Distinct-append rows j s.distinct fresh;
  well_formed = All-append rows j s.well_formed w;
})

module _ (digest : Json → String) (connection : String) where
  -- One operation.
  StoreStep-IsSound :
      (rows rows' : List Job)
      → StoreStep digest connection rows rows'
      → IsSound rows
      → IsSound rows'
  StoreStep-IsSound rows rows' step s =
      Evolves-IsSound rows rows' s (StoreStep-Evolves digest connection rows rows' s.distinct step)

  -- Any sequence of operations on a sound table keeps the primary keys distinct and each row as its
  -- status demands: pending rows under no lease, running rows under one, an end time exactly on
  -- finished rows, and no reply time on unfinished ones.
  pub Reach-IsSound :
      (rows rows' : List Job) → Reach digest connection rows rows' → IsSound rows → IsSound rows'
  Reach-IsSound rows rows' here s = s
  Reach-IsSound rows rows'' (next {rows' = rows'} r step) s =
      StoreStep-IsSound rows' rows'' step (Reach-IsSound rows rows' r s)

-- What remains of a job in every later table: its identity, and its status once that is settled.
pub record Remains (j k : Job) : Type 0 where
  pub same : SameTask j k
  pub settled : (is_settled j.status ≡ false) ⊎ (k.status ≡ j.status)

Remains-refl : (j : Job) → Remains j j
Remains-refl j = record { same = ground arith; settled = inr refl }

JobStep-Remains : (j k : Job) → JobStep j k → Remains j k
JobStep-Remains j k s = record { same = s.same; settled = stays j.status k.status s.move }
  where
    stays : (a b : Status) → CanMove a b → (is_settled a ≡ false) ⊎ (b ≡ a)
    stays a b m = ground arith

Remains-trans : (i j k : Job) → Remains i j → Remains j k → Remains i k
Remains-trans i j k p q = record {
  same = ground arith;
  settled = elim p.settled [
    | inl unsettled ↦ inl unsettled
    | inr kept ↦ elim q.settled [
      | inl unsettled ↦ inl (ap is_settled (sym kept) ∙ unsettled)
      | inr still ↦ inr (still ∙ kept)
    ]
  ];
}

In-append : (j k : Job) (rows : List Job) → In j rows → In j (rows ++ k ∷ [])
In-append j k [] i = elim i [ ]
In-append j k (x ∷ rows) (inl e) = inl e
In-append j k (x ∷ rows) (inr i) = inr (In-append j k rows i)

Evolves-Remains :
    (j : Job) (rows rows' : List Job)
    → Evolves rows rows'
    → In j rows
    → (k : Job) × In k rows' × Remains j k
Evolves-Remains j rows rows' (inl edits) i =
    let (k, at, how) = Edits-target JobStep j rows rows' edits i in
    elim how [ inl e ↦ (k, at, rw e (Remains-refl j)) | inr s ↦ (k, at, JobStep-Remains j k s) ]
Evolves-Remains j rows rows' (inr (n, table, _, _, _)) i =
    (j, rw table (In-append j n rows i), Remains-refl j)

-- From a sound table, no sequence of operations loses a job or changes what it was asked, and a job
-- that is held, completed, failed or deferred keeps that status in every later table.
pub Reach-Remains :
    (digest : Json → String) (connection : String) (j : Job) (rows rows' : List Job)
    → Reach digest connection rows rows'
    → IsSound rows
    → In j rows
    → (k : Job) × In k rows' × Remains j k
Reach-Remains digest connection j rows rows' here s i = (j, i, Remains-refl j)
Reach-Remains digest connection j rows rows'' (next {rows' = rows'} r step) s i =
    let (k, at, p) = Reach-Remains digest connection j rows rows' r s i in
    let sound = Reach-IsSound digest connection rows rows' r s in
    let (l, at', q) =
      Evolves-Remains k rows' rows''
        (StoreStep-Evolves digest connection rows' rows'' sound.distinct step) at in
    (l, at', Remains-trans j k l p q)
