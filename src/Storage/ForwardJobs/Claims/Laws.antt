-- ===== src/Storage/ForwardJobs/Claims/Laws.antt =====
-- What a worker may rely on when a claim hands it a job.
use agent_chat_bridge.Prelude.{
  ℕ, ◌+◌, ◌<◌, ◌≡◌, ◌≢◌, ◌⊎◌, inl, inr, some, Bool, false, arith, refl, sym, ap, ◌∙◌, List, [], ◌∷◌,
  In, All, All-of_In, String, ok, Edits, subst, one_of, or_else,
}
use mathlib.Core.Bool.{false≢true}
use agent_chat_bridge.Json.{Json, get, members, unquote}
use agent_chat_bridge.Storage.ForwardJobs.{Job, running, lease_ms, safe_execution}
use agent_chat_bridge.Storage.ForwardJobs.Claims.{ClaimInput, is_claimable, start_lease, claim}
use agent_chat_bridge.Storage.ForwardJobs.Claims.Selection.{HasDistinctIds, Distinct, eq_of_id}
use agent_chat_bridge.Storage.ForwardJobs.Claims.Steps.{ClaimStep, claim-Claimed, id-start_lease}

-- A running job under an unexpired lease is not claimable.
leased-not-claimable :
    (connection owner : String) (until at at' : ℕ) (j : Job)
    → at' < until
    → is_claimable connection at' (start_lease owner until at j) ≡ false
unfolding is_claimable start_lease
leased-not-claimable connection owner until at at' j h = ground arith

-- On a table whose ids are distinct, two claims of one connection, the second on the table that the
-- first left and before its leases run out, hand out different jobs, whoever makes them and whatever
-- rows other transactions hold.
pub claim_exclusive :
    (connection : String) (first second : ClaimInput) (locked locked' : Job → Bool) (at at' : ℕ)
    (rows : List Job) (got got' : List Job × List Job) (j k : Job)
    → HasDistinctIds rows
    → claim connection first locked at rows ≡ ok got
    → claim connection second locked' at' got.1 ≡ ok got'
    → at' < at + lease_ms first.lease_time
    → In j got.0
    → In k got'.0
    → j.id ≢ k.id
claim_exclusive connection first second locked locked' at at' rows got got' j k d e e' before i i'
      same =
    let c = claim-Claimed connection first at rows d locked got e in
    let d' = subst Distinct (sym c.kept) d in
    let c' = claim-Claimed connection second at' got.1 d' locked' got' e' in
    let (listed, was, _, _, _, leased) = c.returned j i in
    let (_, again, there, claimable, _, leased') = c'.returned k i' in
    let one =
      eq_of_id got.1 j again d' listed there
        (same ∙ ap (λ (x : Job). x.id) leased' ∙ id-start_lease second.owner _ at' again) in
    false≢true (
      sym (leased-not-claimable connection first.owner _ at at' was before)
      ∙ ap (is_claimable connection at') (sym leased ∙ one)
      ∙ claimable)

-- On a table whose ids are distinct, every job that a claim returns stands in the table as running, under a lease of the claimer that
-- lasts for the time asked, with one attempt more and with the time of its first start kept.
pub claim_granted :
    (connection : String) (input : ClaimInput) (locked : Job → Bool) (at : ℕ) (rows : List Job)
    (got : List Job × List Job) (k : Job)
    → HasDistinctIds rows
    → claim connection input locked at rows ≡ ok got
    → In k got.0
    → In k got.1
      × (k.status ≡ running)
      × (k.lease_owner ≡ input.owner)
      × (k.lease_expires_at ≡ some (at + lease_ms input.lease_time))
      × ((j : Job) × In j rows
          × (locked j ≡ false)
          × (k.id ≡ j.id)
          × (k.attempts ≡ j.attempts + 1)
          × (k.started_at ≡ some (or_else j.started_at at)))
unfolding start_lease
claim_granted connection input locked at rows got k d e i =
    let (listed, j, was, _, free, leased) =
      (claim-Claimed connection input at rows d locked got e).returned k i in
    (
      listed,
      rw leased refl,
      rw leased refl,
      rw leased refl,
      (j, was, free, rw leased refl, rw leased refl, rw leased refl),
    )

-- The record of a job shows that a native turn may have begun.
abbrev pub MayHaveStarted : Job → Type 0
MayHaveStarted j =
    let execution = members (get "execution" j.result_json) in
    ((v : Json) × (get "intent" execution ≡ some v))
    ⊎ ((v : Json) × (get "threadId" execution ≡ some v))
    ⊎ ((v : Json) × (get "turnId" execution ≡ some v))
    ⊎ (unquote (get "unconfirmed" execution) ≡ some "true")
    ⊎ (unquote (get "status" execution) ≡ some "start_intent")
    ⊎ (unquote (get "status" execution) ≡ some "unknown")

started-unsafe : (j : Job) → MayHaveStarted j → safe_execution j ≡ false
unfolding safe_execution one_of
started-unsafe j (inl h) = ground arith
started-unsafe j (inr (inl h)) = ground arith
started-unsafe j (inr (inr (inl h))) = ground arith
started-unsafe j (inr (inr (inr (inl e)))) = rw e refl
started-unsafe j (inr (inr (inr (inr (inl e))))) = rw e (ground arith)
started-unsafe j (inr (inr (inr (inr (inr e))))) = rw e (ground arith)

is_claimable_of_unsafe :
    (connection : String) (at : ℕ) (j : Job)
    → safe_execution j ≡ false
    → is_claimable connection at j ≡ false
unfolding is_claimable
is_claimable_of_unsafe connection at j h = ground arith

-- A row that no claim can have chosen is still there.
kept-In :
    (p : Job → Bool) (lease : Job → Job) (rows rows' : List Job) (j : Job)
    → Edits (ClaimStep p lease) rows rows'
    → p j ≡ false
    → In j rows
    → In j rows'
kept-In p lease [] rows' j d h i = elim i [ ]
kept-In p lease (x ∷ rows) [] j d h i = elim d [ ]
kept-In p lease (x ∷ rows) (y ∷ rows') j (inl e, d) h (inl here) = inl (here ∙ sym e)
kept-In p lease (x ∷ rows) (y ∷ rows') j (inr s, d) h (inl here) =
    absurd (false≢true (sym h ∙ ap p here ∙ s.claimable))
kept-In p lease (x ∷ rows) (y ∷ rows') j (_, d) h (inr i) = inr (kept-In p lease rows rows' j d h i)

-- On a table whose ids are distinct, a job whose record shows that a native turn may have begun is
-- never claimed for execution: it stays in the table as it is, and no job that a claim returns has its id.
pub claim-skips_started :
    (connection : String) (input : ClaimInput) (locked : Job → Bool) (at : ℕ) (rows : List Job)
    (got : List Job × List Job) (j : Job)
    → HasDistinctIds rows
    → claim connection input locked at rows ≡ ok got
    → In j rows
    → MayHaveStarted j
    → In j got.1 × All (λ k. k.id ≢ j.id) got.0
claim-skips_started connection input locked at rows got j d e i started =
    let c = claim-Claimed connection input at rows d locked got e in
    let unclaimable = is_claimable_of_unsafe connection at j (started-unsafe j started) in
    (
      kept-In (is_claimable connection at) _ rows got.1 j c.edits unclaimable i,
      All-of_In got.0 λ k i_k same.
          let (_, was, there, claimable, _, leased) = c.returned k i_k in
          let one = eq_of_id rows was j d there i (
            sym (id-start_lease input.owner _ at was)
            ∙ ap (λ (x : Job). x.id) (sym leased)
            ∙ same) in
          false≢true (sym unclaimable ∙ ap (is_claimable connection at) (sym one) ∙ claimable),
    )
