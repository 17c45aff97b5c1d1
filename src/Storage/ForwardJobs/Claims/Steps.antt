-- ===== src/Storage/ForwardJobs/Claims/Steps.antt =====
-- Each claim edits the rows that it may hand out, along the life of a job, and hands out no row that
-- is under a lease.
use agent_chat_bridge.Prelude.{
  ℕ, ◌+◌, String, ◌≡◌, inl, inr, Option, none, some, Bool, true, false, ◌&&◌, arith, refl, ap, ◌∙◌,
  List, In, Result, ok, ok-injective, ◌>>=◌, Edits, Edits-refl, update-Edits, update-Edits-In,
  find?, find?-match,
}
use agent_chat_bridge.Json.{Fields, set, obj}
use agent_chat_bridge.Storage.ForwardJobs.{Job, required, required-cases, is_run, lease_ms, batch}
use agent_chat_bridge.Storage.ForwardJobs.Lifecycle.{JobStep, CanMove-refl}
use agent_chat_bridge.Storage.ForwardJobs.Claims.{
  ClaimInput, is_claimable, is_reply_claimable, is_cleanup_claimable, by_created, by_updated,
  by_cleanup, candidates, ids, take_over, take_over_one, start_lease, reply_lease, cleanup_lease,
  claim, claim_by_id, claim_reply_pending, claim_reply_by_id, claim_feedback_pending,
  patch_prepared_input,
}
use agent_chat_bridge.Storage.ForwardJobs.Claims.Selection.{
  HasDistinctIds, eq_of_id, candidates_sound, take_over-Edits, take_over-leased, ids-take_over,
  take_over-listed,
}

-- The new row is the old one under a lease of the claimer, and the old one satisfied the claim.
pub record ClaimStep (p : Job → Bool) (lease : Job → Job) (j k : Job) : Type 0 where
  pub claimable : p j ≡ true
  pub leased : k ≡ lease j
  pub step : JobStep j k

start_lease-JobStep :
    (connection owner : String) (until at : ℕ) (j : Job)
    → is_claimable connection at j ≡ true
    → JobStep j (start_lease owner until at j)
unfolding is_claimable start_lease
start_lease-JobStep connection owner until at j h = record {
  same = ground arith;
  move = ground arith;
  sound = λ w. ground arith;
}

reply_lease-JobStep :
    (connection owner : String) (until at : ℕ) (j : Job)
    → is_reply_claimable connection at j ≡ true
    → JobStep j (reply_lease owner until at j)
unfolding is_reply_claimable reply_lease
reply_lease-JobStep connection owner until at j h = record {
  same = ground arith;
  move = ground arith;
  sound = λ w. ground arith;
}

cleanup_lease-JobStep :
    (connection owner : String) (until at : ℕ) (j : Job)
    → is_cleanup_claimable connection at j ≡ true
    → JobStep j (cleanup_lease owner until at j)
unfolding is_cleanup_claimable cleanup_lease
cleanup_lease-JobStep connection owner until at j h = record {
  same = ground arith;
  move = ground arith;
  sound = λ w. ground arith;
}

pub id-start_lease :
    (owner : String) (until at : ℕ) (j : Job) → (start_lease owner until at j).id ≡ j.id
unfolding start_lease
id-start_lease owner until at j = refl

id-reply_lease :
    (owner : String) (until at : ℕ) (j : Job) → (reply_lease owner until at j).id ≡ j.id
unfolding reply_lease
id-reply_lease owner until at j = refl

id-cleanup_lease :
    (owner : String) (until at : ℕ) (j : Job) → (cleanup_lease owner until at j).id ≡ j.id
unfolding cleanup_lease
id-cleanup_lease owner until at j = refl

-- What a claim of several rows does to the table and returns.
pub record Claimed (p : Job → Bool) (lease : Job → Job) (n : ℕ) (locked : Job → Bool)
    (rows : List Job) (got : List Job × List Job) : Type 0 where
  pub edits : Edits (ClaimStep p lease) rows got.1
  pub kept : ids got.1 ≡ ids rows
  pub returned :
      (k : Job)
      → In k got.0
      → In k got.1 × (j : Job) × In j rows × (p j ≡ true) × (locked j ≡ false) × (k ≡ lease j)

module _ (connection : String) (at : ℕ) (order order' : Job → Job → Bool) (p : Job → Bool)
    (lease : Job → Job) (same : (j : Job) → (lease j).id ≡ j.id)
    (step : (j : Job) → p j ≡ true → JobStep j (lease j)) where
  take_over-Claimed :
      (n : ℕ) (locked : Job → Bool) (rows : List Job)
      → HasDistinctIds rows
      → Claimed p lease n locked rows
          (take_over connection order lease (candidates p order' n locked rows) rows)
  take_over-Claimed n locked rows d =
      let sound = candidates_sound p order' n locked rows in
      record {
        edits =
            take_over-Edits connection order lease (ClaimStep p lease) _ rows d
              (λ c i. (sound c i).0)
              (λ c i. record {
                claimable = (sound c i).1;
                leased = refl;
                step = step c (sound c i).1;
              });
        kept =
            ids-take_over connection order lease (candidates p order' n locked rows) rows
              (λ j. same j);
        returned = λ k i.
            let (c, at_c, e) =
              take_over-leased connection order lease _ rows d (λ c i. (sound c i).0) k i in
            let (was, holds, free) = sound c at_c in
            (take_over-listed connection order lease _ rows k i, c, was, holds, free, e);
      }

  -- the same for a claim of one row by its id
  take_over_one-Edits :
      (found : Option Job) (rows : List Job)
      → HasDistinctIds rows
      → ((c : Job) → found ≡ some c → In c rows × (p c ≡ true))
      → Edits (ClaimStep p lease) rows (take_over_one connection lease found rows).1
  unfolding take_over_one
  take_over_one-Edits none rows d sound = Edits-refl (ClaimStep p lease) rows
  take_over_one-Edits (some c) rows d sound =
      update-Edits-In (ClaimStep p lease) _ lease rows λ x i h.
        let (at_c, holds) = sound c refl in
        let same = eq_of_id rows x c d i at_c (ground arith) in
        record { claimable = ap p same ∙ holds; leased = refl; step = step x (ap p same ∙ holds) }

with_required :
    {A T : Type 0} (value : String) (limit : ℕ) (rest : String → Result A) {a : A}
    → (required value limit >>= rest) ≡ ok a
    → (rest value ≡ ok a → T)
    → T
with_required value limit rest e next = elim (required-cases value limit) [
  | inl passed ↦ next (rw passed at e)
  | inr refused ↦ cc (rw refused at e)
]

find?-both :
    (q p : Job → Bool) (rows : List Job) (c : Job)
    → find? (λ j. q j && p j) rows ≡ some c
    → In c rows × (p c ≡ true)
find?-both q p rows c e = let (i, h) = find?-match (λ j. q j && p j) rows e in (i, ground arith)

-- When the lease of a claim made at `at` runs out.
abbrev pub until_of : ClaimInput → ℕ → ℕ
until_of input at = at + lease_ms input.lease_time

module _ (connection : String) (input : ClaimInput) (at : ℕ) (rows : List Job)
    (d : HasDistinctIds rows) where
  pub claim-Claimed :
      (locked : Job → Bool) (got : List Job × List Job)
      → claim connection input locked at rows ≡ ok got
      → Claimed
          (is_claimable connection at)
          (start_lease input.owner (until_of input at) at)
          (batch input.limit)
          locked
          rows
          got
  unfolding claim
  claim-Claimed locked got e = with_required input.owner 191 _ e λ e'. rw (← (ok-injective e')) (
      take_over-Claimed connection at by_created by_created (is_claimable connection at)
        (start_lease input.owner (until_of input at) at)
        (id-start_lease input.owner (until_of input at) at)
        (start_lease-JobStep connection input.owner (until_of input at) at) (batch input.limit)
        locked rows d)

  pub claim_reply_pending-Claimed :
      (locked : Job → Bool) (got : List Job × List Job)
      → claim_reply_pending connection input locked at rows ≡ ok got
      → Claimed
          (is_reply_claimable connection at)
          (reply_lease input.owner (until_of input at) at)
          (batch input.limit)
          locked
          rows
          got
  unfolding claim_reply_pending
  claim_reply_pending-Claimed locked got e = with_required input.owner 191 _ e λ e'.
      rw (← (ok-injective e')) (
        take_over-Claimed connection at by_updated by_updated (is_reply_claimable connection at)
          (reply_lease input.owner (until_of input at) at)
          (id-reply_lease input.owner (until_of input at) at)
          (reply_lease-JobStep connection input.owner (until_of input at) at) (batch input.limit)
          locked rows d)

  pub claim_feedback_pending-Claimed :
      (locked : Job → Bool) (got : List Job × List Job)
      → claim_feedback_pending connection input locked at rows ≡ ok got
      → Claimed
          (is_cleanup_claimable connection at)
          (cleanup_lease input.owner (until_of input at) at)
          (batch input.limit)
          locked
          rows
          got
  unfolding claim_feedback_pending
  claim_feedback_pending-Claimed locked got e = with_required input.owner 191 _ e λ e'.
      rw (← (ok-injective e')) (
        take_over-Claimed connection at by_updated by_cleanup (is_cleanup_claimable connection at)
          (cleanup_lease input.owner (until_of input at) at)
          (id-cleanup_lease input.owner (until_of input at) at)
          (cleanup_lease-JobStep connection input.owner (until_of input at) at) (batch input.limit)
          locked rows d)

  pub claim_by_id-Edits :
      (id : String) (got : Option Job × List Job)
      → claim_by_id connection input id at rows ≡ ok got
      → Edits
          (ClaimStep (is_claimable connection at) (start_lease input.owner (until_of input at) at))
          rows
          got.1
  unfolding claim_by_id
  claim_by_id-Edits id got e = with_required input.owner 191 _ e λ e'.
      with_required id 36 _ e' λ e''. rw (← (ok-injective e'')) (
        take_over_one-Edits connection at by_created by_created (is_claimable connection at)
          (start_lease input.owner (until_of input at) at)
          (id-start_lease input.owner (until_of input at) at)
          (start_lease-JobStep connection input.owner (until_of input at) at) _ rows d
          (find?-both (is_run connection id) (is_claimable connection at) rows))

  pub claim_reply_by_id-Edits :
      (id : String) (got : Option Job × List Job)
      → claim_reply_by_id connection input id at rows ≡ ok got
      → Edits
          (ClaimStep
            (is_reply_claimable connection at)
            (reply_lease input.owner (until_of input at) at))
          rows
          got.1
  unfolding claim_reply_by_id
  claim_reply_by_id-Edits id got e = with_required input.owner 191 _ e λ e'.
      with_required id 36 _ e' λ e''. rw (← (ok-injective e'')) (
        take_over_one-Edits connection at by_updated by_updated (is_reply_claimable connection at)
          (reply_lease input.owner (until_of input at) at)
          (id-reply_lease input.owner (until_of input at) at)
          (reply_lease-JobStep connection input.owner (until_of input at) at) _ rows d
          (find?-both (is_run connection id) (is_reply_claimable connection at) rows))

pub patch_prepared_input-Edits :
    (connection id : String) (execution : Fields) (at : ℕ) (rows : List Job)
    (r : Option Job × List Job)
    → patch_prepared_input connection id execution at rows ≡ ok r
    → Edits JobStep rows r.1
unfolding patch_prepared_input
patch_prepared_input-Edits connection id execution at rows r e = with_required id 36 _ e λ e'.
    rw (← (ok-injective e')) (
      update-Edits JobStep _
        (λ j. record j {
          result_json = set "execution" (obj execution) j.result_json;
          updated_at = at;
        })
        (λ j h. record { same = ground arith; move = CanMove-refl j.status; sound = λ w. w }) rows)
