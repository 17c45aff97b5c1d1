-- ===== src/Storage/ForwardJobs/Claims.antt =====
-- storage/forward-jobs.mjs: the operations that hand jobs to a worker under a lease. `at` is the
-- reading of the clock, `locked` tells the rows that another transaction holds (SKIP LOCKED).
pub mod Selection
pub mod Steps
pub mod Laws
use agent_chat_bridge.Prelude.{
  ℕ, ◌+◌, String, Bool, true, false, not, ◌&&◌, ◌||◌, Option, none, some, List, [], ◌∷◌, map, ◌==◌,
  nat_eq, ltb, if◌then◌else◌, at_most, null_or_at_most, or_else, Result, ok, ◌>>=◌, take, filter,
  find?, any, update, sort_by,
}
use agent_chat_bridge.Json.{Json, Fields, obj, set}
use agent_chat_bridge.Storage.ForwardJobs.{
  Job, Status, running, is_pending, is_running, is_reply_pending, is_settled, required, lease_ms,
  batch, safe_execution, safe_delivery, is_run,
}

-- `owner`, `leaseMs` and `limit` of a claim; an absent number is 0.
pub record ClaimInput : Type 0 where
  pub owner : String
  pub lease_time : ℕ
  pub limit : ℕ

-- A pending job that is due, or a running one whose lease ran out.
unfoldable pub is_due : ℕ → Job → Bool
is_due at j =
    is_pending j.status && null_or_at_most j.next_attempt_at at
    || is_running j.status && at_most j.lease_expires_at at

unfoldable pub is_claimable : String → ℕ → Job → Bool
unfolding is_due
is_claimable connection at j = j.connection_id == connection && is_due at j && safe_execution j

unfoldable pub is_reply_claimable : String → ℕ → Job → Bool
is_reply_claimable connection at j =
    j.connection_id == connection
    && is_reply_pending j.status
    && null_or_at_most j.lease_expires_at at
    && null_or_at_most j.next_attempt_at at
    && safe_delivery j

unfoldable pub is_cleanup_claimable : String → ℕ → Job → Bool
is_cleanup_claimable connection at j =
    j.connection_id == connection
    && j.feedback_cleanup_pending
    && at_most j.feedback_cleanup_at at
    && is_settled j.status
    && null_or_at_most j.lease_expires_at at

-- ORDER BY created_at,id and the like, on the column that `time` reads.
unfoldable pub by_time : (Job → ℕ) → Job → Job → Bool
by_time time a b = ltb (time a) (time b) || nat_eq (time a) (time b) && not (ltb b.id a.id)

abbrev pub by_created : Job → Job → Bool
by_created = by_time (λ j. j.created_at)

abbrev pub by_updated : Job → Job → Bool
by_updated = by_time (λ j. j.updated_at)

abbrev pub by_cleanup : Job → Job → Bool
by_cleanup = by_time (λ j. or_else j.feedback_cleanup_at 0)

-- SELECT … WHERE p ORDER BY … LIMIT n FOR UPDATE SKIP LOCKED
unfoldable pub candidates :
    (Job → Bool) → (Job → Job → Bool) → ℕ → (Job → Bool) → List Job → List Job
candidates p order n locked rows = take n (sort_by order (filter (λ j. p j && not (locked j)) rows))

abbrev pub ids : List Job → List ℕ
ids = map (λ j. j.id)

-- `connection_id=? AND id IN (…)`
unfoldable pub is_among : String → List ℕ → Job → Bool
is_among connection chosen j = j.connection_id == connection && any (nat_eq j.id) chosen

-- The rows chosen, the UPDATE of those rows, and the SELECT that returns them.
unfoldable pub take_over :
    String → (Job → Job → Bool) → (Job → Job) → List Job → List Job → List Job × List Job
unfolding is_among
take_over connection order lease [] rows = ([], rows)
take_over connection order lease (c ∷ cs) rows =
    let chosen = is_among connection (ids (c ∷ cs)) in
    let rows' = update chosen lease rows in (sort_by order (filter chosen rows'), rows')

unfoldable pub start_lease : String → ℕ → ℕ → Job → Job
start_lease owner until at j = record j {
  status = running;
  attempts = j.attempts + 1;
  lease_owner = owner;
  lease_expires_at = some until;
  started_at = some (or_else j.started_at at);
  updated_at = at;
}

unfoldable pub reply_lease : String → ℕ → ℕ → Job → Job
reply_lease owner until at j = record j {
  reply_attempts = j.reply_attempts + 1;
  lease_owner = owner;
  lease_expires_at = some until;
  updated_at = at;
}

unfoldable pub cleanup_lease : String → ℕ → ℕ → Job → Job
cleanup_lease owner until at j = record j {
  lease_owner = owner;
  lease_expires_at = some until;
  updated_at = at;
}

module _ (connection : String) where
  -- loadRecoverable
  unfoldable pub load_recoverable : ℕ → ℕ → List Job → List Job
  load_recoverable limit at rows =
      candidates (is_claimable connection at) by_created (batch limit) (λ j. false) rows

  -- patchPreparedInput; the row that it returns may be one that it did not change
  unfoldable pub patch_prepared_input :
      String → Fields → ℕ → List Job → Result (Option Job × List Job)
  patch_prepared_input id execution at rows = do
    run ← required id 36
    let rows' =
        update (λ j. is_run connection run j && is_claimable connection at j)
          (λ j. record j {
            result_json = set "execution" (obj execution) j.result_json;
            updated_at = at;
          })
          rows
    ok (find? (is_run connection run) rows', rows')

  -- claim
  unfoldable pub claim : ClaimInput → (Job → Bool) → ℕ → List Job → Result (List Job × List Job)
  claim input locked at rows = do
    owner ← required input.owner 191
    ok (
        take_over connection by_created (start_lease owner (at + lease_ms input.lease_time) at)
          (candidates (is_claimable connection at) by_created (batch input.limit) locked rows) rows)

  -- the id of the row that a claim by id locked, and the same three statements
  unfoldable pub take_over_one : (Job → Job) → Option Job → List Job → Option Job × List Job
  take_over_one lease none rows = (none, rows)
  take_over_one lease (some c) rows =
      let chosen = λ (j : Job). j.connection_id == connection && nat_eq j.id c.id in
      let rows' = update chosen lease rows in (find? chosen rows', rows')

  -- claimById
  unfoldable pub claim_by_id : ClaimInput → String → ℕ → List Job → Result (Option Job × List Job)
  unfolding take_over_one
  claim_by_id input id at rows = do
    owner ← required input.owner 191
    run ← required id 36
    ok (
        take_over_one (start_lease owner (at + lease_ms input.lease_time) at)
          (find? (λ j. is_run connection run j && is_claimable connection at j) rows) rows)

  -- claimReplyPending
  unfoldable pub claim_reply_pending :
      ClaimInput → (Job → Bool) → ℕ → List Job → Result (List Job × List Job)
  claim_reply_pending input locked at rows = do
    owner ← required input.owner 191
    ok (
        take_over connection by_updated (reply_lease owner (at + lease_ms input.lease_time) at)
          (candidates (is_reply_claimable connection at) by_updated (batch input.limit) locked rows)
          rows)

  -- claimReplyById
  unfoldable pub claim_reply_by_id :
      ClaimInput → String → ℕ → List Job → Result (Option Job × List Job)
  unfolding take_over_one
  claim_reply_by_id input id at rows = do
    owner ← required input.owner 191
    run ← required id 36
    ok (
        take_over_one (reply_lease owner (at + lease_ms input.lease_time) at)
          (find? (λ j. is_run connection run j && is_reply_claimable connection at j) rows) rows)

  -- claimFeedbackPending
  unfoldable pub claim_feedback_pending :
      ClaimInput → (Job → Bool) → ℕ → List Job → Result (List Job × List Job)
  claim_feedback_pending input locked at rows = do
    owner ← required input.owner 191
    ok (
        take_over connection by_updated (cleanup_lease owner (at + lease_ms input.lease_time) at)
          (candidates (is_cleanup_claimable connection at) by_cleanup (batch input.limit) locked
            rows)
          rows)
