-- ===== src/Storage/ForwardJobs/Leases.antt =====
-- storage/forward-jobs.mjs: what the holder of a lease may do to its job. `at` is the reading of the
-- clock; `id` and `lease_owner` are those of the input.
pub mod Steps
pub mod Laws
pub mod Documents
use agent_chat_bridge.Prelude.{
  ℕ, ◌+◌, ◌-◌, String, Bool, true, false, not, ◌&&◌, ◌||◌, Option, none, some, List, [], ◌∷◌, ◌==◌,
  nat_eq, ltb, if◌then◌else◌, later_than, or_else, text_or, Result, ok, err, ◌>>=◌, ◌>>◌, ensure,
  one_of, is_text, update, affected, forward_lease_lost, invalid_store_input,
}
use agent_chat_bridge.Json.{
  Json, null, bool, num, Fields, obj, get, set, members, text_of, remove_all, merge_patch,
}
use agent_chat_bridge.Storage.ForwardJobs.{
  Job, Status, pending, running, reply_pending, held, completed, failed, deferred, is_running,
  is_reply_pending, is_finished, is_settled, is_started, required, lease_ms, is_run,
}

-- leaseArgs: the id and the owner of every lease operation.
unfoldable pub lease_args : String → String → Result (String × String)
lease_args id owner = do run ← required id 36; holder ← required owner 191; ok (run, holder)

-- `connection_id=? AND public_run_id=? AND lease_owner=? AND lease_expires_at>?`
unfoldable pub holds_lease : String → String → String → ℕ → Job → Bool
holds_lease connection id owner at j =
    is_run connection id j && j.lease_owner == owner && later_than j.lease_expires_at at

-- An UPDATE that must match a row: assertLease.
unfoldable pub owned_update : (Job → Bool) → (Job → Job) → List Job → Result (List Job)
owned_update p f rows = do ensure (ltb 0 (affected p rows)) forward_lease_lost; ok (update p f rows)

-- The members that completion takes out of the document that it merges in.
abbrev pub feedback_members : List String
feedback_members = "executionCard" ∷ "typing" ∷ "stop" ∷ "userInput" ∷ []

abbrev pub delivered_members : List String
delivered_members = "executionCard" ∷ "typing" ∷ "stop" ∷ "delivery" ∷ "userInput" ∷ []

-- patchFeedback writes one of these.
abbrev pub feedback_keys : List String
feedback_keys = "executionCard" ∷ "typing" ∷ "stop" ∷ "delivery" ∷ "replyMode" ∷ []

abbrev is_false : Option Json → Bool
is_false (some (bool false)) = true
is_false _ = false

abbrev pub cleanup_open : Json → Bool
cleanup_open value =
    is_false (get "desired" (members (some value)))
    && not (
        one_of ("confirmed" ∷ "not_applicable" ∷ [])
          (or_else (text_of (get "outcome" (members (some value)))) ""))

-- `Number(value.nextRetryAt || at)`
abbrev pub cleanup_time : Option Json → ℕ → ℕ
cleanup_time (some (num n)) at = if nat_eq n 0 then at else n
cleanup_time _ at = at

-- The assignments of feedback_cleanup_pending and feedback_cleanup_at, made for `typing` alone.
unfoldable pub with_cleanup : String → Json → ℕ → Job → Job
with_cleanup key value at j =
    if key == "typing"
    then record j {
      feedback_cleanup_pending = cleanup_open value;
      feedback_cleanup_at =
          if cleanup_open value
          then some (cleanup_time (get "nextRetryAt" (members (some value))) at)
          else none;
    }
    else j

-- `{ ...result, execution: input.execution ?? result.execution }` as JSON
abbrev pub with_execution : Option Json → Fields → Fields
with_execution none result = result
with_execution (some null) result = result
with_execution (some v) result = set "execution" v result

-- The flags of markRetry.
pub record RetryInput : Type 0 where
  pub terminal : Bool
  pub held : Bool
  pub reply_pending : Bool
  pub error_code : String
  pub next_attempt_at : Option ℕ
  pub preserve_attempt : Bool

abbrev pub retry_status : RetryInput → Status
retry_status input =
    if input.terminal
    then failed
    else if input.held
    then held
    else if input.reply_pending
    then reply_pending
    else pending

unfoldable pub retried : RetryInput → ℕ → Job → Job
retried input at j = record j {
  status = retry_status input;
  last_error = input.error_code;
  next_attempt_at =
      if input.terminal then none else some (or_else input.next_attempt_at (at + 1000));
  finished_at = if input.terminal then some at else none;
  attempts = j.attempts - (if input.preserve_attempt then 1 else 0);
  lease_owner = "";
  lease_expires_at = none;
  updated_at = at;
}

-- The assignments that markFinished and markFinishedWithoutReply share.
unfoldable pub finished : Status → List String → Fields → String → Option ℕ → ℕ → Job → Job
finished status hidden result error_code sent_at at j = record j {
  status = status;
  result_json = merge_patch (remove_all hidden result) j.result_json;
  last_error = text_or error_code j.last_error;
  finished_at = some at;
  reply_sent_at = sent_at;
  lease_owner = "";
  lease_expires_at = none;
  updated_at = at;
}

-- `['completed', 'deferred'].includes(status)`
abbrev pub is_quiet : Status → Bool
is_quiet completed = true
is_quiet deferred = true
is_quiet _ = false

-- The assignments of patchFeedback.
unfoldable pub feedback_written : String → Json → ℕ → Job → Job
unfolding with_cleanup
feedback_written key value at j =
    with_cleanup key value at
      (record j { result_json = set key value j.result_json; updated_at = at })

module _ (connection id lease_owner : String) (at : ℕ) where
  -- renew
  unfoldable pub renew : ℕ → List Job → Result (List Job)
  unfolding lease_args holds_lease owned_update
  renew lease_time rows = do
    (run, owner) ← lease_args id lease_owner
    owned_update (λ j. holds_lease connection run owner at j && is_started j.status)
        (λ j. record j { lease_expires_at = some (at + lease_ms lease_time); updated_at = at }) rows

  -- patchExecution
  unfoldable pub patch_execution : Json → List Job → Result (List Job)
  unfolding lease_args holds_lease owned_update
  patch_execution execution rows = do
    (run, owner) ← lease_args id lease_owner
    owned_update (λ j. holds_lease connection run owner at j && is_running j.status)
        (λ j. record j { result_json = set "execution" execution j.result_json; updated_at = at })
        rows

  -- patchFeedback
  unfoldable pub patch_feedback : String → Json → List Job → Result (List Job)
  unfolding lease_args holds_lease owned_update feedback_written
  patch_feedback input_key value rows = do
    (run, owner) ← lease_args id lease_owner
    key ← required input_key 32
    ensure (one_of feedback_keys key) invalid_store_input
    owned_update (λ j. holds_lease connection run owner at j && is_started j.status)
        (feedback_written key value at) rows

  -- patchReplyResult
  unfoldable pub patch_reply_result : Fields → List Job → Result (List Job)
  unfolding lease_args holds_lease owned_update
  patch_reply_result result rows = do
    (run, owner) ← lease_args id lease_owner
    owned_update (λ j. holds_lease connection run owner at j && is_reply_pending j.status)
        (λ j. record j {
          result_json = merge_patch (remove_all feedback_members result) j.result_json;
          updated_at = at;
        })
        rows

  -- markReplyPending
  unfoldable pub mark_reply_pending : Fields → Option Json → String → List Job → Result (List Job)
  unfolding lease_args holds_lease owned_update
  mark_reply_pending result execution error_code rows = do
    (run, owner) ← lease_args id lease_owner
    owned_update (λ j. holds_lease connection run owner at j && is_running j.status)
        (λ j. record j {
          status = reply_pending;
          result_json =
              merge_patch (remove_all feedback_members (with_execution execution result))
                j.result_json;
          last_error = error_code;
          lease_expires_at = some at;
          updated_at = at;
        })
        rows

  -- markFinished; `reply_sent` is false only for an input `replySent: false`
  unfoldable pub mark_finished : Status → Fields → String → Bool → List Job → Result (List Job)
  unfolding lease_args holds_lease owned_update finished
  mark_finished status result error_code reply_sent rows = do
    (run, owner) ← lease_args id lease_owner
    ensure (is_finished status) invalid_store_input
    owned_update (λ j. holds_lease connection run owner at j && is_reply_pending j.status)
        (finished status delivered_members result error_code (if reply_sent then some at else none)
          at)
        rows

  -- markFinishedWithoutReply
  unfoldable pub mark_finished_without_reply :
      Status → Fields → String → List Job → Result (List Job)
  unfolding lease_args holds_lease owned_update finished
  mark_finished_without_reply status result error_code rows = do
    (run, owner) ← lease_args id lease_owner
    ensure (is_quiet status) invalid_store_input
    owned_update (λ j. holds_lease connection run owner at j && is_running j.status)
        (finished status feedback_members result error_code none at) rows

  -- markRetry
  unfoldable pub mark_retry : RetryInput → List Job → Result (Status × List Job)
  unfolding lease_args holds_lease owned_update retried
  mark_retry input rows = do
    (run, owner) ← lease_args id lease_owner
    rows' ←
        owned_update
          (λ j.
            holds_lease connection run owner at j
            && (is_running j.status || is_reply_pending j.status))
          (retried input at) rows
    ok (retry_status input, rows')

  -- releaseFeedback
  unfoldable pub release_feedback : Option ℕ → List Job → Result (List Job)
  unfolding lease_args holds_lease owned_update
  release_feedback next_attempt_at rows = do
    (run, owner) ← lease_args id lease_owner
    owned_update (λ j. holds_lease connection run owner at j && is_settled j.status)
        (λ j. record j {
          lease_owner = "";
          lease_expires_at = none;
          feedback_cleanup_at = next_attempt_at;
          updated_at = at;
        })
        rows
