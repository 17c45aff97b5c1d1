-- ===== src/Storage/ForwardJobs/Leases/Laws.antt =====
-- The operations that a worker calls under its lease, and the lease that fences them.
use agent_chat_bridge.Prelude.{
  ℕ, String, Bool, Option, List, Result, ok, ◌>>=◌, ◌≡◌, >>=-eq-ok, ok-injective,
}
use agent_chat_bridge.Json.{Json, Fields}
use agent_chat_bridge.Storage.ForwardJobs.{Job, Status}
use agent_chat_bridge.Storage.ForwardJobs.Leases.{
  RetryInput, renew, patch_execution, patch_feedback, patch_reply_result, mark_reply_pending,
  mark_finished, mark_finished_without_reply, mark_retry, release_feedback,
}
use agent_chat_bridge.Storage.ForwardJobs.Leases.Steps.{
  Accepted, renew-Accepted, patch_execution-Accepted, patch_feedback-Accepted,
  patch_reply_result-Accepted, mark_reply_pending-Accepted, mark_finished-Accepted,
  mark_finished_without_reply-Accepted, mark_retry-Accepted, release_feedback-Accepted,
}

-- The operations that a worker calls under its lease.
pub data LeaseCall : Type 0 where
  renews : ℕ → LeaseCall
  patches_execution : Json → LeaseCall
  patches_feedback : String → Json → LeaseCall
  patches_reply : Fields → LeaseCall
  answers : Fields → Option Json → String → LeaseCall
  finishes : Status → Fields → String → Bool → LeaseCall
  finishes_quietly : Status → Fields → String → LeaseCall
  retries : RetryInput → LeaseCall
  releases : Option ℕ → LeaseCall

module _ (connection id owner : String) (at : ℕ) where
  unfoldable pub lease_call : LeaseCall → List Job → Result (List Job)
  lease_call (renews t) rows = renew connection id owner at t rows
  lease_call (patches_execution x) rows = patch_execution connection id owner at x rows
  lease_call (patches_feedback key v) rows = patch_feedback connection id owner at key v rows
  lease_call (patches_reply r) rows = patch_reply_result connection id owner at r rows
  lease_call (answers r x code) rows = mark_reply_pending connection id owner at r x code rows
  lease_call (finishes s r code sent) rows = mark_finished connection id owner at s r code sent rows
  lease_call (finishes_quietly s r code) rows =
      mark_finished_without_reply connection id owner at s r code rows
  lease_call (retries i) rows = do
    (status, rows') ← mark_retry connection id owner at i rows
    ok rows'
  lease_call (releases n) rows = release_feedback connection id owner at n rows

  -- Whatever a worker calls, the call is accepted only if the table has a job of that id whose lease
  -- is the caller's and has not run out, and it changes rows of that id and lease alone, each by one
  -- step of a job's life.
  pub lease_call-Accepted :
      (call : LeaseCall) (rows rows' : List Job)
      → lease_call call rows ≡ ok rows'
      → Accepted connection id owner at rows rows'
  unfolding lease_call
  lease_call-Accepted (renews t) rows rows' e = renew-Accepted connection id owner at t rows rows' e
  lease_call-Accepted (patches_execution x) rows rows' e =
      patch_execution-Accepted connection id owner at x rows rows' e
  lease_call-Accepted (patches_feedback key v) rows rows' e =
      patch_feedback-Accepted connection id owner at key v rows rows' e
  lease_call-Accepted (patches_reply r) rows rows' e =
      patch_reply_result-Accepted connection id owner at r rows rows' e
  lease_call-Accepted (answers r x code) rows rows' e =
      mark_reply_pending-Accepted connection id owner at r x code rows rows' e
  lease_call-Accepted (finishes s r code sent) rows rows' e =
      mark_finished-Accepted connection id owner at s r code sent rows rows' e
  lease_call-Accepted (finishes_quietly s r code) rows rows' e =
      mark_finished_without_reply-Accepted connection id owner at s r code rows rows' e
  lease_call-Accepted (retries i) rows rows' e =
      let ((status, changed), retried, same) =
        >>=-eq-ok (mark_retry connection id owner at i rows) _ e in
      mark_retry-Accepted connection id owner at i status rows rows'
        (rw (← (ok-injective same)) retried)
  lease_call-Accepted (releases n) rows rows' e =
      release_feedback-Accepted connection id owner at n rows rows' e
