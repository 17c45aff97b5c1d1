-- ===== src/Storage/ForwardJobs/Leases/Steps.antt =====
-- Each lease operation edits the rows of its own lease alone, along the life of a job.
use agent_chat_bridge.Prelude.{
  ℕ, String, ◌≡◌, ◌⊎◌, inl, inr, Option, none, some, Bool, true, ◌&&◌, arith, ap, List, In, ltb,
  Result, ok, err, >>=-eq-ok, ok-injective, ensure, one_of, StoreError, Edits, update-Edits,
  affected, affected-match, eq_iff, later_than, Bool-cases, invalid_store_input, ◌>>=◌, ◌>>◌, ◌||◌,
  if◌then◌else◌,
}
use agent_chat_bridge.Json.{Json, Fields}
use agent_chat_bridge.Storage.ForwardJobs.{
  Job, Status, required, required-cases, is_started, is_running, is_reply_pending, is_settled,
  is_finished,
}
use agent_chat_bridge.Storage.ForwardJobs.Lifecycle.{JobStep, CanMove}
use agent_chat_bridge.Storage.ForwardJobs.Leases.{
  RetryInput, lease_args, holds_lease, owned_update, feedback_written, feedback_keys,
  feedback_members, delivered_members, finished, renew, patch_execution, patch_feedback,
  patch_reply_result, mark_reply_pending, mark_finished, mark_finished_without_reply, mark_retry,
  release_feedback, is_quiet,
}

-- The caller holds the lease of the job, and it has not run out.
pub record OwnsLease (connection id owner : String) (at : ℕ) (j : Job) : Type 0 where
  pub of_connection : j.connection_id ≡ connection
  pub of_run : j.public_run_id ≡ id
  pub by_owner : j.lease_owner ≡ owner
  pub unexpired : later_than j.lease_expires_at at ≡ true

-- A step that the holder of the lease takes.
pub record LeaseStep (connection id owner : String) (at : ℕ) (j k : Job) : Type 0 where
  pub owns : OwnsLease connection id owner at j
  pub step : JobStep j k

-- What an accepted call shows: there was a job under the caller's lease, and no other row changed.
pub record Accepted (connection id owner : String) (at : ℕ) (rows rows' : List Job) : Type 0 where
  pub job : Job
  pub listed : In job rows
  pub owned : OwnsLease connection id owner at job
  pub edits : Edits (LeaseStep connection id owner at) rows rows'

module _ (connection id owner : String) (at : ℕ) where
  holds_lease-OwnsLease :
      (j : Job) → holds_lease connection id owner at j ≡ true → OwnsLease connection id owner at j
  unfolding holds_lease
  holds_lease-OwnsLease j h = ground (
    arith,
    eq_iff j.connection_id connection,
    eq_iff j.public_run_id id,
    eq_iff j.lease_owner owner,
  )

  owned_update-Accepted :
      (q : Job → Bool) (f : Job → Job)
      → ((j : Job) → q j ≡ true → JobStep j (f j))
      → (rows rows' : List Job)
      → owned_update (λ j. holds_lease connection id owner at j && q j) f rows ≡ ok rows'
      → Accepted connection id owner at rows rows'
  unfolding owned_update
  owned_update-Accepted q f step rows rows' e =
      let p = λ (j : Job). holds_lease connection id owner at j && q j in
      elim (Bool-cases (ltb 0 (affected p rows))) [
        | inl some_row ↦
            let (j, listed, matched) = affected-match p rows some_row in
            record {
              job = j;
              listed = listed;
              owned = holds_lease-OwnsLease j (ground arith);
              edits = rw (← (ok-injective (rw some_row at e))) (
                  update-Edits (LeaseStep connection id owner at) p f
                    (λ x h. record {
                      owns = holds_lease-OwnsLease x (ground arith);
                      step = step x (ground arith);
                    })
                    rows);
            }
        | inr no_row ↦ cc (rw no_row at e)
      ]

  lease_args-cases :
      (lease_args id owner ≡ ok (id, owner)) ⊎ (lease_args id owner ≡ err invalid_store_input)
  unfolding lease_args
  lease_args-cases = ground (arith, required-cases id 36, required-cases owner 191)

  pub with_args :
      {T : Type 0} {A : Type 0} (rest : String × String → Result A) {a : A}
      → (lease_args id owner >>= rest) ≡ ok a
      → (rest (id, owner) ≡ ok a → T)
      → T
  with_args rest e next = elim lease_args-cases [
    | inl passed ↦ next (rw passed at e)
    | inr refused ↦ cc (rw refused at e)
  ]

  pub with_ensure :
      {A : Type 0} (b : Bool) (error : StoreError) (m : Result A) {a : A}
      → (ensure b error >> m) ≡ ok a
      → (b ≡ true) × (m ≡ ok a)
  with_ensure b error m e = ground arith

  pub renew-Accepted :
      (t : ℕ) (rows rows' : List Job)
      → renew connection id owner at t rows ≡ ok rows'
      → Accepted connection id owner at rows rows'
  unfolding renew
  renew-Accepted t rows rows' e = with_args _ e (
      owned_update-Accepted (λ j. is_started j.status) _
        (λ j h. record { same = ground arith; move = ground arith; sound = λ w. ground arith }) rows
        rows')

  pub patch_execution-Accepted :
      (execution : Json) (rows rows' : List Job)
      → patch_execution connection id owner at execution rows ≡ ok rows'
      → Accepted connection id owner at rows rows'
  unfolding patch_execution
  patch_execution-Accepted execution rows rows' e = with_args _ e (
      owned_update-Accepted (λ j. is_running j.status) _
        (λ j h. record { same = ground arith; move = ground arith; sound = λ w. ground arith }) rows
        rows')

  feedback_written-JobStep :
      (key : String) (value : Json) (j : Job)
      → is_started j.status ≡ true
      → JobStep j (feedback_written key value at j)
  unfolding feedback_written
  feedback_written-JobStep key value j h = record {
    same = ground arith;
    move = ground arith;
    sound = λ w. ground arith;
  }

  finished-JobStep :
      (status : Status) (hidden : List String) (result : Fields) (code : String) (sent : Option ℕ)
      (j : Job)
      → is_finished status ≡ true
      → CanMove j.status status
      → JobStep j (finished status hidden result code sent at j)
  unfolding finished
  finished-JobStep status hidden result code sent j h m = record {
    same = ground arith;
    move = ground arith;
    sound = λ w. ground arith;
  }

  pub patch_feedback-Accepted :
      (key : String) (value : Json) (rows rows' : List Job)
      → patch_feedback connection id owner at key value rows ≡ ok rows'
      → Accepted connection id owner at rows rows'
  unfolding patch_feedback
  patch_feedback-Accepted key value rows rows' e = with_args _ e λ e'.
      let (k, _, e'') = >>=-eq-ok (required key 32) _ e' in
      owned_update-Accepted (λ j. is_started j.status) (feedback_written k value at)
        (feedback_written-JobStep k value) rows rows'
        (with_ensure (one_of feedback_keys k) invalid_store_input _ e'').1

  pub patch_reply_result-Accepted :
      (result : Fields) (rows rows' : List Job)
      → patch_reply_result connection id owner at result rows ≡ ok rows'
      → Accepted connection id owner at rows rows'
  unfolding patch_reply_result
  patch_reply_result-Accepted result rows rows' e = with_args _ e (
      owned_update-Accepted (λ j. is_reply_pending j.status) _
        (λ j h. record { same = ground arith; move = ground arith; sound = λ w. ground arith }) rows
        rows')

  pub mark_reply_pending-Accepted :
      (result : Fields) (execution : Option Json) (code : String) (rows rows' : List Job)
      → mark_reply_pending connection id owner at result execution code rows ≡ ok rows'
      → Accepted connection id owner at rows rows'
  unfolding mark_reply_pending
  mark_reply_pending-Accepted result execution code rows rows' e = with_args _ e (
      owned_update-Accepted (λ j. is_running j.status) _
        (λ j h. record { same = ground arith; move = ground arith; sound = λ w. ground arith }) rows
        rows')

  pub mark_finished-Accepted :
      (status : Status) (result : Fields) (code : String) (sent : Bool) (rows rows' : List Job)
      → mark_finished connection id owner at status result code sent rows ≡ ok rows'
      → Accepted connection id owner at rows rows'
  unfolding mark_finished
  mark_finished-Accepted status result code sent rows rows' e = with_args _ e λ e'.
      let (final, last) = with_ensure (is_finished status) invalid_store_input _ e' in
      owned_update-Accepted (λ j. is_reply_pending j.status)
        (finished status delivered_members result code (if sent then some at else none) at)
        (λ j h.
          finished-JobStep status delivered_members result code (if sent then some at else none) j
            final (ground arith))
        rows rows' last

  pub mark_finished_without_reply-Accepted :
      (status : Status) (result : Fields) (code : String) (rows rows' : List Job)
      → mark_finished_without_reply connection id owner at status result code rows ≡ ok rows'
      → Accepted connection id owner at rows rows'
  unfolding mark_finished_without_reply
  mark_finished_without_reply-Accepted status result code rows rows' e = with_args _ e λ e'.
      let (final, last) = with_ensure (is_quiet status) invalid_store_input _ e' in
      owned_update-Accepted (λ j. is_running j.status)
        (finished status feedback_members result code none at)
        (λ j h.
          finished-JobStep status feedback_members result code none j (ground arith) (ground arith))
        rows rows' last

  pub mark_retry-Accepted :
      (input : RetryInput) (status : Status) (rows rows' : List Job)
      → mark_retry connection id owner at input rows ≡ ok (status, rows')
      → Accepted connection id owner at rows rows'
  unfolding mark_retry
  mark_retry-Accepted input status rows rows' e = with_args _ e λ e'.
      let (changed, last, same) = >>=-eq-ok (owned_update _ _ rows) _ e' in
      rw (← (ap (λ (r : Status × List Job). r.1) (ok-injective same))) (
        owned_update-Accepted (λ j. is_running j.status || is_reply_pending j.status) _
          (λ j h. record { same = ground arith; move = ground arith; sound = λ w. ground arith })
          rows changed last)

  pub release_feedback-Accepted :
      (next : Option ℕ) (rows rows' : List Job)
      → release_feedback connection id owner at next rows ≡ ok rows'
      → Accepted connection id owner at rows rows'
  unfolding release_feedback
  release_feedback-Accepted next rows rows' e = with_args _ e (
      owned_update-Accepted (λ j. is_settled j.status) _
        (λ j h. record { same = ground arith; move = ground arith; sound = λ w. ground arith }) rows
        rows')
