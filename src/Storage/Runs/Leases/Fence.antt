-- ===== src/Storage/Runs/Leases/Fence.antt =====
-- The operations that a worker calls on the job it has leased.
use agent_chat_bridge.Prelude.{
  ℕ, String, Bool, true, Option, some, List, find?, Result, ok, ◌>>=◌, ensure, >>=-eq-ok, ◌≡◌, ◌&&◌,
  ◌==◌, ltb, invalid_rotation,
}
use agent_chat_bridge.Json.{Json}
use agent_chat_bridge.Storage.Rotation.{rotation_field, max_safe}
use agent_chat_bridge.Storage.Runs.{RunJob, Store, is_job}
use agent_chat_bridge.Storage.Runs.Leases.{LeaseInput, is_leased, owned_job}
use agent_chat_bridge.Storage.Runs.Leases.Laws.{owned_job-held}
use agent_chat_bridge.Storage.Runs.Jobs.{renew_job, hold_agent_attempt, retry_job}
use agent_chat_bridge.Storage.Runs.Settlement.{RunEffect, finish_job_with_outbox}
use agent_chat_bridge.Storage.Runs.Attempts.{BindInput, begin_agent_attempt, bind_agent_attempt}
use agent_chat_bridge.Storage.Runs.Sessions.{RejectedInput, reset_rejected_thread_admission}

pub data Work : Type 0 where
  renew : LeaseInput → ℕ → Work
  finish : LeaseInput → (ℕ → String × String) → List RunEffect → Json → Work
  hold : LeaseInput → String → Work
  retry : LeaseInput → Bool → Option ℕ → String → Work
  begin : LeaseInput → String → Work
  bind : BindInput → Work
  reject : RejectedInput → String → Work

abbrev pub lease_of : Work → LeaseInput
lease_of (renew input lease_ms) = input
lease_of (finish input fresh effects result) = input
lease_of (hold input code) = input
lease_of (retry input terminal next code) = input
lease_of (begin input agent) = input
lease_of (bind input) = input.lease
lease_of (reject input id) = input.lease

module _ (digest : Json → String) (connection : String) where
  -- The tables that a call leaves where it ends in a result.
  unfoldable pub work : Work → ℕ → Store → Result Store
  work (renew input lease_ms) at t = renew_job connection input lease_ms at t
  work (finish input fresh effects result) at t =
      finish_job_with_outbox digest fresh connection input effects result at t >>= λ r. ok r.1
  work (hold input code) at t = hold_agent_attempt connection input code at t
  work (retry input terminal next code) at t = retry_job connection input terminal next code at t
  work (begin input agent) at t = begin_agent_attempt connection input agent at t >>= λ r. ok r.1
  work (bind input) at t = bind_agent_attempt connection input at t
  work (reject input id) at t =
      reset_rejected_thread_admission digest connection input id at t >>= λ r. ok r.1

-- The job of the lease is running under its token, which has not expired.
abbrev pub IsHeld : String → LeaseInput → ℕ → List RunJob → Type 0
IsHeld connection input at jobs =
    (j : RunJob) × (find? (is_job connection input.id) jobs ≡ some j)
    × (is_leased input.lease_token at j.lease_token j.status j.lease_expires_at ≡ true)

through :
    {A : Type 0} (connection : String) (input : LeaseInput) (at : ℕ) (jobs : List RunJob)
    (rest : RunJob → Result A) {r : A}
    → (owned_job connection input at jobs >>= rest) ≡ ok r
    → IsHeld connection input at jobs
through connection input at jobs rest e =
    let (j, owned, _) = >>=-eq-ok (owned_job connection input at jobs) rest e in
    let (found, held) = owned_job-held connection input at jobs owned in (j, found, held)

-- Renewing, finishing, holding, retrying, beginning, binding and resetting a run all fail unless the
-- caller's token is the one that the running job is leased under and the lease has not expired.
pub work-fenced :
    (digest : Json → String) (connection : String) (call : Work) (at : ℕ) (t t' : Store)
    → work digest connection call at t ≡ ok t'
    → IsHeld connection (lease_of call) at t.jobs
unfolding work renew_job hold_agent_attempt retry_job finish_job_with_outbox begin_agent_attempt
    bind_agent_attempt reset_rejected_thread_admission
work-fenced digest connection (renew input lease_ms) at t t' e =
    through connection input at t.jobs _ e
work-fenced digest connection (finish input fresh effects result) at t t' e =
    let (_, done, _) =
      >>=-eq-ok (finish_job_with_outbox digest fresh connection input effects result at t) _ e in
    through connection input at t.jobs _ done
work-fenced digest connection (hold input code) at t t' e = through connection input at t.jobs _ e
work-fenced digest connection (retry input terminal next code) at t t' e =
    through connection input at t.jobs _ e
work-fenced digest connection (begin input agent) at t t' e =
    let (_, done, _) = >>=-eq-ok (begin_agent_attempt connection input agent at t) _ e in
    through connection input at t.jobs _ done
work-fenced digest connection (bind input) at t t' e = through connection input.lease at t.jobs _ e
work-fenced digest connection (reject input id) at t t' e =
    let (_, done, _) =
      >>=-eq-ok (reset_rejected_thread_admission digest connection input id at t) _ e in
    let (_, _, thread) = >>=-eq-ok (rotation_field input.expected_thread_id 255) _ done in
    let (_, _, limits) =
      >>=-eq-ok
        (ensure
          (input.reason == "thread_archived"
            && ltb 0 input.expected_generation
            && ltb input.expected_generation max_safe)
          invalid_rotation)
        _ thread in
    through connection input.lease at t.jobs _ limits
