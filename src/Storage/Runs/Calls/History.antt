-- ===== src/Storage/Runs/Calls/History.antt =====
-- Generations and owners over any sequence of calls.
use agent_chat_bridge.Prelude.{
  ℕ, ◌≤◌, String, Bool, not, ◌&&◌, Option, none, some, List, [], ◌∷◌, ◌==◌, find?, any, ltb, Result,
  ok, err, ensure, Ensures, ensures, refused, Ensures->>=, Ensures->>, Ensures-ok, ◌≡◌, one_of,
  Bool-cases, inl, inr, invalid_job_kind, invalid_rotation, rejected_thread_conflict,
  rotation_conflict, recovery_conflict, store_unavailable, invalid_steer, invalid_recovery, refl,
  insert_once,
}
use agent_chat_bridge.Json.{Json}
use agent_chat_bridge.Storage.Rotation.{
  BridgeSession, rotation_field, max_safe, Rotation, RotationTables, rotate_idle_session,
}
use agent_chat_bridge.Storage.Runs.{
  Store, ThreadOwner, Attempt, is_session_of, is_attempt, is_job, Recovery,
}
use agent_chat_bridge.Storage.Runs.Leases.{LeaseInput, owned_job, owned_effect, is_owner}
use agent_chat_bridge.Storage.Runs.Jobs.{insert_job}
use agent_chat_bridge.Storage.Runs.Outbox.{insert_outbox}
use agent_chat_bridge.Storage.Runs.Settlement.{Settlement, settle_outbox, complete_outbox_cleanup}
use agent_chat_bridge.Storage.Runs.Claims.{claim_jobs, claim_outbox}
use agent_chat_bridge.Storage.Runs.Attempts.{BindInput, begin_agent_attempt, bind_agent_attempt}
use agent_chat_bridge.Storage.Runs.Sessions.{
  RejectedInput, reset_found, reset_once, reset_rejected_thread_admission, rejected_payload,
}
use agent_chat_bridge.Storage.Runs.Steering.{
  begin_steer_attempt, steer_field, assert_lease, latest, is_guidance, steer_after,
}
use agent_chat_bridge.Storage.Runs.SteerResults.{
  SteerResult, finish_steer_attempt, check_code, is_settled_by,
}
use agent_chat_bridge.Storage.Runs.Recoveries.{
  RecoveryInput, RecoveryVerdict, recovery_field, check_error, check_verified, verdict_payload,
  new_recovery, recovery_payload, target_connection,
}
use agent_chat_bridge.Storage.Runs.RecoveryQueue.{
  enqueue_recovery, enqueued, admit_request, claim_recoveries, finish_recovery, is_recovery,
  is_recovery_key, check_request, target,
}
use agent_chat_bridge.Storage.Runs.Resources.{
  seal_resource_retirement, complete_resource_retirement, retirement_field, resource_kind,
  locked_run,
}
use agent_chat_bridge.Storage.Runs.Calls.{
  StoreCall, enqueue, record_effect, take_jobs, take_effects, renew, finish, hold, retry, settle,
  clean, begin, bind, assign, reset, reject, guide, guided, request, take_requests, decide, seal,
  complete, rotate, receive, committed, call_tables, perform_call, perform_all,
}
use agent_chat_bridge.Storage.Runs.Calls.Keeps.{
  OwnerKept, owners_same, Keeps, Keeps-refl, Keeps-trans,
}
use agent_chat_bridge.Storage.Runs.Calls.Writes.{
  KeepsToo, tables-Keeps, begin_owned-Keeps, bind_found-Keeps, apply_reset-Keeps, renew_job-Keeps,
  hold_agent_attempt-Keeps, retry_job-Keeps, finish_job_with_outbox-Keeps, set_session-Keeps,
  reset_session-Keeps,
}
use agent_chat_bridge.Storage.Runs.Calls.Rotations.{
  RotationKeeps, rotate_idle_session-RotationKeeps,
}
use agent_chat_bridge.Storage.Runs.Accept.{accept_inbound}
use agent_chat_bridge.Storage.Runs.Calls.Guides.{
  steer_after-Keeps, finish_steer_on-Keeps, finish_found-Keeps, seal_job-Keeps,
}

module _ (connection : String) where
  settle_outbox-Keeps :
      (input : LeaseInput) (s : Settlement) (at : ℕ) (t : Store)
      → Ensures (Keeps t) (settle_outbox connection input s at t)
  unfolding settle_outbox
  settle_outbox-Keeps input s at t =
      Ensures->>= (Keeps t) (owned_effect connection input at t.outbox) _
        (λ e _. Ensures->> (Keeps t) _ _ (ensures (Keeps t) (Keeps-refl t)))

  begin_agent_attempt-Keeps :
      (input : LeaseInput) (agent : String) (at : ℕ) (t : Store)
      → Ensures (KeepsToo t) (begin_agent_attempt connection input agent at t)
  unfolding begin_agent_attempt
  begin_agent_attempt-Keeps input agent at t =
      Ensures->>= (KeepsToo t) (owned_job connection input at t.jobs) _ (λ j _.
        Ensures->> (KeepsToo t) _ _
          (begin_owned-Keeps j agent at (find? (is_attempt j.id) t.attempts) t))

  bind_agent_attempt-Keeps :
      (input : BindInput) (at : ℕ) (t : Store)
      → Ensures (Keeps t) (bind_agent_attempt connection input at t)
  unfolding bind_agent_attempt
  bind_agent_attempt-Keeps input at t =
      Ensures->>= (Keeps t) (owned_job connection input.lease at t.jobs) _
        (λ j _. bind_found-Keeps input at (find? (is_attempt input.lease.id) t.attempts) t)

  begin_steer_attempt-Keeps :
      (input : LeaseInput) (agent_id : String) (at : ℕ) (t : Store)
      → Ensures (KeepsToo t) (begin_steer_attempt connection input agent_id at t)
  unfolding begin_steer_attempt
  begin_steer_attempt-Keeps input agent_id at t =
      Ensures->>= (KeepsToo t) (steer_field agent_id 128) _ (λ agent _.
        Ensures->>= (KeepsToo t) (steer_field input.id 36) _ (λ id _.
          Ensures->>= (KeepsToo t) (steer_field input.lease_token 36) _ (λ token _.
            Ensures->>= (KeepsToo t) (assert_lease token at (find? (is_job connection id) t.jobs)) _
              (λ job _. elim (Bool-cases (any (is_attempt id) t.attempts)) [
                | inl native ↦ rw native (ensures (KeepsToo t) (Keeps-refl t))
                | inr fresh ↦ rw fresh (
                    let previous = latest (is_guidance id) none t.steering in
                    ensures (KeepsToo t) {a = steer_after connection job agent at previous t}
                      (steer_after-Keeps connection job agent at previous t))
              ]))))

  admit_request-Keeps :
      (input : RecoveryInput) (id : String) (t : Store)
      → Ensures (KeepsToo t) (admit_request connection input id t)
  unfolding admit_request
  admit_request-Keeps input id t =
      Ensures->>= (KeepsToo t)
        (target connection input.run_id input.expected_generation input.action t) _
        (λ found _.
          Ensures->> (KeepsToo t) (ensure (target_connection found == connection) recovery_conflict)
            _ (Ensures->> (KeepsToo t) _ _ (ensures (KeepsToo t) (Keeps-refl t))))

  enqueued-Keeps :
      (input : RecoveryInput) (payload_hash id : String) (found : Option Recovery) (t : Store)
      → Ensures (KeepsToo t) (enqueued connection input payload_hash id found t)
  unfolding enqueued
  enqueued-Keeps input payload_hash id none t = refused (KeepsToo t) store_unavailable
  enqueued-Keeps input payload_hash id (some r) t =
      elim (Bool-cases (not (r.payload_hash == payload_hash))) [
        | inl other ↦ rw other (refused (KeepsToo t) recovery_conflict)
        | inr same ↦ elim (Bool-cases (not (r.id == id))) [
          | inl again ↦ rw (same, again) (ensures (KeepsToo t) (Keeps-refl t))
          | inr first ↦ rw (same, first) (admit_request-Keeps input id t)
        ]
      ]

  seal_resource_retirement-Keeps :
      (run_id kind : String) (at : ℕ) (t : Store)
      → Ensures (KeepsToo t) (seal_resource_retirement connection run_id kind at t)
  unfolding seal_resource_retirement
  seal_resource_retirement-Keeps run_id kind at t =
      Ensures->>= (KeepsToo t) (retirement_field run_id 36) _ (λ run _.
        Ensures->>= (KeepsToo t) (resource_kind kind) _ (λ resource _.
          Ensures->>= (KeepsToo t) (locked_run (find? (is_job connection run) t.jobs)) _
            (λ j _. seal_job-Keeps resource j at t)))

module _ (digest : Json → String) (connection : String) where
  reset_once-Keeps :
      (input : RejectedInput) (a : Attempt) (key payload_hash row_id : String) (at : ℕ)
      (found : Option Rotation) (t : Store)
      → Ensures (KeepsToo t) (reset_once input a key payload_hash row_id at found t)
  unfolding reset_once
  reset_once-Keeps input a key payload_hash row_id at none t =
      apply_reset-Keeps input a key payload_hash row_id at t
  reset_once-Keeps input a key payload_hash row_id at (some r) t =
      elim (Bool-cases (r.payload_hash == payload_hash)) [
        | inl same ↦ rw same (ensures (KeepsToo t) (Keeps-refl t))
        | inr other ↦ rw other (refused (KeepsToo t) rotation_conflict)
      ]

  reset_found-Keeps :
      (input : RejectedInput) (row_id : String) (at : ℕ) (found : Option Attempt) (t : Store)
      → Ensures (KeepsToo t) (reset_found digest connection input row_id at found t)
  unfolding reset_found
  reset_found-Keeps input row_id at none t = refused (KeepsToo t) rejected_thread_conflict
  reset_found-Keeps input row_id at (some a) t =
      reset_once-Keeps input a _ (digest (rejected_payload input)) row_id at _ t

  reset_rejected_thread_admission-Keeps :
      (input : RejectedInput) (row_id : String) (at : ℕ) (t : Store)
      → Ensures (KeepsToo t) (reset_rejected_thread_admission digest connection input row_id at t)
  unfolding reset_rejected_thread_admission
  reset_rejected_thread_admission-Keeps input row_id at t =
      Ensures->>= (KeepsToo t) (rotation_field input.expected_thread_id 255) _ (λ thread _.
        Ensures->> (KeepsToo t)
          (ensure
            (input.reason == "thread_archived"
              && ltb 0 input.expected_generation
              && ltb input.expected_generation max_safe)
            invalid_rotation)
          _
          (Ensures->>= (KeepsToo t) (owned_job connection input.lease at t.jobs) _ (λ j _.
            Ensures->> (KeepsToo t) (ensure (j.kind == "agent") invalid_job_kind) _ (
              reset_found-Keeps input row_id at (find? (is_attempt input.lease.id) t.attempts) t))))

  finish_steer_attempt-Keeps :
      (input : LeaseInput) (result : SteerResult) (at : ℕ) (t : Store)
      → Ensures (KeepsToo t) (finish_steer_attempt digest connection input result at t)
  unfolding finish_steer_attempt
  finish_steer_attempt-Keeps input result at t =
      Ensures->> (KeepsToo t)
        (ensure (one_of ("accepted" ∷ "rejected" ∷ "unknown" ∷ []) result.outcome) invalid_steer) _
        (Ensures->> (KeepsToo t) (check_code result.error_code) _ (
          Ensures->>= (KeepsToo t) (steer_field input.id 36) _ (λ id _.
            Ensures->>= (KeepsToo t) (steer_field input.lease_token 36) _ (λ token _.
              finish_steer_on-Keeps digest connection input result at
                (find? (is_settled_by digest connection input) t.steering) t))))

  enqueue_recovery-Keeps :
      (input : RecoveryInput) (id : String) (at : ℕ) (t : Store)
      → Ensures (KeepsToo t) (enqueue_recovery connection digest input id at t)
  unfolding enqueue_recovery
  enqueue_recovery-Keeps input id at t =
      let payload_hash = digest (recovery_payload input) in
      let rows =
        insert_once (is_recovery_key connection input)
          (new_recovery connection input payload_hash id at) t.recoveries in
      let after : Store = record t { recoveries = rows } in
      Ensures->> (KeepsToo t) (check_request input) _ (
        enqueued-Keeps connection input payload_hash id
          (find? (is_recovery_key connection input) rows) after)

  finish_recovery-Keeps :
      (input : LeaseInput) (v : RecoveryVerdict) (at : ℕ) (t : Store)
      → Ensures (KeepsToo t) (finish_recovery connection digest input v at t)
  unfolding finish_recovery
  finish_recovery-Keeps input v at t =
      Ensures->>= (KeepsToo t) (recovery_field input.id 36) _ (λ id _.
        Ensures->>= (KeepsToo t) (recovery_field input.lease_token 36) _ (λ token _.
          Ensures->> (KeepsToo t)
            (ensure (one_of ("applied" ∷ "rejected" ∷ []) v.outcome) invalid_recovery) _
            (Ensures->> (KeepsToo t) (check_error v.error_code) _ (
              Ensures->> (KeepsToo t) (check_verified v.verified) _ (
                finish_found-Keeps connection token v (digest (verdict_payload v)) at
                  (find? (is_recovery connection id) t.recoveries) t)))))

module _ (digest : Json → String) (connection : String) (before : String → String → Bool)
    (locked : String → Bool) where
  call-Keeps :
      (call : StoreCall) (at : ℕ) (t : Store)
      → Ensures (Keeps t) (call_tables digest connection before locked call at t)
  unfolding call_tables
  call-Keeps (enqueue input id sequence) at t =
      Ensures->>= (Keeps t) (insert_job digest input id sequence at t.jobs) _
        (λ r _. ensures (Keeps t) (Keeps-refl t))
  call-Keeps (record_effect input fresh) at t =
      Ensures->>= (Keeps t) (insert_outbox digest input fresh at t.jobs t.outbox) _
        (λ r _. ensures (Keeps t) (Keeps-refl t))
  call-Keeps (take_jobs input kind token) at t =
      Ensures->>= (Keeps t) (claim_jobs connection before locked input kind token at t.jobs) _
        (λ r _. ensures (Keeps t) (Keeps-refl t))
  call-Keeps (take_effects input expiring token) at t =
      Ensures->>= (Keeps t) (claim_outbox connection before locked input expiring token at t.outbox)
        _ (λ r _. ensures (Keeps t) (Keeps-refl t))
  call-Keeps (renew input lease_ms) at t = renew_job-Keeps connection input lease_ms at t
  call-Keeps (finish input fresh effects result) at t =
      tables-Keeps t _
        (finish_job_with_outbox-Keeps connection digest fresh input effects result at t)
  call-Keeps (hold input code) at t = hold_agent_attempt-Keeps connection input code at t
  call-Keeps (retry input terminal next code) at t =
      retry_job-Keeps connection input terminal next code at t
  call-Keeps (settle input s) at t = settle_outbox-Keeps connection input s at t
  call-Keeps (clean conversation id) at t =
      Ensures->>= (Keeps t) (complete_outbox_cleanup connection conversation id t.outbox) _
        (λ r _. ensures (Keeps t) (Keeps-refl t))
  call-Keeps (begin input agent) at t =
      tables-Keeps t _ (begin_agent_attempt-Keeps connection input agent at t)
  call-Keeps (bind input) at t = bind_agent_attempt-Keeps connection input at t
  call-Keeps (assign input) at t = tables-Keeps t _ (set_session-Keeps connection input at t)
  call-Keeps (reset input) at t = tables-Keeps t _ (reset_session-Keeps connection input at t)
  call-Keeps (reject input id) at t =
      tables-Keeps t _ (reset_rejected_thread_admission-Keeps digest connection input id at t)
  call-Keeps (guide input agent) at t =
      tables-Keeps t _ (begin_steer_attempt-Keeps connection input agent at t)
  call-Keeps (guided input result) at t =
      tables-Keeps t _ (finish_steer_attempt-Keeps digest connection input result at t)
  call-Keeps (request input id) at t =
      tables-Keeps t _ (enqueue_recovery-Keeps digest connection input id at t)
  call-Keeps (take_requests owner limit lease_ms fresh) at t =
      Ensures->>= (Keeps t)
        (claim_recoveries connection before locked owner limit lease_ms fresh at t.recoveries) _
        (λ r _. ensures (Keeps t) (Keeps-refl t))
  call-Keeps (decide input v) at t =
      tables-Keeps t _ (finish_recovery-Keeps digest connection input v at t)
  call-Keeps (seal run kind) at t =
      tables-Keeps t _ (seal_resource_retirement-Keeps connection run kind at t)
  call-Keeps (complete run kind) at t =
      Ensures->>= (Keeps t) (complete_resource_retirement connection run kind t.jobs) _
        (λ r _. ensures (Keeps t) (Keeps-refl t))
  call-Keeps (rotate input id) at t =
      let held : RotationTables = record { sessions = t.sessions; rotations = t.rotations } in
      Ensures->>= (Keeps t) (rotate_idle_session digest input id at held) _ (λ r e.
        ensures (Keeps t) (
          Ensures-ok (RotationKeeps held)
              (rotate_idle_session-RotationKeeps digest input id at held) e,
          owners_same t.owners,
        ))
  call-Keeps (receive input id sequence fresh events) at t =
      Ensures->>= (Keeps t)
        (accept_inbound digest input id sequence fresh at (record events { jobs = t.jobs })) _
        (λ r _. ensures (Keeps t) (Keeps-refl t))

  committed-Keeps : (t : Store) (m : Result Store) → Ensures (Keeps t) m → Keeps t (committed t m)
  committed-Keeps t (ok t') h = Ensures-ok (Keeps t) h refl
  committed-Keeps t (err e) h = Keeps-refl t

  perform-Keeps :
      (call : StoreCall) (at : ℕ) (t : Store)
      → Keeps t (perform_call digest connection before locked (call, at) t)
  unfolding perform_call
  perform-Keeps call at t = committed-Keeps t _ (call-Keeps call at t)

  perform_all-Keeps :
      (calls : List (StoreCall × ℕ)) (t : Store)
      → Keeps t (perform_all digest connection before locked calls t)
  unfolding perform_all
  perform_all-Keeps [] t = Keeps-refl t
  perform_all-Keeps ((call, at) ∷ calls) t =
      let next = perform_call digest connection before locked (call, at) t in
      Keeps-trans t next (perform_all digest connection before locked calls next)
        (perform-Keeps call at t) (perform_all-Keeps calls next)

-- Whatever calls come one after another, the refused ones included, the session that is found for a
-- conversation and an agent is found afterwards with a generation that is not smaller.
pub perform_all-generation :
    (digest : Json → String) (connection : String) (before : String → String → Bool)
    (locked : String → Bool) (calls : List (StoreCall × ℕ)) (t : Store)
    (scope conversation agent : String) (s : BridgeSession)
    → find? (is_session_of scope conversation agent) t.sessions ≡ some s
    → (s' : BridgeSession) × (find?
          (is_session_of scope conversation agent)
          (perform_all digest connection before locked calls t).sessions
        ≡ some s')
      × s.generation ≤ s'.generation
perform_all-generation digest connection before locked calls t scope conversation agent =
    (perform_all-Keeps digest connection before locked calls t).0 scope conversation agent

-- Whatever calls come one after another, the refused ones included, a native thread that has an owner
-- has the same conversation and agent as its owner afterwards, and a time of retirement, once there,
-- stays as it is.
pub perform_all-owner :
    (digest : Json → String) (connection : String) (before : String → String → Bool)
    (locked : String → Bool) (calls : List (StoreCall × ℕ)) (t : Store) (scope thread : String)
    (o : ThreadOwner)
    → find? (is_owner scope thread) t.owners ≡ some o
    → (o' : ThreadOwner) × (find?
          (is_owner scope thread)
          (perform_all digest connection before locked calls t).owners
        ≡ some o')
      × OwnerKept o o'
perform_all-owner digest connection before locked calls t scope thread =
    (perform_all-Keeps digest connection before locked calls t).1 scope thread
