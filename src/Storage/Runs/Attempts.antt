-- ===== src/Storage/Runs/Attempts.antt =====
-- storage/store.mjs: beginAgentAttempt, bindAgentAttempt, setSession and resetSession;
-- storage/rotation.mjs: resetRejectedThreadAdmission. What ties a run to a session of its
-- conversation and to a native thread.
pub mod Laws
use agent_chat_bridge.Prelude.{
  ℕ, String, Bool, true, false, not, ◌&&◌, ◌||◌, Option, none, some, [], ◌∷◌, ◌++◌, ◌==◌, nat_eq,
  max, if◌then◌else◌, or_else, is_text, find?, any, insert_once, update, Result, ok, err, ◌>>=◌,
  ◌>>◌, ensure, one_of, invalid_job_kind, session_busy, session_conflict, steer_recovery_required,
  thread_conflict, turn_conflict, store_unavailable,
}
use agent_chat_bridge.Storage.ForwardJobs.{required}
use agent_chat_bridge.Storage.Rotation.{BridgeSession}
use agent_chat_bridge.Storage.Runs.{RunJob, Attempt, Steer, Store, is_attempt, is_session_of}
use agent_chat_bridge.Storage.Runs.Leases.{
  LeaseInput, owned_job, claim_thread, is_active_session, is_null,
}
use agent_chat_bridge.Storage.Runs.Outbox.{is_given, same_text}

pub record Admission : Type 0 where
  pub job_id : String
  pub generation : ℕ
  pub native_thread_id : Option String
  pub native_turn_id : Option String
  pub recovery_required : Bool

-- The answer of a run that has an attempt already.
abbrev pub existing_admission : Attempt → Admission
existing_admission a = record {
  job_id = a.job_id;
  generation = a.generation;
  native_thread_id = a.native_thread_id;
  native_turn_id = a.native_turn_id;
  recovery_required = true;
}

abbrev pub new_admission : String → BridgeSession → Admission
new_admission job s = record {
  job_id = job;
  generation = s.generation;
  native_thread_id = s.native_thread_id;
  native_turn_id = none;
  recovery_required = false;
}

-- status IN ('intent','unknown')
abbrev pub is_unresolved : Steer → Bool
is_unresolved s = one_of ("intent" ∷ "unknown" ∷ []) s.status

abbrev pub new_session : String → String → String → ℕ → BridgeSession
new_session connection conversation agent at = record {
  connection_id = connection;
  conversation_id = conversation;
  agent_id = agent;
  generation = 1;
  native_thread_id = none;
  active_run_id = none;
  last_message_at = none;
  updated_at = at;
}

abbrev pub new_attempt : RunJob → String → BridgeSession → ℕ → Attempt
new_attempt job agent s at = record {
  job_id = job.id;
  connection_id = job.connection_id;
  conversation_id = job.conversation_id;
  agent_id = agent;
  generation = s.generation;
  native_thread_id = s.native_thread_id;
  native_turn_id = none;
  created_at = at;
}

-- What follows the INSERT of the session.
unfoldable pub start_attempt :
    RunJob → String → ℕ → Option BridgeSession → Store → Result (Admission × Store)
start_attempt job agent at none t = err store_unavailable
start_attempt job agent at (some s) t =
    if is_given s.active_run_id
    then err session_busy
    else ok (
      new_admission job.id s,
      record t {
        sessions =
            update (is_session_of job.connection_id job.conversation_id agent)
              (λ s. record s { active_run_id = some job.id; updated_at = at }) t.sessions;
        attempts = t.attempts ++ new_attempt job agent s at ∷ [];
      },
    )

-- beginAgentAttempt, for a run with its attempt and a run without one
unfoldable pub begin_owned :
    RunJob → String → ℕ → Option Attempt → Store → Result (Admission × Store)
unfolding start_attempt
begin_owned job agent_id at (some a) t = ok (existing_admission a, t)
begin_owned job agent_id at none t = do
  ensure (not (any (λ s. s.guidance_job_id == job.id && is_unresolved s) t.steering))
      steer_recovery_required
  agent ← required agent_id 128
  let same_key = is_session_of job.connection_id job.conversation_id agent
  let sessions =
      insert_once same_key (new_session job.connection_id job.conversation_id agent at) t.sessions
  start_attempt job agent at (find? same_key sessions) (record t { sessions = sessions })

-- beginAgentAttempt
unfoldable pub begin_agent_attempt :
    String → LeaseInput → String → ℕ → Store → Result (Admission × Store)
unfolding begin_owned
begin_agent_attempt connection input agent_id at t = do
  job ← owned_job connection input at t.jobs
  ensure (job.kind == "agent") invalid_job_kind
  begin_owned job agent_id at (find? (is_attempt job.id) t.attempts) t

pub record BindInput : Type 0 where
  pub lease : LeaseInput
  pub expected_generation : ℕ
  pub native_thread_id : String
  pub native_turn_id : Option String

-- GREATEST(COALESCE(last_message_at,0),?)
abbrev pub advance : Option ℕ → ℕ → Option ℕ
advance last at = some (max (or_else last 0) at)

abbrev pub bind_session : BindInput → ℕ → ℕ → BridgeSession → BridgeSession
bind_session input created_at at s = record s {
  native_thread_id = some input.native_thread_id;
  updated_at = at;
  last_message_at =
      if is_null input.native_turn_id
      then s.last_message_at
      else advance s.last_message_at created_at;
}

-- COALESCE(?,native_turn_id)
abbrev pub coalesce : Option String → Option String → Option String
coalesce none old = old
coalesce (some s) old = some s

abbrev pub bind_attempt : BindInput → Attempt → Attempt
bind_attempt input a = record a {
  native_thread_id = some input.native_thread_id;
  native_turn_id = coalesce input.native_turn_id a.native_turn_id;
}

-- bindAgentAttempt, from the attempt on
unfoldable pub bind_found : BindInput → ℕ → Option Attempt → Store → Result Store
bind_found input at none t = err session_conflict
bind_found input at (some a) t = do
  ensure (nat_eq a.generation input.expected_generation) session_conflict
  ensure (not (is_given a.native_thread_id) || is_text a.native_thread_id input.native_thread_id)
      thread_conflict
  ensure
      (not (is_given a.native_turn_id)
        || same_text a.native_turn_id (coalesce input.native_turn_id a.native_turn_id))
      turn_conflict
  thread ← required input.native_thread_id 255
  ensure (any (is_active_session a input.lease.id) t.sessions) session_conflict
  owners ←
      claim_thread a.connection_id a.conversation_id a.agent_id (some input.native_thread_id)
        t.owners
  ok (record t {
    sessions =
        update (is_active_session a input.lease.id) (bind_session input a.created_at at) t.sessions;
    owners = owners;
    attempts = update (is_attempt input.lease.id) (bind_attempt input) t.attempts;
  })

-- bindAgentAttempt
unfoldable pub bind_agent_attempt : String → BindInput → ℕ → Store → Result Store
unfolding bind_found
bind_agent_attempt connection input at t = owned_job connection input.lease at t.jobs >>= λ job.
    bind_found input at (find? (is_attempt input.lease.id) t.attempts) t
