-- ===== src/Storage/Runs/Steering.antt =====
-- storage/steering.mjs: guidance, a job whose text is sent into the turn of a running job.
pub mod Laws
use Prim.Native.String as Text
use Prim.Native.Char.{code}
use agent_chat_bridge.Prelude.{
  ℕ, ◌+◌, String, Bool, true, false, not, ◌&&◌, ◌||◌, Option, none, some, List, [], ◌∷◌, ◌++◌, ◌==◌,
  nat_eq, ltb, leb, if◌then◌else◌, is_text, find?, any, update, Result, ok, err, ◌>>=◌, ◌>>◌,
  ensure, one_of, invalid_steer, invalid_job_kind, stale_lease, steer_conflict,
}
use agent_chat_bridge.Json.{Json, null, bool, str, obj, end, field}
use agent_chat_bridge.Storage.ForwardJobs.{js_length}
use agent_chat_bridge.Storage.Rotation.{BridgeSession}
use agent_chat_bridge.Storage.Runs.{
  RunJob, Attempt, Steer, Store, is_attempt, is_session_of, is_job,
}
use agent_chat_bridge.Storage.Runs.Leases.{LeaseInput, is_leased}
use agent_chat_bridge.Storage.Runs.Jobs.{is_id}
use agent_chat_bridge.Storage.Runs.Outbox.{is_given}
use agent_chat_bridge.Storage.Runs.Attempts.{is_unresolved, advance}

-- field
unfoldable pub steer_field : String → ℕ → Result String
steer_field value limit =
    if value == "" || ltb limit (js_length value) then err invalid_steer else ok value

-- assertLease
unfoldable pub assert_lease : String → ℕ → Option RunJob → Result RunJob
assert_lease token at none = err stale_lease
assert_lease token at (some j) = do
  ensure (is_leased token at j.lease_token j.status j.lease_expires_at) stale_lease
  ensure (j.kind == "agent") invalid_job_kind
  ok j

pub data SteerKind : Type 0 where
  inactive : SteerKind
  recovery_required : Steer → SteerKind
  admitted : Steer → SteerKind

-- The newest guidance of a job: ORDER BY sequence DESC LIMIT 1.
unfoldable pub latest : (Steer → Bool) → Option Steer → List Steer → Option Steer
latest p found [] = found
latest p found (s ∷ rows) = latest p (if p s then some s else found) rows

abbrev pub is_guidance : String → Steer → Bool
is_guidance job s = s.guidance_job_id == job

-- The run that a guidance would go to: its job, its attempt and the session of its attempt.
pub record Target : Type 0 where
  pub run : RunJob
  pub attempt : Attempt
  pub session : BridgeSession
  pub thread : String
  pub turn : String

abbrev pub new_steer : RunJob → String → Target → ℕ → Steer
new_steer job agent target at = record {
  guidance_job_id = job.id;
  target_run_id = target.run.id;
  connection_id = job.connection_id;
  conversation_id = job.conversation_id;
  agent_id = agent;
  generation = target.attempt.generation;
  native_thread_id = target.thread;
  native_turn_id = target.turn;
  client_message_id = job.id;
  status = "intent";
  error_code = none;
  settled_lease_token = none;
  result_hash = none;
  created_at = at;
  updated_at = at;
}

abbrev pub target_of_session : RunJob → Attempt → Option BridgeSession → Option Target
target_of_session run a none = none
target_of_session run a (some s) = elim a.native_thread_id [
  | none ↦ none
  | some thread ↦ elim a.native_turn_id [
    | none ↦ none
    | some turn ↦
        some (record { run = run; attempt = a; session = s; thread = thread; turn = turn })
  ]
]

abbrev pub target_of_attempt : RunJob → Option Attempt → List BridgeSession → Option Target
target_of_attempt run none sessions = none
target_of_attempt run (some a) sessions =
    target_of_session run a
      (find? (is_session_of a.connection_id a.conversation_id a.agent_id) sessions)

abbrev pub target_of_job : Option RunJob → Store → Option Target
target_of_job none t = none
target_of_job (some run) t = target_of_attempt run (find? (is_attempt run.id) t.attempts) t.sessions

-- The target takes guidance of this job.
unfoldable pub is_steerable : RunJob → String → Target → Bool
is_steerable job agent target =
    one_of ("running" ∷ "pending" ∷ []) target.run.status
    && target.attempt.connection_id == job.connection_id
    && target.attempt.conversation_id == job.conversation_id
    && target.attempt.agent_id == agent
    && not (target.thread == "")
    && not (target.turn == "")
    && is_text target.session.active_run_id target.run.id
    && nat_eq target.session.generation target.attempt.generation
    && is_text target.session.native_thread_id target.thread

-- The checks on the target, and the row that records the intent.
unfoldable pub steer_target : RunJob → String → ℕ → Option Target → Store → SteerKind × Store
unfolding is_steerable
steer_target job agent at none t = (inactive, t)
steer_target job agent at (some target) t =
    if not (is_steerable job agent target)
    then (inactive, t)
    else if any (λ s. is_guidance job.id s && s.target_run_id == target.run.id) t.steering
    then (inactive, t)
    else if any (λ s. s.target_run_id == target.run.id && is_unresolved s) t.steering
    then (inactive, t)
    else let row = new_steer job agent target at in
      (admitted row, record t { steering = t.steering ++ row ∷ [] })

-- The run that the session of the conversation is busy with, unless it is the job itself.
abbrev pub busy_with : String → Option BridgeSession → Option String
busy_with job none = none
busy_with job (some s) =
    if not (is_given s.active_run_id) || is_text s.active_run_id job then none else s.active_run_id

module _ (connection : String) where
  abbrev pub steer_busy : RunJob → String → ℕ → Option String → Store → SteerKind × Store
  steer_busy job agent at none t = (inactive, t)
  steer_busy job agent at (some target) t =
      steer_target job agent at (target_of_job (find? (is_job connection target) t.jobs) t) t

  abbrev pub steer_next : RunJob → String → ℕ → Store → SteerKind × Store
  steer_next job agent at t =
      let session = find? (is_session_of job.connection_id job.conversation_id agent) t.sessions in
      steer_busy job agent at (busy_with job.id session) t

  -- What follows the reading of the newest guidance of the job.
  unfoldable pub steer_after : RunJob → String → ℕ → Option Steer → Store → SteerKind × Store
  unfolding steer_target
  steer_after job agent at none t = steer_next job agent at t
  steer_after job agent at (some previous) t =
      if is_unresolved previous then (recovery_required previous, t) else steer_next job agent at t

  -- beginSteerAttempt
  unfoldable pub begin_steer_attempt : LeaseInput → String → ℕ → Store → Result (SteerKind × Store)
  unfolding assert_lease steer_after
  begin_steer_attempt input agent_id at t = do
    agent ← steer_field agent_id 128
    id ← steer_field input.id 36
    token ← steer_field input.lease_token 36
    job ← assert_lease token at (find? (is_job connection id) t.jobs)
    if any (is_attempt id) t.attempts
        then ok (inactive, t)
        else ok (steer_after job agent at (latest (is_guidance id) none t.steering) t)
