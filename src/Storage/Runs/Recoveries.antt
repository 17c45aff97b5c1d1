-- ===== src/Storage/Runs/Recoveries.antt =====
-- storage/recovery.mjs: the requests of an administrator to settle a run whose outcome is unknown.
use agent_chat_bridge.Prelude.{
  ℕ, ◌+◌, String, Bool, true, false, not, ◌&&◌, ◌||◌, Option, none, some, List, ◌==◌, nat_eq, ltb,
  if◌then◌else◌, is_text, find?, update, Result, ok, err, ◌>>=◌, ◌>>◌, ensure, invalid_recovery,
  recovery_conflict,
}
use agent_chat_bridge.Json.{Json, null, str, num, obj, end, field}
use agent_chat_bridge.Storage.ForwardJobs.{js_length}
use agent_chat_bridge.Storage.Rotation.{BridgeSession}
use agent_chat_bridge.Storage.Runs.{
  RunJob, Attempt, ThreadOwner, Steer, Recovery, Store, is_attempt, is_session_of,
}
use agent_chat_bridge.Storage.Runs.Leases.{claim_thread, is_null}
use agent_chat_bridge.Storage.Runs.Jobs.{is_id}
use agent_chat_bridge.Storage.Runs.Outbox.{is_given}
use agent_chat_bridge.Storage.Runs.Attempts.{advance}
use agent_chat_bridge.Storage.Runs.SteerResults.{is_code, text_value}

-- field
unfoldable pub recovery_field : String → ℕ → Result String
recovery_field value limit =
    if value == "" || ltb limit (js_length value) then err invalid_recovery else ok value

-- `value == null ? null : field(value)`
unfoldable pub optional_field : Option String → ℕ → Result (Option String)
unfolding recovery_field
optional_field none limit = ok none
optional_field (some value) limit = recovery_field value limit >>= λ v. ok (some v)

pub record RecoveryInput : Type 0 where
  pub run_id : String
  pub caller_id : String
  pub idempotency_key : String
  pub action : String
  pub expected_generation : ℕ
  pub evidence : String
  pub native_thread_id : Option String
  pub native_turn_id : Option String

-- What a recovery settles: a guidance, or a run with its attempt.
pub data RecoveryTarget : Type 0 where
  to_guidance : Steer → RecoveryTarget
  to_attempt : Attempt → RecoveryTarget

abbrev pub job_has_status : String → Option RunJob → Bool
job_has_status status none = false
job_has_status status (some j) = j.status == status

unfoldable pub guidance_target : ℕ → Option RunJob → Option Steer → Result RecoveryTarget
guidance_target generation job none = err recovery_conflict
guidance_target generation job (some s) =
    ensure (job_has_status "unknown" job && s.status == "unknown" && nat_eq s.generation generation)
      recovery_conflict
    >> ok (to_guidance s)

abbrev pub is_session_at : ℕ → String → Option BridgeSession → Bool
is_session_at generation run none = false
is_session_at generation run (some s) =
    nat_eq s.generation generation && is_text s.active_run_id run

unfoldable pub attempt_target :
    String → ℕ → Option RunJob → Option Attempt → List BridgeSession → Result RecoveryTarget
attempt_target run generation job none sessions = err recovery_conflict
attempt_target run generation job (some a) sessions =
    ensure (job_has_status "unknown" job && nat_eq a.generation generation) recovery_conflict
    >> ensure
        (is_session_at generation run
          (find? (is_session_of a.connection_id a.conversation_id a.agent_id) sessions))
        recovery_conflict
    >> ok (to_attempt a)

abbrev pub target_connection : RecoveryTarget → String
target_connection (to_guidance s) = s.connection_id
target_connection (to_attempt a) = a.connection_id

abbrev pub target_conversation : RecoveryTarget → String
target_conversation (to_guidance s) = s.conversation_id
target_conversation (to_attempt a) = a.conversation_id

-- A row of bridge_thread_owners whose resources are not retired, or no row.
abbrev pub is_unretired : Option ThreadOwner → Bool
is_unretired none = true
is_unretired (some o) = is_null o.resource_retired_at

abbrev pub recovery_payload : RecoveryInput → Json
recovery_payload input = obj (
    field "runId" (str input.run_id) (
      field "action" (str input.action) (
        field "generation" (num input.expected_generation) (
          field "evidence" (str input.evidence) (
            field "threadId" (text_value input.native_thread_id)
              (field "turnId" (text_value input.native_turn_id) end))))))

abbrev pub new_recovery : String → RecoveryInput → String → String → ℕ → Recovery
new_recovery connection input payload_hash id at = record {
  id = id;
  run_id = input.run_id;
  connection_id = connection;
  conversation_id = none;
  caller_id = input.caller_id;
  idempotency_key = input.idempotency_key;
  payload_hash = payload_hash;
  action = input.action;
  expected_generation = input.expected_generation;
  native_thread_id = input.native_thread_id;
  native_turn_id = input.native_turn_id;
  evidence = input.evidence;
  status = "pending";
  lease_owner = none;
  lease_token = none;
  lease_expires_at = none;
  error_code = none;
  result_hash = none;
  created_at = at;
  updated_at = at;
}

pub record RecoveryReceipt : Type 0 where
  pub id : String
  pub duplicate : Bool

pub record RecoveryVerdict : Type 0 where
  pub outcome : String
  pub error_code : Option String
  pub verified : Option (String × String)

abbrev pub verified_value : Option (String × String) → Json
verified_value none = null
verified_value (some (thread, turn)) =
    obj (field "threadId" (str thread) (field "turnId" (str turn) end))

abbrev pub verdict_payload : RecoveryVerdict → Json
verdict_payload v = obj (
    field "outcome" (str v.outcome) (
      field "errorCode" (text_value v.error_code)
        (field "verified" (verified_value v.verified) end)))

unfoldable pub check_verified : Option (String × String) → Result (Unit {0})
check_verified none = ok tt
check_verified (some (thread, turn)) = do
  thread ← recovery_field thread 255
  turn ← recovery_field turn 255
  ok tt

unfoldable pub check_error : Option String → Result (Unit {0})
check_error none = ok tt
check_error (some code) = recovery_field code 64 >>= λ c. ensure (is_code c) invalid_recovery

-- The verified turn is the one that the request names, and no other than the attempt knows.
unfoldable pub is_verified : Recovery → Attempt → Option (String × String) → Bool
is_verified r a none = false
is_verified r a (some (thread, turn)) =
    is_text r.native_thread_id thread
    && is_text r.native_turn_id turn
    && (not (is_given a.native_thread_id) || is_text a.native_thread_id thread)
    && (not (is_given a.native_turn_id) || is_text a.native_turn_id turn)

abbrev pub without_lease : String → ℕ → RunJob → RunJob
without_lease status at j = record j {
  status = status;
  lease_token = none;
  lease_owner = none;
  lease_expires_at = none;
  updated_at = at;
}

abbrev pub requeued : ℕ → RunJob → RunJob
requeued at j = record (without_lease "pending" at j) { next_attempt_at = at }

abbrev pub cancel_run : String → ℕ → Store → Store
cancel_run run at t = record t { jobs = update (is_id run) (without_lease "cancelled" at) t.jobs }

abbrev pub abandon_session : ℕ → BridgeSession → BridgeSession
abandon_session at s = record s {
  generation = s.generation + 1;
  active_run_id = none;
  native_thread_id = none;
  updated_at = at;
}

unfoldable pub adopt_turn : Recovery → Attempt → ℕ → String → String → Store → Result Store
adopt_turn r a at thread turn t =
    claim_thread a.connection_id a.conversation_id a.agent_id (some thread) t.owners >>= λ owners.
    ok (record t {
      owners = owners;
      attempts =
          update (is_attempt r.run_id)
            (λ x. record x { native_thread_id = some thread; native_turn_id = some turn })
            t.attempts;
      sessions =
          update (is_session_of a.connection_id a.conversation_id a.agent_id)
            (λ s. record s {
              native_thread_id = some thread;
              updated_at = at;
              last_message_at = advance s.last_message_at a.created_at;
            })
            t.sessions;
      jobs = update (is_id r.run_id) (requeued at) t.jobs;
    })

unfoldable pub adopt_verified :
    Recovery → Attempt → ℕ → Option (String × String) → Store → Result Store
unfolding is_verified adopt_turn
adopt_verified r a at none t = err recovery_conflict
adopt_verified r a at (some (thread, turn)) t =
    ensure (is_verified r a (some (thread, turn))) recovery_conflict
    >> adopt_turn r a at thread turn t

-- What an applied recovery does to its target.
unfoldable pub apply_recovery :
    Recovery → RecoveryVerdict → ℕ → RecoveryTarget → Store → Result Store
unfolding adopt_verified
apply_recovery r v at (to_guidance s) t =
    ensure (is_null v.verified) invalid_recovery >> ok (cancel_run r.run_id at t)
apply_recovery r v at (to_attempt a) t =
    if r.action == "adopt_turn"
    then adopt_verified r a at v.verified t
    else ok (
        cancel_run r.run_id at (record t {
          sessions =
              update (is_session_of a.connection_id a.conversation_id a.agent_id)
                (abandon_session at) t.sessions;
        }))
