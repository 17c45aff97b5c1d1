-- ===== src/Storage/Runs/Sessions.antt =====
-- storage/store.mjs: setSession and resetSession; storage/rotation.mjs: resetRejectedThreadAdmission,
-- which gives a run whose thread was refused as archived the right to start one new thread.
pub mod Laws
use Prim.Native.String as Text
use agent_chat_bridge.Prelude.{
  ℕ, ◌+◌, String, Bool, true, false, not, ◌&&◌, Option, none, some, List, [], ◌∷◌, ◌++◌, ◌==◌,
  nat_eq, ltb, if◌then◌else◌, is_text, find?, any, update, Result, ok, err, ◌>>=◌, ◌>>◌, ensure,
  invalid_job_kind, session_conflict, session_busy_or_conflict, invalid_rotation, rotation_conflict,
  rejected_thread_conflict,
}
use agent_chat_bridge.Json.{Json, str, num, obj, end, field}
use agent_chat_bridge.Storage.ForwardJobs.{required}
use agent_chat_bridge.Storage.Rotation.{BridgeSession, Rotation, rotation_field, max_safe}
use agent_chat_bridge.Storage.Runs.{Attempt, Store, is_attempt, is_session_of}
use agent_chat_bridge.Storage.Runs.Leases.{LeaseInput, owned_job, claim_thread, is_null}

pub record SessionInput : Type 0 where
  pub conversation_id : String
  pub agent_id : String
  pub expected_generation : ℕ
  pub native_thread_id : Option String
  pub active_run_id : Option String

-- WHERE … AND generation=? AND active_run_id IS NULL
abbrev pub is_free_session : String → SessionInput → BridgeSession → Bool
is_free_session connection input s =
    is_session_of connection input.conversation_id input.agent_id s
    && nat_eq s.generation input.expected_generation
    && is_null s.active_run_id

abbrev pub first_session : String → SessionInput → ℕ → BridgeSession
first_session connection input at = record {
  connection_id = connection;
  conversation_id = input.conversation_id;
  agent_id = input.agent_id;
  generation = 1;
  native_thread_id = input.native_thread_id;
  active_run_id = input.active_run_id;
  last_message_at = none;
  updated_at = at;
}

-- The statement of setSession on bridge_sessions: an INSERT for the generation 0, else an UPDATE.
unfoldable pub put_session :
    String → SessionInput → ℕ → List BridgeSession → Result (List BridgeSession)
put_session connection input at sessions =
    if nat_eq input.expected_generation 0
    then ensure (not (any (is_session_of connection input.conversation_id input.agent_id) sessions))
        session_conflict
      >> ok (sessions ++ first_session connection input at ∷ [])
    else ensure (any (is_free_session connection input) sessions) session_conflict
      >> ok (
          update (is_free_session connection input)
            (λ s. record s {
              native_thread_id = input.native_thread_id;
              active_run_id = input.active_run_id;
              updated_at = at;
            })
            sessions)

module _ (connection : String) where
  -- setSession: the generation afterwards
  unfoldable pub set_session : SessionInput → ℕ → Store → Result (ℕ × Store)
  unfolding put_session
  set_session input at t = do
    conversation ← required input.conversation_id 255
    agent ← required input.agent_id 128
    sessions ← put_session connection input at t.sessions
    owners ← claim_thread connection conversation agent input.native_thread_id t.owners
    ok (
      (if nat_eq input.expected_generation 0 then 1 else input.expected_generation),
      record t { sessions = sessions; owners = owners },
    )

  abbrev pub reset : ℕ → BridgeSession → BridgeSession
  reset at s = record s { generation = s.generation + 1; native_thread_id = none; updated_at = at }

  -- resetSession; the input's thread and run are not read
  unfoldable pub reset_session : SessionInput → ℕ → Store → Result (ℕ × Store)
  reset_session input at t = do
    conversation ← required input.conversation_id 255
    agent ← required input.agent_id 128
    ensure (any (is_free_session connection input) t.sessions) session_busy_or_conflict
    ok (
      input.expected_generation + 1,
      record t { sessions = update (is_free_session connection input) (reset at) t.sessions },
    )

pub record RejectedInput : Type 0 where
  pub lease : LeaseInput
  pub expected_generation : ℕ
  pub expected_thread_id : String
  pub reason : String

pub record Reset : Type 0 where
  pub generation : ℕ
  pub native_thread_id : Option String
  pub native_turn_id : Option String
  pub recovery_required : Bool

abbrev pub rejected_payload : RejectedInput → Json
rejected_payload input = obj (
    field "runId" (str input.lease.id) (
      field "expectedGeneration" (num input.expected_generation) (
        field "expectedThreadId" (str input.expected_thread_id)
          (field "reason" (str input.reason) end))))

abbrev pub is_rotation_of : Attempt → String → Rotation → Bool
is_rotation_of a key r =
    r.connection_id == a.connection_id
    && r.conversation_id == a.conversation_id
    && r.agent_id == a.agent_id
    && r.idempotency_key == key

-- The audit row; its column run_id is read by no operation.
abbrev pub rejected_row : RejectedInput → Attempt → String → String → String → ℕ → Rotation
rejected_row input a key payload_hash row_id at = record {
  id = row_id;
  connection_id = a.connection_id;
  conversation_id = a.conversation_id;
  agent_id = a.agent_id;
  idempotency_key = key;
  payload_hash = payload_hash;
  reason = input.reason;
  previous_generation = input.expected_generation;
  generation = input.expected_generation + 1;
  retired_thread_id = input.expected_thread_id;
  created_at = at;
}

-- The attempt and its session are at the expected generation and thread, without a turn.
unfoldable pub is_rejected_run : RejectedInput → Attempt → Option BridgeSession → Bool
is_rejected_run input a none = false
is_rejected_run input a (some s) =
    nat_eq a.generation input.expected_generation
    && is_text a.native_thread_id input.expected_thread_id
    && is_null a.native_turn_id
    && nat_eq s.generation input.expected_generation
    && is_text s.native_thread_id input.expected_thread_id
    && is_text s.active_run_id input.lease.id

unfoldable pub apply_reset :
    RejectedInput → Attempt → String → String → String → ℕ → Store → Result (Reset × Store)
unfolding is_rejected_run
apply_reset input a key payload_hash row_id at t = do
  let same_session = is_session_of a.connection_id a.conversation_id a.agent_id
  ensure (is_rejected_run input a (find? same_session t.sessions)) rejected_thread_conflict
  let generation = input.expected_generation + 1
  ok (
    record {
      generation = generation;
      native_thread_id = none;
      native_turn_id = a.native_turn_id;
      recovery_required = false;
    },
    record t {
      rotations = t.rotations ++ rejected_row input a key payload_hash row_id at ∷ [];
      sessions =
          update same_session
            (λ s. record s { generation = generation; native_thread_id = none; updated_at = at })
            t.sessions;
      attempts =
          update (is_attempt input.lease.id)
            (λ x. record x { generation = generation; native_thread_id = none }) t.attempts;
    },
  )

-- What a reset does where an audit row of its key is there already, and where there is none.
unfoldable pub reset_once :
    RejectedInput
    → Attempt
    → String
    → String
    → String
    → ℕ
    → Option Rotation
    → Store
    → Result (Reset × Store)
unfolding apply_reset
reset_once input a key payload_hash row_id at none t =
    apply_reset input a key payload_hash row_id at t
reset_once input a key payload_hash row_id at (some r) t =
    if r.payload_hash == payload_hash
    then ok (
      record {
        generation = a.generation;
        native_thread_id = a.native_thread_id;
        native_turn_id = a.native_turn_id;
        recovery_required = true;
      },
      t,
    )
    else err rotation_conflict

module _ (digest : Json → String) (connection : String) where
  abbrev pub rejected_key : RejectedInput → String
  rejected_key input = Text.◌++◌ "rejected-admission:" (digest (rejected_payload input))

  unfoldable pub reset_found :
      RejectedInput → String → ℕ → Option Attempt → Store → Result (Reset × Store)
  unfolding reset_once
  reset_found input row_id at none t = err rejected_thread_conflict
  reset_found input row_id at (some a) t =
      let key = rejected_key input in
      reset_once input a key (digest (rejected_payload input)) row_id at
        (find? (is_rotation_of a key) t.rotations) t

  -- resetRejectedThreadAdmission
  unfoldable pub reset_rejected_thread_admission :
      RejectedInput → String → ℕ → Store → Result (Reset × Store)
  unfolding reset_found
  reset_rejected_thread_admission input row_id at t = do
    thread ← rotation_field input.expected_thread_id 255
    ensure
        (input.reason == "thread_archived"
          && ltb 0 input.expected_generation
          && ltb input.expected_generation max_safe)
        invalid_rotation
    job ← owned_job connection input.lease at t.jobs
    ensure (job.kind == "agent") invalid_job_kind
    reset_found input row_id at (find? (is_attempt input.lease.id) t.attempts) t
