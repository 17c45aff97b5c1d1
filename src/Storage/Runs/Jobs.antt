-- ===== src/Storage/Runs/Jobs.antt =====
-- storage/store.mjs: enqueueJob, renewJob, holdAgentAttempt and retryJob.
use agent_chat_bridge.Prelude.{
  ℕ, ◌+◌, String, Bool, not, Option, none, some, List, [], ◌∷◌, ◌==◌, ◌&&◌, leb, if◌then◌else◌,
  or_else, find?, insert_once, update, Result, ok, err, ◌>>=◌, ◌>>◌, ensure, one_of,
  invalid_job_kind, invalid_lease, job_conflict, store_unavailable,
}
use agent_chat_bridge.Json.{Json, null, str, obj, end, field}
use agent_chat_bridge.Storage.ForwardJobs.{required}
use agent_chat_bridge.Storage.Runs.{RunJob, Store}
use agent_chat_bridge.Storage.Runs.Leases.{LeaseInput, owned_job, release_attempt}

-- `hook_id` is "" where the input has none.
pub record JobInput : Type 0 where
  pub connection_id : String
  pub conversation_id : String
  pub kind : String
  pub hook_id : String
  pub idempotency_key : String
  pub event_id : Option String
  pub source_sequence : Option ℕ
  pub payload : Json

-- jobs_key: connection_id, kind, hook_id, idempotency_key
abbrev pub is_job_key : String → String → String → String → RunJob → Bool
is_job_key connection kind hook key j =
    j.connection_id == connection && j.kind == kind && j.hook_id == hook && j.idempotency_key == key

abbrev pub new_run_job : JobInput → String → String → String → ℕ → ℕ → RunJob
new_run_job input hook payload_hash id sequence at = record {
  id = id;
  kind = input.kind;
  connection_id = input.connection_id;
  conversation_id = input.conversation_id;
  hook_id = hook;
  idempotency_key = input.idempotency_key;
  event_id = input.event_id;
  source_sequence = input.source_sequence;
  payload_hash = payload_hash;
  payload = input.payload;
  status = "pending";
  attempts = 0;
  lease_owner = none;
  lease_token = none;
  lease_expires_at = none;
  next_attempt_at = at;
  error_code = none;
  result = null;
  sequence = sequence;
  input_resource_state = "pending";
  output_resource_state = "pending";
  created_at = at;
  updated_at = at;
}

pub record JobReceipt : Type 0 where
  pub id : String
  pub duplicate : Bool

abbrev pub job_payload : JobInput → Json
job_payload input =
    obj (field "conversationId" (str input.conversation_id) (field "payload" input.payload end))

-- What follows the INSERT: the row of the key, which was there or is the new one.
unfoldable pub inserted_job :
    String → String → Option RunJob → List RunJob → Result (JobReceipt × List RunJob)
inserted_job payload_hash id none jobs = err store_unavailable
inserted_job payload_hash id (some j) jobs =
    if j.payload_hash == payload_hash
    then ok (record { id = j.id; duplicate = not (j.id == id) }, jobs)
    else err job_conflict

module _ (digest : Json → String) where
  -- insertJob
  unfoldable pub insert_job :
      JobInput → String → ℕ → ℕ → List RunJob → Result (JobReceipt × List RunJob)
  unfolding inserted_job
  insert_job input id sequence at jobs = do
    connection ← required input.connection_id 128
    conversation ← required input.conversation_id 255
    ensure (one_of ("agent" ∷ "hook" ∷ []) input.kind) invalid_job_kind
    hook ← if input.kind == "hook" then required input.hook_id 128 else ok ""
    key ← required input.idempotency_key 255
    let payload_hash = digest (job_payload input)
    let same_key = is_job_key connection input.kind hook key
    let jobs' = insert_once same_key (new_run_job input hook payload_hash id sequence at) jobs
    inserted_job payload_hash id (find? same_key jobs') jobs'

abbrev pub is_id : String → RunJob → Bool
is_id id j = j.id == id

-- The limits of `leaseMs`.
abbrev pub is_lease_time : ℕ → Bool
is_lease_time lease_ms = leb 100 lease_ms && leb lease_ms 300000

abbrev pub held : String → ℕ → RunJob → RunJob
held code at j = record j {
  status = "unknown";
  error_code = some code;
  lease_token = none;
  lease_owner = none;
  updated_at = at;
}

abbrev pub put_back : Bool → Option ℕ → String → ℕ → RunJob → RunJob
put_back terminal next_attempt_at code at j = record j {
  status = if terminal then "failed" else "pending";
  next_attempt_at = or_else next_attempt_at at;
  error_code = some code;
  lease_token = none;
  lease_owner = none;
  updated_at = at;
}

module _ (connection : String) where
  -- renewJob
  unfoldable pub renew_job : LeaseInput → ℕ → ℕ → Store → Result Store
  renew_job input lease_ms at t = do
    job ← owned_job connection input at t.jobs
    ensure (is_lease_time lease_ms) invalid_lease
    ok (record t {
      jobs =
          update (is_id input.id) (λ j. record j { lease_expires_at = some (at + lease_ms) })
            t.jobs;
    })

  -- holdAgentAttempt
  unfoldable pub hold_agent_attempt : LeaseInput → String → ℕ → Store → Result Store
  hold_agent_attempt input error_code at t = do
    job ← owned_job connection input at t.jobs
    ensure (job.kind == "agent") invalid_job_kind
    code ← required error_code 64
    ok (record t { jobs = update (is_id input.id) (held code at) t.jobs })

  -- retryJob
  unfoldable pub retry_job : LeaseInput → Bool → Option ℕ → String → ℕ → Store → Result Store
  retry_job input terminal next_attempt_at error_code at t = do
    job ← owned_job connection input at t.jobs
    released ← if terminal then release_attempt job.id at t else ok t
    code ← required error_code 64
    ok (record released {
      jobs = update (is_id input.id) (put_back terminal next_attempt_at code at) released.jobs;
    })
