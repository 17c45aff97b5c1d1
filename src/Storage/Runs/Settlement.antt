-- ===== src/Storage/Runs/Settlement.antt =====
-- storage/store.mjs: finishJobWithOutbox, settleOutbox, listPendingCleanup and completeOutboxCleanup.
-- `fresh n` gives the ids that the n-th effect of a call takes where it is new.
pub mod Laws
use agent_chat_bridge.Prelude.{
  ℕ, suc, String, Bool, true, false, not, ◌&&◌, ◌||◌, Option, none, some, List, [], ◌∷◌, ◌==◌,
  if◌then◌else◌, or_else, is_text, any, update, Result, ok, ◌>>=◌, ◌>>◌, ensure, one_of,
  invalid_outbox_predecessor, invalid_outbox_status, cleanup_conflict,
}
use agent_chat_bridge.Json.{Json}
use agent_chat_bridge.Storage.ForwardJobs.{required}
use agent_chat_bridge.Storage.Runs.{RunJob, Effect, Store}
use agent_chat_bridge.Storage.Runs.Leases.{LeaseInput, owned_job, owned_effect, release_attempt}
use agent_chat_bridge.Storage.Runs.Jobs.{is_id}
use agent_chat_bridge.Storage.Runs.Outbox.{
  EffectInput, Recorded, insert_outbox, is_given, is_effect_of,
}

-- An effect that a run ends with; its scope, its job and its predecessor are the run's.
pub record RunEffect : Type 0 where
  pub predecessor_key : Option String
  pub idempotency_key : String
  pub kind : String
  pub payload : Json
  pub platform_uuid : Option String

abbrev pub input_of : RunJob → Option String → RunEffect → EffectInput
input_of job predecessor e = record {
  connection_id = job.connection_id;
  conversation_id = job.conversation_id;
  idempotency_key = e.idempotency_key;
  kind = e.kind;
  payload = e.payload;
  job_id = some job.id;
  predecessor_id = predecessor;
  platform_uuid = e.platform_uuid;
}

-- The effect names no predecessor, or the one before it.
abbrev pub follows : Option String → Option String → Bool
follows none previous = true
follows (some key) previous = is_text previous key

-- `outbox.length ? 'reply_pending' : 'succeeded'`
abbrev pub finished_status : List Recorded → String
finished_status [] = "succeeded"
finished_status (r ∷ rs) = "reply_pending"

abbrev pub finished_job : List Recorded → Json → ℕ → RunJob → RunJob
finished_job recorded result at j = record j {
  status = finished_status recorded;
  result = result;
  lease_token = none;
  lease_owner = none;
  updated_at = at;
}

module _ (digest : Json → String) (fresh : ℕ → String × String) where
  -- The loop of finishJobWithOutbox: each effect is recorded as the successor of the one before it.
  unfoldable pub record_chain :
      RunJob
      → ℕ
      → List RunJob
      → ℕ
      → Option String
      → Option String
      → List RunEffect
      → List Effect
      → Result (List Recorded × List Effect)
  record_chain job at jobs n id key [] outbox = ok ([], outbox)
  record_chain job at jobs n id key (e ∷ es) outbox =
      ensure (follows e.predecessor_key key) invalid_outbox_predecessor
      >> insert_outbox digest (input_of job id e) (fresh n) at jobs outbox
      >>= λ recorded.
          record_chain job at jobs (suc n) (some recorded.0.id) (some e.idempotency_key) es
            recorded.1
          >>= λ more. ok (recorded.0 ∷ more.0, more.1)

  -- finishJobWithOutbox; `result` is null where the input has none.
  unfoldable pub finish_job_with_outbox :
      String
      → LeaseInput
      → List RunEffect
      → Json
      → ℕ
      → Store
      → Result ((String × List Recorded) × Store)
  unfolding record_chain
  finish_job_with_outbox connection input effects result at t = do
    job ← owned_job connection input at t.jobs
    released ← release_attempt job.id at t
    chain ← record_chain job at released.jobs 0 none none effects released.outbox
    ok (
      (finished_status chain.0, chain.0),
      record released {
        outbox = chain.1;
        jobs = update (is_id input.id) (finished_job chain.0 result at) released.jobs;
      },
    )

pub record Settlement : Type 0 where
  pub status : String
  pub result : Json
  pub error_code : Option String
  pub next_attempt_at : Option ℕ

abbrev pub is_effect_id : String → Effect → Bool
is_effect_id id e = e.id == id

abbrev pub settled : Settlement → ℕ → Effect → Effect
settled input at e = record e {
  status = input.status;
  result = input.result;
  error_code = input.error_code;
  next_attempt_at = or_else input.next_attempt_at at;
  cleanup_pending = e.kind == "artifact_send" && input.status == "sent" || e.cleanup_pending;
  lease_token = none;
  lease_owner = none;
  updated_at = at;
}

-- An effect of the job that is not sent.
abbrev pub is_unsent : String → Effect → Bool
is_unsent job e = is_text e.job_id job && not (e.status == "sent")

abbrev pub with_status : String → ℕ → RunJob → RunJob
with_status status at j = record j { status = status; updated_at = at }

abbrev pub awaits_reply : String → RunJob → Bool
awaits_reply job j = j.id == job && j.status == "reply_pending"

-- What an effect's settlement does to its job.
unfoldable pub settle_job : Option String → String → ℕ → List Effect → List RunJob → List RunJob
settle_job none status at outbox jobs = jobs
settle_job (some job) status at outbox jobs =
    if not (is_given (some job))
    then jobs
    else if status == "sent"
    then update (λ j. awaits_reply job j && not (any (is_unsent job) outbox))
        (with_status "succeeded" at) jobs
    else if status == "failed"
    then update (awaits_reply job) (with_status "delivery_failed" at) jobs
    else jobs

module _ (connection : String) where
  -- settleOutbox
  unfoldable pub settle_outbox : LeaseInput → Settlement → ℕ → Store → Result Store
  unfolding settle_job
  settle_outbox input settlement at t = do
    effect ← owned_effect connection input at t.outbox
    ensure (one_of ("sent" ∷ "unknown" ∷ "failed" ∷ "pending" ∷ []) settlement.status)
        invalid_outbox_status
    let outbox = update (is_effect_id input.id) (settled settlement at) t.outbox
    ok (record t {
      outbox = outbox;
      jobs = settle_job effect.job_id settlement.status at outbox t.jobs;
    })

  abbrev pub is_sent_artifact : String → String → Effect → Bool
  is_sent_artifact conversation id e =
      is_effect_of connection conversation id e && e.status == "sent" && e.kind == "artifact_send"

  -- completeOutboxCleanup
  unfoldable pub complete_outbox_cleanup : String → String → List Effect → Result (List Effect)
  complete_outbox_cleanup conversation id outbox = do
    effect ← required id 36
    scope ← required connection 128
    chat ← required conversation 255
    ensure (any (is_sent_artifact chat effect) outbox) cleanup_conflict
    ok (update (is_sent_artifact chat effect) (λ e. record e { cleanup_pending = false }) outbox)
