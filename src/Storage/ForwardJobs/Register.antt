-- ===== src/Storage/ForwardJobs/Register.antt =====
-- storage/forward-jobs.mjs: upsert and the reads by key. `digest` is sha256 over the text of a
-- value (node:crypto), `run_id` a fresh UUID, `row_id` the next value of AUTO_INCREMENT.
pub mod Laws
use Prim.Native.String
use agent_chat_bridge.Prelude.{
  ℕ, zero, suc, String, Bool, true, false, not, ◌&&◌, ◌||◌, Option, none, some, List, [], ◌∷◌, ◌++◌,
  ◌==◌, if◌then◌else◌, or_else, text_or, Result, ok, err, ◌>>=◌, ◌>>◌, ensure, find?, any,
  job_conflict,
}
use agent_chat_bridge.Json.{
  Json, null, str, num, arr, nil, Fields, obj, end, field, get, set, members,
}
use agent_chat_bridge.Storage.ForwardJobs.{
  Job, Status, pending, running, reply_pending, held, required, is_run,
}

-- An absent text is the empty text.
pub record UpsertInput : Type 0 where
  pub caller_id : String
  pub idempotency_key : String
  pub request_hash : String
  pub conversation_id : String
  pub message_id : String
  pub source_message_id : String
  pub execution_namespace : String
  pub delivery_mode : String
  pub chat_type : String
  pub message_type : String
  pub sender_open_id : String
  pub sender_union_id : String
  pub sender_name : String
  pub prompt : String
  pub group_chat_context : Option Json
  pub context_entries : Option Json
  pub next_attempt_at : Option ℕ
  pub binding_open_id : String
  pub initial_result : Fields

-- `value || null`
abbrev pub text_or_null : String → Option String
text_or_null s = if s == "" then none else some s

abbrev pub initial_document : UpsertInput → Fields
initial_document input =
    if input.binding_open_id == ""
    then input.initial_result
    else set "execution"
        (obj (
          set "bindingOpenId" (str input.binding_open_id)
            (members (get "execution" input.initial_result))))
        input.initial_result

-- `status IN ('pending','running','reply_pending','held')`
abbrev pub is_open : Status → Bool
is_open pending = true
is_open running = true
is_open reply_pending = true
is_open held = true
is_open _ = false

-- Two rows that a unique key keeps apart: of the run id, the request key or the message.
unfoldable pub meets_key : Job → Job → Bool
meets_key j k =
    k.public_run_id == j.public_run_id
    || k.connection_id == j.connection_id
      && (k.request_key_hash == j.request_key_hash || k.message_id == j.message_id)

-- The first `n` characters.
unfoldable pub cut : ℕ → String → String
cut zero s = ""
cut (suc n) String.[] = ""
cut (suc n) (String.◌∷◌ c s) = String.◌∷◌ c (cut n s)

abbrev pub cut_given : ℕ → Option String → Option String
cut_given n none = none
cut_given n (some s) = some (cut n s)

-- INSERT IGNORE cuts a text that is longer than its column; the other texts are checked before.
unfoldable pub stored : Job → Job
unfolding cut
stored j = record j {
  request_hash = cut 64 j.request_hash;
  execution_namespace = cut 191 j.execution_namespace;
  delivery_mode = cut 16 j.delivery_mode;
  source_message_id = cut_given 191 j.source_message_id;
  chat_type = cut 64 j.chat_type;
  message_type = cut 64 j.message_type;
  sender_open_id = cut 191 j.sender_open_id;
  sender_union_id = cut 191 j.sender_union_id;
  sender_name = cut 255 j.sender_name;
}

-- INSERT IGNORE: a row that meets one of the unique keys is not inserted.
unfoldable pub insert_ignore : Job → List Job → List Job
unfolding stored
insert_ignore j rows = if any (meets_key j) rows then rows else rows ++ stored j ∷ []

-- The row that a request key names.
unfoldable pub has_key : String → String → Job → Bool
has_key connection key_hash j = j.connection_id == connection && j.request_key_hash == key_hash

-- The row that the key names after the insertion, and whether an earlier call made it.
unfoldable pub registered : String → String → Option Job → List Job → Result (Job × Bool × List Job)
registered request_hash run_id none rows = err job_conflict
registered request_hash run_id (some found) rows =
    if found.request_hash == request_hash
    then ok (found, not (found.public_run_id == run_id), rows)
    else err job_conflict

module _ (digest : Json → String) (connection : String) where
  -- requestFingerprint
  unfoldable pub request_fingerprint : UpsertInput → String
  request_fingerprint input = digest (
      obj (
        field "conversationId" (str input.conversation_id) (
          field "text" (str input.prompt) (
            field "executionNamespace" (str input.execution_namespace)
              (field "deliveryMode" (str (text_or input.delivery_mode "bridge")) end)))))

  -- hash(`${callerId}\0${idempotencyKey}`)
  unfoldable pub request_key : String → String → String
  request_key caller key =
      digest (str (Prim.Native.String.◌++◌ caller (Prim.Native.String.◌++◌ "\0" key)))

  -- The row that upsert inserts.
  unfoldable pub new_job :
      UpsertInput → String → String → String → String → String → String → ℕ → ℕ → Job
  new_job input caller key_hash request_hash message conversation run_id row_id at = record {
    id = row_id;
    connection_id = connection;
    public_run_id = run_id;
    request_key_hash = key_hash;
    request_hash = request_hash;
    caller_id = caller;
    execution_namespace = input.execution_namespace;
    delivery_mode = text_or input.delivery_mode "bridge";
    message_id = message;
    source_message_id = text_or_null input.source_message_id;
    chat_id = conversation;
    chat_type = text_or input.chat_type "group";
    message_type = text_or input.message_type "text";
    sender_open_id = input.sender_open_id;
    sender_union_id = input.sender_union_id;
    sender_name = input.sender_name;
    conversation_scope = if input.chat_type == "p2p" then "p2p" else "group";
    prompt = input.prompt;
    group_chat_context_json = or_else input.group_chat_context null;
    context_entries_json = or_else input.context_entries (arr nil);
    status = pending;
    attempts = 0;
    reply_attempts = 0;
    lease_owner = "";
    lease_expires_at = none;
    feedback_cleanup_pending = false;
    feedback_cleanup_at = none;
    next_attempt_at = some (or_else input.next_attempt_at at);
    started_at = none;
    finished_at = none;
    reply_sent_at = none;
    result_json = initial_document input;
    last_error = "";
    created_at = at;
    updated_at = at;
  }

  -- upsert
  unfoldable pub upsert : UpsertInput → String → ℕ → ℕ → List Job → Result (Job × Bool × List Job)
  unfolding request_key request_fingerprint new_job insert_ignore meets_key has_key registered
  upsert input run_id row_id at rows = do
    caller ← required input.caller_id 128
    idempotency_key ← required input.idempotency_key 512
    let key_hash = request_key caller idempotency_key
    let request_hash = text_or input.request_hash (request_fingerprint input)
    message ← required input.message_id 191
    conversation ← required input.conversation_id 191
    let job = new_job input caller key_hash request_hash message conversation run_id row_id at
    let rows' = insert_ignore job rows
    registered request_hash run_id (find? (has_key connection key_hash) rows') rows'

  -- getRun, getByMessageId and getByIdempotencyKey
  unfoldable pub get_run : String → List Job → Result (Option Job)
  get_run id rows = do run ← required id 36; ok (find? (is_run connection run) rows)

  unfoldable pub get_by_message_id : String → List Job → Result (Option Job)
  get_by_message_id message_id rows = do
    message ← required message_id 191
    ok (find? (λ j. j.connection_id == connection && j.message_id == message) rows)

  unfoldable pub get_by_idempotency_key : String → String → List Job → Result (Option Job)
  unfolding request_key has_key
  get_by_idempotency_key caller_id idempotency_key rows = do
    caller ← required caller_id 128
    key ← required idempotency_key 512
    ok (find? (has_key connection (request_key caller key)) rows)

  -- scopeActivity: whether a job of the scope is open
  unfoldable pub scope_activity : String → String → List Job → Result Bool
  scope_activity caller_id execution_namespace rows = do
    caller ← required caller_id 128
    scope ← required execution_namespace 191
    ok (
        any
          (λ j.
            j.connection_id == connection
            && j.caller_id == caller
            && j.execution_namespace == scope
            && is_open j.status)
          rows)
