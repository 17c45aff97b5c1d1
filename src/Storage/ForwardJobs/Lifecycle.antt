-- ===== src/Storage/ForwardJobs/Lifecycle.antt =====
-- The life of a forward job: what one operation of storage/forward-jobs.mjs may change in a row.
use agent_chat_bridge.Prelude.{ℕ, String, ◌≡◌, Option, none, some}
use agent_chat_bridge.Storage.ForwardJobs.{
  Job, Status, pending, running, reply_pending, held, completed, failed, deferred,
}

-- The edges of the state machine. A finished or held job keeps its status.
abbrev pub CanMove : Status → Status → Type 0
CanMove pending pending = Unit
CanMove pending running = Unit
CanMove pending _ = ⊥
CanMove running _ = Unit
CanMove reply_pending running = ⊥
CanMove reply_pending _ = Unit
CanMove held held = Unit
CanMove held _ = ⊥
CanMove completed completed = Unit
CanMove completed _ = ⊥
CanMove failed failed = Unit
CanMove failed _ = ⊥
CanMove deferred deferred = Unit
CanMove deferred _ = ⊥

pub CanMove-refl : (s : Status) → CanMove s s
CanMove-refl pending = tt
CanMove-refl running = tt
CanMove-refl reply_pending = tt
CanMove-refl held = tt
CanMove-refl completed = tt
CanMove-refl failed = tt
CanMove-refl deferred = tt

-- What no operation changes: the identity of a job and what it was asked.
pub record SameTask (j k : Job) : Type 0 where
  pub id : k.id ≡ j.id
  pub connection_id : k.connection_id ≡ j.connection_id
  pub public_run_id : k.public_run_id ≡ j.public_run_id
  pub request_key_hash : k.request_key_hash ≡ j.request_key_hash
  pub request_hash : k.request_hash ≡ j.request_hash
  pub caller_id : k.caller_id ≡ j.caller_id
  pub execution_namespace : k.execution_namespace ≡ j.execution_namespace
  pub delivery_mode : k.delivery_mode ≡ j.delivery_mode
  pub message_id : k.message_id ≡ j.message_id
  pub chat_id : k.chat_id ≡ j.chat_id
  pub sender_open_id : k.sender_open_id ≡ j.sender_open_id
  pub source_message_id : k.source_message_id ≡ j.source_message_id
  pub chat_type : k.chat_type ≡ j.chat_type
  pub message_type : k.message_type ≡ j.message_type
  pub sender_union_id : k.sender_union_id ≡ j.sender_union_id
  pub sender_name : k.sender_name ≡ j.sender_name
  pub conversation_scope : k.conversation_scope ≡ j.conversation_scope
  pub prompt : k.prompt ≡ j.prompt
  pub group_chat_context_json : k.group_chat_context_json ≡ j.group_chat_context_json
  pub context_entries_json : k.context_entries_json ≡ j.context_entries_json
  pub created_at : k.created_at ≡ j.created_at

abbrev IsSome : Option ℕ → Type 0
IsSome none = ⊥
IsSome (some t) = Unit

-- What a row of each status holds: its lease, when it ended and when its reply was sent.
abbrev pub Holds : Status → String → Option ℕ → Option ℕ → Option ℕ → Type 0
Holds pending owner lease ended sent =
    (owner ≡ "") × (lease ≡ none) × (ended ≡ none) × (sent ≡ none)
Holds running owner lease ended sent = IsSome lease × (ended ≡ none) × (sent ≡ none)
Holds reply_pending owner lease ended sent = (ended ≡ none) × (sent ≡ none)
Holds held owner lease ended sent = (ended ≡ none) × (sent ≡ none)
Holds _ owner lease ended sent = IsSome ended

-- A pending job is under no lease, a running one under some lease, and a job has ended exactly when
-- its status is final.
abbrev pub IsWellFormed : Job → Type 0
IsWellFormed j = Holds j.status j.lease_owner j.lease_expires_at j.finished_at j.reply_sent_at

-- One operation on one row.
pub record JobStep (j k : Job) : Type 0 where
  pub same : SameTask j k
  pub move : CanMove j.status k.status
  pub sound : IsWellFormed j → IsWellFormed k
