-- ===== src/Storage/Runs.antt =====
-- storage/store.mjs, steering.mjs, recovery.mjs, resources.mjs and the reset of rotation.mjs: the
-- rows of a run and what the operations share. `connection` is the store's connection, `at` stands
-- for the readings of the clock within one operation, fresh UUIDs and `hash` are arguments. An
-- operation that throws leaves the tables as they were: its transaction is rolled back.
pub mod Leases
pub mod Jobs
pub mod Outbox
pub mod Settlement
pub mod Claims
pub mod Attempts
pub mod Sessions
pub mod Steering
pub mod SteerResults
pub mod Recoveries
pub mod RecoveryQueue
pub mod Resources
pub mod Inbound
pub mod Accept
pub mod Calls
pub mod Cursors
pub mod Witnesses
use agent_chat_bridge.Prelude.{ℕ, String, Bool, ◌&&◌, Option, List, ◌==◌}
use agent_chat_bridge.Json.{Json}
use agent_chat_bridge.Storage.Rotation.{BridgeSession, Rotation}

-- bridge_jobs
pub record RunJob : Type 0 where
  pub id : String
  pub kind : String
  pub connection_id : String
  pub conversation_id : String
  pub hook_id : String
  pub idempotency_key : String
  pub event_id : Option String
  pub source_sequence : Option ℕ
  pub payload_hash : String
  pub payload : Json
  pub status : String
  pub attempts : ℕ
  pub lease_owner : Option String
  pub lease_token : Option String
  pub lease_expires_at : Option ℕ
  pub next_attempt_at : ℕ
  pub error_code : Option String
  pub result : Json
  pub sequence : ℕ
  pub input_resource_state : String
  pub output_resource_state : String
  pub created_at : ℕ
  pub updated_at : ℕ

-- bridge_outbox
pub record Effect : Type 0 where
  pub id : String
  pub connection_id : String
  pub conversation_id : String
  pub idempotency_key : String
  pub kind : String
  pub payload_hash : String
  pub payload : Json
  pub job_id : Option String
  pub predecessor_id : Option String
  pub platform_uuid : String
  pub status : String
  pub attempts : ℕ
  pub lease_owner : Option String
  pub lease_token : Option String
  pub lease_expires_at : Option ℕ
  pub first_attempt_at : Option ℕ
  pub next_attempt_at : ℕ
  pub error_code : Option String
  pub result : Json
  pub cleanup_pending : Bool
  pub created_at : ℕ
  pub updated_at : ℕ

-- bridge_attempts
pub record Attempt : Type 0 where
  pub job_id : String
  pub connection_id : String
  pub conversation_id : String
  pub agent_id : String
  pub generation : ℕ
  pub native_thread_id : Option String
  pub native_turn_id : Option String
  pub created_at : ℕ

-- bridge_thread_owners
pub record ThreadOwner : Type 0 where
  pub connection_id : String
  pub native_thread_id : String
  pub conversation_id : String
  pub agent_id : String
  pub resource_retired_at : Option ℕ

-- bridge_steering, in the order of its sequence
pub record Steer : Type 0 where
  pub guidance_job_id : String
  pub target_run_id : String
  pub connection_id : String
  pub conversation_id : String
  pub agent_id : String
  pub generation : ℕ
  pub native_thread_id : String
  pub native_turn_id : String
  pub client_message_id : String
  pub status : String
  pub error_code : Option String
  pub settled_lease_token : Option String
  pub result_hash : Option String
  pub created_at : ℕ
  pub updated_at : ℕ

-- bridge_recoveries
pub record Recovery : Type 0 where
  pub id : String
  pub run_id : String
  pub connection_id : String
  pub conversation_id : Option String
  pub caller_id : String
  pub idempotency_key : String
  pub payload_hash : String
  pub action : String
  pub expected_generation : ℕ
  pub native_thread_id : Option String
  pub native_turn_id : Option String
  pub evidence : String
  pub status : String
  pub lease_owner : Option String
  pub lease_token : Option String
  pub lease_expires_at : Option ℕ
  pub error_code : Option String
  pub result_hash : Option String
  pub created_at : ℕ
  pub updated_at : ℕ

-- The tables that the operations on a run read and write.
pub record Store : Type 0 where
  pub jobs : List RunJob
  pub outbox : List Effect
  pub sessions : List BridgeSession
  pub attempts : List Attempt
  pub owners : List ThreadOwner
  pub steering : List Steer
  pub recoveries : List Recovery
  pub rotations : List Rotation

abbrev pub is_attempt : String → Attempt → Bool
is_attempt job a = a.job_id == job

-- WHERE connection_id=? AND conversation_id=? AND agent_id=?
abbrev pub is_session_of : String → String → String → BridgeSession → Bool
is_session_of connection conversation agent s =
    s.connection_id == connection && s.conversation_id == conversation && s.agent_id == agent

-- WHERE id=? AND connection_id=?
abbrev pub is_job : String → String → RunJob → Bool
is_job connection id j = j.id == id && j.connection_id == connection

abbrev pub is_effect : String → String → Effect → Bool
is_effect connection id e = e.id == id && e.connection_id == connection
