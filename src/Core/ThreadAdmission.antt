-- ===== src/Core/ThreadAdmission.antt =====
-- core/thread-admission.mjs: admitThread, over the reset of the run store. The replies of the agent's
-- process to its two calls are parameters.
pub mod Laws
mod Witnesses
use agent_chat_bridge.Prelude.{
  ℕ, String, Bool, true, false, not, ◌&&◌, ◌==◌, Option, none, some, List, [], ◌∷◌, Result, err, ok,
  StoreError, if◌then◌else◌,
}
use agent_chat_bridge.Json.{Json}
use agent_chat_bridge.Storage.Runs.{Store}
use agent_chat_bridge.Storage.Runs.Leases.{LeaseInput}
use agent_chat_bridge.Storage.Runs.Outbox.{is_given}
use agent_chat_bridge.Storage.Runs.Attempts.{Admission}
use agent_chat_bridge.Storage.Runs.Sessions.{RejectedInput, Reset, reset_rejected_thread_admission}

-- What a call of the agent's process throws: `outcome`, and `reason` with `kind` and `threadId`.
pub record Reason : Type 0 where
  pub kind : String
  pub thread_id : String

pub record CodexError : Type 0 where
  pub outcome : String
  pub reason : Option Reason

pub data CodexReply : Type 0 where
  thread : String → CodexReply
  thrown : CodexError → CodexReply

pub data CodexCall : Type 0 where
  start_thread : CodexCall
  resume_thread : String → CodexCall

pub data Admitted : Type 0 where
  on_thread : String → Bool → Admitted
  recovery_required : Admitted
  codex_failed : CodexError → Admitted
  store_failed : StoreError → Admitted

-- The calls that were sent, the answer or what is thrown, the attempt of the caller, the tables.
pub record ThreadAdmission : Type 0 where
  pub calls : List CodexCall
  pub answer : Admitted
  pub attempt : Admission
  pub tables : Store

abbrev pub is_start : CodexCall → Bool
is_start start_thread = true
is_start (resume_thread id) = false

abbrev pub answered : Bool → CodexReply → Admitted
answered is_new (thread id) = on_thread id is_new
answered is_new (thrown e) = codex_failed e

abbrev pub is_archived_reason : String → Option Reason → Bool
is_archived_reason id none = false
is_archived_reason id (some r) = r.kind == "thread_archived" && r.thread_id == id

abbrev pub is_replaceable : String → Admission → CodexError → Bool
is_replaceable id attempt e =
    e.outcome == "rejected"
    && is_archived_reason id e.reason
    && not (is_given attempt.native_turn_id)

-- Object.assign; a first reset has no nativeTurnId, and the attempt of the tables has none then.
abbrev pub assign : Reset → Admission → Admission
assign reset attempt = record attempt {
  generation = reset.generation;
  native_thread_id = reset.native_thread_id;
  native_turn_id = if reset.recovery_required then reset.native_turn_id else attempt.native_turn_id;
  recovery_required = reset.recovery_required;
}

abbrev pub rejected_input : LeaseInput → Admission → String → RejectedInput
rejected_input lease attempt id = record {
  lease = lease;
  expected_generation = attempt.generation;
  expected_thread_id = id;
  reason = "thread_archived";
}

-- What follows the reset of the refused thread.
unfoldable pub after_reset :
    CodexReply → String → Admission → Store → Result (Reset × Store) → ThreadAdmission
after_reset started id attempt t (err e) = record {
  calls = resume_thread id ∷ [];
  answer = store_failed e;
  attempt = attempt;
  tables = t;
}
after_reset started id attempt t (ok (reset, t')) =
    if reset.recovery_required
    then record {
      calls = resume_thread id ∷ [];
      answer = recovery_required;
      attempt = assign reset attempt;
      tables = t';
    }
    else record {
      calls = resume_thread id ∷ start_thread ∷ [];
      answer = answered true started;
      attempt = assign reset attempt;
      tables = t';
    }

module _ (digest : Json → String) (connection : String) (lease : LeaseInput) where
  unfoldable pub after_resume :
      CodexReply → CodexReply → String → String → ℕ → Admission → Store → ThreadAdmission
  unfolding after_reset
  after_resume (thread found) started id row_id at attempt t = record {
    calls = resume_thread id ∷ [];
    answer = on_thread found false;
    attempt = attempt;
    tables = t;
  }
  after_resume (thrown e) started id row_id at attempt t =
      if is_replaceable id attempt e
      then after_reset started id attempt t (
          reset_rejected_thread_admission digest connection (rejected_input lease attempt id) row_id
            at t)
      else record {
        calls = resume_thread id ∷ [];
        answer = codex_failed e;
        attempt = attempt;
        tables = t;
      }

  abbrev pub start_new : CodexReply → Admission → Store → ThreadAdmission
  start_new started attempt t = record {
    calls = start_thread ∷ [];
    answer = answered true started;
    attempt = attempt;
    tables = t;
  }

  abbrev pub admit_on :
      Option String → CodexReply → CodexReply → String → ℕ → Admission → Store → ThreadAdmission
  admit_on none resumed started row_id at attempt t = start_new started attempt t
  admit_on (some id) resumed started row_id at attempt t =
      if id == ""
      then start_new started attempt t
      else after_resume resumed started id row_id at attempt t

  -- admitThread: the replies to resumeThread and startThread, the id of an audit row, the time.
  unfoldable pub admit_thread :
      CodexReply → CodexReply → String → ℕ → Admission → Store → ThreadAdmission
  unfolding after_resume
  admit_thread resumed started row_id at attempt t =
      admit_on attempt.native_thread_id resumed started row_id at attempt t
