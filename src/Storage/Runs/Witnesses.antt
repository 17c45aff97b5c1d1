-- ===== src/Storage/Runs/Witnesses.antt =====
-- The rows at which the theorems on the run store are stated, and the theorems on sessions at them.
pub mod Effects
mod Messages
use agent_chat_bridge.Prelude.{one_of}
use agent_chat_bridge.Storage.Runs.Steering.{steer_field, latest}
use agent_chat_bridge.Storage.Rotation.{rotation_field}
use agent_chat_bridge.Storage.Runs.Jobs.{renew_job}
use agent_chat_bridge.Storage.Runs.Leases.Fence.{work}
use agent_chat_bridge.Prelude.{insert_once, update}
use agent_chat_bridge.Storage.ForwardJobs.{required, js_length}
use agent_chat_bridge.Storage.Runs.Leases.{owned_job}
use agent_chat_bridge.Prelude.{
  ℕ, String, Bool, true, false, Option, none, some, List, [], ◌∷◌, ◌≡◌, refl, ok, Ensures, In, inl,
  inr, find?, ◌==◌, ◌≤◌,
}
use agent_chat_bridge.Json.{Json, null}
use agent_chat_bridge.Storage.Rotation.{BridgeSession, RotateInput}
use agent_chat_bridge.Storage.Runs.{RunJob, Attempt, ThreadOwner, Steer, Store, is_session_of}
use agent_chat_bridge.Storage.Runs.Leases.{LeaseInput, is_owner}
use agent_chat_bridge.Storage.Runs.Leases.Fence.{Work, IsHeld, work-fenced}
use agent_chat_bridge.Storage.Runs.Attempts.{Admission, begin_agent_attempt}
use agent_chat_bridge.Storage.Runs.Attempts.Laws.{IsResumed, begin_agent_attempt-exclusive}
use agent_chat_bridge.Storage.Runs.Sessions.{
  SessionInput, RejectedInput, Reset, rejected_row, reset_rejected_thread_admission, rejected_key,
}
use agent_chat_bridge.Storage.Runs.Sessions.Laws.{reset_rejected-once}
use agent_chat_bridge.Storage.Runs.Steering.{Target, new_steer, begin_steer_attempt, admitted}
use agent_chat_bridge.Storage.Runs.Steering.Laws.{IsAnswered, begin_steer_attempt-once}
use agent_chat_bridge.Storage.Runs.Calls.{StoreCall, perform_all}
use agent_chat_bridge.Storage.Runs.Calls.Keeps.{OwnerKept}
use agent_chat_bridge.Storage.Runs.Calls.History.{perform_all-generation, perform_all-owner}
use agent_chat_bridge.Storage.Runs.Cursors.{CursorInput}
use agent_chat_bridge.Storage.Runs.Cursors.Registers.{CursorCall, read, write, run_calls, replay}
use agent_chat_bridge.Storage.Runs.Cursors.Laws.{run_calls-refines}

abbrev pub hash_of : Json → String
hash_of payload = "h"

abbrev pub no_order : String → String → Bool
no_order a b = false

abbrev pub none_locked : String → Bool
none_locked id = false

abbrev pub a_job : String → String → String → RunJob
a_job id status token = record {
  id = id;
  kind = "agent";
  connection_id = "feishu";
  conversation_id = "oc";
  hook_id = "";
  idempotency_key = id;
  event_id = none;
  source_sequence = none;
  payload_hash = "p";
  payload = null;
  status = status;
  attempts = 1;
  lease_owner = some "w";
  lease_token = some token;
  lease_expires_at = some 100;
  next_attempt_at = 1;
  error_code = none;
  result = null;
  sequence = 1;
  input_resource_state = "pending";
  output_resource_state = "pending";
  created_at = 1;
  updated_at = 1;
}

abbrev pub a_session : ℕ → Option String → Option String → ℕ → BridgeSession
a_session generation thread run at = record {
  connection_id = "feishu";
  conversation_id = "oc";
  agent_id = "codex";
  generation = generation;
  native_thread_id = thread;
  active_run_id = run;
  last_message_at = none;
  updated_at = at;
}

abbrev pub an_attempt : String → ℕ → Option String → Option String → Attempt
an_attempt job generation thread turn = record {
  job_id = job;
  connection_id = "feishu";
  conversation_id = "oc";
  agent_id = "codex";
  generation = generation;
  native_thread_id = thread;
  native_turn_id = turn;
  created_at = 5;
}

abbrev pub two_runs : List BridgeSession → List Attempt → Store
two_runs sessions attempts = record {
  jobs = a_job "j1" "running" "a" ∷ a_job "j2" "running" "b" ∷ [];
  outbox = [];
  sessions = sessions;
  attempts = attempts;
  owners = [];
  steering = [];
  recoveries = [];
  rotations = [];
}

abbrev pub lease_a : LeaseInput
lease_a = record { id = "j1"; lease_token = "a" }

abbrev pub lease_b : LeaseInput
lease_b = record { id = "j2"; lease_token = "b" }

abbrev first_admission : Admission
first_admission = record {
  job_id = "j1";
  generation = 1;
  native_thread_id = none;
  native_turn_id = none;
  recovery_required = false;
}

abbrev one_admitted : Store
one_admitted = two_runs (a_session 1 none (some "j1") 5 ∷ []) (an_attempt "j1" 1 none none ∷ [])

begin_agent_attempt-exclusive_example :
    Ensures
      (IsResumed "j2" one_admitted)
      (begin_agent_attempt "feishu" lease_b "codex" 9 one_admitted)
unfolding find? begin_agent_attempt owned_job required js_length insert_once update
begin_agent_attempt-exclusive_example =
    begin_agent_attempt-exclusive "feishu" "codex" lease_a lease_b 5 9 (two_runs [] []) one_admitted
      first_admission (a_job "j1" "running" "a") (a_job "j2" "running" "b") refl refl refl refl refl

work-fenced_example : IsHeld "feishu" lease_a 9 one_admitted.jobs
unfolding work renew_job owned_job required js_length find? update
work-fenced_example =
    work-fenced hash_of "feishu" (Work.renew lease_a 1000) 9 one_admitted
      (record one_admitted {
        jobs =
            record (a_job "j1" "running" "a") { lease_expires_at = some 1009 }
            ∷ a_job "j2" "running" "b"
            ∷ [];
      })
      refl

abbrev archived : RejectedInput
archived = record {
  lease = lease_a;
  expected_generation = 1;
  expected_thread_id = "th";
  reason = "thread_archived";
}

abbrev pub refused_thread : Store
refused_thread =
    two_runs (a_session 1 (some "th") (some "j1") 5 ∷ []) (an_attempt "j1" 1 (some "th") none ∷ [])

abbrev reset_thread : Store
reset_thread =
    record (two_runs (a_session 2 none (some "j1") 7 ∷ []) (an_attempt "j1" 2 none none ∷ [])) {
      rotations =
          rejected_row archived (an_attempt "j1" 1 (some "th") none)
            (rejected_key hash_of "feishu" archived) "h" "r" 7
          ∷ [];
    }

reset_rejected-once_example :
    Ensures
      (λ r. (r.0.recovery_required ≡ true) × (r.1 ≡ reset_thread))
      (reset_rejected_thread_admission hash_of "feishu" archived "s" 8 reset_thread)
unfolding reset_rejected_thread_admission rotation_field js_length owned_job required find? update
reset_rejected-once_example =
    reset_rejected-once hash_of "feishu" archived "r" "s" 7 8 refused_thread reset_thread
      (record {
        generation = 2;
        native_thread_id = none;
        native_turn_id = none;
        recovery_required = false;
      })
      refl

abbrev pub busy_turn : Store
busy_turn =
    two_runs (a_session 1 (some "th") (some "j1") 5 ∷ [])
      (an_attempt "j1" 1 (some "th") (some "tu") ∷ [])

abbrev pub guidance : Steer
guidance =
    new_steer (a_job "j2" "running" "b") "codex"
      (record {
        run = a_job "j1" "running" "a";
        attempt = an_attempt "j1" 1 (some "th") (some "tu");
        session = a_session 1 (some "th") (some "j1") 5;
        thread = "th";
        turn = "tu";
      })
      7

abbrev pub guided_turn : Store
guided_turn = record busy_turn { steering = guidance ∷ [] }

begin_steer_attempt-once_example :
    Ensures
      (IsAnswered "j2" guidance guided_turn)
      (begin_steer_attempt "feishu" lease_b "codex" 8 guided_turn)
unfolding begin_steer_attempt steer_field js_length find? latest one_of
begin_steer_attempt-once_example =
    begin_steer_attempt-once "feishu" lease_b lease_b "codex" "codex" 7 8 busy_turn guided_turn
      guidance refl refl

abbrev free_session : SessionInput
free_session = record {
  conversation_id = "oc";
  agent_id = "codex";
  expected_generation = 1;
  native_thread_id = none;
  active_run_id = none;
}

abbrev idle : Store
idle = record (two_runs (a_session 1 (some "th") none 5 ∷ []) []) {
  owners =
      record {
        connection_id = "feishu";
        native_thread_id = "th";
        conversation_id = "oc";
        agent_id = "codex";
        resource_retired_at = some 3;
      }
      ∷ [];
}

abbrev idle_rotation : RotateInput
idle_rotation = record {
  connection_id = "feishu";
  conversation_id = "oc";
  agent_id = "codex";
  idempotency_key = "k";
  expected_thread_id = "th";
  expected_generation = 1;
  reason = "session_idle";
  expected_activity = none;
}

abbrev three_calls : List (StoreCall × ℕ)
three_calls =
    (StoreCall.rotate idle_rotation "r", 6)
    ∷ (StoreCall.reset free_session, 7)
    ∷ (StoreCall.begin lease_a "codex", 8)
    ∷ []

perform_all-generation_example :
    (s' : BridgeSession) × (find?
        (is_session_of "feishu" "oc" "codex")
        (perform_all hash_of "feishu" no_order none_locked three_calls idle).sessions
      ≡ some s')
    × 1 ≤ s'.generation
unfolding find?
perform_all-generation_example =
    perform_all-generation hash_of "feishu" no_order none_locked three_calls idle "feishu" "oc"
      "codex" (a_session 1 (some "th") none 5) refl

perform_all-owner_example :
    (o' : ThreadOwner) × (find?
        (is_owner "feishu" "th")
        (perform_all hash_of "feishu" no_order none_locked three_calls idle).owners
      ≡ some o')
    × OwnerKept
        (record {
          connection_id = "feishu";
          native_thread_id = "th";
          conversation_id = "oc";
          agent_id = "codex";
          resource_retired_at = some 3;
        })
        o'
unfolding find?
perform_all-owner_example =
    perform_all-owner hash_of "feishu" no_order none_locked three_calls idle "feishu" "th" _ refl

abbrev first_write : CursorInput
first_write = record { key = "k"; expected_version = 0; value = null }

abbrev cursor_calls : List CursorCall
cursor_calls = write first_write 5 ∷ write first_write 6 ∷ read "k" ∷ []

run_calls-refines_example :
    run_calls "feishu" cursor_calls [] ≡ replay "feishu" cursor_calls (λ key. none)
run_calls-refines_example = run_calls-refines "feishu" cursor_calls
