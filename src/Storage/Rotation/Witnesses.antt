-- ===== src/Storage/Rotation/Witnesses.antt =====
-- The theorem on rotations at one idle session.
use agent_chat_bridge.Prelude.{String, none, some, [], ◌∷◌, ok, ◌≡◌, refl, find?, one_of, update}
use agent_chat_bridge.Json.{Json}
use agent_chat_bridge.Storage.ForwardJobs.{js_length}
use agent_chat_bridge.Storage.Rotation.{
  RotationTables, RotateInput, rotation_field, insert_rotation, is_expected, retire, rotated,
  rotate_idle_session, rotation_row,
}
use agent_chat_bridge.Storage.Rotation.Laws.{rotate_again}

abbrev digest_of : Json → String
digest_of payload = "h"

abbrev idle_request : RotateInput
idle_request = record {
  connection_id = "feishu";
  conversation_id = "oc";
  agent_id = "codex";
  idempotency_key = "k";
  expected_thread_id = "th";
  expected_generation = 4;
  reason = "session_idle";
  expected_activity = some (some 7);
}

abbrev before : RotationTables
before = record {
  sessions =
      record {
        connection_id = "feishu";
        conversation_id = "oc";
        agent_id = "codex";
        generation = 4;
        native_thread_id = some "th";
        active_run_id = none;
        last_message_at = some 7;
        updated_at = 7;
      }
      ∷ [];
  rotations = [];
}

abbrev after : RotationTables
after = record {
  sessions =
      record {
        connection_id = "feishu";
        conversation_id = "oc";
        agent_id = "codex";
        generation = 5;
        native_thread_id = none;
        active_run_id = none;
        last_message_at = some 7;
        updated_at = 9;
      }
      ∷ [];
  rotations = rotation_row idle_request "h" "a" 9 ∷ [];
}

rotate_again_example :
    rotate_idle_session digest_of idle_request "b" 12 after ≡ ok ((5, "th"), after)
unfolding rotate_idle_session rotation_field js_length insert_rotation find? rotated retire
    is_expected update one_of
rotate_again_example =
    rotate_again digest_of idle_request "a" "b" 9 12 before after (5, "th") refl refl refl
